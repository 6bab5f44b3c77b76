-- ===== src/Ledger.antt =====
-- The point ledger: the rows of `PointEvent`, what the database demands of a new one, and the two
-- statements by which every service moves points. The constraints are those of
-- apps/api/prisma/schema/actions.prisma and of the migrations beside it.
pub mod Sums
pub mod Posting
pub mod Appended
pub mod Statements
use semcomp2026_gameficacao.Prelude.{
  ℕ, ◌≡◌, Bool, true, false, not, ◌&&◌, ◌||◌, Option, none, some, ◌==◌, if◌then◌else◌, ℤ, pos, ◌+ℤ◌,
  leb_ℤ,
}
use semcomp2026_gameficacao.Database.{Prisma}
use semcomp2026_gameficacao.Database.Schema.{
  Key, Date, Text, User, PointEvent, PointEventKind, PointEventSource, RedemptionMethod, direct,
  reusable_code, claim_code, legacy_unknown, credit, debit, action_redeem, admin_grant,
  admin_adjust, reward_redemption,
}
use semcomp2026_gameficacao.Database.Failure.{Result, ok, err, unique_constraint, fault}
use semcomp2026_gameficacao.Database.Tx.{Db, Tx, fits_int4}

-- In a unique index a null equals nothing.
abbrev pub same_id : Option Key → Option Key → Bool
same_id (some a) (some b) = a == b
same_id _ _ = false

abbrev pub is_action_redeem : PointEventSource → Bool
is_action_redeem action_redeem = true
is_action_redeem _ = false

-- The primary key, the unique columns, and `PointEvent_unique_action_redeem_per_user`.
abbrev pub conflicts : PointEvent → PointEvent → Bool
conflicts new old =
    new.id == old.id
    || same_id new.claim_code_id old.claim_code_id
    || same_id new.idempotency_key old.idempotency_key
    || same_id new.reversed_event_id old.reversed_event_id
    || (is_action_redeem new.source
        && is_action_redeem old.source
        && new.user_id == old.user_id
        && same_id new.action_id old.action_id)

-- `PointEvent_credit_points_check`, `PointEvent_debit_points_check`
abbrev pub kind_check : PointEventKind → ℤ → Bool
kind_check credit points = leb_ℤ (pos 0) points
kind_check debit points = leb_ℤ points (pos 0)

abbrev pub is_some {ℓ} : {A : Type ℓ} → Option A → Bool
is_some none = false
is_some (some _) = true

-- `PointEvent_action_redemption_method_check`
abbrev pub method_check : PointEventSource → Option RedemptionMethod → Bool
method_check action_redeem m = is_some m
method_check _ m = not (is_some m)

-- `PointEvent_claim_code_method_check`
abbrev pub claim_code_check : Option RedemptionMethod → Option Key → Bool
claim_code_check (some claim_code) c = is_some c
claim_code_check _ c = not (is_some c)

abbrev pub event_checks : PointEvent → Bool
event_checks e =
    fits_int4 e.points
    && fits_int4 e.xp_delta
    && kind_check e.kind e.points
    && method_check e.source e.redemption_method
    && claim_code_check e.redemption_method e.claim_code_id

abbrev pub credited : ℤ → ℤ → User → User
credited points xp u = record u { points = u.points +ℤ points; xp = u.xp +ℤ xp }

module _ ⦃P : Prisma⦄ where
  abbrev store_event : PointEvent → Option PointEvent → Tx PointEvent
  store_event e none db = ok (e, record db { point_events = P.create e.id e db.point_events })
  store_event e (some old) db = err unique_constraint

  -- `pointEvent.create`, and the translation of P2002 around it.
  unfoldable pub create_point_event : PointEvent → Tx PointEvent
  create_point_event e db =
      if event_checks e
      then store_event e (P.find_first (conflicts e) db.point_events) db
      else err fault

  abbrev store_balance : Key → ℤ → ℤ → Option User → Tx User
  store_balance user_id points xp none db = err fault
  store_balance user_id points xp (some u) db =
      if fits_int4 (u.points +ℤ points) && fits_int4 (u.xp +ℤ xp)
      then ok (
        credited points xp u,
        record db { users = (P.update_many user_id (λ _. true) (credited points xp) db.users).0 },
      )
      else err fault

  -- `user.update({ where: { id }, data: { points: { increment }, xp: { increment } } })`
  unfoldable pub increment_balance : Key → ℤ → ℤ → Tx User
  increment_balance user_id points xp db =
      store_balance user_id points xp (P.find_unique user_id db.users) db
