-- ===== src/Ranking.antt =====
-- RankingService and RankingRepository of apps/api/src/ranking: the participants by their XP, all
-- time or of one day, with the position of the one who asks. Ids are numbers in the order in which
-- the database and `localeCompare` sort them. `Number` and the window of a day, which the runtime's
-- time zones give, are parameters.
pub mod Order
pub mod Sorted
pub mod Position
pub mod Me
mod Tests
use semcomp2026_gameficacao.Prelude.{
  ℕ, zero, suc, ◌+◌, ◌≡◌, Bool, true, false, not, ◌&&◌, ◌||◌, Option, none, some, List, [], ◌∷◌,
  map, length, filter, take, ltb, leb, ◌==◌, if◌then◌else◌, ℤ, pos, ◌+ℤ◌, ◌-ℤ◌, ltb_ℤ, leb_ℤ, eqb_ℤ,
  negsuc,
}
use semcomp2026_gameficacao.Text.{Text, text, text_eq}
use semcomp2026_gameficacao.Database.{Prisma}
use semcomp2026_gameficacao.Database.Schema.{Key, Date, User, PointEvent, credit, PointEventKind}
use semcomp2026_gameficacao.Database.Failure.{Result, ok, err, bad_request, bad_limit, bad_period}
use semcomp2026_gameficacao.Database.Tx.{Db}
use semcomp2026_gameficacao.Ledger.{is_action_redeem}
use semcomp2026_gameficacao.Actions.Repository.{is_participant}

pub record RankingUser : Type 0 where
  pub id : Key
  pub name : Text
  pub xp : ℤ
  pub created_at : Date

pub record RankingEntry : Type 0 where
  pub position : ℕ
  pub name : Text
  pub xp : ℤ

pub record Ranking : Type 0 where
  pub ranking : List RankingEntry
  pub me : Option RankingEntry

abbrev pub to_ranking_entry : RankingUser → ℕ → RankingEntry
to_ranking_entry u position = record { position = position; name = u.name; xp = u.xp }

-- `map((user, index) => toRankingEntry(user, index + 1))`, from a first position on.
pub entries_from : ℕ → List RankingUser → List RankingEntry
entries_from n [] = []
entries_from n (u ∷ us) = to_ranking_entry u n ∷ entries_from (n + 1) us

-- `rankingUserSelect`
abbrev pub ranking_user : User → RankingUser
ranking_user u = record { id = u.id; name = u.name; xp = u.xp; created_at = u.created_at }

-- `eligibilityWhere`
abbrev pub is_eligible : User → Bool
is_eligible u = is_participant u.role && u.is_active

-- `rankingOrder`: XP descending, then the date and the id ascending.
abbrev pub ranking_order : RankingUser → RankingUser → Bool
ranking_order a b =
    if not (eqb_ℤ a.xp b.xp)
    then ltb_ℤ b.xp a.xp
    else if not (a.created_at == b.created_at)
    then ltb a.created_at b.created_at
    else ltb a.id b.id

-- The `OR` of `countUsersAhead`.
abbrev pub is_ahead : RankingUser → RankingUser → Bool
is_ahead a b =
    ltb_ℤ b.xp a.xp
    || (eqb_ℤ a.xp b.xp && ltb a.created_at b.created_at)
    || (eqb_ℤ a.xp b.xp && a.created_at == b.created_at && ltb a.id b.id)

-- `localeCompare`: its sign.
abbrev pub compare_ids : Key → Key → ℤ
compare_ids a b = if ltb a b then negsuc 0 else if a == b then pos 0 else pos 1

abbrev or_compare : ℤ → ℤ → ℤ
or_compare a b = if eqb_ℤ a (pos 0) then b else a

-- `compareRankingUsers`
unfoldable pub compare_ranking_users : RankingUser → RankingUser → ℤ
compare_ranking_users left right =
    if not (eqb_ℤ left.xp right.xp)
    then right.xp -ℤ left.xp
    else or_compare (pos left.created_at -ℤ pos right.created_at) (compare_ids left.id right.id)

-- `ORDER BY` and `sort`: the list in the order of a test `before`.
pub insert : (RankingUser → RankingUser → Bool) → RankingUser → List RankingUser → List RankingUser
insert before u [] = u ∷ []
insert before u (v ∷ vs) = if before u v then u ∷ v ∷ vs else v ∷ insert before u vs

pub order_by : (RankingUser → RankingUser → Bool) → List RankingUser → List RankingUser
unfolding insert
order_by before [] = []
order_by before (u ∷ us) = insert before u (order_by before us)

-- `findIndex((user) => user.id === id)`
pub find_index : Key → List RankingUser → Option ℕ
find_index id [] = none
find_index id (u ∷ us) =
    if u.id == id then some 0 else elim (find_index id us) [ none ↦ none | some i ↦ some (i + 1) ]

abbrev pub has_xp : RankingUser → Bool
has_xp u = ltb_ℤ (pos 0) u.xp

-- An event that `findActionCreditTotals` sums.
abbrev pub is_credit : PointEventKind → Bool
is_credit credit = true
is_credit _ = false

abbrev pub in_window : Date → Date → PointEvent → Bool
in_window start end e =
    is_credit e.kind && is_action_redeem e.source && leb start e.created_at && ltb e.created_at end

-- The `_sum` of a user's group, or 0 for a user with no group.
pub action_credit_total : Key → Date → Date → List PointEvent → ℤ
action_credit_total user_id start end [] = pos 0
action_credit_total user_id start end (e ∷ es) =
    if e.user_id == user_id && in_window start end e
    then e.xp_delta +ℤ action_credit_total user_id start end es
    else action_credit_total user_id start end es

abbrev pub with_period_xp : Date → Date → List PointEvent → RankingUser → RankingUser
with_period_xp start end events u = record u { xp = action_credit_total u.id start end events }

abbrev pub sorts_before : RankingUser → RankingUser → Bool
sorts_before a b = leb_ℤ (compare_ranking_users a b) (pos 0)

-- `rankedUsers[currentUserIndex]` with its position.
pub entry_at : Key → ℕ → List RankingUser → Option RankingEntry
entry_at id position [] = none
entry_at id position (u ∷ us) =
    if u.id == id then some (to_ranking_entry u position) else entry_at id (position + 1) us

module _ ⦃P : Prisma⦄ where
  -- `findEligibleUsers`
  abbrev pub find_eligible_users : Db → List RankingUser
  find_eligible_users db = map ranking_user (filter is_eligible (P.find_many db.users))

  -- `findTopGeneralRanking`
  unfoldable pub find_top_general_ranking : ℕ → Db → List RankingUser
  find_top_general_ranking limit db =
      take limit (order_by ranking_order (filter has_xp (find_eligible_users db)))

  abbrev pub select_eligible : Option User → Option RankingUser
  select_eligible none = none
  select_eligible (some u) = some (ranking_user u)

  -- `findEligibleUser`
  unfoldable pub find_eligible_user : Key → Db → Option RankingUser
  find_eligible_user id db =
      select_eligible (P.find_first (λ u. u.id == id && is_eligible u) db.users)

  -- `countUsersAhead`
  unfoldable pub count_users_ahead : RankingUser → Db → ℕ
  count_users_ahead user db = length (filter (λ v. is_ahead v user) (find_eligible_users db))

  -- The position of a user that the top may show.
  abbrev pub position_of : Option ℕ → RankingUser → Db → ℕ
  position_of (some index) user db = index + 1
  position_of none user db = count_users_ahead user db + 1

  abbrev pub general_me : List RankingUser → Option RankingUser → Db → Option RankingEntry
  general_me top none db = none
  general_me top (some user) db =
      some (to_ranking_entry user (position_of (find_index user.id top) user db))

  unfoldable pub general_ranking : Key → ℕ → Db → Ranking
  unfolding entries_from
  general_ranking user_id limit db =
      let top = find_top_general_ranking limit db in
      record {
        ranking = entries_from 1 top;
        me = general_me top (find_eligible_user user_id db) db;
      }

  -- `rankedUsers`
  unfoldable pub ranked_users : Date → Date → Db → List RankingUser
  ranked_users start end db =
      order_by sorts_before
        (map (with_period_xp start end (P.find_many db.point_events)) (find_eligible_users db))

  -- `getPeriodRanking`, after its limit was parsed and with the window of its day.
  unfoldable pub period_ranking : Key → ℕ → Date → Date → Db → Ranking
  unfolding entries_from entry_at
  period_ranking user_id limit start end db =
      let ranked = ranked_users start end db in
      record {
        ranking = entries_from 1 (take limit (filter has_xp ranked));
        me = entry_at user_id 1 ranked;
      }

abbrev default_limit : ℕ
default_limit = 10

abbrev max_limit : ℕ
max_limit = 50

abbrev accept_limit : Option ℤ → Result ℕ
accept_limit (some (pos limit)) =
    if ltb limit 1 || ltb max_limit limit then err (bad_request bad_limit) else ok limit
accept_limit _ = err (bad_request bad_limit)

-- `parseLimit`; `number` is `Number`, with `none` for a value that is no integer.
unfoldable pub parse_limit : (number : Text → Option ℤ) → Option Text → Result ℕ
parse_limit number none = ok default_limit
parse_limit number (some []) = ok default_limit
parse_limit number (some query) = accept_limit (number query)

pub data Period : Type 0 where
  all daily : Period

-- `parsePeriod`
unfoldable pub parse_period : Option Text → Result Period
parse_period none = ok all
parse_period (some []) = ok all
parse_period (some query) =
    if text_eq query (text "all")
    then ok all
    else if text_eq query (text "daily")
    then ok daily
    else err (bad_request bad_period)

module _ ⦃P : Prisma⦄ where
  abbrev ranking_of : Result Period → Result ℕ → Key → Date → Date → Db → Result Ranking
  ranking_of (err e) limit user_id start end db = err e
  ranking_of (ok period) (err e) user_id start end db = err e
  ranking_of (ok all) (ok limit) user_id start end db = ok (general_ranking user_id limit db)
  ranking_of (ok daily) (ok limit) user_id start end db =
      ok (period_ranking user_id limit start end db)

  -- `getRanking`; `start` and `end` are the window of the day.
  unfoldable pub get_ranking :
      (number : Text → Option ℤ)
      → Key
      → (limit period : Option Text) → (start end : Date) → Db
      → Result Ranking
  unfolding parse_period parse_limit general_ranking period_ranking
  get_ranking number user_id limit period start end db =
      ranking_of (parse_period period) (parse_limit number limit) user_id start end db
