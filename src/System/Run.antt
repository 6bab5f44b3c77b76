-- ===== src/System/Run.antt =====
-- The ledger, the balances and the redemptions over a run of requests.
use semcomp2026_gameficacao.Prelude.{
  ◌≡◌, true, refl, sym, ap, ◌∙◌, ==→eq, none, some, Option, arith, List, [], ◌∷◌, ◌++◌, find?, ◌&&◌,
  ◌==◌, ◌≤◌, ℕ, ◌+◌, if◌then◌else◌, Bool,
}
use mathlib.Core.List.{append_assoc}
use semcomp2026_gameficacao.Database.{Prisma}
use semcomp2026_gameficacao.Database.Schema.{Key, RedemptionStatus, PointEvent, RewardRedemption}
use semcomp2026_gameficacao.Database.Tx.{Db}
use semcomp2026_gameficacao.Ledger.{conflicts, same_id, is_action_redeem}
use semcomp2026_gameficacao.Ledger.Appended.{
  IsDistinct, no_events, one_more, Appended-IsDistinct, Appended-append,
}
use semcomp2026_gameficacao.Ledger.Sums.{IsReconciled, IsSolvent}
use semcomp2026_gameficacao.Ledger.Posting.{Posting-IsReconciled, Posting-IsSolvent}
use semcomp2026_gameficacao.System.{Request, serve, run}
use semcomp2026_gameficacao.System.Effect.{
  Effect, quiet, posts, compensates, Moved, Moves, Reaches, stays, is_delivered, is_cancelled,
}
use semcomp2026_gameficacao.System.Requests.{serve-Served}

abbrev occurrences : (PointEvent → Bool) → List PointEvent → ℕ
occurrences test [] = 0
occurrences test (e ∷ es) = (if test e then 1 else 0) + occurrences test es

-- The events that pay one participant for one activity.
abbrev pub payments : (user_id action_id : Key) → List PointEvent → ℕ
payments user_id action_id =
    occurrences
      λ e. is_action_redeem e.source && e.user_id == user_id && same_id e.action_id (some action_id)

module _ (test : PointEvent → Bool)
    (clash : (e x : PointEvent) → test e ≡ true → test x ≡ true → conflicts e x ≡ true) where
  none_before :
      (e : PointEvent) (es : List PointEvent)
      → test e ≡ true
      → find? (conflicts e) es ≡ none
      → occurrences test es ≡ 0
  none_before e [] found h = refl
  none_before e (x ∷ es) found h = ground (arith, none_before e es found, clash e x found)

  at_most_once : (es : List PointEvent) → IsDistinct es → occurrences test es ≤ 1
  at_most_once [] no_events = ground arith
  at_most_once (e ∷ es) (one_more alone h) =
      let rest = at_most_once es h in ground (arith, rest, none_before e es)

same_id_trans :
    (a b : Option Key) (i : Key)
    → same_id a (some i) ≡ true
    → same_id b (some i) ≡ true
    → same_id a b ≡ true
same_id_trans a b i h k = ground (arith)

Reaches-trans : {r s t : RedemptionStatus} → Reaches r s → Reaches s t → Reaches r t
Reaches-trans stays b = b
Reaches-trans is_delivered stays = is_delivered
Reaches-trans is_cancelled stays = is_cancelled

module _ ⦃P : Prisma⦄ where
  Effect-IsReconciled : (db db' : Db) → Effect db db' → IsReconciled db → IsReconciled db'
  Effect-IsReconciled db db' (quiet users events) h = record {
    points = λ j u at_j. rw events (h.points j u (rw (sym users) at_j));
    xp = λ j u at_j. rw events (h.xp j u (rw (sym users) at_j));
  }
  Effect-IsReconciled db db' (posts e p unique covered) h = Posting-IsReconciled e db db' p h
  Effect-IsReconciled db db' (compensates users a kept) h = kept h

  Effect-IsSolvent : (db db' : Db) → Effect db db' → IsSolvent db → IsSolvent db'
  Effect-IsSolvent db db' (quiet users events) h = record {
    points = λ j u at_j. h.points j u (rw (sym users) at_j);
    xp = λ j u at_j. h.xp j u (rw (sym users) at_j);
  }
  Effect-IsSolvent db db' (posts e p unique covered) h =
      Posting-IsSolvent e db db' p (covered h).0 (covered h).1 h
  Effect-IsSolvent db db' (compensates users a kept) h = record {
    points = λ j u at_j. h.points j u (rw (sym users) at_j);
    xp = λ j u at_j. h.xp j u (rw (sym users) at_j);
  }

  Effect-IsDistinct :
      (db db' : Db)
      → Effect db db'
      → IsDistinct (P.find_many db.point_events)
      → IsDistinct (P.find_many db'.point_events)
  Effect-IsDistinct db db' (quiet users events) h = rw events h
  Effect-IsDistinct db db' (posts e p unique covered) h =
      rw p.events
        (one_more (rw (sym (P.find_first-eq_find? (conflicts e) db.point_events)) unique) h)
  Effect-IsDistinct db db' (compensates users a kept) h = Appended-IsDistinct a h

  -- If every stored balance was the sum of its participant's events before, it is after any requests.
  pub run-IsReconciled :
      (requests : List Request) (db : Db) → IsReconciled db → IsReconciled (run requests db)
  unfolding run
  run-IsReconciled [] db h = h
  run-IsReconciled (request ∷ requests) db h =
      let next = (serve request db).1 in
      let served = serve-Served request db in
      run-IsReconciled requests next (Effect-IsReconciled db next served.effect h)

  -- After any requests, no participant's points or XP are negative if none were before.
  pub run-IsSolvent :
      (requests : List Request) (db : Db) → IsSolvent db → IsSolvent (run requests db)
  unfolding run
  run-IsSolvent [] db h = h
  run-IsSolvent (request ∷ requests) db h =
      let next = (serve request db).1 in
      let served = serve-Served request db in
      run-IsSolvent requests next (Effect-IsSolvent db next served.effect h)

  run-IsDistinct :
      (requests : List Request) (db : Db)
      → IsDistinct (P.find_many db.point_events)
      → IsDistinct (P.find_many (run requests db).point_events)
  unfolding run
  run-IsDistinct [] db h = h
  run-IsDistinct (request ∷ requests) db h =
      let next = (serve request db).1 in
      let served = serve-Served request db in
      run-IsDistinct requests next (Effect-IsDistinct db next served.effect h)

  Moved-trans : (r s t : RewardRedemption) → Moved r s → Moved s t → Moved r t
  Moved-trans r s t a b = record {
    status = Reaches-trans a.status b.status;
    user = ground (arith, a.user, b.user);
    reward = ground (arith, a.reward, b.reward);
    points_spent = ground (arith, a.points_spent, b.points_spent);
  }

  -- Whatever is requested, no redemption disappears or changes its owner, reward or price, and its
  -- status stays, or goes from PENDING to DELIVERED or to CANCELLED.
  pub run-Moves : (requests : List Request) (db : Db) → Moves db (run requests db)
  unfolding run
  run-Moves [] db j r found =
      (r, found, record { status = stays; user = refl; reward = refl; points_spent = refl })
  run-Moves (request ∷ requests) db j r found =
      let next = (serve request db).1 in
      let (s, at_s, first) = (serve-Served request db).moves j r found in
      let (t, at_t, then_) = run-Moves requests next j s at_s in
      (t, at_t, Moved-trans r s t first then_)

  Effect-appends :
      (db db' : Db)
      → Effect db db'
      → (new : List PointEvent) × (P.find_many db'.point_events
          ≡ new ++ P.find_many db.point_events)
  Effect-appends db db' (quiet users events) = ([], rw events refl)
  Effect-appends db db' (posts e p unique covered) = (e ∷ [], p.events)
  Effect-appends db db' (compensates users a kept) = Appended-append a

  -- The ledger only grows: after any requests the events from before are still there, unchanged.
  pub run-appends :
      (requests : List Request) (db : Db)
      → (new : List PointEvent) × (P.find_many (run requests db).point_events
          ≡ new ++ P.find_many db.point_events)
  unfolding run
  run-appends [] db = ([], refl)
  run-appends (request ∷ requests) db =
      let next = (serve request db).1 in
      let (first, at_first) = Effect-appends db next (serve-Served request db).effect in
      let (rest, at_rest) = run-appends requests next in
      (
        rest ++ first,
        at_rest
            ∙ ap (λ es. rest ++ es) at_first
            ∙ sym (append_assoc rest first (P.find_many db.point_events)),
      )

  -- From a ledger in which no event conflicts with an older one, after any requests a participant has
  -- at most one event that pays one activity.
  pub run-payments :
      (requests : List Request) (db : Db) (user_id action_id : Key)
      → IsDistinct (P.find_many db.point_events)
      → payments user_id action_id (P.find_many (run requests db).point_events) ≤ 1
  run-payments requests db user_id action_id h =
      at_most_once _
        (λ e x at_e at_x. ground (
          arith,
          same_id_trans e.action_id x.action_id action_id,
          ==→eq e.user_id user_id,
          ==→eq x.user_id user_id,
        ))
        _ (run-IsDistinct requests db h)
