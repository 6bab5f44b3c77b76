-- ===== src/System/Requests.antt =====
-- The effect of each request.
use semcomp2026_gameficacao.Prelude.{
  ◌≡◌, ==→eq, Bool-cases, inl, inr, none, some, Option, arith, refl, sym,
}
use semcomp2026_gameficacao.Text.{Text}
use semcomp2026_gameficacao.EventCode.{normalize_event_code, is_claim_code}
use semcomp2026_gameficacao.Database.{Prisma}
use semcomp2026_gameficacao.Database.Schema.{
  Key, Fresh, Action, RedemptionMethod, ClaimCode, claim_code, reusable_code, direct, delivered,
  cancelled,
}
use semcomp2026_gameficacao.Database.Failure.{
  Result, translate_conflict, action_already_redeemed, question_already_granted,
}
use semcomp2026_gameficacao.Database.Tx.{Db, with_transaction}
use semcomp2026_gameficacao.Audit.Contract.{OperationContext}
use semcomp2026_gameficacao.Ledger.Posting.{Posting}
use semcomp2026_gameficacao.Actions.Redeem.{
  Redemption, redeem_action_tx, redeem_claim_code_tx, redeem_action, redeem, redeem_claim_code,
  redeem_found, redeem_normalized, redeem_by_code,
}
use semcomp2026_gameficacao.Actions.Repository.{find_action_id_by_code}
use semcomp2026_gameficacao.Actions.Redeemed.{
  ClaimRedeemed, redeem_action_tx-ok, redeem_claim_code_tx-ok,
}
use semcomp2026_gameficacao.Actions.Question.{grant_question_tx, grant_question_action}
use semcomp2026_gameficacao.Actions.QuestionGranted.{grant_question_tx-ok}
use semcomp2026_gameficacao.Rewards.Service
use semcomp2026_gameficacao.Rewards.Service.{
  redeem_tx, deliver_redemption_tx, cancel_redemption_tx, deliver_redemption, cancel_redemption,
}
use semcomp2026_gameficacao.Rewards.Purchase.{redeem_tx-ok}
use semcomp2026_gameficacao.Rewards.Reversal.{deliver_redemption_tx-ok, cancel_redemption_tx-ok}
use semcomp2026_gameficacao.Adjustments.Replay.{AdjustmentDto, ReversalDto}
use semcomp2026_gameficacao.Adjustments.Service.{
  adjust, reverse, adjust_tx, reverse_tx, trimmed, trimmed_reversal,
}
use semcomp2026_gameficacao.Adjustments.Settled.{adjust_tx-ok, reverse_tx-ok}
use semcomp2026_gameficacao.Reconciliation.Replay.{ConfirmDto}
use semcomp2026_gameficacao.Reconciliation.Service.{confirm, confirm_tx, trimmed_confirm}
use semcomp2026_gameficacao.Reconciliation.Settled.{confirm_tx-ok}
use semcomp2026_gameficacao.Reconciliation.Confirmed.{Confirmed-IsReconciled}
use semcomp2026_gameficacao.ClaimCodes.Status.{update_status}
use semcomp2026_gameficacao.ClaimCodes.Bulk.{bulk_update_status}
use semcomp2026_gameficacao.ClaimCodes.Generate.{generate_batch}
use semcomp2026_gameficacao.System.{
  Request, redeem_directly, redeem_code, grant_question, redeem_reward, deliver, cancel,
  adjust_balance, reverse_adjustment, confirm_reconciliation, switch_code, switch_codes,
  generate_codes, Reply, reply, serve,
}
use semcomp2026_gameficacao.System.CodeRequests.{
  update_status-Served, bulk_update_status-Served, generate_batch-Served,
}
use semcomp2026_gameficacao.System.Effect.{
  Effect, quiet, posts, compensates, recover_confirm-1, Served, Moves-same, UsedStay-same,
  Served-refl, with_transaction-Served, rethrow-1, recover-1,
}
use semcomp2026_gameficacao.System.Effects.{
  Opened-Moves, Transitioned-Moves, Granted-Effect, QuestionGranted-Effect, Purchased-Effect,
  Cancelled-Effect, Posted-Served,
}

module _ ⦃P : Prisma⦄ where
  redeem_action-Served :
      (action_id user_id : Key) (method : RedemptionMethod) (fresh : Fresh) (db : Db)
      → Served db (redeem_action action_id user_id method fresh db).1
  unfolding redeem_action
  redeem_action-Served action_id user_id method fresh db =
      let m = redeem_action_tx action_id user_id method fresh in
      rw (rethrow-1 (translate_conflict action_already_redeemed) (with_transaction m db)) (
        with_transaction-Served m db λ r db' h.
          let g = redeem_action_tx-ok action_id user_id method fresh db r db' h in
          record {
            effect = Granted-Effect user_id method none fresh g.action db r db' g.granted;
            moves = Moves-same db db' (ground (arith, g.granted.frame));
            codes = UsedStay-same db db' (ground (arith, g.granted.frame));
          })

  -- The claim codes have no part in an effect.
  Effect-claim_codes :
      (codes : P.Table ClaimCode) (db db' : Db)
      → Effect (record db { claim_codes = codes }) db'
      → Effect db db'
  Effect-claim_codes codes db db' (quiet users events) = quiet users events
  Effect-claim_codes codes db db' (posts e p unique covered) =
      let posting : Posting e db db' = record {
        user = p.user;
        found = p.found;
        users = p.users;
        events = p.events;
      } in
      posts e posting unique λ s. covered (record { points = s.points; xp = s.xp })
  Effect-claim_codes codes db db' (compensates users a kept) =
      compensates users a λ s. kept (record { points = s.points; xp = s.xp })

  ClaimRedeemed-Served :
      (code : Text) (user_id : Key) (fresh : Fresh) (db : Db) (r : Redemption) (db' : Db)
      → ClaimRedeemed code user_id fresh db r db'
      → Served db db'
  ClaimRedeemed-Served code user_id fresh db r db' g =
      let codes = g.middle.claim_codes in
      let before : g.middle ≡ record db { claim_codes = codes } = g.consumed.frame in
      let effect =
        Granted-Effect user_id claim_code (some g.claim.id) fresh g.action g.middle r db'
          g.granted in
      record {
        effect = Effect-claim_codes codes db db' (rw (sym before) effect);
        moves = Moves-same db db' (ground (arith, g.granted.frame, before));
        codes = λ j c found is_used. ground (
          arith,
          g.granted.frame,
          g.consumed.codes j,
          g.consumed.found,
          g.consumed.unused,
          found,
          is_used,
          ==→eq g.claim.id j,
        );
      }

  redeem_claim_code-Served :
      (code : Text) (user_id : Key) (fresh : Fresh) (db : Db)
      → Served db (redeem_claim_code code user_id fresh db).1
  unfolding redeem_claim_code
  redeem_claim_code-Served code user_id fresh db =
      let m = redeem_claim_code_tx code user_id fresh in
      rw (rethrow-1 (translate_conflict action_already_redeemed) (with_transaction m db)) (
        with_transaction-Served m db λ r db' h.
          ClaimRedeemed-Served code user_id fresh db r db'
            (redeem_claim_code_tx-ok code user_id fresh db r db' h))

  redeem_found-Served :
      (found : Option Action) (user_id : Key) (fresh : Fresh) (db : Db)
      → Served db (redeem_found found user_id fresh db).1
  redeem_found-Served none user_id fresh db = Served-refl db
  redeem_found-Served (some action) user_id fresh db =
      redeem_action-Served action.id user_id reusable_code fresh db

  redeem_by_code-Served :
      (code : Text) (user_id : Key) (fresh : Fresh) (db : Db)
      → Served db (redeem_by_code code user_id fresh db).1
  unfolding redeem_by_code
  redeem_by_code-Served code user_id fresh db = of (normalize_event_code (some code))
    where
      of : (normalized : Option Text) → Served db (redeem_normalized normalized user_id fresh db).1
      of none = Served-refl db
      of (some normalized) = elim (Bool-cases (is_claim_code (some normalized))) [
        | inl claims ↦ rw claims (redeem_claim_code-Served normalized user_id fresh db)
        | inr reuses ↦
            rw reuses (redeem_found-Served (find_action_id_by_code normalized db) user_id fresh db)
      ]

  grant_question-Served :
      (action_id participant_id : Key) (context : OperationContext) (fresh : Fresh) (db : Db)
      → Served db (grant_question_action action_id participant_id context fresh db).1
  unfolding grant_question_action
  grant_question-Served action_id participant_id context fresh db =
      let m = grant_question_tx action_id participant_id context fresh in
      rw (rethrow-1 (translate_conflict question_already_granted) (with_transaction m db)) (
        with_transaction-Served m db λ r db' h.
          let g = grant_question_tx-ok action_id participant_id context fresh db r db' h in
          record {
            effect = QuestionGranted-Effect participant_id context fresh db db' g;
            moves = Moves-same db db' g.redemptions;
            codes = UsedStay-same db db' g.claim_codes;
          })

  redeem_reward-Served :
      (reward_id user_id : Key) (fresh : Fresh) (db : Db)
      → Served db (Service.redeem reward_id user_id fresh db).1
  unfolding Service.redeem
  redeem_reward-Served reward_id user_id fresh db =
      with_transaction-Served (redeem_tx reward_id user_id fresh) db λ r db' h.
        let g = redeem_tx-ok reward_id user_id fresh db r db' h in
        record {
          effect = Purchased-Effect reward_id user_id fresh db r db' g;
          moves =
              Opened-Moves fresh.entity_id user_id g.reward.id g.reward.cost_in_points db r _
                g.opened;
          codes = UsedStay-same db db' g.claim_codes;
        }

  deliver-Served :
      (id : Key) (reason : Text) (context : OperationContext) (fresh : Fresh) (db : Db)
      → Served db (deliver_redemption id reason context fresh db).1
  unfolding deliver_redemption
  deliver-Served id reason context fresh db =
      with_transaction-Served (deliver_redemption_tx id reason context fresh) db λ r db' h.
        let g = deliver_redemption_tx-ok id reason context fresh db r db' h in
        record {
          effect = quiet (ground (arith, g.frame)) (ground (arith, g.frame));
          moves = Transitioned-Moves id delivered _ _ db _ refl g.moved;
          codes = UsedStay-same db db' (ground (arith, g.frame));
        }

  cancel-Served :
      (id : Key) (reason : Text) (context : OperationContext) (fresh : Fresh) (db : Db)
      → Served db (cancel_redemption id reason context fresh db).1
  unfolding cancel_redemption
  cancel-Served id reason context fresh db =
      with_transaction-Served (cancel_redemption_tx id reason context fresh) db λ r db' h.
        let g = cancel_redemption_tx-ok id reason context fresh db r db' h in
        record {
          effect = Cancelled-Effect id context fresh db r db' g;
          moves = Transitioned-Moves id cancelled _ _ db _ refl g.moved;
          codes = UsedStay-same db db' g.claim_codes;
        }

  adjust-Served :
      (id : Key) (dto : AdjustmentDto) (context : OperationContext) (fresh : Fresh) (db : Db)
      → Served db (adjust id dto context fresh db).1
  unfolding adjust
  adjust-Served id dto context fresh db =
      let m = adjust_tx id (trimmed dto) context fresh in
      rw (recover-1 _ (with_transaction m db)) (
        with_transaction-Served m db λ r db' h.
          elim (adjust_tx-ok id (trimmed dto) context fresh db r db' h) [
            | inl answered ↦ rw answered.frame (Served-refl db)
            | inr adjusted ↦ Posted-Served _ _ db r db' adjusted.posted
          ])

  reverse-Served :
      (id : Key) (dto : ReversalDto) (context : OperationContext) (fresh : Fresh) (db : Db)
      → Served db (reverse id dto context fresh db).1
  unfolding reverse
  reverse-Served id dto context fresh db =
      let m = reverse_tx id (trimmed_reversal dto) context fresh in
      rw (recover-1 _ (with_transaction m db)) (
        with_transaction-Served m db λ r db' h.
          elim (reverse_tx-ok id (trimmed_reversal dto) context fresh db r db' h) [
            | inl answered ↦ rw answered.frame (Served-refl db)
            | inr reversed ↦ Posted-Served _ _ db r db' reversed.posted
          ])

  reply-1 : {A : Type 0} (f : A → Reply) (x : Result A × Db) → (reply f x).1 ≡ x.1
  reply-1 f x = ground arith

  confirm-Served :
      (id : Key) (dto : ConfirmDto) (context : OperationContext) (fresh : Fresh) (db : Db)
      → Served db (confirm id dto context fresh db).1
  unfolding confirm
  confirm-Served id dto context fresh db =
      let input = trimmed_confirm dto in
      let m = confirm_tx id input context fresh in
      rw (recover_confirm-1 _ (with_transaction m db)) (
        with_transaction-Served m db λ r db' h.
          elim (confirm_tx-ok id input context fresh db r db' h) [
            | inl answered ↦ rw answered.frame (Served-refl db)
            | inr c ↦ record {
              effect =
                  compensates (ground (arith, c.frame)) c.appended
                    (Confirmed-IsReconciled id input context fresh db r db' c);
              moves = Moves-same db db' (ground (arith, c.frame));
              codes = UsedStay-same db db' (ground (arith, c.frame));
            }
          ])

  pub serve-Served : (request : Request) (db : Db) → Served db (serve request db).1
  unfolding serve redeem
  serve-Served (redeem_directly action_id user_id fresh) db =
      rw (reply-1 _ (redeem action_id user_id fresh db))
        (redeem_action-Served action_id user_id direct fresh db)
  serve-Served (redeem_code code user_id fresh) db =
      rw (reply-1 _ (redeem_by_code code user_id fresh db))
        (redeem_by_code-Served code user_id fresh db)
  serve-Served (grant_question action_id participant_id context fresh) db =
      rw (reply-1 _ (grant_question_action action_id participant_id context fresh db))
        (grant_question-Served action_id participant_id context fresh db)
  serve-Served (redeem_reward reward_id user_id fresh) db =
      rw (reply-1 _ (Service.redeem reward_id user_id fresh db))
        (redeem_reward-Served reward_id user_id fresh db)
  serve-Served (deliver id reason context fresh) db =
      rw (reply-1 _ (deliver_redemption id reason context fresh db))
        (deliver-Served id reason context fresh db)
  serve-Served (cancel id reason context fresh) db =
      rw (reply-1 _ (cancel_redemption id reason context fresh db))
        (cancel-Served id reason context fresh db)
  serve-Served (adjust_balance id dto context fresh) db =
      rw (reply-1 _ (adjust id dto context fresh db)) (adjust-Served id dto context fresh db)
  serve-Served (reverse_adjustment id dto context fresh) db =
      rw (reply-1 _ (reverse id dto context fresh db)) (reverse-Served id dto context fresh db)
  serve-Served (confirm_reconciliation id dto context fresh) db =
      rw (reply-1 _ (confirm id dto context fresh db)) (confirm-Served id dto context fresh db)
  serve-Served (switch_code id dto context fresh) db =
      rw (reply-1 _ (update_status id dto context fresh db))
        (update_status-Served id dto context fresh db)
  serve-Served (switch_codes dto context fresh) db =
      rw (reply-1 _ (bulk_update_status dto context fresh db))
        (bulk_update_status-Served dto context fresh db)
  serve-Served (generate_codes draw cuid action_id dto context fresh) db =
      rw (reply-1 _ (generate_batch draw cuid action_id dto context fresh db))
        (generate_batch-Served draw cuid action_id dto context fresh db)
