-- ===== src/System.antt =====
-- The requests of the modelled services that change the database, of every controller, and a run of them one after another.
pub mod Effect
pub mod Effects
pub mod CodeRequests
pub mod Requests
pub mod Run
pub mod UsedCodes
mod Tests
use semcomp2026_gameficacao.Prelude.{ℕ, List, [], ◌∷◌}
use semcomp2026_gameficacao.Text.{Text}
use semcomp2026_gameficacao.Database.{Prisma}
use semcomp2026_gameficacao.Database.Schema.{Key, Fresh, RewardRedemption, ClaimCodeBulkOperation}
use semcomp2026_gameficacao.Database.Failure.{Result, ok, err}
use semcomp2026_gameficacao.Database.Tx.{Db}
use semcomp2026_gameficacao.Audit.Contract.{OperationContext}
use semcomp2026_gameficacao.Actions.Redeem.{Redemption, redeem, redeem_by_code}
use semcomp2026_gameficacao.Actions.Question.{QuestionGrant, grant_question_action}
use semcomp2026_gameficacao.Rewards.Service
use semcomp2026_gameficacao.Rewards.Service.{deliver_redemption, cancel_redemption}
use semcomp2026_gameficacao.Adjustments.Replay.{AdjustmentDto, ReversalDto, Adjustment}
use semcomp2026_gameficacao.Adjustments.Service.{adjust, reverse}
use semcomp2026_gameficacao.ClaimCodes.Status.{UpdateStatusDto, History, update_status}
use semcomp2026_gameficacao.ClaimCodes.Bulk.{BulkStatusDto, bulk_update_status}
use semcomp2026_gameficacao.ClaimCodes.Generate.{GenerateDto, Generated, generate_batch}
use semcomp2026_gameficacao.Reconciliation.Replay.{ConfirmDto, Confirmation}
use semcomp2026_gameficacao.Reconciliation.Service.{confirm}

pub data Request : Type 0 where
  redeem_directly : (action_id user_id : Key) → Fresh → Request
  redeem_code : Text → (user_id : Key) → Fresh → Request
  grant_question : (action_id participant_id : Key) → OperationContext → Fresh → Request
  redeem_reward : (reward_id user_id : Key) → Fresh → Request
  deliver : (redemption_id : Key) → Text → OperationContext → Fresh → Request
  cancel : (redemption_id : Key) → Text → OperationContext → Fresh → Request
  adjust_balance : (participant_id : Key) → AdjustmentDto → OperationContext → Fresh → Request
  reverse_adjustment : (point_event_id : Key) → ReversalDto → OperationContext → Fresh → Request
  confirm_reconciliation : (participant_id : Key) → ConfirmDto → OperationContext → Fresh → Request
  switch_code : (claim_code_id : Key) → UpdateStatusDto → OperationContext → Fresh → Request
  switch_codes : BulkStatusDto → OperationContext → Fresh → Request
  -- With the codes and the ids that the runtime will draw.
  generate_codes :
      (draw : ℕ → Text) (cuid : ℕ → Key) (action_id : Key)
      → GenerateDto
      → OperationContext
      → Fresh
      → Request

pub data Reply : Type 0 where
  redeemed : Redemption → Reply
  question_granted : QuestionGrant → Reply
  redemption : RewardRedemption → Reply
  adjustment : Adjustment → Reply
  confirmation : Confirmation → Reply
  code_history : History → Reply
  bulk_operation : ClaimCodeBulkOperation → Reply
  generated_codes : Generated → Reply

abbrev pub reply : ⦃P : Prisma⦄ {A : Type 0} → (A → Reply) → Result A × Db → Result Reply × Db
reply f (ok a, db) = (ok (f a), db)
reply f (err e, db) = (err e, db)

module _ ⦃P : Prisma⦄ where
  unfoldable pub serve : Request → Db → Result Reply × Db
  serve (redeem_directly action_id user_id fresh) db =
      reply redeemed (redeem action_id user_id fresh db)
  serve (redeem_code code user_id fresh) db = reply redeemed (redeem_by_code code user_id fresh db)
  serve (grant_question action_id participant_id context fresh) db =
      reply question_granted (grant_question_action action_id participant_id context fresh db)
  serve (redeem_reward reward_id user_id fresh) db =
      reply redemption (Service.redeem reward_id user_id fresh db)
  serve (deliver id reason context fresh) db =
      reply redemption (deliver_redemption id reason context fresh db)
  serve (cancel id reason context fresh) db =
      reply redemption (cancel_redemption id reason context fresh db)
  serve (adjust_balance id dto context fresh) db = reply adjustment (adjust id dto context fresh db)
  serve (reverse_adjustment id dto context fresh) db =
      reply adjustment (reverse id dto context fresh db)
  serve (confirm_reconciliation id dto context fresh) db =
      reply confirmation (confirm id dto context fresh db)
  serve (switch_code id dto context fresh) db =
      reply code_history (update_status id dto context fresh db)
  serve (switch_codes dto context fresh) db =
      reply bulk_operation (bulk_update_status dto context fresh db)
  serve (generate_codes draw cuid action_id dto context fresh) db =
      reply generated_codes (generate_batch draw cuid action_id dto context fresh db)

  -- The state after the requests, the first of the list served first.
  unfoldable pub run : List Request → Db → Db
  unfolding serve
  run [] db = db
  run (request ∷ requests) db = run requests (serve request db).1
