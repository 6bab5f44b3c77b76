-- ===== src/Database/Schema.antt =====
-- The rows of apps/api/prisma/schema (users.prisma, action.prisma, reward.prisma, audit.prisma).
-- Ids are only compared, so they are numbers; a date is its milliseconds; a text is the list of its
-- UTF-16 code units. The shown name of an audit row and the `updatedAt` columns, which Prisma
-- fills in, are left out.
use semcomp2026_gameficacao.Prelude.{ℕ, ℤ, Bool, Option, List}
pub use semcomp2026_gameficacao.Text.{Text}

abbrev pub Key : Type 0
Key = ℕ

abbrev pub Date : Type 0
Date = ℕ

pub data UserRole : Type 0 where
  participant admin : UserRole

-- `AdminProfile`
pub data AdminProfile : Type 0 where
  general shop activities : AdminProfile

pub data ActionType : Type 0 where
  checkin attendance stand_visit easter_egg question dynamic bonus : ActionType

pub data PointEventKind : Type 0 where
  credit debit : PointEventKind

pub data PointEventSource : Type 0 where
  action_redeem admin_grant admin_adjust reward_redemption : PointEventSource

pub data RedemptionMethod : Type 0 where
  direct reusable_code claim_code legacy_unknown : RedemptionMethod

pub data RedemptionStatus : Type 0 where
  pending delivered cancelled : RedemptionStatus

pub record User : Type 0 where
  pub id : Key
  pub name : Text
  pub role : UserRole
  pub points : ℤ
  pub xp : ℤ
  pub level : ℕ
  pub is_active : Bool
  pub cpf : Text
  pub email : Text
  pub last_login_at : Option Date
  pub password_hash : Option Text
  pub password_changed_at : Option Date
  pub admin_profile : Option AdminProfile
  pub password_reset_required : Bool
  pub password_reset_expires_at : Option Date
  pub created_at : Date

pub record Action : Type 0 where
  pub id : Key
  pub name : Text
  pub description : Option Text
  pub type : ActionType
  pub code : Option Text
  pub points : ℤ
  pub is_active : Bool
  pub is_code_active : Bool
  pub created_at : Date

pub record ClaimCode : Type 0 where
  pub id : Key
  pub code : Text
  pub action_id : Key
  pub is_used : Bool
  pub is_active : Bool
  pub used_by_id : Option Key
  pub used_at : Option Date
  pub batch_id : Option Key
  pub created_at : Date

-- `ClaimCodeBulkOutcome`
pub data ClaimCodeBulkOutcome : Type 0 where
  changed already_in_state already_used code_not_found : ClaimCodeBulkOutcome

pub record ClaimCodeBulkItem : Type 0 where
  pub requested_claim_code_id : Key
  pub claim_code_id : Option Key
  pub masked_code : Option Text
  pub outcome : ClaimCodeBulkOutcome

-- With its items, which the statements create and read with it.
pub record ClaimCodeBulkOperation : Type 0 where
  pub id : Key
  pub actor_admin_id : Key
  pub target_is_active : Bool
  pub reason : Text
  pub request_id : Key
  pub selected_count : ℕ
  pub changed_count : ℕ
  pub unchanged_count : ℕ
  pub used_count : ℕ
  pub not_found_count : ℕ
  pub items : List ClaimCodeBulkItem
  pub created_at : Date

pub record ClaimCodeBatch : Type 0 where
  pub id : Key
  pub action_id : Key
  pub created_by_admin_id : Key
  pub requested_quantity : ℕ
  pub created_quantity : ℕ
  pub reason : Text
  pub request_id : Key
  pub created_at : Date

pub record PointEvent : Type 0 where
  pub id : Key
  pub user_id : Key
  pub action_id : Option Key
  pub points : ℤ
  pub xp_delta : ℤ
  pub kind : PointEventKind
  pub source : PointEventSource
  pub redemption_method : Option RedemptionMethod
  pub claim_code_id : Option Key
  pub audit_event_id : Option Key
  pub reward_redemption_id : Option Key
  pub actor_admin_id : Option Key
  pub idempotency_key : Option Key
  pub reversed_event_id : Option Key
  pub description : Option Text
  pub created_at : Date

pub record Reward : Type 0 where
  pub id : Key
  pub name : Text
  pub description : Option Text
  pub cost_in_points : ℤ
  pub stock : ℤ
  pub is_active : Bool
  pub image_url : Option Text
  pub created_at : Date

pub record RewardRedemption : Type 0 where
  pub id : Key
  pub user_id : Key
  pub reward_id : Key
  pub points_spent : ℤ
  pub status : RedemptionStatus
  pub delivered_at : Option Date
  pub delivered_by_admin_id : Option Key
  pub cancelled_at : Option Date
  pub cancelled_by_admin_id : Option Key
  pub created_at : Date

pub record AdminActivation : Type 0 where
  pub id : Key
  pub admin_user_id : Key
  pub code_hash : Text
  pub expires_at : Date
  pub used_at : Option Date
  pub revoked_at : Option Date
  pub created_by_admin_id : Key
  pub created_at : Date

-- `SessionEndReason`
pub data SessionEndReason : Type 0 where
  logout revoked expired : SessionEndReason

pub record UserSession : Type 0 where
  pub id : Key
  pub user_id : Key
  pub started_at : Date
  pub last_seen_at : Date
  pub expires_at : Date
  pub ended_at : Option Date
  pub end_reason : Option SessionEndReason

-- What `randomUUID`, the default `cuid()` and `new Date()` give to one call of a service.
pub record Fresh : Type 0 where
  pub point_event_id : Key
  pub audit_event_id : Key
  pub entity_id : Key
  pub now : Date
