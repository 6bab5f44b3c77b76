-- ===== src/Accounts/Requests.antt =====
-- The requests that change an account, and runs of them.
use semcomp2026_gameficacao.Prelude.{List, [], ◌∷◌, Option}
use semcomp2026_gameficacao.Text.{Text}
use semcomp2026_gameficacao.Database.{Prisma}
use semcomp2026_gameficacao.Database.Schema.{Key, Date, SessionEndReason}
use semcomp2026_gameficacao.Database.Tx.{Db, with_transaction}
use semcomp2026_gameficacao.Audit.Contract.{OperationContext}
use semcomp2026_gameficacao.Accounts.Runtime.{Runtime}
use semcomp2026_gameficacao.Accounts.Sessions.{expire_sessions, delete_retained}
use semcomp2026_gameficacao.Accounts.Auth.{
  RegisterDto, LoginDto, AdminLoginDto, SignIn, register, login, admin_login, heartbeat, end,
  change_required_password,
}
use semcomp2026_gameficacao.Accounts.Operators.Service.{
  create, update_details, update_operator_status, reset_activation, activate,
}
use semcomp2026_gameficacao.Accounts.Operators.Policy.{
  CreateOperatorDto, UpdateOperatorDto, UpdateOperatorStatusDto, ActivateDto, Drawn,
}
use semcomp2026_gameficacao.Accounts.Participants.{
  ResetPasswordDto, UpdateParticipantStatusDto, ResetDraw, reset_password,
  update_participant_status,
}

pub data AccountRequest : Type 0 where
  sign_up : RegisterDto → SignIn → AccountRequest
  sign_in : LoginDto → SignIn → AccountRequest
  sign_in_admin : AdminLoginDto → SignIn → AccountRequest
  beat : (session_id user_id : Key) → Date → AccountRequest
  finish : (session_id user_id : Key) → Date → SessionEndReason → AccountRequest
  change_password : (participant_id session_id : Key) → Text → SignIn → AccountRequest
  expire : Date → AccountRequest
  retire : Date → AccountRequest
  invite_operator : CreateOperatorDto → OperationContext → Drawn → AccountRequest
  change_operator : Key → UpdateOperatorDto → OperationContext → Drawn → AccountRequest
  switch_operator : Key → UpdateOperatorStatusDto → OperationContext → Drawn → AccountRequest
  renew_operator : Key → (reason : Text) → OperationContext → Drawn → AccountRequest
  activate_operator : ActivateDto → (request_id : Option Key) → Drawn → AccountRequest
  reset_participant : Key → ResetPasswordDto → OperationContext → ResetDraw → AccountRequest
  switch_participant :
      Key
      → UpdateParticipantStatusDto
      → OperationContext
      → (audit_event_id : Key) → Date
      → AccountRequest

module _ ⦃P : Prisma⦄ ⦃X : Runtime⦄ where
  -- The database after a request.
  abbrev pub serve_account : AccountRequest → Db → Db
  serve_account (sign_up dto s) db = (register dto s db).1
  serve_account (sign_in dto s) db = (login dto s db).1
  serve_account (sign_in_admin dto s) db = (admin_login dto s db).1
  serve_account (beat session_id user_id now) db = (heartbeat session_id user_id now db).1
  serve_account (finish session_id user_id now reason) db = (end session_id user_id now reason db).1
  serve_account (change_password participant_id session_id password s) db =
      (change_required_password participant_id session_id password s db).1
  serve_account (expire now) db = (with_transaction (expire_sessions now) db).1
  serve_account (retire now) db = (with_transaction (delete_retained now) db).1
  serve_account (invite_operator dto context drawn) db = (create dto context drawn db).1
  serve_account (change_operator id dto context drawn) db =
      (update_details id dto context drawn db).1
  serve_account (switch_operator id dto context drawn) db =
      (update_operator_status id dto context drawn db).1
  serve_account (renew_operator id reason context drawn) db =
      (reset_activation id reason context drawn db).1
  serve_account (activate_operator dto request_id drawn) db = (activate dto request_id drawn db).1
  serve_account (reset_participant id dto context draw) db =
      (reset_password id dto context draw db).1
  serve_account (switch_participant id dto context audit_event_id now) db =
      (update_participant_status id dto context audit_event_id now db).1

  abbrev pub run_accounts : List AccountRequest → Db → Db
  run_accounts [] db = db
  run_accounts (q ∷ qs) db = run_accounts qs (serve_account q db)
