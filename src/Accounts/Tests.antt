-- ===== src/Accounts/Tests.antt =====
-- The account services on a small database, with a runtime that hashes a text to itself.
use semcomp2026_gameficacao.Prelude.{◌≡◌, refl, false, none, some, List, [], ◌∷◌, arith}
use semcomp2026_gameficacao.Text.{text, text_eq, text_eq_refl, trim, to_upper_case}
use semcomp2026_gameficacao.Database.Memory.{memory}
use semcomp2026_gameficacao.Database.Schema.{
  User, admin, general, AdminActivation, UserSession, logout,
}
use semcomp2026_gameficacao.Database.Failure.{ok, is_ok}
use semcomp2026_gameficacao.Database.Tx.{Db, ◌>>=◌}
use semcomp2026_gameficacao.Audit.{valid_contract, valid_snapshot, write_audit}
use semcomp2026_gameficacao.Samples.{ana, start, admin_context}
use semcomp2026_gameficacao.Accounts.Runtime.{Runtime}
use semcomp2026_gameficacao.Accounts.Sessions.{find_valid_session_with_user}
use semcomp2026_gameficacao.Accounts.Auth.{LoginDto, SignIn, IssuedTokens, login, heartbeat, end}
use semcomp2026_gameficacao.Accounts.SignedIn.{login-find_valid_session_with_user}
use semcomp2026_gameficacao.Accounts.Operators.Service.{activate}
use semcomp2026_gameficacao.Accounts.Operators.Policy.{ActivateDto, Drawn}
use semcomp2026_gameficacao.Accounts.Participants.{ResetPasswordDto, ResetDraw, reset_password}
use semcomp2026_gameficacao.Accounts.Requests.{
  AccountRequest, sign_in, beat, switch_operator, expire, run_accounts,
}
use semcomp2026_gameficacao.Accounts.Closed.{end-run_accounts}
use semcomp2026_gameficacao.Accounts.Consumed.{activate-run_accounts}
use semcomp2026_gameficacao.Accounts.KeepsGeneral.{HasGeneral}
use semcomp2026_gameficacao.Accounts.LastGeneral.{run_accounts-HasGeneral}
use semcomp2026_gameficacao.Accounts.Revoked.{reset_password-run_accounts}

abbrev plain : Runtime
plain = record {
  hash = λ salt password. password;
  compare = λ password digest. text_eq password digest;
  sha256 = λ s. s;
  to_lower_case = λ s. s;
  to_upper_case = to_upper_case;
  compare-hash = λ salt password. text_eq_refl password;
}

abbrev root : User
root = record ana {
  id = 99;
  role = admin;
  cpf = text "22222222222";
  email = text "root@usp.br";
  admin_profile = some general;
}

-- An operator who has not chosen a password.
abbrev invited : User
invited = record root {
  id = 50;
  cpf = text "33333333333";
  email = text "ivo@usp.br";
  password_hash = none;
}

abbrev invitation : AdminActivation
invitation = record {
  id = 60;
  admin_user_id = 50;
  code_hash = text "AAAAABBBBBCCCCCDDDDD";
  expires_at = 1000;
  used_at = none;
  revoked_at = none;
  created_by_admin_id = 99;
  created_at = 0;
}

abbrev browsing : UserSession
browsing = record {
  id = 7;
  user_id = 1;
  started_at = 10;
  last_seen_at = 10;
  expires_at = 5000;
  ended_at = none;
  end_reason = none;
}

abbrev staffed : Db ⦃P = memory⦄
staffed = record start {
  users = (1, ana) ∷ (99, root) ∷ (50, invited) ∷ [];
  admin_activations = (60, invitation) ∷ [];
  sessions = (7, browsing) ∷ [];
}

abbrev ana_signs_in : AccountRequest
ana_signs_in =
    sign_in (record { email = text "ana@usp.br"; password = text "ana-hash" })
      (record { session_id = 8; user_id = 2; salt = 0; now = 150 })

abbrev later_requests : List AccountRequest
later_requests = ana_signs_in ∷ beat 7 1 160 ∷ expire 170 ∷ []

end-run_accounts_example :
    (find_valid_session_with_user ⦃P = memory⦄ 7 1 200 (
        run_accounts ⦃P = memory⦄ ⦃X = plain⦄ later_requests
          (end ⦃P = memory⦄ ⦃X = plain⦄ 7 1 100 logout staffed).1)
      ≡ none)
    × ((heartbeat ⦃P = memory⦄ ⦃X = plain⦄ 7 1 200 (
          run_accounts ⦃P = memory⦄ ⦃X = plain⦄ later_requests
            (end ⦃P = memory⦄ ⦃X = plain⦄ 7 1 100 logout staffed).1)).0
        ≡ ok false)
end-run_accounts_example =
    end-run_accounts ⦃P = memory⦄ ⦃X = plain⦄ 7 1 100 200 logout later_requests staffed
      (omega arith) ((λ h. omega arith), (tt, (tt, tt)))

abbrev ivo_activates : ActivateDto
ivo_activates = record {
  code = text "aaaaa-bbbbb ccccc-ddddd";
  cpf = text "333.333.333-33";
  email = text "ivo@usp.br ";
  password = text "doze letras ja";
  password_confirmation = text "doze letras ja";
}

abbrev drawn_at : Drawn
drawn_at = record {
  user_id = 70;
  activation_id = 71;
  audit_event_id = 72;
  salt = 0;
  bytes = [];
  now = 100;
}

activated_once :
    (activate ⦃P = memory⦄ ⦃X = plain⦄ ivo_activates (some 5) drawn_at staffed).0 ≡ ok tt
unfolding activate ◌>>=◌ to_upper_case valid_contract valid_snapshot write_audit
activated_once = refl

activate-run_accounts_example :
    is_ok
      (activate ⦃P = memory⦄ ⦃X = plain⦄ ivo_activates
        (some 6)
        (record drawn_at { audit_event_id = 73 })
        (run_accounts ⦃P = memory⦄ ⦃X = plain⦄ later_requests
          (activate ⦃P = memory⦄ ⦃X = plain⦄ ivo_activates (some 5) drawn_at staffed).1)).0
    ≡ false
activate-run_accounts_example =
    activate-run_accounts ⦃P = memory⦄ ⦃X = plain⦄ ivo_activates ivo_activates (some 5) (some 6)
      drawn_at (record drawn_at { audit_event_id = 73 }) later_requests staffed
      (((λ h. refl), tt), tt) activated_once refl

abbrev root_leaves : AccountRequest
root_leaves =
    switch_operator 99 (record { is_active = false; reason = text "Fim do mandato" })
      (record { actor_admin_id = 99; request_id = 5 }) drawn_at

run_accounts-HasGeneral_example :
    HasGeneral ⦃P = memory⦄
      (run_accounts ⦃P = memory⦄ ⦃X = plain⦄ (root_leaves ∷ later_requests) staffed)
run_accounts-HasGeneral_example =
    run_accounts-HasGeneral ⦃P = memory⦄ ⦃X = plain⦄ (root_leaves ∷ later_requests) staffed
      (((refl, (refl, tt)), ((refl, tt), (tt, tt))), omega arith)

abbrev forgotten : ResetPasswordDto
forgotten = record { reason = text "Esqueceu a senha"; replace_pending = false }

abbrev reset_draw : ResetDraw
reset_draw = record {
  temporary_password = text "temporaria";
  salt = 0;
  audit_event_id = 72;
  now = 100;
}

reset_once :
    (reset_password ⦃P = memory⦄ ⦃X = plain⦄ 1 forgotten admin_context reset_draw staffed).0
    ≡ ok (record { temporary_password = text "temporaria"; expires_at = 86400100 })
unfolding reset_password ◌>>=◌ valid_contract valid_snapshot trim write_audit
reset_once = refl

reset_password-run_accounts_example :
    find_valid_session_with_user ⦃P = memory⦄ 7 1 200 (
      run_accounts ⦃P = memory⦄ ⦃X = plain⦄ later_requests
        (reset_password ⦃P = memory⦄ ⦃X = plain⦄ 1 forgotten admin_context reset_draw staffed).1)
    ≡ none
reset_password-run_accounts_example =
    reset_password-run_accounts ⦃P = memory⦄ ⦃X = plain⦄ 7 1 forgotten admin_context reset_draw 200
      later_requests staffed reset_once (omega arith) ((λ h. omega arith), (tt, (tt, tt)))

abbrev ana_types : LoginDto
ana_types = record { email = text "ana@usp.br"; password = text "ana-hash" }

abbrev at_the_desk : SignIn
at_the_desk = record { session_id = 8; user_id = 2; salt = 0; now = 150 }

abbrev ana_is_in : IssuedTokens
ana_is_in = record { jti = 8; user = record ana { last_login_at = some 150 } }

ana_logged_in : (login ⦃P = memory⦄ ⦃X = plain⦄ ana_types at_the_desk staffed).0 ≡ ok ana_is_in
unfolding login ◌>>=◌
ana_logged_in = refl

login-find_valid_session_with_user_example : ¬ (
    find_valid_session_with_user ⦃P = memory⦄ 8 1 150
      (login ⦃P = memory⦄ ⦃X = plain⦄ ana_types at_the_desk staffed).1
    ≡ none)
login-find_valid_session_with_user_example =
    login-find_valid_session_with_user ⦃P = memory⦄ ⦃X = plain⦄ ana_types at_the_desk ana_is_in
      staffed ana_logged_in
