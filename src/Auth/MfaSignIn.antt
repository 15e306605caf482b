-- ===== src/Auth/MfaSignIn.antt =====
-- The second factor of a sign-in: CompleteMfaSignIn of internal/auth/service/service.go.
pub mod Safety
use wow_dashboard_api.Prelude.{ℕ, String, Bool, true, false, Option, none, some, not, if◌then◌else◌}
use wow_dashboard_api.Store.Schema.{User}
use wow_dashboard_api.Store.Effect.{
  Action, Error, Result, ok, err, user_not_found, invalid_credentials, invalid_token,
  invalid_mfa_code, internal, raise, raise_if, asks, attempt, external, or_raise, or_else, ◌>>=◌,
  when◌then◌else◌, ◌>>◌,
}
use wow_dashboard_api.Auth.Users.{get_user_by_id, is_after}
use wow_dashboard_api.Auth.Audit.{record_audit}
use wow_dashboard_api.Auth.Service.{Service, Session, Claims, is_disabled, now}
use wow_dashboard_api.Auth.SignIn.{refuse, count_login_failure, open_session}

abbrev pub always : Error → Error → Error
always e _ = e

abbrev pub account_missing : Error → Error
account_missing user_not_found = invalid_token
account_missing e = e

-- What follows the check of the code.
unfoldable pub settle_code : Service → User → ℕ → Result Bool → Action Session
unfolding count_login_failure open_session refuse
settle_code s user at verdict = do
  user_id ← asks (λ env. env.uuid_string user.id)
  elim verdict [
    | err e ↦ refuse s "" user_id "internal_error" e
    | ok false ↦ (do
      reason ← count_login_failure s user.id at
      refuse s "" user_id reason invalid_mfa_code)
    | ok true ↦ open_session s "" user at
  ]

-- After the ticket and the account are read.
unfoldable pub check_code :
    Service → (ℕ → String → Action Bool) → User → ℕ → String → Action Session
unfolding settle_code refuse
check_code s verify user at code = do
  user_id ← asks (λ env. env.uuid_string user.id)
  when is_disabled user
      then refuse s "" user_id "user_disabled" invalid_credentials
      else when is_after user.locked_until at
      then refuse s "" user_id "account_locked" invalid_credentials
      else when not user.mfa_enabled
      then raise invalid_token
      else (do verdict ← attempt (verify user.id code); settle_code s user at verdict)

unfoldable pub complete_mfa_sign_in : Service → String → String → Action Session
unfolding get_user_by_id check_code
complete_mfa_sign_in s raw_pending_token code = elim s.mfa_verifier [
  | none ↦ raise internal
  | some verify ↦ (do
    claims ←
        or_else (always invalid_token)
          (external λ env n. s.token_manager.verify_mfa_pending_token raw_pending_token n)
    parse ← asks (λ env. env.parse_uuid)
    user_id ← or_raise (parse claims.subject) invalid_token
    at ← now
    user ← or_else account_missing (get_user_by_id user_id)
    check_code s verify user at code)
]
