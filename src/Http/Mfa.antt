-- ===== src/Http/Mfa.antt =====
-- The handlers of second factors: internal/http/handlers/mfa.go.
use wow_dashboard_api.Prelude.{ℕ, String, Bool, not, List}
use wow_dashboard_api.Mfa.Service.{MfaService, TotpKey, setup, confirm, disable}
use wow_dashboard_api.Auth.Service.{Service, PublicUser}
use wow_dashboard_api.Auth.Passwords.{verify_password}
use wow_dashboard_api.Http.Errors.{new_error, code_conflict, map_auth_error, map_mfa_error}
use wow_dashboard_api.Http.Endpoint.{Endpoint, pure, call, or_refuse, refuse_if, ◌>>=◌, ◌>>◌}
use wow_dashboard_api.Http.Authorize.{authenticate_for_mfa, token_missing}

-- uuid.Parse of the account's identifier
abbrev pub own_id : PublicUser → Endpoint ℕ
own_id user env = or_refuse (env.parse_uuid user.id) token_missing env

unfoldable pub mfa_setup_handler : Service → MfaService → String → String → Endpoint TotpKey
unfolding authenticate_for_mfa verify_password setup map_auth_error map_mfa_error
mfa_setup_handler s mfa header password = do
  user ← authenticate_for_mfa s header
  refuse_if user.mfa_enabled
      (new_error code_conflict "MFA is already enabled. Disable it first to re-enroll.")
  user_id ← own_id user
  call map_auth_error (verify_password s user_id password)
  call map_mfa_error (setup mfa user_id user.email)

unfoldable pub mfa_confirm_handler : Service → MfaService → String → String → Endpoint (List String)
unfolding authenticate_for_mfa confirm map_mfa_error
mfa_confirm_handler s mfa header code = do
  user ← authenticate_for_mfa s header
  refuse_if user.mfa_enabled (new_error code_conflict "MFA is already enabled.")
  user_id ← own_id user
  call map_mfa_error (confirm mfa user_id code)

unfoldable pub mfa_disable_handler : Service → MfaService → String → String → String → Endpoint Bool
unfolding authenticate_for_mfa verify_password disable map_auth_error map_mfa_error
mfa_disable_handler s mfa header password code = do
  user ← authenticate_for_mfa s header
  refuse_if (not user.mfa_enabled) (new_error code_conflict "MFA is not enabled.")
  user_id ← own_id user
  call map_auth_error (verify_password s user_id password)
  call map_mfa_error (disable mfa user_id code)
  pure Bool.false
