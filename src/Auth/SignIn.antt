-- ===== src/Auth/SignIn.antt =====
-- Signing in with a password: SignIn and its helpers of internal/auth/service/service.go.
pub mod Steps
pub mod Lockout
pub mod Safety
use Prim.Native.String.{len}
use wow_dashboard_api.Prelude.{
  ℕ, ◌+◌, String, Bool, true, false, Option, none, some, List, ◌&&◌, ◌||◌, not, str_eq, ltb,
  is_none, exists_where, if◌then◌else◌,
}
use wow_dashboard_api.Prelude.Text.{trim_space, to_lower, is_empty}
use wow_dashboard_api.Store.Schema.{User, RefreshToken, uuid_nil}
use wow_dashboard_api.Store.Effect.{
  Action, Error, Result, ok, err, Env, ClientInfo, Alert, user_not_found, invalid_credentials,
  invalid_token, invalid_mfa_code, internal, pure, raise, raise_if, asks, attempt, external, alert,
  or_raise, or_else, ◌>>=◌, when◌then◌else◌, ◌>>◌,
}
use wow_dashboard_api.Auth.RefreshTokens.{list_active_sessions}
use wow_dashboard_api.Auth.Users.{
  get_user_by_email_for_auth, get_user_by_id, register_login_failure, clear_login_failures,
  is_after,
}
use wow_dashboard_api.Auth.Audit.{AuditEvent, AuditMetadata, no_metadata, record_audit}
use wow_dashboard_api.Auth.Service.{
  Service, Session, Claims, public_user_from_domain, is_disabled, max_password_length,
  mfa_pending_token_ttl, now,
}
use wow_dashboard_api.Auth.Sessions.{issue_session}

pub record SignInInput : Type 0 where
  pub email : String
  pub password : String

abbrev pub failure_event : String → String → String → AuditEvent
failure_event email user_id reason = record {
  event_type = "auth.sign_in.failed";
  message = "Auth sign-in failed.";
  metadata = record no_metadata { email = email; user_id = user_id; reason = reason };
}

-- recordSignInFailed and recordSignInSucceeded
abbrev pub sign_in_failed : Service → String → String → String → Action (Unit {0})
sign_in_failed s email user_id reason =
    record_audit s.audit_recorder (failure_event email user_id reason)

abbrev pub sign_in_succeeded : Service → Session → Action (Unit {0})
sign_in_succeeded s session = record_audit s.audit_recorder (record {
  event_type = "auth.sign_in.succeeded";
  message = "Auth sign-in succeeded.";
  metadata = record no_metadata { email = session.user.email; user_id = session.user.id };
})

-- The events of a failure, then its error.
unfoldable pub refuse : Service → String → String → String → Error → Action Session
unfolding record_audit
refuse s email user_id reason e = do sign_in_failed s email user_id reason; raise e

abbrev no_session_with : String → Result (List RefreshToken) → Bool
no_session_with agent (err _) = false
no_session_with agent (ok sessions) = not (exists_where (λ t. str_eq t.user_agent agent) sessions)

unfoldable pub is_new_device_sign_in : Service → ℕ → Action Bool
unfolding list_active_sessions
is_new_device_sign_in s user = do
  client ← asks (λ env. env.client)
  when not s.security_alerter
        || not s.refresh_token_store
        || is_empty (trim_space client.user_agent)
      then pure false
      else (do
        sessions ← attempt (list_active_sessions user)
        pure (no_session_with client.user_agent sessions))

abbrev pub alert_new_device_sign_in : Service → ℕ → Action (Unit {0})
alert_new_device_sign_in s user = do
  client ← asks (λ env. env.client)
  when s.security_alerter
      then alert (Alert.new_sign_in user client.user_agent client.ip_address)
      else pure tt

-- The reason for the audit event, from the answer of RegisterLoginFailure.
abbrev pub failure_reason : Result Bool → String
failure_reason (ok true) = "account_locked"
failure_reason (ok false) = "invalid_credentials"
failure_reason (err _) = "invalid_credentials"

unfoldable pub count_login_failure : Service → ℕ → ℕ → Action String
unfolding register_login_failure
count_login_failure s user at = do
  locked ←
      attempt
        (register_login_failure user s.max_failed_login_attempts (at + s.account_lockout_window) at)
  pure (failure_reason locked)

-- What SignIn and CompleteMfaSignIn do once every factor is verified.
unfoldable pub open_session : Service → String → User → ℕ → Action Session
unfolding clear_login_failures is_new_device_sign_in issue_session record_audit refuse
open_session s email user at = do
  user_id ← asks (λ env. env.uuid_string user.id)
  attempt (clear_login_failures user.id at)
  new_device ← is_new_device_sign_in s user.id
  issued ← attempt (issue_session s user uuid_nil)
  elim issued [
    | err e ↦ refuse s email user_id "internal_error" e
    | ok session ↦ (do
      sign_in_succeeded s session
      when new_device then alert_new_device_sign_in s user.id else pure tt
      pure session)
  ]

abbrev pub mfa_pending_session : Env → User → String → Session
mfa_pending_session env user pending = record {
  user = public_user_from_domain env user;
  access_token = "";
  refresh_token = "";
  mfa_required = true;
  mfa_pending_token = pending;
}

-- The gate for an account with a second factor: a ticket, and no session.
unfoldable pub issue_mfa_ticket : Service → String → User → Action Session
unfolding refuse
issue_mfa_ticket s email user = do
  user_id ← asks (λ env. env.uuid_string user.id)
  pending ←
      attempt
        (external λ env n. s.token_manager.issue_mfa_pending_token user_id mfa_pending_token_ttl n)
  session ← asks (λ env. mfa_pending_session env user)
  elim pending [
    | err e ↦ refuse s email user_id "internal_error" e
    | ok ticket ↦ pure (session ticket)
  ]

-- SignIn after the password is known to be right.
unfoldable pub sign_in_verified : Service → String → User → ℕ → Action Session
unfolding open_session issue_mfa_ticket refuse
sign_in_verified s email user at = do
  user_id ← asks (λ env. env.uuid_string user.id)
  when is_disabled user
      then refuse s email user_id "user_disabled" invalid_credentials
      else when not (is_none s.mfa_verifier) && user.mfa_enabled
      then issue_mfa_ticket s email user
      else open_session s email user at

-- SignIn after the account is found.
unfoldable pub sign_in_found : Service → String → String → User → ℕ → Action Session
unfolding count_login_failure sign_in_verified refuse
sign_in_found s email password user at = do
  user_id ← asks (λ env. env.uuid_string user.id)
  when is_after user.locked_until at
      then refuse s email user_id "account_locked" invalid_credentials
      else elim (s.password.verify password user.password_hash) [
        | none ↦ refuse s email user_id "internal_error" internal
        | some false ↦ (do
          reason ← count_login_failure s user.id at
          refuse s email user_id reason invalid_credentials)
        | some true ↦ sign_in_verified s email user at
      ]

abbrev pub normalize_email : String → String
normalize_email email = to_lower (trim_space email)

-- SignIn after the account is looked up.
unfoldable pub settle_lookup : Service → String → String → ℕ → Result User → Action Session
unfolding sign_in_found refuse
settle_lookup s email password at (ok user) = sign_in_found s email password user at
settle_lookup s email password at (err user_not_found) =
    refuse s email "" "invalid_credentials" invalid_credentials
settle_lookup s email password at (err e) = refuse s email "" "internal_error" e

unfoldable pub sign_in : Service → SignInInput → Action Session
unfolding get_user_by_email_for_auth settle_lookup
sign_in s input = do
  at ← now
  when ltb max_password_length (len input.password)
      then refuse s (normalize_email input.email) "" "invalid_credentials" invalid_credentials
      else (do
        found ← attempt (get_user_by_email_for_auth (normalize_email input.email))
        settle_lookup s (normalize_email input.email) input.password at found)
