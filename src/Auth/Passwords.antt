-- ===== src/Auth/Passwords.antt =====
-- Passwords: ChangePassword, VerifyPassword, ForgotPassword and ResetPassword of
-- internal/auth/service/service.go.
pub mod Change
pub mod Reset
use Prim.Native.String.{len}
use wow_dashboard_api.Prelude.{
  ℕ, ◌+◌, String, Bool, true, false, Option, none, some, ◌&&◌, ◌||◌, not, ltb, ◌==◌, if◌then◌else◌,
}
use wow_dashboard_api.Prelude.Text.{trim_space, is_empty}
use wow_dashboard_api.Store.Schema.{User, AuthToken, Purpose, password_reset}
use wow_dashboard_api.Store.Effect.{
  Action, Error, Result, ok, err, Env, Mail, Alert, user_not_found, auth_token_not_found,
  invalid_input, invalid_credentials, invalid_token, user_disabled, internal, pure, raise, raise_if,
  asks, attempt, external, reading, alert, deliver, or_raise, or_else, transaction, ◌>>=◌,
  when◌then◌else◌, ◌>>◌,
}
use wow_dashboard_api.Auth.RefreshTokens.{revoke_all_for_user}
use wow_dashboard_api.Auth.AuthTokens.{
  CreateAuthTokenInput, create_auth_token, consume_auth_token, delete_auth_tokens_for_user,
}
use wow_dashboard_api.Auth.Users.{get_user_by_id, get_user_by_email_for_auth, update_user_password}
use wow_dashboard_api.Auth.Audit.{
  AuditEvent, AuditMetadata, no_metadata, record_auth_event, record_audit,
}
use wow_dashboard_api.Auth.Service.{
  Service, Claims, is_disabled, min_password_length, max_password_length, password_reset_token_ttl,
  new_refresh_token, hash_refresh_token, now,
}
use wow_dashboard_api.Auth.Sessions.{user_event, owner_missing}
use wow_dashboard_api.Auth.SignIn.{normalize_email}

-- The subject of an access token, as an identifier.
unfoldable pub access_subject : Service → String → Action ℕ
access_subject s raw = do
  claims ←
      or_else (λ _. invalid_token) (external λ env n. s.token_manager.verify_access_token raw n)
  parse ← asks (λ env. env.parse_uuid)
  or_raise (parse claims.subject) invalid_token

-- The verdict of a password check.
abbrev pub require_match : Error → Option Bool → Action (Unit {0})
require_match e none = raise internal
require_match e (some false) = raise e
require_match e (some true) = pure tt

abbrev pub alert_password_changed : Service → ℕ → Action (Unit {0})
alert_password_changed s user =
    when s.security_alerter then alert (Alert.password_changed user) else pure tt

abbrev pub password_changed_event : String → AuditEvent
password_changed_event = user_event "auth.password.changed" "Auth password changed."

-- The writes of a password change inside a transaction, whose stores are all there.
unfoldable pub replace_password :
    Service → (String → AuditEvent) → ℕ → String → ℕ → Action (Unit {0})
unfolding update_user_password revoke_all_for_user record_auth_event
replace_password s event user hash at = do
  user_id ← asks (λ env. env.uuid_string user)
  update_user_password user hash at
  revoke_all_for_user user at
  record_auth_event (event user_id)

-- The writes of ChangePassword: in one transaction, or one by one.
unfoldable pub store_password : Service → ℕ → String → ℕ → Action (Unit {0})
unfolding replace_password update_user_password revoke_all_for_user record_audit
store_password s user hash at = do
  user_id ← asks (λ env. env.uuid_string user)
  when s.unit_of_work
      then transaction (replace_password s password_changed_event user hash at)
      else (do
        update_user_password user hash at
        when s.refresh_token_store then revoke_all_for_user user at else pure tt
        record_audit s.audit_recorder (password_changed_event user_id))
  alert_password_changed s user

-- ChangePassword after the account is read.
unfoldable pub change_found : Service → User → ℕ → String → String → Action (Unit {0})
unfolding store_password
change_found s user user_id current_password new_password = do
  raise_if (is_disabled user) user_disabled
  require_match invalid_credentials (s.password.verify current_password user.password_hash)
  hash ← external λ env n. s.password.hash new_password n
  at ← now
  store_password s user_id hash at

unfoldable pub change_password : Service → String → String → String → Action (Unit {0})
unfolding access_subject get_user_by_id change_found
change_password s raw_access_token current_password new_password = do
  user_id ← access_subject s raw_access_token
  raise_if
      (ltb max_password_length (len current_password) || ltb max_password_length (len new_password))
      invalid_input
  raise_if (ltb (len new_password) min_password_length) invalid_input
  user ← or_else owner_missing (get_user_by_id user_id)
  change_found s user user_id current_password new_password

abbrev credentials_missing : Error → Error
credentials_missing user_not_found = invalid_credentials
credentials_missing e = e

unfoldable pub verify_password : Service → ℕ → String → Action (Unit {0})
unfolding get_user_by_id
verify_password s user raw = do
  raise_if (len raw == 0 || ltb max_password_length (len raw)) invalid_credentials
  found ← or_else credentials_missing (get_user_by_id user)
  require_match invalid_credentials (s.password.verify raw found.password_hash)

abbrev pub reset_token_input : ℕ → ℕ → String → ℕ → CreateAuthTokenInput
reset_token_input id user hash at = record {
  id = id;
  user_id = user;
  purpose = password_reset;
  token_hash = hash;
  expires_at = at + password_reset_token_ttl;
  created_at = at;
}

abbrev reset_requested_event : String → String → AuditEvent
reset_requested_event email user_id = record {
  event_type = "auth.password.reset_requested";
  message = "Auth password reset requested.";
  metadata = record no_metadata { email = email; user_id = user_id };
}

abbrev reset_mail : String → String → Mail
reset_mail address raw = record {
  recipient = address;
  subject = "Reset your password";
  token = raw;
}

-- ForgotPassword for an account that is found.
unfoldable pub issue_reset : Service → String → User → Action (Unit {0})
unfolding create_auth_token delete_auth_tokens_for_user record_audit
issue_reset s email user = do
  at ← now
  raw ← new_refresh_token
  attempt (delete_auth_tokens_for_user user.id password_reset)
  id ← reading λ env n. env.new_uuid n
  hash ← hash_refresh_token raw
  create_auth_token (reset_token_input id user.id hash at)
  user_id ← asks (λ env. env.uuid_string user.id)
  record_audit s.audit_recorder (reset_requested_event email user_id)
  attempt (deliver (reset_mail user.email raw))
  pure tt

abbrev settle_forgotten : Service → String → Result User → Action (Unit {0})
settle_forgotten s email (err user_not_found) = pure tt
settle_forgotten s email (err e) = raise e
settle_forgotten s email (ok user) =
    when is_disabled user then pure tt else issue_reset s email user

unfoldable pub forgot_password : Service → String → Action (Unit {0})
unfolding get_user_by_email_for_auth issue_reset
forgot_password s raw_email = do
  raise_if (not s.auth_token_store) internal
  found ← attempt (get_user_by_email_for_auth (normalize_email raw_email))
  settle_forgotten s (normalize_email raw_email) found

abbrev used_missing : Error → Error
used_missing auth_token_not_found = invalid_token
used_missing e = e

-- consumeAuthTokenFromStore
unfoldable pub consume_token : Purpose → String → ℕ → Action AuthToken
unfolding consume_auth_token
consume_token purpose raw at = do
  raise_if (is_empty (trim_space raw)) invalid_token
  hash ← hash_refresh_token (trim_space raw)
  or_else used_missing (consume_auth_token purpose hash at)

abbrev pub password_reset_event : String → AuditEvent
password_reset_event = user_event "auth.password.reset" "Auth password reset."

abbrev pub failed_event : String → String → AuditEvent
failed_event event_type message = record {
  event_type = event_type;
  message = message;
  metadata = record no_metadata { reason = "invalid_token" };
}

-- The two ways to write a reset; the answer is the account.
unfoldable pub reset_in_transaction : Service → String → String → ℕ → Action ℕ
unfolding consume_token replace_password
reset_in_transaction s raw hash at = transaction (do
  token ← consume_token password_reset raw at
  replace_password s password_reset_event token.user_id hash at
  pure token.user_id)

unfoldable pub reset_stepwise : Service → String → String → ℕ → Action ℕ
unfolding consume_token update_user_password revoke_all_for_user record_audit
reset_stepwise s raw hash at = do
  consumed_at ← now
  token ← consume_token password_reset raw consumed_at
  update_user_password token.user_id hash at
  when s.refresh_token_store then revoke_all_for_user token.user_id at else pure tt
  user_id ← asks (λ env. env.uuid_string token.user_id)
  record_audit s.audit_recorder (password_reset_event user_id)
  pure token.user_id

-- What follows the writes: a refused token is recorded, a change is told to the user.
abbrev settle_reset : Service → Result ℕ → Action (Unit {0})
settle_reset s (ok user) = alert_password_changed s user
settle_reset s (err invalid_token) = do
  record_audit s.audit_recorder
      (failed_event "auth.password.reset_failed" "Auth password reset failed.")
  raise invalid_token
settle_reset s (err e) = raise e

unfoldable pub reset_password : Service → String → String → Action (Unit {0})
unfolding reset_in_transaction reset_stepwise record_audit
reset_password s raw new_password = do
  raise_if (not s.auth_token_store) internal
  raise_if (ltb max_password_length (len new_password)) invalid_input
  raise_if (ltb (len new_password) min_password_length) invalid_input
  hash ← external λ env n. s.password.hash new_password n
  at ← now
  outcome ← attempt (
      when s.unit_of_work then reset_in_transaction s raw hash at else reset_stepwise s raw hash at)
  settle_reset s outcome
