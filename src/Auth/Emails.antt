-- ===== src/Auth/Emails.antt =====
-- Email verification: VerifyEmail, ResendVerification and sendEmailVerification of
-- internal/auth/service/service.go.
use wow_dashboard_api.Prelude.{ℕ, ◌+◌, String, not, is_some, if◌then◌else◌}
use wow_dashboard_api.Store.Schema.{email_verification}
use wow_dashboard_api.Store.Effect.{
  Action, Result, ok, err, Mail, invalid_token, internal, pure, raise, raise_if, asks, attempt,
  reading, deliver, or_else, transaction, ◌>>=◌, ◌>>◌, when◌then◌else◌,
}
use wow_dashboard_api.Auth.AuthTokens.{
  CreateAuthTokenInput, create_auth_token, delete_auth_tokens_for_user,
}
use wow_dashboard_api.Auth.Users.{get_user_by_id, set_email_verified}
use wow_dashboard_api.Auth.Audit.{AuditEvent, record_auth_event, record_audit}
use wow_dashboard_api.Auth.Service.{
  Service, email_verification_token_ttl, new_refresh_token, hash_refresh_token, now,
}
use wow_dashboard_api.Auth.Sessions.{user_event, owner_missing}
use wow_dashboard_api.Auth.Passwords.{access_subject, consume_token, failed_event}

abbrev verification_input : ℕ → ℕ → String → ℕ → CreateAuthTokenInput
verification_input id user hash at = record {
  id = id;
  user_id = user;
  purpose = email_verification;
  token_hash = hash;
  expires_at = at + email_verification_token_ttl;
  created_at = at;
}

abbrev verification_mail : String → String → Mail
verification_mail address raw = record {
  recipient = address;
  subject = "Verify your email address";
  token = raw;
}

issue_verification : ℕ → String → Action (Unit {0})
unfolding create_auth_token delete_auth_tokens_for_user
issue_verification user address = do
  at ← now
  raw ← new_refresh_token
  attempt (delete_auth_tokens_for_user user email_verification)
  id ← reading λ env n. env.new_uuid n
  hash ← hash_refresh_token raw
  create_auth_token (verification_input id user hash at)
  deliver (verification_mail address raw)

-- sendEmailVerification: best effort, whatever fails on the way.
unfoldable pub send_email_verification : Service → ℕ → String → Action (Unit {0})
unfolding issue_verification
send_email_verification s user address =
    when s.auth_token_store
    then (do attempt (issue_verification user address); pure tt)
    else pure tt

abbrev email_verified_event : String → AuditEvent
email_verified_event = user_event "auth.email.verified" "Auth email verified."

unfoldable pub verify_in_transaction : String → ℕ → Action (Unit {0})
unfolding consume_token set_email_verified record_auth_event
verify_in_transaction raw at = transaction (do
  token ← consume_token email_verification raw at
  set_email_verified token.user_id at at
  user_id ← asks (λ env. env.uuid_string token.user_id)
  record_auth_event (email_verified_event user_id))

unfoldable pub verify_stepwise : Service → String → ℕ → Action (Unit {0})
unfolding consume_token set_email_verified record_audit
verify_stepwise s raw at = do
  consumed_at ← now
  token ← consume_token email_verification raw consumed_at
  set_email_verified token.user_id at at
  user_id ← asks (λ env. env.uuid_string token.user_id)
  record_audit s.audit_recorder (email_verified_event user_id)

abbrev settle_verification : Service → Result (Unit {0}) → Action (Unit {0})
settle_verification s (ok _) = pure tt
settle_verification s (err invalid_token) = do
  record_audit s.audit_recorder
      (failed_event "auth.email.verification_failed" "Auth email verification failed.")
  raise invalid_token
settle_verification s (err e) = raise e

unfoldable pub verify_email : Service → String → Action (Unit {0})
unfolding verify_in_transaction verify_stepwise record_audit
verify_email s raw = do
  raise_if (not s.auth_token_store) internal
  at ← now
  outcome ←
      attempt (when s.unit_of_work then verify_in_transaction raw at else verify_stepwise s raw at)
  settle_verification s outcome

unfoldable pub resend_verification : Service → String → Action (Unit {0})
unfolding access_subject get_user_by_id send_email_verification
resend_verification s raw_access_token = do
  raise_if (not s.auth_token_store) internal
  user_id ← access_subject s raw_access_token
  user ← or_else owner_missing (get_user_by_id user_id)
  when is_some user.email_verified_at then pure tt else send_email_verification s user_id user.email
