-- ===== src/Auth/SignUp.antt =====
-- Registration: SignUp of internal/auth/service/service.go.
pub mod Atomic
use Prim.Native.String.{len, ◌++◌ as string_append}
use wow_dashboard_api.Prelude.{
  ℕ, ◌+◌, String, Bool, true, false, Option, none, some, ◌&&◌, ◌||◌, not, str_eq, ltb, is_some,
  if◌then◌else◌,
}
use wow_dashboard_api.Prelude.Text.{trim_space, is_empty}
use wow_dashboard_api.Store.Schema.{User, UserStatus, active, uuid_nil}
use wow_dashboard_api.Store.Effect.{
  Action, Error, Result, ok, err, Env, email_already_exists, invalid_input, internal, pure, raise,
  asks, attempt, reading, external, transaction, ◌>>=◌, ◌>>◌, when◌then◌else◌,
}
use wow_dashboard_api.Auth.RefreshTokens.{CreateRefreshTokenInput, create_refresh_token}
use wow_dashboard_api.Auth.Users.{CreateUserInput, create_user, get_role_by_name, add_user_role}
use wow_dashboard_api.Auth.Audit.{
  AuditEvent, AuditMetadata, no_metadata, record_audit, from_last_at,
}
use wow_dashboard_api.Auth.Service.{
  Service, Session, public_user_from_domain, min_password_length, max_password_length,
  new_refresh_token_input, now,
}
use wow_dashboard_api.Auth.Sessions.{issue_session, request_access_token, session_of}
use wow_dashboard_api.Auth.SignIn.{normalize_email}
use wow_dashboard_api.Auth.Emails.{send_email_verification}

pub record SignUpInput : Type 0 where
  pub email : String
  pub password : String
  pub first_name : String
  pub last_name : String

abbrev is_same : String → Option String → Bool
is_same email none = false
is_same email (some address) = str_eq address email

unfoldable pub validate_email : (String → Option String) → String → Bool
unfolding from_last_at
validate_email parse_address email =
    not (ltb (len email) 3) && is_some (from_last_at email) && is_same email (parse_address email)

abbrev sign_up_event : String → String → AuditMetadata → AuditEvent
sign_up_event event_type message metadata = record {
  event_type = event_type;
  message = message;
  metadata = metadata;
}

-- recordSignUpFailed, then the error.
unfoldable pub refuse_sign_up : Service → String → String → String → Error → Action Session
unfolding record_audit
refuse_sign_up s email user_id reason e = do
  record_audit s.audit_recorder (
      sign_up_event "auth.sign_up.failed" "Auth sign-up failed."
        (record no_metadata { email = email; user_id = user_id; reason = reason }))
  raise e

unfoldable pub assign_default_role : ℕ → Action (Unit {0})
unfolding get_role_by_name add_user_role
assign_default_role user = do role ← get_role_by_name "user"; add_user_role user role.id

-- The account, its role and its first refresh token, in one transaction.
unfoldable pub sign_up_with_unit_of_work : Service → CreateUserInput → Action Session
unfolding new_refresh_token_input create_user assign_default_role create_refresh_token
sign_up_with_unit_of_work s input = do
  access ← request_access_token s input.id
  client ← asks (λ env. env.client)
  (raw, token) ← new_refresh_token_input s input.id uuid_nil client none
  user ← transaction (do
    user ← create_user input
    assign_default_role user.id
    create_refresh_token (record token { user_id = user.id })
    pure user)
  public ← asks (λ env. public_user_from_domain env user)
  pure (session_of public access raw)

-- What follows a registration: the event and the mail.
unfoldable pub complete_sign_up : Service → ℕ → String → Session → Action Session
unfolding record_audit send_email_verification
complete_sign_up s id email session = do
  record_audit s.audit_recorder (
      sign_up_event "auth.sign_up.succeeded" "Auth sign-up succeeded."
        (record no_metadata { email = session.user.email; user_id = session.user.id }))
  send_email_verification s id email
  pure session

-- The outcome of a registration whose failure is recorded under `email` and `user_id`.
unfoldable pub settle_sign_up :
    Service → ℕ → String → String → String → Result Session → Action Session
unfolding refuse_sign_up complete_sign_up
settle_sign_up s id email failed_email user_id (ok session) = complete_sign_up s id email session
settle_sign_up s id email failed_email user_id (err email_already_exists) =
    refuse_sign_up s email "" "email_already_exists" email_already_exists
settle_sign_up s id email failed_email user_id (err e) =
    refuse_sign_up s failed_email user_id "internal_error" e

-- The part of SignUp for an account that was created without a transaction.
unfoldable pub sign_up_created : Service → String → User → Action Session
unfolding assign_default_role issue_session refuse_sign_up complete_sign_up
sign_up_created s email user = do
  user_id ← asks (λ env. env.uuid_string user.id)
  assigned ← attempt (assign_default_role user.id)
  elim assigned [
    | err e ↦ refuse_sign_up s user.email user_id "internal_error" e
    | ok _ ↦ (do
      issued ← attempt (issue_session s user uuid_nil)
      elim issued [
        | err e ↦ refuse_sign_up s user.email user_id "internal_error" e
        | ok session ↦ complete_sign_up s user.id email session
      ])
  ]

unfoldable pub sign_up_stepwise : Service → String → CreateUserInput → Action Session
unfolding create_user sign_up_created refuse_sign_up
sign_up_stepwise s email input = do
  created ← attempt (create_user input)
  elim created [
    | err email_already_exists ↦
        refuse_sign_up s email "" "email_already_exists" email_already_exists
    | err e ↦ refuse_sign_up s email "" "internal_error" e
    | ok user ↦ sign_up_created s email user
  ]

abbrev user_input : ℕ → String → SignUpInput → String → ℕ → CreateUserInput
user_input id email input hash at = record {
  id = id;
  email = email;
  display_name =
      string_append (trim_space input.first_name) (string_append " " (trim_space input.last_name));
  password_hash = hash;
  status = active;
  created_at = at;
  updated_at = at;
}

-- SignUp after the input is validated and the password hashed.
unfoldable pub sign_up_hashed : Service → String → SignUpInput → String → Action Session
unfolding sign_up_with_unit_of_work settle_sign_up sign_up_stepwise
sign_up_hashed s email input hash = do
  id ← reading λ env n. env.new_uuid n
  at ← now
  user_id ← asks (λ env. env.uuid_string id)
  when s.refresh_token_store && s.unit_of_work
      then (do
        outcome ← attempt (sign_up_with_unit_of_work s (user_input id email input hash at))
        settle_sign_up s id email email user_id outcome)
      else sign_up_stepwise s email (user_input id email input hash at)

abbrev pub is_acceptable : (String → Option String) → SignUpInput → Bool
is_acceptable parse_address input =
    validate_email parse_address (normalize_email input.email)
    && not (ltb (len input.password) min_password_length)
    && not (ltb max_password_length (len input.password))
    && not (is_empty (trim_space input.first_name) || is_empty (trim_space input.last_name))

unfoldable pub sign_up : Service → SignUpInput → Action Session
unfolding validate_email refuse_sign_up sign_up_hashed
sign_up s input = do
  parse_address ← asks (λ env. env.parse_address)
  when is_acceptable parse_address input
      then (do
        hashed ← attempt (external λ env n. s.password.hash input.password n)
        elim hashed [
          | err e ↦ refuse_sign_up s (normalize_email input.email) "" "internal_error" e
          | ok hash ↦ sign_up_hashed s (normalize_email input.email) input hash
        ])
      else refuse_sign_up s (normalize_email input.email) "" "invalid_input" invalid_input
