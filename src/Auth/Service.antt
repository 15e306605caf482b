-- ===== src/Auth/Service.antt =====
-- The auth service's dependencies and small helpers: internal/auth/service/service.go. A store that
-- may be nil is a flag; what other packages implement behind an interface is a field.
use wow_dashboard_api.Prelude.{
  ℕ, String, Bool, Option, none, some, List, [], ◌+◌, ◌==◌, if◌then◌else◌,
}
use wow_dashboard_api.Store.Schema.{User, UserStatus, active, disabled, uuid_nil}
use wow_dashboard_api.Store.Effect.{Action, Env, ClientInfo, reading, asks, external, ◌>>=◌, pure}
use wow_dashboard_api.Auth.RefreshTokens.{CreateRefreshTokenInput}

-- token.Claims, as far as the service reads them.
pub record Claims : Type 0 where
  pub subject : String
  pub act : String

-- The number is that of the call: it stands for the clock and the key at that moment. No value
-- is a failure.
pub record TokenManager : Type 0 where
  pub issue_access_token : String → ℕ → Option String
  pub issue_impersonation_token : String → String → ℕ → Option String
  pub issue_mfa_pending_token : String → ℕ → ℕ → Option String
  pub verify_access_token : String → ℕ → Option Claims
  pub verify_mfa_pending_token : String → ℕ → Option Claims
  pub parse_claims_allow_expired : String → Option Claims

-- The password package: Hash (salted by the call) and Verify, none for an error.
pub record PasswordHasher : Type 0 where
  pub hash : String → ℕ → Option String
  pub verify : String → String → Option Bool

pub record Service : Type 0 where
  pub refresh_token_store : Bool
  pub auth_token_store : Bool
  pub unit_of_work : Bool
  pub audit_recorder : Bool
  pub security_alerter : Bool
  pub mfa_verifier : Option (ℕ → String → Action Bool)
  pub token_manager : TokenManager
  pub password : PasswordHasher
  pub refresh_token_ttl : ℕ
  pub max_failed_login_attempts : ℕ
  pub account_lockout_window : ℕ

abbrev pub min_password_length : ℕ
min_password_length = 8

abbrev pub max_password_length : ℕ
max_password_length = 4096

-- Durations in microseconds.
abbrev pub mfa_pending_token_ttl : ℕ
mfa_pending_token_ttl = 300_000_000

abbrev pub password_reset_token_ttl : ℕ
password_reset_token_ttl = 3_600_000_000

abbrev pub email_verification_token_ttl : ℕ
email_verification_token_ttl = 86_400_000_000

pub record PublicUser : Type 0 where
  pub id : String
  pub email : String
  pub display_name : String
  pub status : String
  pub email_verified : Bool
  pub avatar_url : String
  pub phone : String
  pub job_title : String
  pub company : String
  pub last_login_at : Option ℕ
  pub mfa_enabled : Bool
  pub roles : List String
  pub permissions : List String
  pub impersonator_id : String
  pub impersonator_email : String

pub record Session : Type 0 where
  pub user : PublicUser
  pub access_token : String
  pub refresh_token : String
  pub mfa_required : Bool
  pub mfa_pending_token : String

abbrev pub status_text : UserStatus → String
status_text active = "active"
status_text disabled = "disabled"

abbrev pub is_disabled : User → Bool
is_disabled u = elim u.status [ active ↦ Bool.false | disabled ↦ Bool.true ]

abbrev pub public_user_from_domain : Env → User → PublicUser
public_user_from_domain env user = record {
  id = env.uuid_string user.id;
  email = user.email;
  display_name = user.display_name;
  status = status_text user.status;
  email_verified = Bool.false;
  avatar_url = "";
  phone = "";
  job_title = "";
  company = "";
  last_login_at = none;
  mfa_enabled = Bool.false;
  roles = [];
  permissions = [];
  impersonator_id = "";
  impersonator_email = "";
}

-- newRefreshToken and hashRefreshToken
abbrev pub new_refresh_token : Action String
new_refresh_token = external λ env n. env.random_token n

abbrev pub hash_refresh_token : String → Action String
hash_refresh_token raw = asks λ env. env.sha256_hex raw

abbrev pub now : Action ℕ
now = reading λ env n. env.clock n

abbrev pub fresh_family : ℕ → Action ℕ
fresh_family family = if family == uuid_nil then reading (λ env n. env.new_uuid n) else pure family

-- `created_at` is none for Go's zero time.
unfoldable pub new_refresh_token_input :
    Service → ℕ → ℕ → ClientInfo → Option ℕ → Action (String × CreateRefreshTokenInput)
new_refresh_token_input s user_id family client created_at = do
  raw ← new_refresh_token
  family_id ← fresh_family family
  issued_at ← now
  id ← reading (λ env n. env.new_uuid n)
  hash ← hash_refresh_token raw
  pure (
    raw,
    record {
      id = id;
      user_id = user_id;
      token_hash = hash;
      family_id = family_id;
      expires_at = issued_at + s.refresh_token_ttl;
      user_agent = client.user_agent;
      ip_address = client.ip_address;
      last_used_at = issued_at;
      created_at = elim created_at [ none ↦ issued_at | some t ↦ t ];
      updated_at = issued_at;
    },
  )
