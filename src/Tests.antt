-- ===== src/Tests.antt =====
-- Concrete inputs for the tests: a service, a request and a small database.
pub mod Sessions
pub mod SignIn
pub mod Passwords
pub mod SignUp
pub mod Projects
pub mod Mfa
pub mod Roles
pub mod Users
pub mod Lists
pub mod Impersonation
pub mod Profile
pub mod Http
pub mod Notifications
pub mod Tokens
pub mod RateLimit
pub mod SystemEvents
use wow_dashboard_api.Prelude.{
  ℕ, ◌+◌, String, Bool, true, false, Option, none, some, List, [], ◌∷◌, str_eq,
}
use wow_dashboard_api.Store.Schema.{
  User, RefreshToken, AuthToken, Db, active, disabled, password_reset,
}
use wow_dashboard_api.Store.Effect.{Env, World, ClientInfo, Action, ok, reading}
use wow_dashboard_api.Auth.Service.{Service, TokenManager, PasswordHasher, Claims}

abbrev pub service : Service
service = record {
  refresh_token_store = true;
  auth_token_store = true;
  unit_of_work = true;
  audit_recorder = true;
  security_alerter = true;
  mfa_verifier = some (λ user code. reading (λ env n. str_eq code "123456"));
  token_manager = record {
    issue_access_token = λ subject n. some "access";
    issue_impersonation_token = λ subject actor n. some "impersonation";
    issue_mfa_pending_token = λ subject ttl n. some "ticket";
    verify_access_token = λ raw n. some (record { subject = "ada"; act = "" });
    verify_mfa_pending_token = λ raw n. some (record { subject = "ada"; act = "" });
    parse_claims_allow_expired = λ raw. some (record { subject = "ada"; act = "" });
  };
  password = record {
    hash = λ password n. some password;
    verify = λ password hash. some (str_eq password hash);
  };
  refresh_token_ttl = 1_000;
  max_failed_login_attempts = 2;
  account_lockout_window = 500;
}

abbrev pub env : Env
env = record {
  fails = λ n. false;
  clock = λ n. 100 + n;
  new_uuid = λ n. 50 + n;
  random_token = λ n. some "fresh";
  parse_uuid = λ text. some 1;
  uuid_string = λ id. "ada";
  parse_address = λ text. some text;
  sha256_hex = λ text. text;
  request_id = "request";
  impersonator = "";
  client = record { user_agent = "browser"; ip_address = "192.0.2.1" };
}

abbrev pub ada : User
ada = record {
  id = 1;
  email = "ada@example.com";
  display_name = "Ada";
  password_hash = "correct horse";
  status = active;
  created_at = 10;
  updated_at = 10;
  failed_login_count = 0;
  locked_until = none;
  email_verified_at = none;
  avatar_url = "";
  phone = "";
  job_title = "";
  company = "";
  last_login_at = none;
  mfa_enabled = true;
  mfa_confirmed_at = some 12;
}

abbrev pub token : RefreshToken
token = record {
  id = 7;
  user_id = 1;
  token_hash = "old";
  family_id = 3;
  expires_at = 900;
  revoked_at = none;
  replaced_by_token_id = none;
  user_agent = "browser";
  ip_address = "192.0.2.1";
  last_used_at = some 20;
  created_at = 20;
  updated_at = 20;
}

abbrev pub reset : AuthToken
reset = record {
  id = 9;
  user_id = 1;
  purpose = password_reset;
  token_hash = "reset";
  expires_at = 900;
  used_at = none;
  created_at = 30;
}

abbrev pub empty_db : Db
empty_db = record {
  users = [];
  refresh_tokens = [];
  auth_tokens = [];
  mfa_secrets = [];
  recovery_codes = [];
  roles = [];
  role_permissions = [];
  user_roles = [];
  projects = [];
  project_members = [];
  system_events = [];
  notifications = [];
}

abbrev pub world : World
world = record {
  calls = 0;
  db = record empty_db { users = ada ∷ []; refresh_tokens = token ∷ []; auth_tokens = reset ∷ [] };
  mails = [];
  alerts = [];
}
