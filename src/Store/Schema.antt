-- ===== src/Store/Schema.antt =====
-- The rows of the tables, from internal/store/query/models.go and the domain packages.
-- An identifier is a number, 0 for uuid.Nil; a time is a number of microseconds.
use wow_dashboard_api.Prelude.{ℕ, String, Bool, Option, List}

pub data UserStatus : Type 0 where
  active disabled : UserStatus

pub record User : Type 0 where
  pub id : ℕ
  pub email : String
  pub display_name : String
  pub password_hash : String
  pub status : UserStatus
  pub created_at : ℕ
  pub updated_at : ℕ
  pub failed_login_count : ℕ
  pub locked_until : Option ℕ
  pub email_verified_at : Option ℕ
  pub avatar_url : String
  pub phone : String
  pub job_title : String
  pub company : String
  pub last_login_at : Option ℕ
  pub mfa_enabled : Bool
  pub mfa_confirmed_at : Option ℕ

pub record RefreshToken : Type 0 where
  pub id : ℕ
  pub user_id : ℕ
  pub token_hash : String
  pub family_id : ℕ
  pub expires_at : ℕ
  pub revoked_at : Option ℕ
  pub replaced_by_token_id : Option ℕ
  pub user_agent : String
  pub ip_address : String
  pub last_used_at : Option ℕ
  pub created_at : ℕ
  pub updated_at : ℕ

pub data Purpose : Type 0 where
  password_reset email_verification : Purpose

pub record AuthToken : Type 0 where
  pub id : ℕ
  pub user_id : ℕ
  pub purpose : Purpose
  pub token_hash : String
  pub expires_at : ℕ
  pub used_at : Option ℕ
  pub created_at : ℕ

pub record MfaSecret : Type 0 where
  pub id : ℕ
  pub user_id : ℕ
  pub secret_encrypted : String
  pub algorithm : String
  pub digits : ℕ
  pub period : ℕ
  pub created_at : ℕ
  pub updated_at : ℕ

pub record RecoveryCode : Type 0 where
  pub id : ℕ
  pub user_id : ℕ
  pub code_hash : String
  pub used_at : Option ℕ
  pub created_at : ℕ

pub record Role : Type 0 where
  pub id : ℕ
  pub name : String
  pub description : String
  pub is_system : Bool
  pub created_at : ℕ
  pub updated_at : ℕ

pub record RolePermission : Type 0 where
  pub role_id : ℕ
  pub permission : String

pub record UserRole : Type 0 where
  pub user_id : ℕ
  pub role_id : ℕ

pub data ProjectStatus : Type 0 where
  active archived : ProjectStatus

pub record Project : Type 0 where
  pub id : ℕ
  pub name : String
  pub description : String
  pub status : ProjectStatus
  pub owner_user_id : ℕ
  pub created_at : ℕ
  pub updated_at : ℕ

pub data ProjectRole : Type 0 where
  viewer editor : ProjectRole

pub record ProjectMember : Type 0 where
  pub project_id : ℕ
  pub user_id : ℕ
  pub role : ProjectRole
  pub created_at : ℕ
  pub updated_at : ℕ

-- A value of a JSON object of metadata.
pub data Json : Type 0 where
  text : String → Json
  texts : List String → Json

pub record SystemEvent : Type 0 where
  pub id : ℕ
  pub event_type : String
  pub message : String
  pub metadata : List (String × Json)
  pub created_at : ℕ

-- A notification about a project; its body and its metadata carry the project.
pub record Notification : Type 0 where
  pub id : ℕ
  pub user_id : ℕ
  pub notification_type : String
  pub title : String
  pub project_id : ℕ
  pub project_name : String
  pub read_at : Option ℕ
  pub created_at : ℕ

pub record Db : Type 0 where
  pub users : List User
  pub refresh_tokens : List RefreshToken
  pub auth_tokens : List AuthToken
  pub mfa_secrets : List MfaSecret
  pub recovery_codes : List RecoveryCode
  pub roles : List Role
  pub role_permissions : List RolePermission
  pub user_roles : List UserRole
  pub projects : List Project
  pub project_members : List ProjectMember
  pub system_events : List SystemEvent
  pub notifications : List Notification

abbrev pub uuid_nil : ℕ
uuid_nil = 0
