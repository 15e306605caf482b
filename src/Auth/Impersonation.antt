-- ===== src/Auth/Impersonation.antt =====
-- The account behind an access token, and impersonation: CurrentUser, Impersonate, RefreshSession
-- and StopImpersonation of internal/auth/service/service.go.
pub mod Guards
pub mod Identity
use wow_dashboard_api.Prelude.{
  ℕ, String, Bool, true, false, Option, none, some, List, ◌||◌, not, str_eq, is_some, exists_where,
  if◌then◌else◌,
}
use wow_dashboard_api.Prelude.Text.{trim_space, is_empty}
use wow_dashboard_api.Store.Schema.{User}
use wow_dashboard_api.Store.Effect.{
  Action, Error, Result, ok, err, Env, user_not_found, invalid_input, invalid_token, user_disabled,
  cannot_impersonate, impersonation_active, pure, raise, raise_if, asks, attempt, external,
  or_raise, or_else, ◌>>=◌, ◌>>◌, when◌then◌else◌,
}
use wow_dashboard_api.Auth.Users.{get_user_by_id, get_user_roles, get_user_permissions}
use wow_dashboard_api.Auth.Audit.{AuditEvent, AuditMetadata, no_metadata, record_audit}
use wow_dashboard_api.Auth.Service.{Service, Claims, PublicUser, Session, is_disabled, status_text}
use wow_dashboard_api.Auth.Sessions.{refresh}
use wow_dashboard_api.Rbac.{has_permission, permission_all}

unfoldable pub is_admin : List String → List String → Bool
unfolding has_permission
is_admin roles permissions =
    has_permission permissions permission_all
    || exists_where (λ role. str_eq (trim_space role) "admin") roles

abbrev pub profile : Env → User → List String → List String → PublicUser
profile env user roles permissions = record {
  id = env.uuid_string user.id;
  email = user.email;
  display_name = user.display_name;
  status = status_text user.status;
  email_verified = is_some user.email_verified_at;
  avatar_url = user.avatar_url;
  phone = user.phone;
  job_title = user.job_title;
  company = user.company;
  last_login_at = user.last_login_at;
  mfa_enabled = user.mfa_enabled;
  roles = roles;
  permissions = permissions;
  impersonator_id = "";
  impersonator_email = "";
}

abbrev actor_email : Result User → String
actor_email (ok actor) = actor.email
actor_email (err _) = ""

-- The email of the actor, if its identifier is one and its account is found.
abbrev lookup_actor : Option ℕ → Action String
lookup_actor none = pure ""
lookup_actor (some id) = do found ← attempt (get_user_by_id id); pure (actor_email found)

unfoldable pub with_actor : Claims → PublicUser → Action PublicUser
unfolding get_user_by_id
with_actor claims user = when is_empty (trim_space claims.act) then pure user else (do
  parse ← asks (λ env. env.parse_uuid)
  email ← lookup_actor (parse (trim_space claims.act))
  pure (record user { impersonator_id = trim_space claims.act; impersonator_email = email }))

unfoldable pub current_user : Service → String → Action PublicUser
unfolding get_user_by_id get_user_roles get_user_permissions with_actor
current_user s raw_access_token = do
  claims ←
      or_else (λ _. invalid_token)
        (external λ env n. s.token_manager.verify_access_token raw_access_token n)
  parse ← asks (λ env. env.parse_uuid)
  id ← or_raise (parse claims.subject) invalid_token
  user ← get_user_by_id id
  raise_if (is_disabled user) user_disabled
  roles ← get_user_roles id
  permissions ← get_user_permissions id
  public ← asks (λ env. profile env user roles permissions)
  with_actor claims public

abbrev impersonation_event : String → String → String → String → AuditEvent
impersonation_event event_type message actor target = record {
  event_type = event_type;
  message = message;
  metadata = record no_metadata { actor_user_id = actor; target_user_id = target };
}

abbrev target_missing : Error → Error
target_missing user_not_found = cannot_impersonate
target_missing e = e

-- The session of an impersonation: the target's, with no refresh token.
abbrev pub impersonation_session : PublicUser → PublicUser → String → Session
impersonation_session actor target access = record {
  user = record target {
    mfa_enabled = false;
    impersonator_id = actor.id;
    impersonator_email = actor.email;
  };
  access_token = access;
  refresh_token = "";
  mfa_required = false;
  mfa_pending_token = "";
}

-- Impersonate after the target is found.
unfoldable pub impersonate_found : Service → PublicUser → ℕ → User → Action Session
unfolding get_user_roles get_user_permissions is_admin record_audit
impersonate_found s actor id target = do
  raise_if (is_disabled target) cannot_impersonate
  roles ← get_user_roles id
  permissions ← get_user_permissions id
  raise_if (is_admin roles permissions) cannot_impersonate
  target_id ← asks (λ env. env.uuid_string id)
  access ← external λ env n. s.token_manager.issue_impersonation_token target_id actor.id n
  record_audit s.audit_recorder
      (impersonation_event "auth.impersonation.started" "Impersonation started." actor.id target_id)
  public ← asks (λ env. profile env target roles permissions)
  pure (impersonation_session actor public access)

-- The actor is none for Go's nil.
unfoldable pub impersonate : Service → Option PublicUser → String → Action Session
unfolding get_user_by_id impersonate_found
impersonate s none target_id = raise invalid_input
impersonate s (some actor) target_id = do
  parse ← asks (λ env. env.parse_uuid)
  id ← or_raise (parse (trim_space target_id)) invalid_input
  text ← asks (λ env. env.uuid_string id)
  raise_if (str_eq text actor.id) cannot_impersonate
  target ← or_else target_missing (get_user_by_id id)
  impersonate_found s actor id target

-- Whether claims name an actor.
abbrev pub names_actor : Option Claims → Bool
names_actor none = false
names_actor (some claims) = not (is_empty (trim_space claims.act))

unfoldable pub refresh_session : Service → String → String → Action Session
unfolding refresh
refresh_session s raw_current raw_refresh = do
  raise_if
      (if is_empty (trim_space raw_current)
        then false
        else names_actor (s.token_manager.parse_claims_allow_expired raw_current))
      impersonation_active
  refresh s raw_refresh

abbrev record_stop : Service → Option Claims → Action (Unit {0})
record_stop s none = pure tt
record_stop s (some claims) =
    when is_empty (trim_space claims.act)
    then pure tt
    else record_audit s.audit_recorder (
        impersonation_event "auth.impersonation.stopped" "Impersonation stopped." claims.act
          claims.subject)

unfoldable pub stop_impersonation : Service → String → String → Action Session
unfolding refresh record_audit
stop_impersonation s raw_current raw_refresh = do
  session ← refresh s raw_refresh
  record_stop s (s.token_manager.parse_claims_allow_expired raw_current)
  pure session
