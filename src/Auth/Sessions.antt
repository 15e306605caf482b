-- ===== src/Auth/Sessions.antt =====
-- Sessions: the parts of internal/auth/service/service.go that issue, rotate, list and revoke
-- refresh tokens.
pub mod Rotation
pub mod Reuse
pub mod Revocation
use wow_dashboard_api.Prelude.{
  ℕ, String, Bool, true, false, Option, none, some, List, [], ◌∷◌, map, ◌==◌, ◌&&◌, ◌||◌, not, ltb,
  is_some, if◌then◌else◌,
}
use wow_dashboard_api.Prelude.Text.{trim_space, is_empty}
use wow_dashboard_api.Store.Schema.{User, RefreshToken, uuid_nil}
use wow_dashboard_api.Store.Effect.{
  Action, Error, Result, ok, err, Env, ClientInfo, refresh_token_not_found, user_not_found,
  invalid_token, user_disabled, session_not_found, internal, pure, raise, raise_if, asks, attempt,
  external, or_else, ◌>>=◌, when◌then◌else◌, ◌>>◌,
}
use wow_dashboard_api.Auth.RefreshTokens.{
  create_refresh_token, get_refresh_token_by_hash, rotate_refresh_token,
  revoke_refresh_token_by_hash, revoke_refresh_token_family, revoke_all_for_user_except_family,
  list_active_sessions, revoke_family_for_user,
}
use wow_dashboard_api.Auth.Users.{get_user_by_id}
use wow_dashboard_api.Auth.Audit.{AuditEvent, AuditMetadata, no_metadata, record_audit}
use wow_dashboard_api.Auth.Service.{
  Service, Session, PublicUser, public_user_from_domain, is_disabled, new_refresh_token_input,
  hash_refresh_token, now,
}

abbrev pub session_of : PublicUser → String → String → Session
session_of user access refresh = record {
  user = user;
  access_token = access;
  refresh_token = refresh;
  mfa_required = false;
  mfa_pending_token = "";
}

abbrev pub request_access_token : Service → ℕ → Action String
request_access_token s user =
    external λ env n. s.token_manager.issue_access_token (env.uuid_string user) n

store_session : Service → User → ℕ → PublicUser → String → Action Session
unfolding create_refresh_token new_refresh_token_input
store_session s user family public access = do
  client ← asks (λ env. env.client)
  (raw, input) ← new_refresh_token_input s user.id family client none
  create_refresh_token input
  pure (session_of public access raw)

unfoldable pub issue_session : Service → User → ℕ → Action Session
unfolding store_session
issue_session s user family = do
  access ← request_access_token s user.id
  public ← asks (λ env. public_user_from_domain env user)
  when s.refresh_token_store
      then store_session s user family public access
      else pure (session_of public access "")

-- What follows the statement that rotates: a conflict revokes the family.
abbrev pub settle_rotation : RefreshToken → ℕ → Session → Result RefreshToken → Action Session
settle_rotation current revoked_at session (ok _) = pure session
settle_rotation current revoked_at session (err refresh_token_not_found) = do
  revoke_refresh_token_family current.family_id revoked_at
  raise invalid_token
settle_rotation current revoked_at session (err e) = raise e

unfoldable pub rotate_session : Service → User → RefreshToken → ℕ → Action Session
unfolding new_refresh_token_input rotate_refresh_token revoke_refresh_token_family
rotate_session s user current revoked_at = do
  access ← request_access_token s user.id
  public ← asks (λ env. public_user_from_domain env user)
  (raw, input) ←
      new_refresh_token_input s user.id current.family_id
        (record { user_agent = current.user_agent; ip_address = current.ip_address })
        (some current.created_at)
  rotated ← attempt (rotate_refresh_token current.id input revoked_at)
  settle_rotation current revoked_at (session_of public access raw) rotated

-- A revoked token that is presented again gives the whole family away.
abbrev reuse_detected : RefreshToken → ℕ → Action Session
reuse_detected current now = do
  revoke_refresh_token_family current.family_id now
  raise invalid_token

abbrev pub token_missing : Error → Error
token_missing refresh_token_not_found = invalid_token
token_missing e = e

abbrev pub owner_missing : Error → Error
owner_missing user_not_found = invalid_token
owner_missing e = e

-- The part of Refresh after the token is found.
refresh_found : Service → RefreshToken → Action Session
unfolding revoke_refresh_token_family get_user_by_id
refresh_found s current = do
  at ← now
  when is_some current.revoked_at then reuse_detected current at else (do
    raise_if (not (ltb at current.expires_at)) invalid_token
    user ← or_else owner_missing (get_user_by_id current.user_id)
    raise_if (is_disabled user) user_disabled
    rotate_session s user current at)

unfoldable pub refresh : Service → String → Action Session
unfolding get_refresh_token_by_hash refresh_found
refresh s raw = do
  raise_if (not s.refresh_token_store) invalid_token
  raise_if (is_empty (trim_space raw)) invalid_token
  hash ← hash_refresh_token (trim_space raw)
  current ← or_else token_missing (get_refresh_token_by_hash hash)
  refresh_found s current

abbrev ignore_missing : Result (Unit {0}) → Action (Unit {0})
ignore_missing (ok _) = pure tt
ignore_missing (err refresh_token_not_found) = pure tt
ignore_missing (err e) = raise e

abbrev revoke_presented : String → Action (Unit {0})
revoke_presented raw = do
  hash ← hash_refresh_token raw
  at ← now
  revoked ← attempt (revoke_refresh_token_by_hash hash at)
  ignore_missing revoked

unfoldable pub sign_out : Service → String → Action (Unit {0})
unfolding revoke_refresh_token_by_hash
sign_out s raw =
    when not s.refresh_token_store || is_empty (trim_space raw)
    then pure tt
    else revoke_presented (trim_space raw)

abbrev pub user_event : String → String → String → AuditEvent
user_event event_type message user_id = record {
  event_type = event_type;
  message = message;
  metadata = record no_metadata { user_id = user_id };
}

unfoldable pub sign_out_other_sessions : Service → String → Action (Unit {0})
unfolding get_refresh_token_by_hash revoke_all_for_user_except_family record_audit
sign_out_other_sessions s raw = do
  raise_if (not s.refresh_token_store) internal
  raise_if (is_empty (trim_space raw)) invalid_token
  hash ← hash_refresh_token (trim_space raw)
  current ← or_else token_missing (get_refresh_token_by_hash hash)
  at ← now
  raise_if (is_some current.revoked_at || not (ltb at current.expires_at)) invalid_token
  revoke_all_for_user_except_family current.user_id current.family_id at
  user_id ← asks (λ env. env.uuid_string current.user_id)
  record_audit s.audit_recorder
      (user_event "auth.sessions.revoked_others" "Other sessions revoked." user_id)

pub record SessionInfo : Type 0 where
  pub id : String
  pub user_agent : String
  pub ip_address : String
  pub last_used_at : Option ℕ
  pub created_at : ℕ
  pub current : Bool

abbrev pub session_info : (ℕ → String) → ℕ → RefreshToken → SessionInfo
session_info uuid_string current_family t = record {
  id = uuid_string t.family_id;
  user_agent = t.user_agent;
  ip_address = t.ip_address;
  last_used_at = t.last_used_at;
  created_at = t.created_at;
  current = not (current_family == uuid_nil) && t.family_id == current_family;
}

abbrev family_of_current : ℕ → Result RefreshToken → ℕ
family_of_current user (err _) = uuid_nil
family_of_current user (ok t) =
    if not (t.user_id == user) || is_some t.revoked_at then uuid_nil else t.family_id

unfoldable pub current_family_id : ℕ → String → Action ℕ
unfolding get_refresh_token_by_hash
current_family_id user raw = when is_empty (trim_space raw) then pure uuid_nil else (do
  hash ← hash_refresh_token (trim_space raw)
  found ← attempt (get_refresh_token_by_hash hash)
  pure (family_of_current user found))

unfoldable pub list_sessions : Service → ℕ → String → Action (List SessionInfo)
unfolding list_active_sessions
list_sessions s user raw = do
  raise_if (not s.refresh_token_store) internal
  tokens ← list_active_sessions user
  family ← current_family_id user raw
  uuid_string ← asks (λ env. env.uuid_string)
  pure (map (session_info uuid_string family) tokens)

unfoldable pub revoke_session : Service → ℕ → ℕ → Action (Unit {0})
unfolding revoke_family_for_user record_audit
revoke_session s user family = do
  raise_if (not s.refresh_token_store) internal
  at ← now
  revoked ← revoke_family_for_user user family at
  raise_if (revoked == 0) session_not_found
  user_id ← asks (λ env. env.uuid_string user)
  record_audit s.audit_recorder (user_event "auth.session.revoked" "Session revoked." user_id)
