-- ===== src/Http/Authorize.antt =====
-- Who a request is from, and what they may do: authorizeWithPermission and requirePermission of
-- internal/http/handlers/users.go and authz.go, authenticateProjects of projects.go,
-- authenticateForMfa of mfa.go and currentUserID of auth.go.
use wow_dashboard_api.Prelude.{ℕ, String, not}
use wow_dashboard_api.Prelude.Text.{is_empty}
use wow_dashboard_api.Store.Effect.{invalid_uuid}
use wow_dashboard_api.Rbac.{has_permission}
use wow_dashboard_api.Auth.Service.{Service, PublicUser}
use wow_dashboard_api.Auth.Impersonation.{current_user}
use wow_dashboard_api.Http.Errors.{
  ApiError, new_error, code_unauthorized, code_forbidden, internal_error, map_auth_error,
}
use wow_dashboard_api.Http.Endpoint.{Endpoint, pure, or_refuse, refuse_if, call, ◌>>=◌, ◌>>◌}
use wow_dashboard_api.Http.Tokens.{parse_bearer_token}

abbrev pub token_missing : ApiError
token_missing = new_error code_unauthorized "Authorization token missing or invalid."

-- The lines that every handler with a bearer token starts with. CurrentUser answers a user where
-- it answers no error.
unfoldable pub authenticate : Service → String → Endpoint PublicUser
unfolding parse_bearer_token current_user map_auth_error
authenticate s header = do
  raw ← or_refuse (parse_bearer_token header) token_missing
  call map_auth_error (current_user s raw)

abbrev pub permission_missing : ApiError
permission_missing = new_error code_forbidden "You do not have permission to perform this action."

unfoldable pub require_permission : PublicUser → String → Endpoint (Unit {0})
unfolding has_permission
require_permission user perm =
    refuse_if (not (has_permission user.permissions perm)) permission_missing

unfoldable pub authorize_with_permission : Service → String → String → Endpoint PublicUser
unfolding authenticate require_permission
authorize_with_permission s header perm = do
  user ← authenticate s header
  require_permission user perm
  pure user

-- An impersonation does not reach the user's own security settings.
unfoldable pub authenticate_in_person : Service → String → String → Endpoint PublicUser
unfolding authenticate
authenticate_in_person s header message = do
  user ← authenticate s header
  refuse_if (not (is_empty user.impersonator_id)) (new_error code_forbidden message)
  pure user

unfoldable pub authenticate_for_mfa : Service → String → Endpoint PublicUser
unfolding authenticate_in_person
authenticate_for_mfa s header =
    authenticate_in_person s header "MFA cannot be managed while impersonating a user."

unfoldable pub current_user_id : Service → String → String → Endpoint ℕ
unfolding authenticate_in_person
current_user_id s header message = do
  user ← authenticate_in_person s header message
  λ env. or_refuse (env.parse_uuid user.id) (internal_error invalid_uuid) env
