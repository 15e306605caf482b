-- ===== src/Http/Errors.antt =====
-- Errors as clients see them: internal/http/apierror/apierror.go, and the functions of
-- internal/http/handlers that map the errors of the services.
use wow_dashboard_api.Prelude.{ℕ, String, Option, none, some}
use wow_dashboard_api.Store.Effect.{
  Env, Error, invalid_input, email_already_exists, invalid_credentials, user_disabled,
  invalid_mfa_code, invalid_token, cannot_impersonate, impersonation_active, user_not_found,
  session_not_found, self_modification, insufficient_privilege, not_found, name_conflict,
  role_in_use, system_role, forbidden, member_conflict, invalid_code, not_enrolling,
  mfa_already_enabled,
}

pub data Code : Type 0 where
  code_bad_request code_unauthorized code_forbidden code_not_found code_conflict : Code
  code_validation_failed code_rate_limited code_service_unavailable code_internal_error : Code

-- StatusForCode
unfoldable pub status_for_code : Code → ℕ
status_for_code code_bad_request = 400
status_for_code code_unauthorized = 401
status_for_code code_forbidden = 403
status_for_code code_not_found = 404
status_for_code code_conflict = 409
status_for_code code_validation_failed = 422
status_for_code code_rate_limited = 429
status_for_code code_service_unavailable = 503
status_for_code code_internal_error = 500

pub record ApiError : Type 0 where
  pub code : Code
  pub message : String
  pub status : ℕ
  pub request_id : String
  -- never shown to clients
  pub cause : Option Error

-- New
abbrev pub new_error : Code → String → ApiError
unfolding status_for_code
new_error code message = record {
  code = code;
  message = message;
  status = status_for_code code;
  request_id = "";
  cause = none;
}

-- ForContext
abbrev pub for_context : Env → ApiError → ApiError
for_context env e = record e { request_id = env.request_id }

-- InternalError
abbrev pub internal_error : Error → ApiError
internal_error cause =
    record (new_error code_internal_error "An internal error occurred. Please try again later.") {
      cause = some cause;
    }

unfoldable pub map_auth_error : Error → ApiError
map_auth_error invalid_input = new_error code_validation_failed "Invalid authentication request."
map_auth_error email_already_exists =
    new_error code_conflict "There already exists an account with the given email address."
map_auth_error invalid_credentials = new_error code_unauthorized "Invalid email or password."
map_auth_error user_disabled = new_error code_forbidden "User account is disabled."
map_auth_error invalid_mfa_code =
    new_error code_validation_failed
      "That code is not valid. Try the current code from your authenticator app, or a recovery code."
map_auth_error invalid_token = new_error code_unauthorized "Authorization token missing or invalid."
map_auth_error cannot_impersonate =
    new_error code_validation_failed "This user cannot be impersonated."
map_auth_error impersonation_active =
    new_error code_conflict "Stop impersonation before refreshing the session."
map_auth_error user_not_found = new_error code_unauthorized "Invalid authorization token."
map_auth_error session_not_found = new_error code_not_found "Session not found."
map_auth_error e = internal_error e

unfoldable pub map_users_error : Error → ApiError
map_users_error self_modification =
    new_error code_forbidden "Administrators cannot change their own status or roles."
map_users_error insufficient_privilege =
    new_error code_forbidden "You do not have permission to perform this action."
map_users_error invalid_input = new_error code_validation_failed "Invalid users request."
map_users_error not_found = new_error code_not_found "User not found."
map_users_error e = internal_error e

unfoldable pub map_roles_error : Error → ApiError
map_roles_error invalid_input = new_error code_validation_failed "Invalid roles request."
map_roles_error not_found = new_error code_not_found "Role not found."
map_roles_error name_conflict = new_error code_conflict "A role with that name already exists."
map_roles_error role_in_use =
    new_error code_conflict "This role is assigned to one or more users and cannot be deleted."
map_roles_error system_role =
    new_error code_conflict "Built-in system roles cannot be modified or deleted."
map_roles_error e = internal_error e

unfoldable pub map_projects_error : Error → ApiError
map_projects_error invalid_input = new_error code_validation_failed "Invalid projects request."
map_projects_error not_found = new_error code_not_found "Project not found."
map_projects_error forbidden =
    new_error code_forbidden "You do not have permission to perform this action on the project."
map_projects_error name_conflict = new_error code_conflict "Project name already exists."
map_projects_error member_conflict =
    new_error code_conflict "That user already has access to the project."
map_projects_error e = internal_error e

unfoldable pub map_mfa_error : Error → ApiError
map_mfa_error invalid_code =
    new_error code_validation_failed
      "That code is not valid. Try the current code from your authenticator app."
map_mfa_error not_enrolling = new_error code_conflict "Start MFA setup before confirming."
map_mfa_error mfa_already_enabled = new_error code_conflict "MFA is already enabled."
map_mfa_error e = internal_error e

unfoldable pub map_notifications_error : Error → ApiError
map_notifications_error invalid_input =
    new_error code_validation_failed "Invalid notifications request."
map_notifications_error e = internal_error e

unfoldable pub map_system_events_error : Error → ApiError
map_system_events_error invalid_input =
    new_error code_validation_failed "Invalid system events query."
map_system_events_error e = internal_error e
