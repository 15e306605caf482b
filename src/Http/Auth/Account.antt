-- ===== src/Http/Auth/Account.antt =====
-- The handlers of a user's own account: passwords, addresses, sessions and the profile, in
-- internal/http/handlers/auth.go.
use wow_dashboard_api.Prelude.{ℕ, String, Bool, Option, List}
use wow_dashboard_api.Auth.Service.{PublicUser}
use wow_dashboard_api.Auth.Sessions.{SessionInfo, list_sessions, revoke_session}
use wow_dashboard_api.Auth.Passwords.{change_password, forgot_password, reset_password}
use wow_dashboard_api.Auth.Emails.{verify_email, resend_verification}
use wow_dashboard_api.Auth.Profile.{UpdateMyProfileInput, update_my_profile}
use wow_dashboard_api.Http.Errors.{ApiError, new_error, code_validation_failed, map_auth_error}
use wow_dashboard_api.Http.Endpoint.{Endpoint, pure, call, or_refuse, ◌>>=◌, ◌>>◌}
use wow_dashboard_api.Http.Tokens.{parse_bearer_token, parse_cookie_value}
use wow_dashboard_api.Http.Authorize.{authenticate, current_user_id, token_missing}
use wow_dashboard_api.Http.Cookies.{clear_cookie}
use wow_dashboard_api.Http.Auth.{
  AuthApi, AuthSuccessResponse, succeeded, signed_out, refresh_token_of, or_blank,
}

pub record AuthMeUser : Type 0 where
  pub id : String
  pub email : String
  pub display_name : String
  pub email_verified : Bool
  pub avatar_url : String
  pub phone : String
  pub job_title : String
  pub company : String
  pub last_login_at : Option ℕ
  pub mfa_enabled : Bool
  pub roles : List String
  pub permissions : List String
  pub impersonator_id : String
  pub impersonator_email : String

abbrev pub me_user_response : PublicUser → AuthMeUser
me_user_response user = record {
  id = user.id;
  email = user.email;
  display_name = user.display_name;
  email_verified = user.email_verified;
  avatar_url = user.avatar_url;
  phone = user.phone;
  job_title = user.job_title;
  company = user.company;
  last_login_at = user.last_login_at;
  mfa_enabled = user.mfa_enabled;
  roles = user.roles;
  permissions = user.permissions;
  impersonator_id = user.impersonator_id;
  impersonator_email = user.impersonator_email;
}

abbrev sessions_impersonated : String
sessions_impersonated = "Sessions cannot be managed while impersonating a user."

unfoldable pub sessions_handler : AuthApi → String → String → Endpoint (List SessionInfo)
unfolding current_user_id parse_cookie_value list_sessions map_auth_error
sessions_handler api header cookie = do
  user_id ← current_user_id api.service header sessions_impersonated
  call map_auth_error (list_sessions api.service user_id (or_blank (refresh_token_of api cookie)))

abbrev invalid_session : ApiError
invalid_session = new_error code_validation_failed "Invalid session id."

unfoldable pub revoke_session_handler : AuthApi → String → String → Endpoint AuthSuccessResponse
unfolding current_user_id revoke_session map_auth_error
revoke_session_handler api header session_id = do
  user_id ← current_user_id api.service header sessions_impersonated
  family_id ← λ env. or_refuse (env.parse_uuid session_id) invalid_session env
  call map_auth_error (revoke_session api.service user_id family_id)
  pure succeeded

unfoldable pub change_password_handler :
    AuthApi → String → String → String → Endpoint AuthSuccessResponse
unfolding parse_bearer_token change_password map_auth_error clear_cookie
change_password_handler api header current_password new_password = do
  raw ← or_refuse (parse_bearer_token header) token_missing
  call map_auth_error (change_password api.service raw current_password new_password)
  pure (signed_out api)

unfoldable pub forgot_password_handler : AuthApi → String → Endpoint AuthSuccessResponse
unfolding forgot_password map_auth_error
forgot_password_handler api email = do
  call map_auth_error (forgot_password api.service email)
  pure succeeded

unfoldable pub reset_password_handler : AuthApi → String → String → Endpoint AuthSuccessResponse
unfolding reset_password map_auth_error
reset_password_handler api token new_password = do
  call map_auth_error (reset_password api.service token new_password)
  pure succeeded

unfoldable pub verify_email_handler : AuthApi → String → Endpoint AuthSuccessResponse
unfolding verify_email map_auth_error
verify_email_handler api token = do
  call map_auth_error (verify_email api.service token)
  pure succeeded

unfoldable pub resend_verification_handler : AuthApi → String → Endpoint AuthSuccessResponse
unfolding parse_bearer_token resend_verification map_auth_error
resend_verification_handler api header = do
  raw ← or_refuse (parse_bearer_token header) token_missing
  call map_auth_error (resend_verification api.service raw)
  pure succeeded

unfoldable pub me_handler : AuthApi → String → Endpoint AuthMeUser
unfolding authenticate
me_handler api header = do user ← authenticate api.service header; pure (me_user_response user)

unfoldable pub patch_me_handler : AuthApi → String → UpdateMyProfileInput → Endpoint AuthMeUser
unfolding parse_bearer_token update_my_profile map_auth_error
patch_me_handler api header input = do
  raw ← or_refuse (parse_bearer_token header) token_missing
  user ← call map_auth_error (update_my_profile api.service raw input)
  pure (me_user_response user)
