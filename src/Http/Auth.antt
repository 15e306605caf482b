-- ===== src/Http/Auth.antt =====
-- The handlers of sign-in and of sessions: internal/http/handlers/auth.go. The token of an access
-- goes out in a cookie alone. The limiter of attempts, the handlers' middleware, is in Middleware.
pub mod Account
pub mod Cookies
use wow_dashboard_api.Prelude.{
  ℕ, String, Bool, true, false, Option, none, some, List, [], ◌∷◌, ◌++◌, if◌then◌else◌,
}
use wow_dashboard_api.Prelude.Text.{is_empty}
use wow_dashboard_api.Auth.Service.{Service, PublicUser, Session}
use wow_dashboard_api.Auth.SignUp.{SignUpInput, sign_up}
use wow_dashboard_api.Auth.SignIn.{SignInInput, sign_in}
use wow_dashboard_api.Auth.MfaSignIn.{complete_mfa_sign_in}
use wow_dashboard_api.Auth.Sessions.{sign_out, sign_out_other_sessions}
use wow_dashboard_api.Auth.Impersonation.{impersonate, refresh_session, stop_impersonation}
use wow_dashboard_api.Rbac.{permission_all}
use wow_dashboard_api.Http.Errors.{ApiError, new_error, code_unauthorized, map_auth_error}
use wow_dashboard_api.Http.Endpoint.{Endpoint, pure, call, or_refuse, ◌>>=◌, ◌>>◌}
use wow_dashboard_api.Http.Tokens.{parse_bearer_token, parse_cookie_value}
use wow_dashboard_api.Http.Authorize.{authorize_with_permission, token_missing}
use wow_dashboard_api.Http.Cookies.{
  CookieConfig, Cookie, new_cookie, clear_cookie, new_mfa_pending_cookie, clear_mfa_pending_cookie,
  mfa_pending_config,
}

-- What RegisterAuthWithCookies is given, with http.ParseCookie. The configurations have their
-- defaults.
pub record AuthApi : Type 0 where
  pub service : Service
  pub refresh_cookie : CookieConfig
  pub access_cookie : CookieConfig
  pub parse_cookie : String → Option (List (String × String))

pub record AuthUser : Type 0 where
  pub id : String
  pub email : String
  pub display_name : String

pub record AuthSessionResponse : Type 0 where
  pub set_cookie : List Cookie
  pub user : AuthUser
  pub mfa_required : Bool

pub record AuthSuccessResponse : Type 0 where
  pub set_cookie : List Cookie
  pub success : Bool

abbrev pub public_user_response : PublicUser → AuthUser
public_user_response user = record {
  id = user.id;
  email = user.email;
  display_name = user.display_name;
}

abbrev given_cookie : CookieConfig → String → List Cookie
unfolding new_cookie
given_cookie cfg value = if is_empty value then [] else new_cookie cfg value ∷ []

unfoldable pub session_response : AuthApi → Session → AuthSessionResponse
unfolding new_cookie new_mfa_pending_cookie
session_response api session =
    if session.mfa_required
    then (record {
      set_cookie = new_mfa_pending_cookie api.refresh_cookie session.mfa_pending_token ∷ [];
      user = public_user_response session.user;
      mfa_required = true;
    })
    else (record {
      set_cookie =
          given_cookie api.access_cookie session.access_token
          ++ given_cookie api.refresh_cookie session.refresh_token;
      user = public_user_response session.user;
      mfa_required = false;
    })

abbrev pub succeeded : AuthSuccessResponse
succeeded = record { set_cookie = []; success = true }

abbrev pub signed_out : AuthApi → AuthSuccessResponse
unfolding clear_cookie
signed_out api = record {
  set_cookie = clear_cookie api.refresh_cookie ∷ clear_cookie api.access_cookie ∷ [];
  success = true;
}

-- The refresh token among the cookies of a request.
abbrev pub refresh_token_of : AuthApi → String → Option String
unfolding parse_cookie_value
refresh_token_of api cookie = parse_cookie_value api.parse_cookie cookie api.refresh_cookie.name

-- A token that may be missing, as the empty text.
abbrev pub or_blank : Option String → String
or_blank none = ""
or_blank (some raw) = raw

unfoldable pub sign_up_handler : AuthApi → SignUpInput → Endpoint AuthSessionResponse
unfolding sign_up session_response map_auth_error
sign_up_handler api input = do
  session ← call map_auth_error (sign_up api.service input)
  pure (session_response api session)

unfoldable pub sign_in_handler : AuthApi → SignInInput → Endpoint AuthSessionResponse
unfolding sign_in session_response map_auth_error
sign_in_handler api input = do
  session ← call map_auth_error (sign_in api.service input)
  pure (session_response api session)

abbrev sign_in_expired : ApiError
sign_in_expired = new_error code_unauthorized "Your sign-in session expired. Sign in again."

unfoldable pub mfa_verify_handler : AuthApi → String → String → Endpoint AuthSessionResponse
unfolding parse_cookie_value complete_mfa_sign_in session_response map_auth_error
    clear_mfa_pending_cookie
mfa_verify_handler api cookie code = do
  pending ←
      or_refuse
        (parse_cookie_value api.parse_cookie cookie (mfa_pending_config api.refresh_cookie).name)
        sign_in_expired
  session ← call map_auth_error (complete_mfa_sign_in api.service pending code)
  pure (record (session_response api session) {
    set_cookie =
        (session_response api session).set_cookie
        ++ clear_mfa_pending_cookie api.refresh_cookie ∷ [];
  })

unfoldable pub refresh_handler : AuthApi → String → String → Endpoint AuthSessionResponse
unfolding parse_cookie_value parse_bearer_token refresh_session session_response map_auth_error
refresh_handler api header cookie = do
  raw ← or_refuse (refresh_token_of api cookie) token_missing
  session ←
      call map_auth_error (refresh_session api.service (or_blank (parse_bearer_token header)) raw)
  pure (session_response api session)

unfoldable pub impersonate_handler : AuthApi → String → String → Endpoint AuthSessionResponse
unfolding authorize_with_permission impersonate session_response map_auth_error
impersonate_handler api header target = do
  admin ← authorize_with_permission api.service header permission_all
  session ← call map_auth_error (impersonate api.service (some admin) target)
  pure (session_response api session)

unfoldable pub stop_impersonation_handler : AuthApi → String → String → Endpoint AuthSessionResponse
unfolding parse_cookie_value parse_bearer_token stop_impersonation session_response map_auth_error
stop_impersonation_handler api header cookie = do
  raw ← or_refuse (refresh_token_of api cookie) token_missing
  session ←
      call map_auth_error
        (stop_impersonation api.service (or_blank (parse_bearer_token header)) raw)
  pure (session_response api session)

abbrev sign_out_given : AuthApi → Option String → Endpoint (Unit {0})
unfolding sign_out map_auth_error
sign_out_given api none = pure tt
sign_out_given api (some raw) = call map_auth_error (sign_out api.service raw)

unfoldable pub sign_out_handler : AuthApi → String → Endpoint AuthSuccessResponse
unfolding parse_cookie_value clear_cookie sign_out map_auth_error
sign_out_handler api cookie = do
  sign_out_given api (refresh_token_of api cookie)
  pure (signed_out api)

abbrev refresh_missing : ApiError
refresh_missing = new_error code_unauthorized "Refresh token cookie missing."

unfoldable pub sign_out_others_handler : AuthApi → String → Endpoint AuthSuccessResponse
unfolding parse_cookie_value sign_out_other_sessions map_auth_error
sign_out_others_handler api cookie = do
  raw ← or_refuse (refresh_token_of api cookie) refresh_missing
  call map_auth_error (sign_out_other_sessions api.service raw)
  pure succeeded
