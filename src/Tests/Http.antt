-- ===== src/Tests/Http.antt =====
-- Handlers and middleware on concrete inputs.
use wow_dashboard_api.Prelude.{
  ℕ, ◌≡◌, ◌≢◌, refl, ap, arith, inl, inr, String, Bool, true, false, Option, none, some, List, [],
  ◌∷◌, str_eq, if◌then◌else◌,
}
use wow_dashboard_api.Prelude.Text.{is_empty}
use wow_dashboard_api.Auth.Service.{Service}
use wow_dashboard_api.Http.Errors.{new_error, code_forbidden, for_context}
use wow_dashboard_api.Http.Endpoint.{refusal}
use wow_dashboard_api.Http.Tokens.{parse_bearer_token}
use wow_dashboard_api.Http.Tokens.Roundtrip.{parse_bearer_token-access_cookie_bridge}
use wow_dashboard_api.Http.Cookies.{default_refresh_cookie_config, default_access_cookie_config}
use wow_dashboard_api.Http.Auth.{AuthApi, AuthSessionResponse, session_response}
use wow_dashboard_api.Http.Guards.{IsRefused}
use wow_dashboard_api.Http.Guards.Protected.{
  Services, ProtectedRequest, patch_user, create_role, handle, handle-IsRefused,
}
use wow_dashboard_api.Http.Guards.Admins.{patch_user_handler-AdminsKept}
use wow_dashboard_api.Http.Guards.Personal.{mfa_disable, handle_personal, handle_personal-IsRefused}
use wow_dashboard_api.Http.Users.{UserPatch, patch_user_handler}
use wow_dashboard_api.Http.Middleware.{HttpRequest, access_cookie_bridge, cookie_chain}
use wow_dashboard_api.Http.Middleware.Csrf.{IsTrusted, cookie_chain-IsTrusted}
use wow_dashboard_api.Users.Guards.Safety.{AdminsKept}
use wow_dashboard_api.Tests.{service, env, world}
use wow_dashboard_api.Tests.SignIn.{session}
use wow_dashboard_api.Tests.Mfa.{mfa_service, enrolled_world}
use wow_dashboard_api.Tests.Roles.{admin_role}
use wow_dashboard_api.Tests.Users.{users, user_env, user_world}

abbrev api : AuthApi
api = record {
  service = service;
  refresh_cookie = default_refresh_cookie_config;
  access_cookie = default_access_cookie_config;
  parse_cookie = λ text. some (("wow_dashboard_refresh_token", text) ∷ []);
}

abbrev services : Services
services = record {
  auth = api;
  users = users;
  roles = record { unit_of_work = true; audit_recorder = true };
  projects = record { unit_of_work = true; audit_recorder = true };
  formats = record {
    encode_base64 = λ raw. raw;
    decode_base64 = λ coded. some coded;
    format_time = λ at. "";
    parse_time = λ written. none;
  };
  parse_rfc3339 = λ written. none;
}

abbrev disabling : UserPatch
disabling = record {
  status = some "disabled";
  role_ids = none;
  avatar_url = none;
  phone = none;
  job_title = none;
  company = none;
}

-- Ada has no roles in `world`.
handle-IsRefused_example :
    IsRefused world (handle services "Bearer access" (patch_user "bob" disabling) env world)
unfolding wow_dashboard_api.Http.Guards.Protected.is_permitted parse_bearer_token
    wow_dashboard_api.Rbac.has_permission
handle-IsRefused_example =
    handle-IsRefused services "Bearer access" (patch_user "bob" disabling) env world refl

-- A token of Bob's, who is no administrator, is used to disable Ada, who is.
abbrev bobs_service : Service
bobs_service = record service {
  token_manager = record service.token_manager {
    verify_access_token = λ raw n. some (record { subject = "bob"; act = "" });
  };
}

patch_user_handler-AdminsKept_example :
    AdminsKept user_world.db
      (patch_user_handler bobs_service users "Bearer access" "ada" disabling user_env
        user_world).1.db
unfolding wow_dashboard_api.Users.Service.can_grant_system_admin parse_bearer_token
patch_user_handler-AdminsKept_example =
    patch_user_handler-AdminsKept bobs_service users "Bearer access" "ada" disabling user_env
      user_world admin_role 2 refl refl refl refl

-- A token with which "root" acts as Ada.
abbrev acting_api : AuthApi
acting_api = record api {
  service = record service {
    token_manager = record service.token_manager {
      verify_access_token = λ raw n. some (record { subject = "ada"; act = "root" });
    };
  };
}

handle_personal-IsRefused_example : IsRefused enrolled_world (
    handle_personal acting_api mfa_service "Bearer access"
      (mfa_disable "correct horse" "123456")
      env
      enrolled_world)
unfolding wow_dashboard_api.Prelude.Text.trim_space parse_bearer_token
handle_personal-IsRefused_example =
    handle_personal-IsRefused acting_api mfa_service "Bearer access"
      (mfa_disable "correct horse" "123456") env enrolled_world refl

abbrev gated_response : AuthSessionResponse
gated_response = session_response api session

-- A request with an access cookie, from a listed origin.
abbrev cookie_request : HttpRequest
cookie_request = record {
  method = "POST";
  authorization = "";
  sec_fetch_site = "cross-site";
  origin = "https://dashboard.example";
  cookie = λ name. if str_eq name "access" then some "jwt" else none;
}

cookie_chain-IsTrusted_example : IsTrusted (" https://dashboard.example" ∷ []) cookie_request
unfolding cookie_chain access_cookie_bridge wow_dashboard_api.Prelude.Text.trim_space
cookie_chain-IsTrusted_example =
    cookie_chain-IsTrusted (" https://dashboard.example" ∷ []) "access" "refresh" cookie_request
      (access_cookie_bridge "access" cookie_request) env world refl refl refl
      (λ blank. (let empty = ap is_empty blank in absurd (ground arith)))

cross_site_blocked :
    (cookie_chain ("https://other.example" ∷ []) "access" "refresh" cookie_request env world).0
    ≡ refusal (for_context env (new_error code_forbidden "Cross-site request blocked."))
unfolding cookie_chain
cross_site_blocked = refl

parse_bearer_token-access_cookie_bridge_example :
    parse_bearer_token (access_cookie_bridge "access" cookie_request).authorization ≡ some "jwt"
unfolding wow_dashboard_api.Prelude.Text.is_space
parse_bearer_token-access_cookie_bridge_example =
    parse_bearer_token-access_cookie_bridge "access" "jwt" cookie_request refl refl refl refl refl
