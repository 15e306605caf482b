-- ===== src/Http/Middleware.antt =====
-- The middleware around cookies: AccessCookieBridge and CSRFGuard of
-- internal/http/middleware/cookieauth.go, in the order of internal/app/app.go.
pub mod Csrf
use wow_dashboard_api.Prelude.{
  String, Bool, true, false, not, Option, none, some, List, [], ◌∷◌, ◌&&◌, ◌||◌, str_eq, is_some,
  exists_where, if◌then◌else◌,
}
use wow_dashboard_api.Prelude.Text.{trim_space, is_empty, concat}
use wow_dashboard_api.Http.Errors.{ApiError, new_error, code_forbidden}
use wow_dashboard_api.Http.Endpoint.{Endpoint, pure, refuse_if, ◌>>=◌, ◌>>◌}

-- What the middleware reads of an http.Request. A header that is not sent is empty, and `cookie`
-- is the value of the cookie of a name, as Request.Cookie finds it.
pub record HttpRequest : Type 0 where
  pub method : String
  pub authorization : String
  pub sec_fetch_site : String
  pub origin : String
  pub cookie : String → Option String

abbrev pub is_state_changing_method : String → Bool
is_state_changing_method method =
    str_eq method "POST" || str_eq method "PUT" || str_eq method "PATCH" || str_eq method "DELETE"

unfoldable pub request_has_any_cookie : HttpRequest → List String → Bool
request_has_any_cookie r names =
    exists_where (λ name. not (is_empty name) && is_some (r.cookie name)) names

-- The allowlist: the origins that are given, trimmed, less those that are blank.
unfoldable pub is_allowlisted : List String → String → Bool
unfolding trim_space
is_allowlisted origins origin =
    exists_where (λ o. not (is_empty (trim_space o)) && str_eq (trim_space o) origin) origins

unfoldable pub origin_allowed : List String → HttpRequest → Bool
unfolding trim_space is_allowlisted
origin_allowed origins r =
    not (is_empty (trim_space r.origin)) && is_allowlisted origins (trim_space r.origin)

unfoldable pub origin_is_trusted : List String → HttpRequest → Bool
unfolding origin_allowed
origin_is_trusted origins r =
    if str_eq r.sec_fetch_site "same-origin" || str_eq r.sec_fetch_site "none"
    then true
    else origin_allowed origins r

unfoldable pub csrf_guard : List String → List String → HttpRequest → Endpoint HttpRequest
unfolding request_has_any_cookie origin_is_trusted
csrf_guard origins cookies r = do
  refuse_if
      (is_state_changing_method r.method
        && request_has_any_cookie r cookies
        && not (origin_is_trusted origins r))
      (new_error code_forbidden "Cross-site request blocked.")
  pure r

abbrev bearing : HttpRequest → Option String → HttpRequest
unfolding trim_space
bearing r none = r
bearing r (some value) =
    if is_empty (trim_space value)
    then r
    else (record r { authorization = concat "Bearer " (trim_space value) })

unfoldable pub access_cookie_bridge : String → HttpRequest → HttpRequest
unfolding trim_space
access_cookie_bridge name r =
    if not (is_empty name) && is_empty r.authorization then bearing r (r.cookie name) else r

-- The part of the chain that reads cookies.
unfoldable pub cookie_chain : List String → String → String → HttpRequest → Endpoint HttpRequest
unfolding csrf_guard access_cookie_bridge
cookie_chain origins access_cookie refresh_cookie r = do
  guarded ← csrf_guard origins (access_cookie ∷ refresh_cookie ∷ []) r
  pure (access_cookie_bridge access_cookie guarded)
