-- ===== src/Http/Middleware/Csrf.antt =====
-- Cross-site requests: CSRFGuard before AccessCookieBridge, internal/http/middleware/cookieauth.go.
use mathlib.Core.List.{Memᴰ}
use wow_dashboard_api.Prelude.{
  ◌≡◌, ◌≢◌, ◌⊎◌, refl, ap, inl, inr, arith, String, true, false, not, List, [], ◌∷◌, ◌&&◌, str_eq,
  eq_iff, Bool-cases, Option-cases,
}
use wow_dashboard_api.Prelude.Text.{trim_space, is_empty}
use wow_dashboard_api.Store.Effect.{Env, World}
use wow_dashboard_api.Http.Endpoint.{reply}
use wow_dashboard_api.Http.Middleware.{
  HttpRequest, is_state_changing_method, request_has_any_cookie, is_allowlisted, origin_allowed,
  origin_is_trusted, csrf_guard, access_cookie_bridge, cookie_chain,
}

-- The browser says that the request is from the same origin or the user's own, or the origin that
-- it names is on the list.
abbrev pub IsTrusted : List String → HttpRequest → Type 0
IsTrusted origins r =
    (r.sec_fetch_site ≡ "same-origin")
    ⊎ ((r.sec_fetch_site ≡ "none")
        ⊎ ((o : String) × Memᴰ o origins
            × (trim_space o ≡ trim_space r.origin)
            × (trim_space r.origin ≢ "")))

is_allowlisted-member :
    (origins : List String) (origin : String)
    → is_allowlisted origins origin ≡ true
    → (o : String) × Memᴰ o origins × (trim_space o ≡ origin)
unfolding is_allowlisted
is_allowlisted-member [] origin e = absurd (ground arith)
is_allowlisted-member (o ∷ origins) origin e =
    elim (Bool-cases (not (is_empty (trim_space o)) && str_eq (trim_space o) origin)) [
      | inl here ↦ (o, Memᴰ.head refl, (eq_iff (trim_space o) origin).0 (ground arith))
      | inr elsewhere ↦
          let (p, listed, same) = is_allowlisted-member origins origin (ground arith) in
          (p, Memᴰ.tail listed, same)
    ]

origin_is_trusted-IsTrusted :
    (origins : List String) (r : HttpRequest)
    → origin_is_trusted origins r ≡ true
    → IsTrusted origins r
unfolding origin_is_trusted origin_allowed
origin_is_trusted-IsTrusted origins r e =
    elim (Bool-cases (str_eq r.sec_fetch_site "same-origin")) [
      | inl same ↦ inl ((eq_iff r.sec_fetch_site "same-origin").0 same)
      | inr other ↦ elim (Bool-cases (str_eq r.sec_fetch_site "none")) [
        | inl own ↦ inr (inl ((eq_iff r.sec_fetch_site "none").0 own))
        | inr cross ↦
            let (o, listed, same) =
              is_allowlisted-member origins (trim_space r.origin) (ground arith) in
            let nonblank : is_empty (trim_space r.origin) ≡ false = ground arith in
            inr (inr (o, listed, same, λ blank. (let empty = ap is_empty blank in ground arith)))
      ]
    ]

-- What the guard lets through it lets through unchanged.
csrf_guard-trusted :
    (origins cookies : List String) (r r' : HttpRequest) (env : Env) (w : World)
    → (csrf_guard origins cookies r env w).0 ≡ reply r'
    → is_state_changing_method r.method ≡ true
    → request_has_any_cookie r cookies ≡ true
    → (r' ≡ r) × (origin_is_trusted origins r ≡ true)
unfolding csrf_guard
csrf_guard-trusted origins cookies r r' env w e changing carried = (ground arith, ground arith)

-- A request that changes state, has no Authorization header of its own and reaches the handlers
-- with one is from the same origin or the user's own, as the browser says, or from a listed origin.
pub cookie_chain-IsTrusted :
    (origins : List String) (access refresh : String) (r r' : HttpRequest) (env : Env) (w : World)
    → (cookie_chain origins access refresh r env w).0 ≡ reply r'
    → is_state_changing_method r.method ≡ true
    → r.authorization ≡ ""
    → r'.authorization ≢ ""
    → IsTrusted origins r
unfolding cookie_chain csrf_guard access_cookie_bridge request_has_any_cookie
cookie_chain-IsTrusted origins access refresh r r' env w e changing bare bearing =
    elim (Option-cases (r.cookie access)) [
      | inl missing ↦ absurd (ground arith)
      | inr (value, sent) ↦ elim (Bool-cases (is_empty access)) [
        | inl nameless ↦ absurd (ground arith)
        | inr named ↦ origin_is_trusted-IsTrusted origins r (ground arith)
      ]
    ]
