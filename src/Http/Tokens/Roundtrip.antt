-- ===== src/Http/Tokens/Roundtrip.antt =====
-- From the cookie to the handler: AccessCookieBridge of internal/http/middleware/cookieauth.go
-- writes what parseBearerToken of internal/http/handlers/auth.go reads.
use wow_dashboard_api.Prelude.{
  ◌≡◌, refl, ap, ◌∙◌, arith, String, Bool, true, false, not, some, [], ◌∷◌, ◌&&◌,
}
use wow_dashboard_api.Prelude.Text.{
  trim_space, trim_left, trim_right, is_empty, is_space, concat, to_lower,
}
use wow_dashboard_api.Http.Tokens.{fields, parse_bearer_token}
use wow_dashboard_api.Http.Middleware.{HttpRequest, access_cookie_bridge}

-- A text with no space in it.
abbrev pub has_no_space : String → Bool
has_no_space String.[] = true
has_no_space (String.◌∷◌ c s) = not (is_space c) && has_no_space s

trim_right_none : (s : String) → has_no_space s ≡ true → trim_right s ≡ s
unfolding trim_right
trim_right_none String.[] e = refl
trim_right_none (String.◌∷◌ c s) e = (let rest = trim_right_none s (ground arith) in ground arith)

trim_space_none : (s : String) → has_no_space s ≡ true → trim_space s ≡ s
unfolding trim_space trim_left
trim_space_none String.[] e = refl
trim_space_none (String.◌∷◌ c s) e =
    let plain : is_space c ≡ false = ground arith in
    rw (trim_right_none (String.◌∷◌ c s) e) (rw plain refl)

-- A text with no space in it is one field.
fields_none : (s : String) → has_no_space s ≡ true → is_empty s ≡ false → fields s ≡ s ∷ []
unfolding fields
fields_none String.[] e filled = absurd (ground arith)
fields_none (String.◌∷◌ c String.[]) e filled = ground arith
fields_none (String.◌∷◌ c (String.◌∷◌ d s)) e filled =
    let rest = fields_none (String.◌∷◌ d s) (ground arith) refl in ground arith

trim_right-bearer :
    (value : String)
    → has_no_space value ≡ true
    → is_empty value ≡ false
    → trim_right (concat "Bearer " value) ≡ concat "Bearer " value
unfolding trim_right is_space
trim_right-bearer value e filled = rw (trim_right_none value e) (rw filled refl)

parse_bearer_token-bearer :
    (value : String)
    → has_no_space value ≡ true
    → is_empty value ≡ false
    → parse_bearer_token (concat "Bearer " value) ≡ some value
unfolding parse_bearer_token trim_space trim_left trim_right fields is_space to_lower
parse_bearer_token-bearer value e filled =
    rw (trim_right_none value e) (rw filled (rw (fields_none value e filled) refl))

access_cookie_bridge-bearer :
    (name value : String) (r : HttpRequest)
    → is_empty name ≡ false
    → is_empty r.authorization ≡ true
    → r.cookie name ≡ some value
    → is_empty (trim_space value) ≡ false
    → (access_cookie_bridge name r).authorization ≡ concat "Bearer " (trim_space value)
unfolding access_cookie_bridge
access_cookie_bridge-bearer name value r named bare sent filled =
    rw (named, bare, sent, filled) refl

-- The token in a cookie, a text with no space, is the bearer token that a handler reads, where the
-- request has no Authorization header.
pub parse_bearer_token-access_cookie_bridge :
    (name value : String) (r : HttpRequest)
    → is_empty name ≡ false
    → r.authorization ≡ ""
    → r.cookie name ≡ some value
    → has_no_space value ≡ true
    → is_empty value ≡ false
    → parse_bearer_token (access_cookie_bridge name r).authorization ≡ some value
parse_bearer_token-access_cookie_bridge name value r named bare sent e filled =
    let whole = trim_space_none value e in
    ap parse_bearer_token (
      access_cookie_bridge-bearer name value r named (ap is_empty bare) sent
        (ap is_empty whole ∙ filled)
      ∙ ap (concat "Bearer ") whole)
    ∙ parse_bearer_token-bearer value e filled
