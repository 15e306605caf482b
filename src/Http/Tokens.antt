-- ===== src/Http/Tokens.antt =====
-- The tokens of a request: parseBearerToken and parseCookieValue of
-- internal/http/handlers/auth.go, on texts as Go's `strings` splits them.

pub mod Roundtrip
use Prim.Native.Char.{Char}
use wow_dashboard_api.Prelude.{
  ℕ, String, Bool, true, false, Option, none, some, List, [], ◌∷◌, ◌||◌, str_eq, if◌then◌else◌,
}
use wow_dashboard_api.Prelude.Text.{trim_space, is_empty, is_space, to_lower}

-- A character before the fields of the rest: it belongs to the first of them if no space stands
-- between.
abbrev cons_field : Bool → Char → List String → List String
cons_field apart c [] = String.◌∷◌ c String.[] ∷ []
cons_field true c (f ∷ fs) = String.◌∷◌ c String.[] ∷ f ∷ fs
cons_field false c (f ∷ fs) = String.◌∷◌ c f ∷ fs

abbrev starts_with_space : String → Bool
unfolding is_space
starts_with_space String.[] = true
starts_with_space (String.◌∷◌ c s) = is_space c

-- strings.Fields
unfoldable pub fields : String → List String
unfolding is_space
fields String.[] = []
fields (String.◌∷◌ c s) =
    let rest = fields s in if is_space c then rest else cons_field (starts_with_space s) c rest

-- strings.EqualFold, of the letters A to Z.
abbrev pub equal_fold : String → String → Bool
unfolding to_lower
equal_fold a b = str_eq (to_lower a) (to_lower b)

abbrev bearer_of : List String → Option String
unfolding to_lower
bearer_of (scheme ∷ token ∷ []) = if equal_fold scheme "Bearer" then some token else none
bearer_of _ = none

unfoldable pub parse_bearer_token : String → Option String
unfolding trim_space fields to_lower
parse_bearer_token header = bearer_of (fields (trim_space header))

abbrev given_value : String → Option String
unfolding trim_space
given_value value = if is_empty (trim_space value) then none else some (trim_space value)

unfoldable pub cookie_value : String → List (String × String) → Option String
unfolding trim_space
cookie_value name [] = none
cookie_value name ((n, value) ∷ cookies) =
    let rest = cookie_value name cookies in if str_eq n name then given_value value else rest

abbrev value_among : String → Option (List (String × String)) → Option String
unfolding cookie_value
value_among name none = none
value_among name (some cookies) = cookie_value name cookies

-- `parse` stands for http.ParseCookie.
unfoldable pub parse_cookie_value :
    (String → Option (List (String × String))) → String → String → Option String
unfolding trim_space cookie_value
parse_cookie_value parse header name =
    if is_empty (trim_space header) || is_empty (trim_space name)
    then none
    else value_among name (parse (trim_space header))
