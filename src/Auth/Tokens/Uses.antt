-- ===== src/Auth/Tokens/Uses.antt =====
-- What a token is good for, and how long: internal/auth/token/token.go.
use text.Mathlib.TextEquality.{eq_iff}
use wow_dashboard_api.Prelude.{
  ℕ, ◌+◌, ◌≡◌, refl, ap, ◌∙◌, inl, inr, arith, String, Bool, true, false, not, ◌&&◌, ◌||◌, Option,
  none, some, ltb, leb, str_eq, exists_where, if◌then◌else◌, Bool-cases,
}
use wow_dashboard_api.Auth.Tokens.{
  JwtClaims, ParserOptions, Jwt, Manager, registered_claims, issue_access_token,
  issue_impersonation_token, issue_mfa_pending_token, signed_options, has_errors,
  parse_signed_claims, where_pending, verify_access_token, verify_mfa_pending_token,
}

-- A token that the package issues: for a user, for a user and who acts for them, or a ticket for the
-- second step of a sign-in, for a time.
pub data Token : Type 0 where
  access : String → Token
  impersonation : String → String → Token
  ticket : String → ℕ → Token

abbrev pub is_ticket : Token → Bool
is_ticket (access user) = false
is_ticket (impersonation target actor) = false
is_ticket (ticket user ttl) = true

abbrev pub lifetime : Manager → Token → ℕ
lifetime m (access user) = m.ttl
lifetime m (impersonation target actor) = m.ttl
lifetime m (ticket user ttl) = ttl

abbrev pub issue : Jwt → Manager → Token → ℕ → Option String
issue jwt m (access user) at = issue_access_token jwt m user at
issue jwt m (impersonation target actor) at = issue_impersonation_token jwt m target actor at
issue jwt m (ticket user ttl) at = issue_mfa_pending_token jwt m user ttl at

unfoldable pub token_claims : Jwt → Manager → Token → ℕ → JwtClaims
unfolding registered_claims
token_claims jwt m (access user) at = registered_claims jwt m user at m.ttl
token_claims jwt m (impersonation target actor) at =
    record (registered_claims jwt m target at m.ttl) { act = actor }
token_claims jwt m (ticket user ttl) at = record (registered_claims jwt m user at ttl) {
  mfa_pending = true;
}

abbrev pub is_since : ℕ → Option ℕ → Bool
is_since now none = true
is_since now (some at) = leb at now

abbrev pub is_before : Bool → ℕ → Option ℕ → Bool
is_before required now none = not required
is_before required now (some at) = ltb now at

-- The checks of the library's validator: exp, nbf, iat, aud and iss, with no leeway.
abbrev pub is_valid : ParserOptions → ℕ → JwtClaims → Bool
is_valid o now c =
    is_before o.expiration_required now c.expires_at
    && is_since now c.not_before
    && (not o.issued_at || is_since now c.issued_at)
    && exists_where (str_eq o.audience) c.audience
    && str_eq o.issuer c.issuer

-- Whether a token that is a ticket, or is not, is of the kind that is asked for.
abbrev is_wanted : Bool → Bool → Bool
is_wanted true is_pending = is_pending
is_wanted false is_pending = not is_pending

-- What the library's parser reads of a text that it signed with the same key.
abbrev pub ReadsSigned : Jwt → Type 0
ReadsSigned jwt =
    (secret raw : String) (c : JwtClaims) (o : ParserOptions) (now : ℕ)
    → jwt.signed_string secret c ≡ some raw
    → exists_where (str_eq "HS256") o.valid_methods ≡ true
    → ((jwt.parse_with_claims o secret now raw).0 ≡ c)
      × (has_errors (jwt.parse_with_claims o secret now raw).1 ≡ not (is_valid o now c))

-- From when it is issued, as the library writes that time, until it expires.
abbrev pub is_alive : Jwt → Manager → Token → ℕ → ℕ → Bool
is_alive jwt m t at now =
    ltb now (jwt.new_numeric_date (at + lifetime m t)) && leb (jwt.new_numeric_date at) now

signed_claims :
    (jwt : Jwt) (m : Manager) (t : Token) (at : ℕ) (raw : String)
    → issue jwt m t at ≡ some raw
    → jwt.signed_string m.secret (token_claims jwt m t at) ≡ some raw
unfolding issue_access_token issue_impersonation_token issue_mfa_pending_token token_claims
signed_claims jwt m (access user) at raw e = ground arith
signed_claims jwt m (impersonation target actor) at raw e = ground arith
signed_claims jwt m (ticket user ttl) at raw e = ground arith

claims-is_valid :
    (jwt : Jwt) (m : Manager) (t : Token) (at now : ℕ)
    → is_valid (signed_options m) now (token_claims jwt m t at) ≡ is_alive jwt m t at now
unfolding token_claims registered_claims
claims-is_valid jwt m t at now =
    let audience = (eq_iff m.audience m.audience).1 refl in
    let issuer = (eq_iff m.issuer m.issuer).1 refl in
    elim t
      as (λ t.
        is_valid (signed_options m) now (token_claims jwt m t at) ≡ is_alive jwt m t at now) [
          | access user ↦ ground (arith, audience, issuer)
          | impersonation target actor ↦ ground (arith, audience, issuer)
          | ticket user ttl ↦ ground (arith, audience, issuer)
        ]

claims-mfa_pending :
    (jwt : Jwt) (m : Manager) (t : Token) (at : ℕ)
    → (token_claims jwt m t at).mfa_pending ≡ is_ticket t
unfolding token_claims registered_claims
claims-mfa_pending jwt m (access user) at = refl
claims-mfa_pending jwt m (impersonation target actor) at = refl
claims-mfa_pending jwt m (ticket user ttl) at = refl

-- What parseSignedClaims reads of an issued token.
parse_signed_claims-issue :
    (jwt : Jwt) (m : Manager) (t : Token) (at now : ℕ) (raw : String)
    → ReadsSigned jwt
    → issue jwt m t at ≡ some raw
    → parse_signed_claims jwt m raw now
      ≡ (if is_alive jwt m t at now then some (token_claims jwt m t at) else none)
unfolding parse_signed_claims
parse_signed_claims-issue jwt m t at now raw reads issued =
    let read =
      reads m.secret raw (token_claims jwt m t at) (signed_options m) now
        (signed_claims jwt m t at raw issued) refl in
    let valid = claims-is_valid jwt m t at now in
    elim (Bool-cases (is_alive jwt m t at now)) [
      | inl alive ↦ rw (read.1, valid, alive) (ap some read.0)
      | inr over ↦ rw (read.1, valid, over) refl
    ]

where_pending_if :
    (wanted alive : Bool) (c : JwtClaims)
    → where_pending wanted (if alive then some c else none)
      ≡ (if is_wanted wanted c.mfa_pending && alive then some c else none)
where_pending_if true true c = elim (Bool-cases c.mfa_pending) [
  | inl e ↦ rw e refl
  | inr e ↦ rw e refl
]
where_pending_if false true c = elim (Bool-cases c.mfa_pending) [
  | inl e ↦ rw e refl
  | inr e ↦ rw e refl
]
where_pending_if true false c = elim (Bool-cases c.mfa_pending) [
  | inl e ↦ rw e refl
  | inr e ↦ rw e refl
]
where_pending_if false false c = elim (Bool-cases c.mfa_pending) [
  | inl e ↦ rw e refl
  | inr e ↦ rw e refl
]

where_pending-issue :
    (wanted : Bool) (jwt : Jwt) (m : Manager) (t : Token) (at now : ℕ) (raw : String)
    → ReadsSigned jwt
    → issue jwt m t at ≡ some raw
    → where_pending wanted (parse_signed_claims jwt m raw now) ≡ (
        if is_wanted wanted (is_ticket t) && is_alive jwt m t at now
        then some (token_claims jwt m t at)
        else none)
where_pending-issue wanted jwt m t at now raw reads issued =
    ap (where_pending wanted) (parse_signed_claims-issue jwt m t at now raw reads issued)
    ∙ where_pending_if wanted (is_alive jwt m t at now) (token_claims jwt m t at)
    ∙ ap
        (λ p.
          if is_wanted wanted p && is_alive jwt m t at now
          then some (token_claims jwt m t at)
          else none)
        (claims-mfa_pending jwt m t at)

-- A token that the package issues is accepted as long as it is alive, with the claims that it was
-- issued with, and for its own use only: a ticket is no access token, and an access token, of an
-- impersonation or not, is no ticket, where the library reads what it signed and checks what its
-- documentation says.
pub verify-issue :
    (jwt : Jwt) (m : Manager) (t : Token) (at now : ℕ) (raw : String)
    → ReadsSigned jwt
    → issue jwt m t at ≡ some raw
    → (verify_access_token jwt m raw now ≡ (
        if not (is_ticket t) && is_alive jwt m t at now
        then some (token_claims jwt m t at)
        else none))
      × (verify_mfa_pending_token jwt m raw now ≡ (
          if is_ticket t && is_alive jwt m t at now then some (token_claims jwt m t at) else none))
unfolding verify_access_token verify_mfa_pending_token
verify-issue jwt m t at now raw reads issued = (
  where_pending-issue false jwt m t at now raw reads issued,
  where_pending-issue true jwt m t at now raw reads issued,
)
