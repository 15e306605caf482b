-- ===== src/Auth/Tokens.antt =====
-- Access tokens and tickets: Manager of internal/auth/token/token.go. What github.com/golang-jwt/jwt
-- does is a parameter; times are in microseconds.
pub mod Uses
use wow_dashboard_api.Prelude.{
  ℕ, ◌+◌, String, Bool, true, false, not, ◌||◌, Option, none, some, List, [], ◌∷◌, ltb,
  exists_where, if◌then◌else◌,
}
use wow_dashboard_api.Prelude.Text.{is_empty, byte_length}
use wow_dashboard_api.Lists.Pagination.{ℤ, pos, negsuc}

-- Claims of the package, with those of jwt.RegisteredClaims that it sets.
pub record JwtClaims : Type 0 where
  pub act : String
  pub mfa_pending : Bool
  pub subject : String
  pub issuer : String
  pub audience : List String
  pub issued_at : Option ℕ
  pub not_before : Option ℕ
  pub expires_at : Option ℕ

pub data JwtError : Type 0 where
  token_expired token_signature_invalid token_malformed token_invalid_issuer : JwtError
  token_invalid_audience other_error : JwtError

pub record ParserOptions : Type 0 where
  pub valid_methods : List String
  pub issuer : String
  pub audience : String
  pub expiration_required : Bool
  pub issued_at : Bool

-- The library: NewNumericDate, SignedString with HS256 by a key, and ParseWithClaims by a key at a
-- time, with the claims that it fills in and the errors that its answer joins.
pub record Jwt : Type 0 where
  pub new_numeric_date : ℕ → ℕ
  pub signed_string : String → JwtClaims → Option String
  pub parse_with_claims : ParserOptions → String → ℕ → String → JwtClaims × List JwtError

pub record Manager : Type 0 where
  pub secret : String
  pub issuer : String
  pub audience : String
  pub ttl : ℕ

pub data ManagerError : Type 0 where
  secret_too_short empty_issuer empty_audience invalid_ttl : ManagerError

pub data NewManager : Type 0 where
  manager : Manager → NewManager
  refused : ManagerError → NewManager

unfoldable pub new_manager : String → String → String → ℤ → NewManager
unfolding byte_length
new_manager secret issuer audience (negsuc n) =
    if ltb (byte_length secret) 32
    then refused secret_too_short
    else if is_empty issuer
    then refused empty_issuer
    else if is_empty audience
    then refused empty_audience
    else refused invalid_ttl
new_manager secret issuer audience (pos ttl) =
    if ltb (byte_length secret) 32
    then refused secret_too_short
    else if is_empty issuer
    then refused empty_issuer
    else if is_empty audience
    then refused empty_audience
    else if ltb 0 ttl
    then manager (record { secret = secret; issuer = issuer; audience = audience; ttl = ttl })
    else refused invalid_ttl

-- The claims that the three kinds of tokens share.
unfoldable pub registered_claims : Jwt → Manager → String → ℕ → ℕ → JwtClaims
registered_claims jwt m subject now ttl = record {
  act = "";
  mfa_pending = false;
  subject = subject;
  issuer = m.issuer;
  audience = m.audience ∷ [];
  issued_at = some (jwt.new_numeric_date now);
  not_before = some (jwt.new_numeric_date now);
  expires_at = some (jwt.new_numeric_date (now + ttl));
}

unfoldable pub issue_access_token : Jwt → Manager → String → ℕ → Option String
unfolding registered_claims
issue_access_token jwt m user_id now =
    if is_empty user_id
    then none
    else jwt.signed_string m.secret (registered_claims jwt m user_id now m.ttl)

unfoldable pub issue_impersonation_token : Jwt → Manager → String → String → ℕ → Option String
unfolding registered_claims
issue_impersonation_token jwt m target_id actor_id now =
    if is_empty target_id || is_empty actor_id
    then none
    else jwt.signed_string m.secret
        (record (registered_claims jwt m target_id now m.ttl) { act = actor_id })

unfoldable pub issue_mfa_pending_token : Jwt → Manager → String → ℕ → ℕ → Option String
unfolding registered_claims
issue_mfa_pending_token jwt m user_id ttl now =
    if is_empty user_id
    then none
    else jwt.signed_string m.secret
        (record (registered_claims jwt m user_id now ttl) { mfa_pending = true })

abbrev pub signed_options : Manager → ParserOptions
signed_options m = record {
  valid_methods = "HS256" ∷ [];
  issuer = m.issuer;
  audience = m.audience;
  expiration_required = true;
  issued_at = true;
}

abbrev pub has_errors : List JwtError → Bool
has_errors [] = false
has_errors (e ∷ es) = true

unfoldable pub parse_signed_claims : Jwt → Manager → String → ℕ → Option JwtClaims
parse_signed_claims jwt m raw now =
    let (claims, errors) = jwt.parse_with_claims (signed_options m) m.secret now raw in
    if has_errors errors then none else some claims

abbrev pub where_pending : Bool → Option JwtClaims → Option JwtClaims
where_pending pending none = none
where_pending true (some claims) = if claims.mfa_pending then some claims else none
where_pending false (some claims) = if claims.mfa_pending then none else some claims

unfoldable pub verify_access_token : Jwt → Manager → String → ℕ → Option JwtClaims
unfolding parse_signed_claims
verify_access_token jwt m raw now = where_pending false (parse_signed_claims jwt m raw now)

unfoldable pub verify_mfa_pending_token : Jwt → Manager → String → ℕ → Option JwtClaims
unfolding parse_signed_claims
verify_mfa_pending_token jwt m raw now = where_pending true (parse_signed_claims jwt m raw now)

abbrev pub is_expiry : JwtError → Bool
is_expiry token_expired = true
is_expiry e = false

-- The errors that ParseClaimsAllowExpired does not tolerate.
abbrev pub is_untrustworthy : JwtError → Bool
is_untrustworthy token_signature_invalid = true
is_untrustworthy token_malformed = true
is_untrustworthy token_invalid_issuer = true
is_untrustworthy token_invalid_audience = true
is_untrustworthy e = false

unfoldable pub parse_claims_allow_expired : Jwt → Manager → String → ℕ → Option JwtClaims
parse_claims_allow_expired jwt m raw now =
    let options = record (signed_options m) { expiration_required = false } in
    let (claims, errors) = jwt.parse_with_claims options m.secret now raw in
    if has_errors errors
    then (if not (exists_where is_expiry errors) || exists_where is_untrustworthy errors
        then none
        else some claims)
    else some claims
