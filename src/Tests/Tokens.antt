-- ===== src/Tests/Tokens.antt =====
-- Tokens on concrete inputs.
use text.Mathlib.TextEquality.{eq_iff}
use wow_dashboard_api.Prelude.{
  ℕ, ◌≡◌, refl, sym, ap, ◌∙◌, arith, String, Bool, true, false, not, ◌&&◌, ◌==◌, Option, none, some,
  List, [], ◌∷◌, str_eq, if◌then◌else◌,
}
use wow_dashboard_api.Prelude.Text.{byte_length}
use wow_dashboard_api.Lists.Pagination.{pos}
use wow_dashboard_api.Auth.Tokens.{
  JwtClaims, other_error, Jwt, Manager, refused, secret_too_short, new_manager,
  issue_mfa_pending_token, has_errors, verify_access_token, parse_signed_claims,
  verify_mfa_pending_token,
}
use wow_dashboard_api.Auth.Tokens.Uses.{ticket, token_claims, is_valid, ReadsSigned, verify-issue}

abbrev keys : Manager
keys = record {
  secret = "0123456789abcdef0123456789abcdef";
  issuer = "wow";
  audience = "dashboard";
  ttl = 900;
}

abbrev sample : JwtClaims
sample = record {
  act = "";
  mfa_pending = true;
  subject = "ada";
  issuer = "wow";
  audience = "dashboard" ∷ [];
  issued_at = some 100;
  not_before = some 100;
  expires_at = some 400;
}

abbrev is_only : String → List String → Bool
is_only a [] = false
is_only a (b ∷ []) = str_eq b a
is_only a (b ∷ (c ∷ bs)) = false

abbrev is_at : ℕ → Option ℕ → Bool
is_at n none = false
is_at n (some m) = m == n

is_only_eq : (a : String) (bs : List String) → is_only a bs ≡ true → bs ≡ a ∷ []
is_only_eq a [] e = absurd (ground arith)
is_only_eq a (b ∷ []) e = ap (λ x. x ∷ []) ((eq_iff b a).0 e)
is_only_eq a (b ∷ (c ∷ bs)) e = absurd (ground arith)

is_at_eq : (n : ℕ) (m : Option ℕ) → is_at n m ≡ true → m ≡ some n
is_at_eq n none e = absurd (ground arith)
is_at_eq n (some m) e = ground arith

abbrev is_sample : JwtClaims → Bool
is_sample c =
    str_eq c.act ""
    && c.mfa_pending
    && str_eq c.subject "ada"
    && str_eq c.issuer "wow"
    && is_only "dashboard" c.audience
    && is_at 100 c.issued_at
    && is_at 100 c.not_before
    && is_at 400 c.expires_at

is_sample_eq : (c : JwtClaims) → is_sample c ≡ true → c ≡ sample
is_sample_eq c e =
    let act = (eq_iff c.act "").0 (ground arith) in
    let pending : c.mfa_pending ≡ true = ground arith in
    let subject = (eq_iff c.subject "ada").0 (ground arith) in
    let issuer = (eq_iff c.issuer "wow").0 (ground arith) in
    let audience = is_only_eq "dashboard" c.audience (ground arith) in
    let issued = is_at_eq 100 c.issued_at (ground arith) in
    let before = is_at_eq 100 c.not_before (ground arith) in
    let expires = is_at_eq 400 c.expires_at (ground arith) in
    λ i. record {
      act = act i;
      mfa_pending = pending i;
      subject = subject i;
      issuer = issuer i;
      audience = audience i;
      issued_at = issued i;
      not_before = before i;
      expires_at = expires i;
    }

-- A library that signs one set of claims.
abbrev one_ticket : Jwt
one_ticket = record {
  new_numeric_date = λ at. at;
  signed_string = λ secret c. if is_sample c then some "ticket" else none;
  parse_with_claims =
      λ o secret now raw. (sample, if is_valid o now sample then [] else other_error ∷ []);
}

errors_said : (b : Bool) → has_errors (if b then [] else other_error ∷ []) ≡ not b
errors_said true = refl
errors_said false = refl

one_ticket-ReadsSigned : ReadsSigned one_ticket
one_ticket-ReadsSigned secret raw c o now signed hs256 =
    let same = is_sample_eq c (ground arith) in
    (sym same, errors_said (is_valid o now sample) ∙ ap (λ x. not (is_valid o now x)) (sym same))

verify-issue_example :
    (verify_access_token one_ticket keys "ticket" 200 ≡ none)
    × (verify_mfa_pending_token one_ticket keys "ticket" 200 ≡ some sample)
unfolding issue_mfa_pending_token token_claims
verify-issue_example =
    verify-issue one_ticket keys (ticket "ada" 300) 100 200 "ticket" one_ticket-ReadsSigned refl

expired : verify_mfa_pending_token one_ticket keys "ticket" 400 ≡ none
unfolding verify_mfa_pending_token parse_signed_claims
expired = refl

short_secret : new_manager "short" "wow" "dashboard" (pos 900) ≡ refused secret_too_short
unfolding new_manager byte_length
short_secret = refl
