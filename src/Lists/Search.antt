-- ===== src/Lists/Search.antt =====
-- Search terms: escapeLikePattern of internal/store/usersrepo/convert.go and
-- internal/store/projectsrepo/projects.go, and the operator ILIKE of the statements that use it.
use Prim.Native.Char.{Char, code}
use wow_dashboard_api.Prelude.{
  ◌≡◌, refl, ap, ◌∙◌, inl, inr, arith, String, Bool, true, false, ◌&&◌, ◌||◌, ◌==◌, if◌then◌else◌,
  Bool-cases,
}
use wow_dashboard_api.Prelude.Text.{concat, is_empty, lower_from, lower_table}

-- `\`, `%` and `_`
abbrev is_wildcard : Char → Bool
is_wildcard c = code c == 92 || code c == 37 || code c == 95

unfoldable pub escape_like_pattern : String → String
escape_like_pattern String.[] = String.[]
escape_like_pattern (String.◌∷◌ c s) =
    let rest = escape_like_pattern s in
    if is_wildcard c then String.◌∷◌ "\\" (String.◌∷◌ c rest) else String.◌∷◌ c rest

-- Two characters that differ in case at most.
unfoldable pub same_letter : Char → Char → Bool
unfolding lower_from
same_letter a b = code (lower_from lower_table a) == code (lower_from lower_table b)

-- One character of the text, and what follows it.
abbrev pub one : (Char → Bool) → (String → Bool) → String → Bool
one test k String.[] = false
one test k (String.◌∷◌ c t) = test c && k t

-- Any end of the text.
abbrev pub any_end : (String → Bool) → String → Bool
any_end k String.[] = k String.[]
any_end k (String.◌∷◌ c t) = k (String.◌∷◌ c t) || any_end k t

-- ILIKE, where `escaped` says that a `\` stands before.
unfoldable pub ilike_from : Bool → String → String → Bool
unfolding same_letter
ilike_from escaped String.[] t = elim escaped [ true ↦ false | false ↦ is_empty t ]
ilike_from true (String.◌∷◌ c p) t = one (same_letter c) (ilike_from false p) t
ilike_from false (String.◌∷◌ c p) t =
    let quoted = ilike_from true p t in
    let anything = any_end (ilike_from false p) t in
    let anyone = one (λ _. true) (ilike_from false p) t in
    let letter = one (same_letter c) (ilike_from false p) t in
    if code c == 92
    then quoted
    else (if code c == 37 then anything else (if code c == 95 then anyone else letter))

-- column ILIKE '%' || search || '%'
unfoldable pub ilike_contains : String → String → Bool
unfolding ilike_from
ilike_contains search t = ilike_from false (String.◌∷◌ "%" (concat search "%")) t

-- The text goes on with `s`, up to case, and then as `k` says.
abbrev pub follows : String → (String → Bool) → String → Bool
follows String.[] k t = k t
follows (String.◌∷◌ c s) k t = one (same_letter c) (follows s k) t

-- The text holds `s`, up to case.
abbrev pub holds_text : String → String → Bool
holds_text s t = any_end (follows s (λ _. true)) t

one_cong :
    (test : Char → Bool) (k l : String → Bool)
    → ((t : String) → k t ≡ l t)
    → (t : String) → one test k t ≡ one test l t
one_cong test k l same String.[] = refl
one_cong test k l same (String.◌∷◌ c t) = ap (λ b. test c && b) (same t)

any_end_cong :
    (k l : String → Bool) → ((t : String) → k t ≡ l t) → (t : String) → any_end k t ≡ any_end l t
any_end_cong k l same String.[] = same String.[]
any_end_cong k l same (String.◌∷◌ c t) =
    ap (λ b. b || any_end k t) (same (String.◌∷◌ c t))
    ∙ ap (λ b. l (String.◌∷◌ c t) || b) (any_end_cong k l same t)

any_end-is_empty : (t : String) → any_end is_empty t ≡ true
any_end-is_empty String.[] = refl
any_end-is_empty (String.◌∷◌ c t) = any_end-is_empty t

-- An escaped term is matched as it stands.
ilike_from-escape :
    (s : String) (t : String)
    → ilike_from false (concat (escape_like_pattern s) "%") t ≡ follows s (λ _. true) t
unfolding escape_like_pattern ilike_from
ilike_from-escape String.[] t = any_end-is_empty t
ilike_from-escape (String.◌∷◌ c s) t =
    let rest =
      one_cong (same_letter c) (ilike_from false (concat (escape_like_pattern s) "%"))
        (follows s (λ _. true)) (ilike_from-escape s) t in
    elim (Bool-cases (is_wildcard c)) [
      | inl wild ↦ rw wild rest
      | inr plain ↦
          let no_escape : (code c == 92) ≡ false = ground arith in
          let no_percent : (code c == 37) ≡ false = ground arith in
          let no_line : (code c == 95) ≡ false = ground arith in
          rw plain (rw (no_escape, no_percent, no_line) rest)
    ]

-- A search finds the texts that hold the term, up to the case of letters: the wildcards of LIKE in
-- the term stand for themselves.
pub ilike_contains-escape_like_pattern :
    (s t : String) → ilike_contains (escape_like_pattern s) t ≡ holds_text s t
unfolding ilike_contains ilike_from
ilike_contains-escape_like_pattern s t =
    any_end_cong (ilike_from false (concat (escape_like_pattern s) "%")) (follows s (λ _. true))
      (ilike_from-escape s) t
