-- ===== src/Auth/RefreshTokens/Families.antt =====
-- How many tokens of a family are live, under each statement on the refresh tokens.
use wow_dashboard_api.Prelude.{
  ℕ, ◌+◌, ◌≤◌, ◌≡◌, refl, String, Bool, true, false, some, none, List, [], ◌∷◌, ◌++◌, ◌==◌, ◌&&◌,
  arith, find_where, update_where, count_where, exists_where, count_where-append,
  count_where-update_where-le, count_where-update_where_zero, find_where_missing_of,
  find_where-update_where_missing, find_where_missing-append, str_eq, ◌||◌, ◌∙◌, eq_refl,
}
use wow_dashboard_api.Store.Schema.{RefreshToken}
use wow_dashboard_api.Auth.RefreshTokens.{
  CreateRefreshTokenInput, row_of, is_live, revoke, revoke_where, is_rotatable, replace_by,
  has_hash,
}

abbrev pub is_live_in : ℕ → RefreshToken → Bool
is_live_in family t = t.family_id == family && is_live t

-- The number of tokens of a family that are not revoked.
abbrev pub live_in : ℕ → List RefreshToken → ℕ
live_in family = count_where (is_live_in family)

-- A session is one row: no family has two tokens that are not revoked.
abbrev pub HasOneLivePerFamily : List RefreshToken → Type 0
HasOneLivePerFamily ts = (family : ℕ) → live_in family ts ≤ 1

pub live_in-revoke_where-le :
    (family : ℕ) (p : RefreshToken → Bool) (now : ℕ) (ts : List RefreshToken)
    → live_in family (revoke_where p now ts) ≤ live_in family ts
live_in-revoke_where-le family p now ts =
    count_where-update_where-le (is_live_in family) (λ t. p t && is_live t) (revoke now)
      (λ t. ground arith) ts

-- Revoking a family leaves no live token in it.
pub live_in-revoke_family :
    (family now : ℕ) (ts : List RefreshToken)
    → live_in family (revoke_where (λ t. t.family_id == family) now ts) ≡ 0
live_in-revoke_family family now ts =
    count_where-update_where_zero (is_live_in family) (λ t. t.family_id == family && is_live t)
      (revoke now) (λ t. ground arith) ts

pub live_in-replace-le :
    (family id new_id now : ℕ) (ts : List RefreshToken)
    → live_in family (update_where (is_rotatable id) (replace_by new_id now) ts) ≤ live_in family ts
live_in-replace-le family id new_id now ts =
    count_where-update_where-le (is_live_in family) (is_rotatable id) (replace_by new_id now)
      (λ t. ground arith) ts

-- Replacing a live token takes it out of its family.
pub live_in-replace_found :
    (h : String) (new_id now : ℕ) (ts : List RefreshToken) (t : RefreshToken)
    → find_where (has_hash h) ts ≡ some t
    → is_live t ≡ true
    → live_in t.family_id (update_where (is_rotatable t.id) (replace_by new_id now) ts) + 1
      ≤ live_in t.family_id ts
live_in-replace_found h new_id now [] t e l = cc
live_in-replace_found h new_id now (x ∷ ts) t e l = ground (
  arith,
  live_in-replace_found h new_id now ts t,
  live_in-replace-le t.family_id t.id new_id now ts,
)

-- A rotation keeps at most one live token in each family.
pub rotate-HasOneLivePerFamily :
    (h : String) (now : ℕ) (input : CreateRefreshTokenInput) (ts : List RefreshToken)
    (t : RefreshToken)
    → find_where (has_hash h) ts ≡ some t
    → is_live t ≡ true
    → input.family_id ≡ t.family_id
    → HasOneLivePerFamily ts
    → HasOneLivePerFamily
        (update_where (is_rotatable t.id) (replace_by input.id now) ts ++ row_of input ∷ [])
rotate-HasOneLivePerFamily h now input ts t e l same valid family = ground (
  arith,
  valid family,
  count_where-append (is_live_in family)
      (update_where (is_rotatable t.id) (replace_by input.id now) ts) (row_of input ∷ []),
  live_in-replace_found h input.id now ts t e l,
  live_in-replace-le family t.id input.id now ts,
)

pub revoke_where-HasOneLivePerFamily :
    (p : RefreshToken → Bool) (now : ℕ) (ts : List RefreshToken)
    → HasOneLivePerFamily ts
    → HasOneLivePerFamily (revoke_where p now ts)
revoke_where-HasOneLivePerFamily p now ts valid family =
    omega (arith, valid family, live_in-revoke_where-le family p now ts)

-- The inserted token is the one that its hash finds.
pub find-rotated :
    (old now : ℕ) (input : CreateRefreshTokenInput) (ts : List RefreshToken)
    → exists_where (λ t. t.id == input.id || str_eq t.token_hash input.token_hash) ts ≡ false
    → find_where
        (has_hash input.token_hash)
        (update_where (is_rotatable old) (replace_by input.id now) ts ++ row_of input ∷ [])
      ≡ some (row_of input)
find-rotated old now input ts e =
    let missing : find_where (has_hash input.token_hash) ts ≡ none =
      find_where_missing_of (has_hash input.token_hash)
        (λ t. t.id == input.id || str_eq t.token_hash input.token_hash) (λ t. ground arith) ts e in
    let kept =
      find_where-update_where_missing (has_hash input.token_hash) (is_rotatable old)
        (replace_by input.id now) (λ t. refl) ts missing in
    find_where_missing-append (has_hash input.token_hash) _ _ kept ∙ rw (eq_refl input.token_hash)
