-- ===== src/Lists/Keyset.antt =====
-- The rows of a page, and its last row.
pub mod Order
use wow_dashboard_api.Prelude.{
  ℕ, zero, suc, ◌+◌, ◌≤◌, ◌<◌, ◌≡◌, refl, ap, inl, inr, arith, Option, none, some, List, [], ◌∷◌,
  ◌++◌, ltb, length, Option-cases,
}

module _ {ℓ} {A : Type ℓ} where
  abbrev pub take : ℕ → List A → List A
  take zero xs = []
  take (suc n) [] = []
  take (suc n) (x ∷ xs) = x ∷ take n xs

  abbrev pub drop : ℕ → List A → List A
  drop zero xs = xs
  drop (suc n) [] = []
  drop (suc n) (x ∷ xs) = drop n xs

  abbrev pub last : List A → Option A
  last [] = none
  last (x ∷ xs) = elim (last xs) [ none ↦ some x | some y ↦ some y ]

-- What the pages of a list are of the whole.
module _ {ℓ} {A : Type ℓ} where
  pub take-take : (n : ℕ) (xs : List A) → take n (take (suc n) xs) ≡ take n xs
  take-take zero xs = refl
  take-take (suc n) [] = refl
  take-take (suc n) (x ∷ xs) = ap (λ ys. x ∷ ys) (take-take n xs)

  pub has_more-take : (n : ℕ) (xs : List A) → ltb n (length (take (suc n) xs)) ≡ ltb n (length xs)
  has_more-take zero [] = refl
  has_more-take zero (x ∷ xs) = ground arith
  has_more-take (suc n) [] = refl
  has_more-take (suc n) (x ∷ xs) = let rest = has_more-take n xs in ground arith

  pub take_all : (n : ℕ) (xs : List A) → length xs ≤ n → take n xs ≡ xs
  take_all zero [] e = refl
  take_all zero (x ∷ xs) e = absurd (omega arith)
  take_all (suc n) [] e = refl
  take_all (suc n) (x ∷ xs) e = ap (λ ys. x ∷ ys) (take_all n xs (omega arith))

  pub take-drop : (n : ℕ) (xs : List A) → take n xs ++ drop n xs ≡ xs
  take-drop zero xs = refl
  take-drop (suc n) [] = refl
  take-drop (suc n) (x ∷ xs) = ap (λ ys. x ∷ ys) (take-drop n xs)

  length-drop-le : (n : ℕ) (xs : List A) → length (drop n xs) ≤ length xs
  length-drop-le zero xs = omega arith
  length-drop-le (suc n) [] = omega arith
  length-drop-le (suc n) (x ∷ xs) = let rest = length-drop-le n xs in omega arith

  pub length-drop-lt :
      (n : ℕ) (xs : List A) → 1 ≤ n → 1 ≤ length xs → length (drop n xs) < length xs
  length-drop-lt zero xs some_row e = absurd (omega arith)
  length-drop-lt (suc n) [] some_row e = absurd (omega arith)
  length-drop-lt (suc n) (x ∷ xs) some_row e = let rest = length-drop-le n xs in omega arith

  pub last-take :
      (n : ℕ) (xs : List A) → 1 ≤ n → 1 ≤ length xs → (l : A) × (last (take n xs) ≡ some l)
  last-take zero xs some_row e = absurd (omega arith)
  last-take (suc n) [] some_row e = absurd (omega arith)
  last-take (suc n) (x ∷ xs) some_row e = elim (Option-cases (last (take n xs))) [
    | inl alone ↦ (x, rw alone refl)
    | inr (y, found) ↦ (y, rw found refl)
  ]
