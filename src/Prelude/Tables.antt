-- ===== src/Prelude/Tables.antt =====
-- Tables as lists of rows: the statements of SQL that the repositories use, and predicates on rows.
use Prim.Native.Nat.{ℕ, suc, ◌+◌, ◌≤◌}
use mathlib.Core.Path.{◌≡◌, refl}
use native.Mathlib.Omega.{arith}
use mathlib.Core.Logic.{inl, inr}
use mathlib.Core.Bool.{Bool, true, false, ◌||◌}
use mathlib.Core.Option.{Option, none, some}
use mathlib.Core.List.{List, [], ◌∷◌, ◌++◌}
use wow_dashboard_api.Prelude.Tests.{if◌then◌else◌, Bool-cases}

module _ {ℓ} {A : Type ℓ} where
  abbrev pub length : List A → ℕ
  length [] = 0
  length (x ∷ xs) = suc (length xs)

  -- `SELECT … WHERE p`, of which at most one row is read.
  abbrev pub find_where : (A → Bool) → List A → Option A
  find_where p [] = none
  find_where p (x ∷ xs) = if p x then some x else find_where p xs

  -- `SELECT … WHERE p`.
  abbrev pub select_where : (A → Bool) → List A → List A
  select_where p [] = []
  select_where p (x ∷ xs) = let rest = select_where p xs in if p x then x ∷ rest else rest

  abbrev pub exists_where : (A → Bool) → List A → Bool
  exists_where p [] = false
  exists_where p (x ∷ xs) = p x || exists_where p xs

  -- `UPDATE … SET … WHERE p`, in place.
  abbrev pub update_where : (A → Bool) → (A → A) → List A → List A
  update_where p f [] = []
  update_where p f (x ∷ xs) = (if p x then f x else x) ∷ update_where p f xs

  -- The number of rows that a statement touches.
  abbrev pub count_where : (A → Bool) → List A → ℕ
  count_where p [] = 0
  count_where p (x ∷ xs) = let rest = count_where p xs in if p x then suc rest else rest

  -- `DELETE … WHERE p`.
  abbrev pub delete_where : (A → Bool) → List A → List A
  delete_where p [] = []
  delete_where p (x ∷ xs) = let rest = delete_where p xs in if p x then rest else x ∷ rest

module _ {ℓ κ} {A : Type ℓ} (P : A → Type κ) where
  -- Every row satisfies `P`.
  abbrev pub All : List A → Type κ
  All [] = Unit
  All (x ∷ xs) = P x × All xs

  pub All-append : (xs ys : List A) → All xs → All ys → All (xs ++ ys)
  All-append [] ys hx hy = hy
  All-append (x ∷ xs) ys hx hy = (hx.0, All-append xs ys hx.1 hy)

module _ {ℓ} {A : Type ℓ} (p : A → Bool) where
  -- The row that is found passes the test.
  pub find_where_sound : (xs : List A) (x : A) → find_where p xs ≡ some x → p x ≡ true
  find_where_sound [] x e = cc
  find_where_sound (y ∷ xs) x e = ground (arith, find_where_sound xs x)

  pub find_where-append :
      (xs ys : List A) (x : A) → find_where p xs ≡ some x → find_where p (xs ++ ys) ≡ some x
  find_where-append [] ys x e = cc
  find_where-append (y ∷ xs) ys x e = ground (arith, find_where-append xs ys x)

  -- An update that keeps the key is read back at the same row.
  pub find_where-update_where :
      (q : A → Bool) (f : A → A)
      → ((x : A) → p (f x) ≡ p x)
      → (xs : List A) (x : A) → find_where p xs ≡ some x
      → find_where p (update_where q f xs) ≡ some (if q x then f x else x)
  find_where-update_where q f keeps [] x e = cc
  find_where-update_where q f keeps (y ∷ xs) x e =
      ground (arith, keeps y, find_where-update_where q f keeps xs x)

  pub find_where-update_where_missing :
      (q : A → Bool) (f : A → A)
      → ((x : A) → p (f x) ≡ p x)
      → (xs : List A) → find_where p xs ≡ none
      → find_where p (update_where q f xs) ≡ none
  find_where-update_where_missing q f keeps [] e = refl
  find_where-update_where_missing q f keeps (y ∷ xs) e =
      ground (arith, keeps y, find_where-update_where_missing q f keeps xs)

  pub count_where-append :
      (xs ys : List A) → count_where p (xs ++ ys) ≡ count_where p xs + count_where p ys
  count_where-append [] ys = omega arith
  count_where-append (x ∷ xs) ys = ground (arith, count_where-append xs ys)

  pub exists_where_of_find :
      (xs : List A) (x : A) → find_where p xs ≡ some x → exists_where p xs ≡ true
  exists_where_of_find [] x e = cc
  exists_where_of_find (y ∷ xs) x e = ground (arith, exists_where_of_find xs x)

  -- An update that only takes rows out of the test lowers the count.
  pub count_where-update_where-le :
      (q : A → Bool) (f : A → A)
      → ((x : A) → p (f x) ≡ true → p x ≡ true)
      → (xs : List A) → count_where p (update_where q f xs) ≤ count_where p xs
  count_where-update_where-le q f shrinks [] = omega arith
  count_where-update_where-le q f shrinks (x ∷ xs) =
      ground (arith, shrinks x, count_where-update_where-le q f shrinks xs)

  -- One that takes out every row of the test leaves none.
  pub count_where-update_where_zero :
      (q : A → Bool) (f : A → A)
      → ((x : A) → p (if q x then f x else x) ≡ false)
      → (xs : List A) → count_where p (update_where q f xs) ≡ 0
  count_where-update_where_zero q f clears [] = refl
  count_where-update_where_zero q f clears (x ∷ xs) =
      ground (arith, clears x, count_where-update_where_zero q f clears xs)

  pub find_where_missing-append :
      (xs ys : List A) → find_where p xs ≡ none → find_where p (xs ++ ys) ≡ find_where p ys
  find_where_missing-append [] ys e = refl
  find_where_missing-append (x ∷ xs) ys e = ground (arith, find_where_missing-append xs ys)

  -- What fails a wider test is not found by a narrower one.
  pub find_where_missing_of :
      (q : A → Bool)
      → ((x : A) → p x ≡ true → q x ≡ true)
      → (xs : List A) → exists_where q xs ≡ false
      → find_where p xs ≡ none
  find_where_missing_of q wider [] e = refl
  find_where_missing_of q wider (x ∷ xs) e =
      ground (arith, wider x, find_where_missing_of q wider xs)

  -- An update outside the test leaves the rows of the test alone.
  pub select_where-update_where_ne :
      (q : A → Bool) (f : A → A)
      → ((x : A) → p x ≡ true → q x ≡ false)
      → ((x : A) → p (f x) ≡ p x)
      → (xs : List A) → select_where p (update_where q f xs) ≡ select_where p xs
  select_where-update_where_ne q f apart keeps [] = refl
  select_where-update_where_ne q f apart keeps (x ∷ xs) =
      ground (arith, apart x, keeps x, select_where-update_where_ne q f apart keeps xs)

  pub exists_where-append :
      (xs ys : List A) → exists_where p xs ≡ true → exists_where p (xs ++ ys) ≡ true
  exists_where-append [] ys e = absurd (ground arith)
  exists_where-append (x ∷ xs) ys e = ground (arith, exists_where-append xs ys)

  pub exists_where-update_where :
      (q : A → Bool) (f : A → A)
      → ((x : A) → p (f x) ≡ p x)
      → (xs : List A) → exists_where p (update_where q f xs) ≡ exists_where p xs
  exists_where-update_where q f keeps [] = refl
  exists_where-update_where q f keeps (x ∷ xs) =
      ground (arith, keeps x, exists_where-update_where q f keeps xs)

  -- A deletion outside the test.
  pub exists_where-delete_where_ne :
      (q : A → Bool)
      → ((x : A) → p x ≡ true → q x ≡ false)
      → (xs : List A) → exists_where p (delete_where q xs) ≡ exists_where p xs
  exists_where-delete_where_ne q apart [] = refl
  exists_where-delete_where_ne q apart (x ∷ xs) =
      ground (arith, apart x, exists_where-delete_where_ne q apart xs)

  pub exists_where-delete_where : (xs : List A) → exists_where p (delete_where p xs) ≡ false
  exists_where-delete_where [] = refl
  exists_where-delete_where (x ∷ xs) = ground (arith, exists_where-delete_where xs)

  -- An update that matches no row changes nothing.
  pub update_where_none :
      (f : A → A) (xs : List A) → count_where p xs ≡ 0 → update_where p f xs ≡ xs
  update_where_none f [] e = refl
  update_where_none f (x ∷ xs) e = ground (arith, update_where_none f xs)

-- An update of the rows that pass a test, where it keeps or restores a predicate.
pub All-update_where {ℓ κ} :
    {A : Type ℓ} (P Q : A → Type κ) (q : A → Bool) (f : A → A)
    → ((x : A) → P x → q x ≡ true → Q (f x))
    → ((x : A) → P x → q x ≡ false → Q x)
    → (xs : List A) → All P xs
    → All Q (update_where q f xs)
All-update_where P Q q f inside outside [] h = tt
All-update_where P Q q f inside outside (x ∷ xs) h = (
  elim (Bool-cases (q x)) [ inl e ↦ rw e (inside x h.0 e) | inr e ↦ rw e (outside x h.0 e) ],
  All-update_where P Q q f inside outside xs h.1,
)

-- A predicate that follows from another, row by row.
pub All-implies {ℓ κ} :
    {A : Type ℓ} (P Q : A → Type κ) → ((x : A) → P x → Q x) → (xs : List A) → All P xs → All Q xs
All-implies P Q f [] h = tt
All-implies P Q f (x ∷ xs) h = (f x h.0, All-implies P Q f xs h.1)
