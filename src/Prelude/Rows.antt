-- ===== src/Prelude/Rows.antt =====
-- Statements on tables outside a test, and predicates on the rows they keep.
use mathlib.Core.Path.{◌≡◌, refl}
use mathlib.Core.Logic.{inl, inr}
use mathlib.Core.Bool.{Bool, true, false, ◌&&◌}
use mathlib.Core.List.{List, [], ◌∷◌, ◌++◌}
use native.Mathlib.Omega.{arith}
use wow_dashboard_api.Prelude.Tests.{Bool-cases}
use wow_dashboard_api.Prelude.Tables.{
  find_where, select_where, exists_where, update_where, delete_where, All,
}

module _ {ℓ} {A : Type ℓ} (p q : A → Bool) (apart : (x : A) → p x ≡ true → q x ≡ false) where
  pub find_where-update_where_ne :
      (f : A → A)
      → ((x : A) → p (f x) ≡ p x)
      → (xs : List A) → find_where p (update_where q f xs) ≡ find_where p xs
  find_where-update_where_ne f keeps [] = refl
  find_where-update_where_ne f keeps (x ∷ xs) =
      ground (arith, apart x, keeps x, find_where-update_where_ne f keeps xs)

  pub find_where-delete_where_ne :
      (xs : List A) → find_where p (delete_where q xs) ≡ find_where p xs
  find_where-delete_where_ne [] = refl
  find_where-delete_where_ne (x ∷ xs) = ground (arith, apart x, find_where-delete_where_ne xs)

  pub select_where-delete_where_ne :
      (xs : List A) → select_where p (delete_where q xs) ≡ select_where p xs
  select_where-delete_where_ne [] = refl
  select_where-delete_where_ne (x ∷ xs) = ground (arith, apart x, select_where-delete_where_ne xs)

module _ {ℓ} {A : Type ℓ} (p : A → Bool) where
  pub select_where-append :
      (xs ys : List A) → select_where p (xs ++ ys) ≡ select_where p xs ++ select_where p ys
  select_where-append [] ys = refl
  select_where-append (x ∷ xs) ys = ground (arith, select_where-append xs ys)

  -- Rows of which none passes add nothing to a selection.
  pub select_where-append_none :
      (xs ys : List A) → exists_where p ys ≡ false → select_where p (xs ++ ys) ≡ select_where p xs
  select_where-append_none [] [] e = refl
  select_where-append_none [] (y ∷ ys) e = ground (arith, select_where-append_none [] ys)
  select_where-append_none (x ∷ xs) ys e = ground (arith, select_where-append_none xs ys)

  -- A deletion of which no row passes.
  pub select_where-delete_where_none :
      (q : A → Bool) (xs : List A)
      → exists_where (λ x. p x && q x) xs ≡ false
      → select_where p (delete_where q xs) ≡ select_where p xs
  select_where-delete_where_none q [] e = refl
  select_where-delete_where_none q (x ∷ xs) e = ground (arith, select_where-delete_where_none q xs)

module _ {ℓ κ} {A : Type ℓ} (P : A → Type κ) where
  pub All-delete_where : (q : A → Bool) (xs : List A) → All P xs → All P (delete_where q xs)
  All-delete_where q [] h = tt
  All-delete_where q (x ∷ xs) h = elim (Bool-cases (q x)) [
    | inl e ↦ rw e (All-delete_where q xs h.1)
    | inr e ↦ rw e (h.0, All-delete_where q xs h.1)
  ]

  pub All-select_where : (q : A → Bool) (xs : List A) → All P xs → All P (select_where q xs)
  All-select_where q [] h = tt
  All-select_where q (x ∷ xs) h = elim (Bool-cases (q x)) [
    | inl e ↦ rw e (h.0, All-select_where q xs h.1)
    | inr e ↦ rw e (All-select_where q xs h.1)
  ]

  -- Where no row passes a test, what follows for the rows that fail it holds of all.
  pub All-exists_where :
      (q : A → Bool) (Q : A → Type κ)
      → ((x : A) → P x → q x ≡ false → Q x)
      → (xs : List A) → exists_where q xs ≡ false
      → All P xs
      → All Q xs
  All-exists_where q Q f [] e h = tt
  All-exists_where q Q f (x ∷ xs) e h =
      (f x h.0 (ground arith), All-exists_where q Q f xs (ground arith) h.1)
