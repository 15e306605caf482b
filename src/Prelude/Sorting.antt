-- ===== src/Prelude/Sorting.antt =====
-- ORDER BY: insertion by a Boolean order, and what it keeps.
use mathlib.Core.Bool.{Bool}
use mathlib.Core.List.{List, [], ◌∷◌, Perm}
use mathlib.Core.List.Perm
use wow_dashboard_api.Prelude.Tests.{if◌then◌else◌, Bool-cases}
use mathlib.Core.Logic.{inl, inr}

module _ {ℓ} {A : Type ℓ} where
  unfoldable pub insert_by : (A → A → Bool) → A → List A → List A
  insert_by first x [] = x ∷ []
  insert_by first x (y ∷ ys) = if first x y then x ∷ y ∷ ys else y ∷ insert_by first x ys

  unfoldable pub order_by : (A → A → Bool) → List A → List A
  unfolding insert_by
  order_by first [] = []
  order_by first (x ∷ xs) = insert_by first x (order_by first xs)

  insert_by-perm :
      (first : A → A → Bool) (x : A) (ys : List A) → Perm (insert_by first x ys) (x ∷ ys)
  unfolding insert_by
  insert_by-perm first x [] = Perm.refl _
  insert_by-perm first x (y ∷ ys) = elim (Bool-cases (first x y)) [
    | inl e ↦ rw e (Perm.refl _)
    | inr e ↦ rw e (Perm.trans (Perm.cons y (insert_by-perm first x ys)) (Perm.swap _ _ _))
  ]

  -- Sorting loses no row and adds none.
  pub order_by-perm : (first : A → A → Bool) (xs : List A) → Perm (order_by first xs) xs
  unfolding order_by
  order_by-perm first [] = Perm.refl _
  order_by-perm first (x ∷ xs) =
      Perm.trans (insert_by-perm first x (order_by first xs)) (Perm.cons x (order_by-perm first xs))
