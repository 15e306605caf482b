-- ===== src/Lists/Keyset/Order.antt =====
-- Sorted lists and their pages by key: what LIMIT and a cursor select of them.
use mathlib.Core.Path.{subst}
use wow_dashboard_api.Prelude.{
  ℕ, zero, suc, ◌≡◌, refl, sym, ◌∙◌, inl, inr, arith, Bool, true, false, none, some, List, [], ◌∷◌,
  ◌||◌, select_where, All, All-implies, All-select_where, if◌then◌else◌, Bool-cases, Option-cases,
}
use wow_dashboard_api.Prelude.Sorting.{order_by, insert_by}
use wow_dashboard_api.Lists.Keyset.{take, drop, last}

module _ {A : Type 0} (before : A → A → Bool)
    (trans : (x y z : A) → before x y ≡ true → before y z ≡ true → before x z ≡ true)
    (irrefl : (x : A) → before x x ≡ false) where
  -- Every row stands before all that follow.
  abbrev pub Sorted : List A → Type 0
  Sorted [] = Unit {0}
  Sorted (x ∷ xs) = All (λ y. before x y ≡ true) xs × Sorted xs

  -- Of any two rows one stands before the other.
  abbrev pub Comparable : List A → Type 0
  Comparable [] = Unit {0}
  Comparable (x ∷ xs) = All (λ y. (before x y || before y x) ≡ true) xs × Comparable xs

  All-insert_by :
      (P : A → Type 0) (x : A) (ys : List A) → P x → All P ys → All P (insert_by before x ys)
  unfolding insert_by
  All-insert_by P x [] px h = (px, tt)
  All-insert_by P x (y ∷ ys) px h = elim (Bool-cases (before x y)) [
    | inl e ↦ rw e (px, h)
    | inr e ↦ rw e (h.0, All-insert_by P x ys px h.1)
  ]

  All-order_by : (P : A → Type 0) (xs : List A) → All P xs → All P (order_by before xs)
  unfolding order_by
  All-order_by P [] h = tt
  All-order_by P (x ∷ xs) h = All-insert_by P x (order_by before xs) h.0 (All-order_by P xs h.1)

  insert_by-Sorted :
      (x : A) (ys : List A)
      → All (λ y. (before x y || before y x) ≡ true) ys
      → Sorted ys
      → Sorted (insert_by before x ys)
  unfolding insert_by
  insert_by-Sorted x [] apart h = (tt, tt)
  insert_by-Sorted x (y ∷ ys) apart h = elim (Bool-cases (before x y)) [
    | inl e ↦ rw e (
      (
        e,
        All-implies (λ z. before y z ≡ true) (λ z. before x z ≡ true)
            (λ z later. trans x y z e later) ys h.0,
      ),
      h,
    )
    | inr e ↦
        let earlier : before y x ≡ true = (let total = apart.0 in ground arith) in
        rw e (
          All-insert_by (λ z. before y z ≡ true) x ys earlier h.0,
          insert_by-Sorted x ys apart.1 h.1,
        )
  ]

  pub order_by-Sorted : (xs : List A) → Comparable xs → Sorted (order_by before xs)
  unfolding order_by
  order_by-Sorted [] h = tt
  order_by-Sorted (x ∷ xs) h =
      insert_by-Sorted x (order_by before xs)
        (All-order_by (λ y. (before x y || before y x) ≡ true) xs h.0) (order_by-Sorted xs h.1)

  insert_by_first :
      (x : A) (ys : List A) → All (λ y. before x y ≡ true) ys → insert_by before x ys ≡ x ∷ ys
  unfolding insert_by
  insert_by_first x [] h = refl
  insert_by_first x (y ∷ ys) h = rw (h.0) refl

  select_where-insert_by :
      (p : A → Bool) (x : A) (ys : List A)
      → Sorted ys
      → select_where p (insert_by before x ys)
        ≡ (if p x then insert_by before x (select_where p ys) else select_where p ys)
  unfolding insert_by
  select_where-insert_by p x [] h = elim (Bool-cases (p x)) [
    | inl e ↦ rw e refl
    | inr e ↦ rw e refl
  ]
  select_where-insert_by p x (y ∷ ys) h = elim (Bool-cases (before x y)) [
    | inl e ↦
        let later : All (λ z. before x z ≡ true) (y ∷ ys) = (
          e,
          All-implies (λ z. before y z ≡ true) (λ z. before x z ≡ true)
              (λ z after. trans x y z e after) ys h.0,
        ) in
        let first =
          insert_by_first x (select_where p (y ∷ ys))
            (All-select_where (λ z. before x z ≡ true) p (y ∷ ys) later) in
        elim (Bool-cases (p x)) [ inl k ↦ rw e (rw k (sym first)) | inr k ↦ rw e (rw k refl) ]
    | inr e ↦
        let rest = select_where-insert_by p x ys h.1 in
        elim (Bool-cases (p x)) [
          | inl k ↦ elim (Bool-cases (p y)) [ inl l ↦ ground arith | inr l ↦ ground arith ]
          | inr k ↦ elim (Bool-cases (p y)) [ inl l ↦ ground arith | inr l ↦ ground arith ]
        ]
  ]

  -- To select and sort is to sort and select.
  pub order_by-select_where :
      (p : A → Bool) (xs : List A)
      → Comparable xs
      → order_by before (select_where p xs) ≡ select_where p (order_by before xs)
  unfolding order_by
  order_by-select_where p [] h = refl
  order_by-select_where p (x ∷ xs) h =
      let rest = order_by-select_where p xs h.1 in
      let inserted = select_where-insert_by p x (order_by before xs) (order_by-Sorted xs h.1) in
      ground arith

  pub Sorted-select_where : (p : A → Bool) (xs : List A) → Sorted xs → Sorted (select_where p xs)
  Sorted-select_where p [] h = tt
  Sorted-select_where p (x ∷ xs) h = elim (Bool-cases (p x)) [
    | inl e ↦
        rw e (All-select_where (λ y. before x y ≡ true) p xs h.0, Sorted-select_where p xs h.1)
    | inr e ↦ rw e (Sorted-select_where p xs h.1)
  ]

  select_where-All :
      (p : A → Bool) (xs : List A) → All (λ y. p y ≡ true) xs → select_where p xs ≡ xs
  select_where-All p [] h = refl
  select_where-All p (x ∷ xs) h = rw (h.0, select_where-All p xs h.1) refl

  pub All-last :
      (P : A → Type 0) (n : ℕ) (xs : List A) (l : A) → All P xs → last (take n xs) ≡ some l → P l
  All-last P zero xs l h e = absurd (ground arith)
  All-last P (suc n) [] l h e = absurd (ground arith)
  All-last P (suc n) (x ∷ xs) l h e = elim (Option-cases (last (take n xs))) [
    | inl alone ↦ let same : x ≡ l = ground arith in subst P same h.0
    | inr (y, found) ↦ All-last P n xs l h.1 (ground arith)
  ]

  drop-last_eq_none : (n : ℕ) (xs : List A) → last (take n xs) ≡ none → drop n xs ≡ xs
  drop-last_eq_none zero xs e = refl
  drop-last_eq_none (suc n) [] e = refl
  drop-last_eq_none (suc n) (x ∷ xs) e = elim (Option-cases (last (take n xs))) [
    | inl alone ↦ absurd (ground arith)
    | inr (y, found) ↦ absurd (ground arith)
  ]

  not_before : (x y : A) → before x y ≡ true → before y x ≡ false
  not_before x y e = elim (Bool-cases (before y x)) [
    | inr k ↦ k
    | inl k ↦ (let round = trans x y x e k in let never = irrefl x in ground arith)
  ]

  -- What stands past the last row of a page is what follows the page.
  pub select_where-last :
      (n : ℕ) (xs : List A) (l : A)
      → Sorted xs
      → last (take n xs) ≡ some l
      → select_where (before l) xs ≡ drop n xs
  select_where-last zero xs l h e = absurd (ground arith)
  select_where-last (suc n) [] l h e = absurd (ground arith)
  select_where-last (suc n) (x ∷ xs) l h e = elim (Option-cases (last (take n xs))) [
    | inl alone ↦
        let same : l ≡ x = ground arith in
        subst (λ c. select_where (before c) (x ∷ xs) ≡ drop n xs) (sym same)
          (rw (irrefl x) (select_where-All (before x) xs h.0 ∙ sym (drop-last_eq_none n xs alone)))
    | inr (y, found) ↦
        let here : last (take n xs) ≡ some l = ground arith in
        let earlier = not_before x l (All-last (λ z. before x z ≡ true) n xs l h.0 here) in
        rw earlier (select_where-last n xs l h.1 here)
  ]
