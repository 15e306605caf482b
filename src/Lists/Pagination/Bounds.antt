-- ===== src/Lists/Pagination/Bounds.antt =====
-- The bounds of a page: Normalize of internal/http/pagination/pagination.go, and the int32 that the
-- stores make of its offset.
use native.Mathlib.Nat.{mul-le-mul, mod-eq_of_lt}
use wow_dashboard_api.Prelude.{
  ℕ, ◌-◌, ◌*◌, ◌%◌, ◌≤◌, ◌<◌, ◌≡◌, ap, ◌∙◌, arith, String, ◌⊎◌, inl, inr, Bool-cases, ltb,
}
use wow_dashboard_api.Store.Effect.{ok}
use wow_dashboard_api.Lists.Pagination.{
  ℤ, pos, negsuc, int_product, to_int32, max_page_size, Params, Normalized, normalize,
  normalize_numbers, normalize_ints, or_default, default_page_size,
}

-- The pages whose offset fits in 31 bits, at the largest size.
abbrev pub max_exact_page : ℕ
max_exact_page = 21_474_837

abbrev pub IsWithinBounds : Normalized → Type 0
IsWithinBounds n =
    (1 ≤ n.page)
    × (1 ≤ n.page_size)
    × (n.page_size ≤ max_page_size)
    × (n.offset ≡ int_product (n.page - 1) n.page_size)

or_default_positive : (default n : ℕ) → 1 ≤ default → 1 ≤ or_default default n
or_default_positive default n e = ground arith

normalize_numbers-IsWithinBounds :
    (page size : ℕ) (search : String) (n : Normalized)
    → normalize_numbers page size search ≡ ok n
    → IsWithinBounds n
unfolding normalize_numbers
normalize_numbers-IsWithinBounds page size search n e =
    elim (Bool-cases (ltb max_page_size (or_default default_page_size size))) [
      | inl large ↦ absurd (ground arith)
      | inr allowed ↦
          let rows = or_default_positive 20 size in
          let first = or_default_positive 1 page in
          (ground arith, ground arith, ground arith, ground arith)
    ]

normalize_ints-IsWithinBounds :
    (page size : ℤ) (search : String) (n : Normalized)
    → normalize_ints page size search ≡ ok n
    → IsWithinBounds n
unfolding normalize_ints
normalize_ints-IsWithinBounds (negsuc p) size search n e = absurd (ground arith)
normalize_ints-IsWithinBounds (pos page) (negsuc s) search n e = absurd (ground arith)
normalize_ints-IsWithinBounds (pos page) (pos size) search n e =
    normalize_numbers-IsWithinBounds page size search n e

exact_product :
    (m n : ℕ)
    → m * n < 2_147_483_648
    → (int_product m n ≡ pos (m * n)) × (to_int32 (int_product m n) ≡ pos (m * n))
exact_product m n small =
    let low : m * n % 18_446_744_073_709_551_616 ≡ m * n = mod-eq_of_lt (omega arith) in
    let lower : m * n % 4_294_967_296 ≡ m * n = mod-eq_of_lt (omega arith) in
    let whole : int_product m n ≡ pos (m * n) = ground arith in
    (whole, ap to_int32 whole ∙ ground arith)

-- A page that is accepted is positive and holds 1 to 100 rows. Unless it is past page 21,474,837, its
-- offset is the number of rows before it, and the int32 that the stores pass on is that number.
pub normalize-bounds :
    (p : Params) (n : Normalized)
    → normalize p ≡ ok n
    → (1 ≤ n.page)
      × (1 ≤ n.page_size)
      × (n.page_size ≤ max_page_size)
      × ((max_exact_page < n.page)
          ⊎ ((n.offset ≡ pos ((n.page - 1) * n.page_size))
              × (to_int32 n.offset ≡ pos ((n.page - 1) * n.page_size))))
unfolding normalize
normalize-bounds p n e =
    let (positive, some_rows, few_rows, offset) =
      normalize_ints-IsWithinBounds p.page p.page_size p.search n e in
    (
      positive,
      some_rows,
      few_rows,
      elim (Bool-cases (ltb max_exact_page n.page)) [
        | inl far ↦ inl (ground arith)
        | inr near ↦
            let exact : n.page ≤ max_exact_page = ground arith in
            let below : (n.page - 1) * n.page_size ≤ 21_474_836 * 100 =
              mul-le-mul {n₂ = 21_474_836} (omega arith) few_rows in
            let (whole, cut) = exact_product (n.page - 1) n.page_size (omega arith) in
            inr (offset ∙ whole, ap to_int32 offset ∙ cut)
      ],
    )
