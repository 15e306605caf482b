-- ===== src/Lists/Pagination.antt =====
-- Pages: Normalize of internal/http/pagination/pagination.go. An `int` of Go has 64 bits and wraps
-- around; the stores cut the offset to 32 bits.
pub mod Bounds
use wow_dashboard_api.Prelude.{
  ℕ, ◌+◌, ◌-◌, ◌*◌, ◌%◌, ◌^◌, ◌≤◌, ◌<◌, ◌≡◌, refl, arith, String, Bool, true, false, ◌&&◌, ◌||◌,
  ◌==◌, ltb, leb, if◌then◌else◌, inl, inr, Bool-cases,
}
use wow_dashboard_api.Prelude.Text.{trim_space}
use wow_dashboard_api.Store.Effect.{Result, ok, err, invalid_pagination}

-- An integer: `negsuc n` is -(n + 1).
pub data ℤ : Type 0 where
  pos negsuc : ℕ → ℤ

-- The number that a word of `bits` stands for in two's complement.
abbrev pub signed : ℕ → ℕ → ℤ
signed bits n = if ltb n (2 ^ (bits - 1)) then pos n else negsuc (2 ^ bits - n - 1)

-- The product of two numbers as an `int`, where both fit.
abbrev pub int_product : ℕ → ℕ → ℤ
int_product m n = signed 64 (m * n % 2 ^ 64)

-- int32(n): the low 32 bits.
abbrev pub to_int32 : ℤ → ℤ
to_int32 (pos n) = signed 32 (n % 2 ^ 32)
to_int32 (negsuc n) = signed 32 (2 ^ 32 - 1 - n % 2 ^ 32)

abbrev pub default_page_size : ℕ
default_page_size = 20

abbrev pub max_page_size : ℕ
max_page_size = 100

pub record Params : Type 0 where
  pub page : ℤ
  pub page_size : ℤ
  pub search : String

pub record Normalized : Type 0 where
  pub page : ℕ
  pub page_size : ℕ
  pub offset : ℤ
  pub search : String

-- A zero stands for the default, and a negative number is refused.
abbrev pub or_default : ℕ → ℕ → ℕ
or_default default n = if n == 0 then default else n

unfoldable pub normalize_numbers : ℕ → ℕ → String → Result Normalized
unfolding trim_space
normalize_numbers page size search =
    if ltb max_page_size (or_default default_page_size size)
    then err invalid_pagination
    else ok record {
      page = or_default 1 page;
      page_size = or_default default_page_size size;
      offset = int_product (or_default 1 page - 1) (or_default default_page_size size);
      search = trim_space search;
    }

unfoldable pub normalize_ints : ℤ → ℤ → String → Result Normalized
unfolding normalize_numbers
normalize_ints (negsuc n) size search = err invalid_pagination
normalize_ints (pos page) (negsuc n) search = err invalid_pagination
normalize_ints (pos page) (pos size) search = normalize_numbers page size search

unfoldable pub normalize : Params → Result Normalized
unfolding normalize_ints
normalize p = normalize_ints p.page p.page_size p.search
