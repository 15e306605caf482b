-- ===== src/Prelude/Text.antt =====
-- What the program uses of Go's `strings`: TrimSpace and ToLower, on texts as code points.
-- Of the letters only A to Z have a lower case here.
use Prim.Native.Char.{Char, code}
use Prim.Native.String.{String}
use wow_dashboard_api.Prelude.Tests.{leb, ◌==◌, if◌then◌else◌}
use mathlib.Core.Path.{◌≡◌, refl}
use mathlib.Core.List.{List, [], ◌∷◌}
use mathlib.Core.Bool.{Bool, true, false, ◌&&◌, ◌||◌}
use Prim.Native.Nat.{ℕ, ◌+◌}

-- unicode.IsSpace
unfoldable pub is_space : Char → Bool
is_space c =
    leb 9 (code c) && leb (code c) 13
    || code c == 32
    || code c == 133
    || code c == 160
    || code c == 5760
    || leb 8192 (code c) && leb (code c) 8202
    || code c == 8232
    || code c == 8233
    || code c == 8239
    || code c == 8287
    || code c == 12288

abbrev pub is_empty : String → Bool
is_empty String.[] = true
is_empty (String.◌∷◌ c s) = false

abbrev pub concat : String → String → String
concat String.[] t = t
concat (String.◌∷◌ c s) t = String.◌∷◌ c (concat s t)

unfoldable pub trim_left : String → String
trim_left String.[] = String.[]
trim_left (String.◌∷◌ c s) = if is_space c then trim_left s else String.◌∷◌ c s

unfoldable pub trim_right : String → String
trim_right String.[] = String.[]
trim_right (String.◌∷◌ c s) =
    let rest = trim_right s in if is_space c && is_empty rest then String.[] else String.◌∷◌ c rest

unfoldable pub trim_space : String → String
unfolding is_space trim_left trim_right
trim_space s = trim_left (trim_right s)

-- unicode.ToLower of the letters A to Z.
abbrev pub lower_table : List (ℕ × Char)
lower_table =
    (b'A', "a")
    ∷ (b'B', "b")
    ∷ (b'C', "c")
    ∷ (b'D', "d")
    ∷ (b'E', "e")
    ∷ (b'F', "f")
    ∷ (b'G', "g")
    ∷ (b'H', "h")
    ∷ (b'I', "i")
    ∷ (b'J', "j")
    ∷ (b'K', "k")
    ∷ (b'L', "l")
    ∷ (b'M', "m")
    ∷ (b'N', "n")
    ∷ (b'O', "o")
    ∷ (b'P', "p")
    ∷ (b'Q', "q")
    ∷ (b'R', "r")
    ∷ (b'S', "s")
    ∷ (b'T', "t")
    ∷ (b'U', "u")
    ∷ (b'V', "v")
    ∷ (b'W', "w")
    ∷ (b'X', "x")
    ∷ (b'Y', "y")
    ∷ (b'Z', "z")
    ∷ []

unfoldable pub lower_from : List (ℕ × Char) → Char → Char
lower_from [] c = c
lower_from ((upper, lower) ∷ table) c = if code c == upper then lower else lower_from table c

unfoldable pub to_lower : String → String
unfolding lower_from
to_lower String.[] = String.[]
to_lower (String.◌∷◌ c s) = String.◌∷◌ (lower_from lower_table c) (to_lower s)

-- The length in bytes of the UTF-8 encoding, which Go's `len` counts.
unfoldable pub byte_length : String → ℕ
byte_length String.[] = 0
byte_length (String.◌∷◌ c s) =
    (if leb (code c) 127
      then 1
      else if leb (code c) 2_047
      then 2
      else if leb (code c) 65_535
      then 3
      else 4)
    + byte_length s

two_bytes : byte_length "é" ≡ 2
unfolding byte_length
two_bytes = refl

normalized : to_lower (trim_space "  Demo@Example.COM ") ≡ "demo@example.com"
unfolding to_lower trim_space
normalized = refl
