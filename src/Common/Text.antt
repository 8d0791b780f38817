-- ===== src/Common/Text.antt =====
-- What the source uses of `str`: its length in bytes, `trim`, `char::is_control`, decimal output.
use Prim.Native.Nat.{ℕ, zero, suc, ◌+◌, ◌/◌, ◌%◌}
use Prim.Native.Char.{code}
use Prim.Native.String.{String, len}
use Prim.Native.String.{◌++◌ as append}
use mathlib.Core.Bool.{Bool, true, false, ◌&&◌, ◌||◌}
use text.Mathlib.Text.{starts_with as begins}
use oh_myserial.Common.Tests.{leb, ◌==◌, if◌then◌else◌}

abbrev pub byte_len : String → ℕ
byte_len = len

abbrev pub starts_with : String → String → Bool
starts_with = begins

infixr 65 ◌^^◌
abbrev pub ◌^^◌ : String → String → String
s ^^ t = append s t

-- `char::is_control`: the general category Cc.
abbrev pub is_control : ℕ → Bool
is_control c = leb c 0x1f || (leb 0x7f c && leb c 0x9f)

-- `char::is_whitespace`: the property White_Space.
abbrev pub is_whitespace : ℕ → Bool
is_whitespace c =
    (leb 9 c && leb c 13)
    || (c == 32)
    || (c == 0x85)
    || (c == 0xa0)
    || (c == 0x1680)
    || (leb 0x2000 c && leb c 0x200a)
    || (c == 0x2028)
    || (c == 0x2029)
    || (c == 0x202f)
    || (c == 0x205f)
    || (c == 0x3000)

-- `s.chars().any(char::is_control)`.
unfoldable pub has_control : String → Bool
has_control String.[] = false
has_control (String.◌∷◌ c s) = is_control (code c) || has_control s

-- `s.trim().is_empty()`: every character is white space.
unfoldable pub is_blank : String → Bool
is_blank String.[] = true
is_blank (String.◌∷◌ c s) = is_whitespace (code c) && is_blank s

unfoldable pub is_empty : String → Bool
is_empty String.[] = true
is_empty (String.◌∷◌ c s) = false

abbrev lower : ℕ → ℕ
lower c = if leb 65 c && leb c 90 then c + 32 else c

-- `s.to_ascii_lowercase() == t`.
pub lowercase_is : String → String → Bool
lowercase_is String.[] String.[] = true
lowercase_is String.[] (String.◌∷◌ d t) = false
lowercase_is (String.◌∷◌ c s) String.[] = false
lowercase_is (String.◌∷◌ c s) (String.◌∷◌ d t) = (lower (code c) == code d) && lowercase_is s t

digit : ℕ → String
digit zero = "0"
digit (suc zero) = "1"
digit (suc (suc zero)) = "2"
digit (suc (suc (suc zero))) = "3"
digit (suc (suc (suc (suc zero)))) = "4"
digit (suc (suc (suc (suc (suc zero))))) = "5"
digit (suc (suc (suc (suc (suc (suc zero)))))) = "6"
digit (suc (suc (suc (suc (suc (suc (suc zero))))))) = "7"
digit (suc (suc (suc (suc (suc (suc (suc (suc zero)))))))) = "8"
digit (suc (suc (suc (suc (suc (suc (suc (suc (suc n))))))))) = "9"

show_from : ℕ → ℕ → String → String
show_from zero n acc = acc
show_from (suc fuel) n acc = elim (leb n 9) [
  | true ↦ digit n ^^ acc
  | false ↦ show_from fuel (n / 10) (digit (n % 10) ^^ acc)
]

-- A number in decimal. A number below 10 ^ 20, such as a u64, has at most 20 digits.
unfoldable pub show : ℕ → String
unfolding show_from digit
show n = show_from 20 n ""
