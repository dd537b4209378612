-- ===== src/CLib/Strtol.antt =====
-- `strtol` with a base, for a long of 64 bits.
pub mod RoundTrip
use my_file.Prelude.{
  ℕ, ◌-◌, ◌^◌, Bool, true, false, ◌&&◌, ◌||◌, Option, none, some, List, [], ◌∷◌, ltb, ◌==◌,
  if◌then◌else◌, ℤ, pos, neg,
}
use my_file.CLib.Numbers.{skip_spaces}
use my_file.CLib.Strtoul.{digit_value, digits_loop}

-- the number, the text behind it, to which `endptr` points, and whether `errno` is ERANGE
pub record Converted : Type 0 where
  pub value : ℤ
  pub rest : List ℕ
  pub erange : Bool

-- the digits of a text, of which there is one at least
unfoldable pub digits_of : ℕ → List ℕ → Option (ℕ × List ℕ)
unfolding digits_loop digit_value
digits_of base [] = none
digits_of base (c ∷ cs) =
    if ltb (digit_value c) base then some (digits_loop base 0 (c ∷ cs)) else none

-- "0x" in front of a digit of base 16
abbrev pub hex_prefix : List ℕ → Bool
hex_prefix [] = false
hex_prefix (c ∷ []) = false
hex_prefix (c ∷ (d ∷ [])) = false
hex_prefix (c ∷ (d ∷ (e ∷ cs))) =
    (c == b'0') && (((d == b'x') || (d == b'X')) && ltb (digit_value e) 16)

abbrev pub behind_prefix : List ℕ → List ℕ
behind_prefix [] = []
behind_prefix (c ∷ []) = []
behind_prefix (c ∷ (d ∷ cs)) = cs

abbrev pub zero_first : List ℕ → Bool
zero_first [] = false
zero_first (c ∷ cs) = c == b'0'

-- Base 0 is the base that the text shows by its prefix.
unfoldable pub number_part : ℕ → List ℕ → Option (ℕ × List ℕ)
unfolding digits_of digit_value
number_part base s =
    if ((base == 0) || (base == 16)) && hex_prefix s
    then digits_of 16 (behind_prefix s)
    else if base == 0
    then (if zero_first s then digits_of 8 s else digits_of 10 s)
    else digits_of base s

-- a number with its sign, held at LONG_MAX and LONG_MIN
unfoldable pub clamp : Bool → ℕ × List ℕ → Converted
clamp false (n, rest) =
    if ltb n (2 ^ 63)
    then record { value = pos n; rest = rest; erange = false }
    else record { value = pos (2 ^ 63 - 1); rest = rest; erange = true }
clamp true (n, rest) =
    if ltb (2 ^ 63) n
    then record { value = neg (2 ^ 63); rest = rest; erange = true }
    else record { value = neg n; rest = rest; erange = false }

-- Where there is no number, the rest is the whole text.
abbrev pub or_nothing : List ℕ → Bool → Option (ℕ × List ℕ) → Converted
or_nothing s minus none = record { value = pos 0; rest = s; erange = false }
or_nothing s minus (some r) = clamp minus r

unfoldable pub with_sign : ℕ → List ℕ → List ℕ → Converted
unfolding number_part clamp
with_sign base s [] = or_nothing s false none
with_sign base s (c ∷ cs) =
    if c == b'-'
    then or_nothing s true (number_part base cs)
    else if c == b'+'
    then or_nothing s false (number_part base cs)
    else or_nothing s false (number_part base (c ∷ cs))

unfoldable pub strtol : ℕ → List ℕ → Converted
unfolding with_sign skip_spaces
strtol base s = with_sign base s (skip_spaces s)
