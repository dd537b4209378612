-- ===== src/GetNum.antt =====
-- Numeric arguments of a command line: `getLong` and `getInt` of lib/get_num.c.

pub mod RoundTrip
pub mod Range
mod Tests
use my_file.Prelude.{
  ℕ, ◌-◌, ◌^◌, ◌/◌, ◌%◌, Bool, true, false, ◌&&◌, ◌||◌, Option, none, some, List, [], ◌∷◌, ◌++◌,
  ltb, ◌==◌, if◌then◌else◌, ℤ, pos, negsuc,
}
use my_file.CLib.Strtol.{Converted, strtol}

-- the bits of `flags`
abbrev pub gn_nonneg : ℕ
gn_nonneg = 1

abbrev pub gn_gt_0 : ℕ
gn_gt_0 = 2

abbrev pub gn_any_base : ℕ
gn_any_base = 64

abbrev pub gn_base_8 : ℕ
gn_base_8 = 128

abbrev pub gn_base_16 : ℕ
gn_base_16 = 256

-- `flags & bit`, for a power of two
unfoldable pub has : ℕ → ℕ → Bool
has flags bit = (flags / bit) % 2 == 1

-- a value, or the text on the error output of a process that ended
pub data Outcome : Type 0 where
  given : ℤ → Outcome
  failed : List ℕ → Outcome

abbrev pub get_long_text : List ℕ
get_long_text = b'g' ∷ b'e' ∷ b't' ∷ b'L' ∷ b'o' ∷ b'n' ∷ b'g' ∷ []

abbrev pub get_int_text : List ℕ
get_int_text = b'g' ∷ b'e' ∷ b't' ∷ b'I' ∷ b'n' ∷ b't' ∷ []

abbrev pub empty_text : List ℕ
empty_text =
    b'n' ∷ b'u' ∷ b'l' ∷ b'l' ∷ b' ' ∷ b'o' ∷ b'r' ∷ b' ' ∷ b'e' ∷ b'm' ∷ b'p' ∷ b't' ∷ b'y' ∷ b' '
    ∷ b's' ∷ b't' ∷ b'r' ∷ b'i' ∷ b'n' ∷ b'g' ∷ []

abbrev pub strtol_text : List ℕ
strtol_text =
    b's' ∷ b't' ∷ b'r' ∷ b't' ∷ b'o' ∷ b'l' ∷ b'(' ∷ b')' ∷ b' ' ∷ b'f' ∷ b'a' ∷ b'i' ∷ b'l' ∷ b'e'
    ∷ b'd' ∷ []

abbrev pub nonnumeric_text : List ℕ
nonnumeric_text =
    b'n' ∷ b'o' ∷ b'n' ∷ b'n' ∷ b'u' ∷ b'm' ∷ b'e' ∷ b'r' ∷ b'i' ∷ b'c' ∷ b' ' ∷ b'c' ∷ b'h' ∷ b'a'
    ∷ b'r' ∷ b'a' ∷ b'c' ∷ b't' ∷ b'e' ∷ b'r' ∷ b's' ∷ []

abbrev pub negative_text : List ℕ
negative_text =
    b'n' ∷ b'e' ∷ b'g' ∷ b'a' ∷ b't' ∷ b'i' ∷ b'v' ∷ b'e' ∷ b' ' ∷ b'v' ∷ b'a' ∷ b'l' ∷ b'u' ∷ b'e'
    ∷ b' ' ∷ b'n' ∷ b'o' ∷ b't' ∷ b' ' ∷ b'a' ∷ b'l' ∷ b'l' ∷ b'o' ∷ b'w' ∷ b'e' ∷ b'd' ∷ []

abbrev pub positive_text : List ℕ
positive_text =
    b'v' ∷ b'a' ∷ b'l' ∷ b'u' ∷ b'e' ∷ b' ' ∷ b'm' ∷ b'u' ∷ b's' ∷ b't' ∷ b' ' ∷ b'b' ∷ b'e' ∷ b' '
    ∷ b'>' ∷ b' ' ∷ b'0' ∷ []

abbrev pub range_text : List ℕ
range_text =
    b'i' ∷ b'n' ∷ b't' ∷ b'e' ∷ b'g' ∷ b'e' ∷ b'r' ∷ b' ' ∷ b'o' ∷ b'u' ∷ b't' ∷ b' ' ∷ b'o' ∷ b'f'
    ∷ b' ' ∷ b'r' ∷ b'a' ∷ b'n' ∷ b'g' ∷ b'e' ∷ []

abbrev pub error_text : List ℕ
error_text = b' ' ∷ b'e' ∷ b'r' ∷ b'r' ∷ b'o' ∷ b'r' ∷ []

abbrev pub in_text : List ℕ
in_text = b' ' ∷ b'(' ∷ b'i' ∷ b'n' ∷ b' ' ∷ []

abbrev pub colon_text : List ℕ
colon_text = b':' ∷ b' ' ∷ []

abbrev pub offending_text : List ℕ
offending_text =
    b' ' ∷ b' ' ∷ b' ' ∷ b' ' ∷ b' ' ∷ b' ' ∷ b' ' ∷ b' ' ∷ b'o' ∷ b'f' ∷ b'f' ∷ b'e' ∷ b'n' ∷ b'd'
    ∷ b'i' ∷ b'n' ∷ b'g' ∷ b' ' ∷ b't' ∷ b'e' ∷ b'x' ∷ b't' ∷ b':' ∷ b' ' ∷ []

abbrev pub named : Option (List ℕ) → List ℕ
named none = []
named (some name) = in_text ++ (name ++ (b')' ∷ []))

abbrev pub offending : Option (List ℕ) → List ℕ
offending none = []
offending (some []) = []
offending (some (c ∷ cs)) = offending_text ++ ((c ∷ cs) ++ (10 ∷ []))

abbrev pub gn_fail : List ℕ → List ℕ → Option (List ℕ) → Option (List ℕ) → Outcome
gn_fail fname msg arg name =
    failed (fname ++ (error_text ++ (named name ++ (colon_text ++ (msg ++ (10 ∷ offending arg))))))

unfoldable pub base_of : ℕ → ℕ
unfolding has
base_of flags =
    if has flags gn_any_base
    then 0
    else if has flags gn_base_8
    then 8
    else if has flags gn_base_16
    then 16
    else 10

-- `res < 0`
abbrev pub below_zero : ℤ → Bool
below_zero (pos n) = false
below_zero (negsuc n) = true

-- `res <= 0`
abbrev pub at_most_zero : ℤ → Bool
at_most_zero (pos n) = n == 0
at_most_zero (negsuc n) = true

abbrev pub not_empty : List ℕ → Bool
not_empty [] = false
not_empty (c ∷ cs) = true

-- the tests behind `strtol`
unfoldable pub checked : List ℕ → List ℕ → ℕ → Option (List ℕ) → Converted → Outcome
unfolding has
checked fname arg flags name r =
    if r.erange
    then gn_fail fname strtol_text (some arg) name
    else if not_empty r.rest
    then gn_fail fname nonnumeric_text (some arg) name
    else if has flags gn_nonneg && below_zero r.value
    then gn_fail fname negative_text (some arg) name
    else if has flags gn_gt_0 && at_most_zero r.value
    then gn_fail fname positive_text (some arg) name
    else given r.value

unfoldable pub get_num : List ℕ → Option (List ℕ) → ℕ → Option (List ℕ) → Outcome
unfolding base_of checked strtol
get_num fname none flags name = gn_fail fname empty_text none name
get_num fname (some []) flags name = gn_fail fname empty_text (some []) name
get_num fname (some (c ∷ cs)) flags name =
    checked fname (c ∷ cs) flags name (strtol (base_of flags) (c ∷ cs))

unfoldable pub get_long : Option (List ℕ) → ℕ → Option (List ℕ) → Outcome
unfolding get_num
get_long arg flags name = get_num get_long_text arg flags name

-- `res > INT_MAX || res < INT_MIN`, for an int of 32 bits
unfoldable pub out_of_int : ℤ → Bool
out_of_int (pos n) = ltb (2 ^ 31 - 1) n
out_of_int (negsuc n) = ltb (2 ^ 31 - 1) n

abbrev pub as_int : Option (List ℕ) → Option (List ℕ) → Outcome → Outcome
as_int arg name (failed text) = failed text
as_int arg name (given res) =
    if out_of_int res then gn_fail get_int_text range_text arg name else given res

unfoldable pub get_int : Option (List ℕ) → ℕ → Option (List ℕ) → Outcome
unfolding get_num out_of_int
get_int arg flags name = as_int arg name (get_num get_int_text arg flags name)
