-- ===== src/GetNum/Tests.antt =====
-- Numeric arguments, at concrete texts.
use my_file.Prelude.{ℕ, ◌≡◌, refl, false, none, some, List, [], ◌∷◌, arith, pos, negsuc}
use my_file.CLib.Numbers.{is_space, is_digit}
use my_file.CLib.Strtol.RoundTrip.{numeral}
use my_file.GetNum.{
  given, has, base_of, gn_any_base, gn_base_16, gn_gt_0, gn_fail, get_long, get_int, get_int_text,
  get_long_text, empty_text, nonnumeric_text, range_text, positive_text,
}
use my_file.GetNum.RoundTrip.{InInt, Allowed, get_int-numeral}
use my_file.GetNum.Range.{Narrowed, get_int-Narrowed}

abbrev arg_name : List ℕ
arg_name = b'l' ∷ b'e' ∷ b'n' ∷ []

abbrev hex_31 : List ℕ
hex_31 = b' ' ∷ b'0' ∷ b'x' ∷ b'1' ∷ b'F' ∷ []

any_base : get_int (some hex_31) gn_any_base (some arg_name) ≡ given (pos 31)
unfolding get_int has is_space is_digit
any_base = refl

decimal_of_hex :
    get_int (some hex_31) 0 (some arg_name)
    ≡ gn_fail get_int_text nonnumeric_text (some hex_31) (some arg_name)
unfolding get_int has is_space is_digit
decimal_of_hex = refl

empty : get_long (some []) 0 none ≡ gn_fail get_long_text empty_text none none
unfolding get_long
empty = refl

abbrev zero_text : List ℕ
zero_text = b'-' ∷ b'0' ∷ []

not_above :
    get_int (some zero_text) gn_gt_0 none ≡ gn_fail get_int_text positive_text (some zero_text) none
unfolding get_int has is_space is_digit
not_above = refl

-- 2^31 in base 16
abbrev wide : List ℕ
wide = b'8' ∷ b'0' ∷ b'0' ∷ b'0' ∷ b'0' ∷ b'0' ∷ b'0' ∷ b'0' ∷ []

too_wide : get_int (some wide) gn_base_16 none ≡ gn_fail get_int_text range_text (some wide) none
unfolding get_int has is_space is_digit
too_wide = refl

narrow_enough : get_int (some (b'-' ∷ wide)) gn_base_16 none ≡ given (negsuc 2147483647)
unfolding get_int has is_space is_digit
narrow_enough = refl

-- GN_BASE_16 with GN_GT_0
abbrev flags_of_len : ℕ
flags_of_len = 258

flags_of_len-Allowed : Allowed flags_of_len (pos 31)
unfolding has
flags_of_len-Allowed = record { nonneg = λ h. (31, refl); positive = λ h. (30, refl) }

hexadecimal : (has flags_of_len gn_any_base ≡ false)
unfolding has
hexadecimal = refl

get_int-numeral_example :
    (get_long (some (numeral (base_of flags_of_len) (pos 31))) flags_of_len (some arg_name)
      ≡ given (pos 31))
    × (InInt (pos 31)
        → get_int (some (numeral (base_of flags_of_len) (pos 31))) flags_of_len (some arg_name)
          ≡ given (pos 31))
get_int-numeral_example =
    get_int-numeral flags_of_len (some arg_name) (pos 31) hexadecimal (omega arith)
      flags_of_len-Allowed

get_int-Narrowed_example :
    Narrowed gn_base_16 (get_int (some wide) gn_base_16 none) (get_long (some wide) gn_base_16 none)
get_int-Narrowed_example = get_int-Narrowed (some wide) gn_base_16 none
