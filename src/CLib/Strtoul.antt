-- ===== src/CLib/Strtoul.antt =====
-- `strtoul` with base 0, for an unsigned long of `w` bits. The result has the text behind the
-- number, to which `endptr` points.
pub mod Bound
use my_file.Prelude.{
  ℕ, ◌+◌, ◌-◌, ◌*◌, ◌%◌, ◌^◌, ◌&&◌, ◌||◌, Option, none, some, List, [], ◌∷◌, ltb, leb, ◌==◌,
  if◌then◌else◌,
}
use my_file.CLib.Numbers.{is_digit, is_space, skip_spaces}

-- the value of a digit, 99 for another byte
unfoldable pub digit_value : ℕ → ℕ
unfolding is_digit
digit_value c =
    if is_digit c
    then c - 48
    else if leb b'a' c && leb c b'z'
    then c - 87
    else if leb b'A' c && leb c b'Z'
    then c - 55
    else 99

-- the digits of the base at the front of a text
unfoldable pub digits_loop : ℕ → ℕ → List ℕ → ℕ × List ℕ
digits_loop base acc [] = (acc, [])
digits_loop base acc (c ∷ cs) =
    let more = digits_loop base (acc * base + digit_value c) cs in
    if ltb (digit_value c) base then more else (acc, c ∷ cs)

-- what stands in front of the digits, with the number out of range held at the largest
unfoldable pub magnitude : ℕ → ℕ × List ℕ → ℕ × List ℕ
magnitude w (n, rest) = (if ltb n (2 ^ w) then n else 2 ^ w - 1, rest)

-- the base by its prefix; "0x" with no digit behind it is the number 0 and a rest
unfoldable pub unsigned_part : ℕ → List ℕ → Option (ℕ × List ℕ)
unfolding digits_loop magnitude digit_value
unsigned_part w [] = none
unsigned_part w (c ∷ []) =
    if is_digit c then some (magnitude w (digits_loop 10 0 (c ∷ []))) else none
unsigned_part w (c ∷ (d ∷ [])) =
    if c == b'0'
    then some (magnitude w (digits_loop 8 0 (c ∷ (d ∷ []))))
    else if is_digit c
    then some (magnitude w (digits_loop 10 0 (c ∷ (d ∷ []))))
    else none
unsigned_part w (c ∷ (d ∷ (e ∷ cs))) =
    if (c == b'0') && (((d == b'x') || (d == b'X')) && ltb (digit_value e) 16)
    then some (magnitude w (digits_loop 16 0 (e ∷ cs)))
    else if c == b'0'
    then some (magnitude w (digits_loop 8 0 (c ∷ (d ∷ (e ∷ cs)))))
    else if is_digit c
    then some (magnitude w (digits_loop 10 0 (c ∷ (d ∷ (e ∷ cs)))))
    else none

abbrev pub or_start : List ℕ → Option (ℕ × List ℕ) → ℕ × List ℕ
or_start s none = (0, s)
or_start s (some r) = r

abbrev pub negated : ℕ → Option (ℕ × List ℕ) → Option (ℕ × List ℕ)
negated w none = none
negated w (some (n, rest)) = some ((2 ^ w - n) % 2 ^ w, rest)

unfoldable pub signed_part : ℕ → List ℕ → Option (ℕ × List ℕ)
unfolding unsigned_part
signed_part w [] = none
signed_part w (c ∷ cs) =
    if c == b'-'
    then negated w (unsigned_part w cs)
    else if c == b'+'
    then unsigned_part w cs
    else unsigned_part w (c ∷ cs)

unfoldable pub strtoul : ℕ → List ℕ → ℕ × List ℕ
unfolding signed_part skip_spaces is_space
strtoul w s = or_start s (signed_part w (skip_spaces s))
