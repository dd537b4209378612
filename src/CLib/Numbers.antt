-- ===== src/CLib/Numbers.antt =====
-- `printf` of `%ld` and `%*ld`, and `atol`, on texts as lists of bytes.
pub mod RoundTrip
pub mod Digits
use my_file.Prelude.{
  ℕ, zero, suc, ◌+◌, ◌-◌, ◌*◌, ◌/◌, ◌%◌, Bool, ◌&&◌, ◌||◌, List, [], ◌∷◌, ◌++◌, ltb, leb, ◌==◌,
  if◌then◌else◌, length, replicate, ℤ, pos, neg,
}

-- The decimal digits of `n` in front of `rest`. Fuel `n` is enough, since `n / 10 < n`.
unfoldable pub dec_loop : ℕ → ℕ → List ℕ → List ℕ
dec_loop zero n rest = (48 + n % 10) ∷ rest
dec_loop (suc f) n rest =
    let more = dec_loop f (n / 10) ((48 + n % 10) ∷ rest) in
    if ltb n 10 then (48 + n) ∷ rest else more

-- `%ld` of a number that is not negative
unfoldable pub dec : ℕ → List ℕ
unfolding dec_loop
dec n = dec_loop n n []

-- `%*ld`: blanks on the left up to the width
unfoldable pub pad : ℕ → List ℕ → List ℕ
pad w s = replicate (w - length s) 32 ++ s

unfoldable pub is_digit : ℕ → Bool
is_digit c = leb 48 c && leb c 57

unfoldable pub is_space : ℕ → Bool
is_space c = (c == 32) || (leb 9 c && leb c 13)

unfoldable pub atol_digits : ℕ → List ℕ → ℕ
atol_digits acc [] = acc
atol_digits acc (c ∷ cs) =
    let more = atol_digits (acc * 10 + (c - 48)) cs in if is_digit c then more else acc

unfoldable pub skip_spaces : List ℕ → List ℕ
skip_spaces [] = []
skip_spaces (c ∷ cs) = let more = skip_spaces cs in if is_space c then more else c ∷ cs

unfoldable pub atol_sign : List ℕ → ℤ
atol_sign [] = pos 0
atol_sign (c ∷ cs) =
    if c == b'-'
    then neg (atol_digits 0 cs)
    else if c == b'+'
    then pos (atol_digits 0 cs)
    else pos (atol_digits 0 (c ∷ cs))

unfoldable pub atol : List ℕ → ℤ
unfolding atol_sign skip_spaces atol_digits is_digit is_space
atol s = atol_sign (skip_spaces s)
