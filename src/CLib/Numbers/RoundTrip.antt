-- ===== src/CLib/Numbers/RoundTrip.antt =====
-- What `atol` reads back of a printed number, and how long the print is.
use native.Mathlib.Nat.{pow-suc}
use my_file.Prelude.{
  ℕ, zero, suc, ◌+◌, ◌-◌, ◌*◌, ◌/◌, ◌%◌, ◌^◌, ◌≤◌, ◌<◌, ◌≡◌, refl, ◌∙◌, ap, true, inl, inr, List,
  [], ◌∷◌, ◌++◌, arith, ltb, ltb→lt, Bool-cases, length, replicate, length-append, length-replicate,
  pos,
}
use my_file.CLib.Numbers.{dec_loop, dec, pad, is_digit, atol_digits, atol}

digit-IsDigit : (d : ℕ) → d < 10 → is_digit (48 + d) ≡ true
unfolding is_digit
digit-IsDigit d h = ground arith

atol_digits-digit :
    (acc d m : ℕ) (rest : List ℕ)
    → d < 10
    → acc * 10 + d ≡ m
    → atol_digits acc ((48 + d) ∷ rest) ≡ atol_digits m rest
unfolding atol_digits
atol_digits-digit acc d m rest h e =
    let e' : acc * 10 + (48 + d - 48) ≡ m = omega arith in rw (digit-IsDigit d h, e')

-- Reading the digits of `n` and going on is going on from `n`.
pub atol_digits-dec_loop :
    (f n : ℕ) (rest : List ℕ) → n ≤ f → atol_digits 0 (dec_loop f n rest) ≡ atol_digits n rest
unfolding dec_loop
atol_digits-dec_loop zero n rest h = atol_digits-digit 0 (n % 10) n rest (omega arith) (omega arith)
atol_digits-dec_loop (suc f) n rest h = elim (Bool-cases (ltb n 10)) [
  | inl small ↦ rw small (atol_digits-digit 0 n n rest (ltb→lt n 10 small) (omega arith))
  | inr big ↦ rw big (
      atol_digits-dec_loop f (n / 10) ((48 + n % 10) ∷ rest) (ground arith)
      ∙ atol_digits-digit (n / 10) (n % 10) n rest (omega arith) (omega arith))
]

-- A print begins with a digit, so `atol` skips nothing and sees no sign.
atol-digit :
    (d : ℕ) (rest : List ℕ)
    → d < 10
    → atol ((48 + d) ∷ rest) ≡ pos (atol_digits 0 ((48 + d) ∷ rest))
unfolding atol
atol-digit d rest h = ground arith

pub atol-dec_loop :
    (f n : ℕ) (rest : List ℕ) → atol (dec_loop f n rest) ≡ pos (atol_digits 0 (dec_loop f n rest))
unfolding dec_loop
atol-dec_loop zero n rest = atol-digit (n % 10) rest (omega arith)
atol-dec_loop (suc f) n rest = elim (Bool-cases (ltb n 10)) [
  | inl small ↦ rw small (atol-digit n rest (ltb→lt n 10 small))
  | inr big ↦ rw big (atol-dec_loop f (n / 10) ((48 + n % 10) ∷ rest))
]

atol-spaces : (k : ℕ) (s : List ℕ) → atol (replicate k 32 ++ s) ≡ atol s
unfolding atol
atol-spaces zero s = refl
atol-spaces (suc k) s = atol-spaces k s

length-dec_loop :
    (k f n : ℕ) (rest : List ℕ)
    → n < 10 ^ suc k
    → n ≤ f
    → length (dec_loop f n rest) ≤ suc k + length rest
unfolding dec_loop
length-dec_loop k zero n rest h hf = omega arith
length-dec_loop zero (suc f) n rest h hf = ground arith
length-dec_loop (suc k) (suc f) n rest h hf =
    let small : n / 10 < 10 ^ suc k = omega (arith, pow-suc 10 (suc k)) in
    let shorter = length-dec_loop k f (n / 10) ((48 + n % 10) ∷ rest) small (ground arith) in
    ground arith

pub atol-dec : (n : ℕ) → atol (dec n) ≡ pos n
unfolding dec atol_digits
atol-dec n = atol-dec_loop n n [] ∙ ap pos (atol_digits-dec_loop n n [] (omega arith))

-- A number printed at any width reads back.
pub atol-pad : (w n : ℕ) → atol (pad w (dec n)) ≡ pos n
unfolding pad
atol-pad w n = atol-spaces (w - length (dec n)) (dec n) ∙ atol-dec n

pub length-dec : (k n : ℕ) → n < 10 ^ suc k → length (dec n) ≤ suc k
unfolding dec
length-dec k n h = omega (arith, length-dec_loop k n n [] h (omega arith))

-- A number of at most `w` digits fills the width exactly.
pub length-pad : (k n : ℕ) → n < 10 ^ suc k → length (pad (suc k) (dec n)) ≡ suc k
unfolding pad
length-pad k n h = omega (
  arith,
  length-append (replicate (suc k - length (dec n)) 32) (dec n),
  length-replicate (suc k - length (dec n)) (let c : ℕ = 32 in c),
  length-dec k n h,
)
