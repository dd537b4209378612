-- ===== src/CLib/Numbers/Digits.antt =====
-- The bytes of a printed number.
use my_file.Prelude.{
  ℕ, zero, suc, ◌+◌, ◌/◌, ◌%◌, ◌<◌, ◌≡◌, ◌⊎◌, inl, inr, false, List, [], ◌∷◌, arith, ltb, ◌==◌,
  Bool-cases, length,
}
use my_file.CLib.Numbers.{dec_loop, dec}
use my_file.CLib.Strings.Laws.{Lacks}

module _ (c : ℕ) (other : (c < 48) ⊎ (57 < c)) where
  digit_ne : (d : ℕ) → d < 10 → ((48 + d) == c) ≡ false
  digit_ne d h = ground arith

  Lacks-dec_loop : (f n : ℕ) (rest : List ℕ) → Lacks c rest → Lacks c (dec_loop f n rest)
  unfolding dec_loop
  Lacks-dec_loop zero n rest h = (digit_ne (n % 10) (omega arith), h)
  Lacks-dec_loop (suc f) n rest h = elim (Bool-cases (ltb n 10)) [
    | inl small ↦ rw small (digit_ne n (ground arith), h)
    | inr big ↦ rw big (Lacks-dec_loop f (n / 10) _ (digit_ne (n % 10) (omega arith), h))
  ]

  pub Lacks-dec : (n : ℕ) → Lacks c (dec n)
  unfolding dec
  Lacks-dec n = Lacks-dec_loop n n [] tt

dec_loop_pos : (f n : ℕ) (rest : List ℕ) → 0 < length (dec_loop f n rest)
unfolding dec_loop
dec_loop_pos zero n rest = omega arith
dec_loop_pos (suc f) n rest = ground (arith, dec_loop_pos f (n / 10) ((48 + n % 10) ∷ rest))

pub dec_pos : (n : ℕ) → 0 < length (dec n)
unfolding dec
dec_pos n = dec_loop_pos n n []
