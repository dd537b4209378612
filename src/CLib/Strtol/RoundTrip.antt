-- ===== src/CLib/Strtol/RoundTrip.antt =====
-- What `strtol` reads back of a numeral in a base.
use native.Mathlib.Nat.{div-add-mod', mod-lt, div-lt_self, mod-eq_of_lt}
use mathlib.Core.Path.{subst}
use my_file.Prelude.{
  and_false, ℕ, zero, suc, ◌+◌, ◌*◌, ◌/◌, ◌%◌, ◌^◌, ◌≤◌, ◌<◌, ◌≡◌, refl, ap, ◌∙◌, inl, inr, true,
  false, ◌&&◌, ◌||◌, Bool-cases, some, List, [], ◌∷◌, arith, ltb, lt→ltb, ltb→lt, ◌==◌,
  if◌then◌else◌, ℤ, pos, negsuc,
}
use my_file.CLib.Numbers.{is_digit, is_space, skip_spaces}
use my_file.CLib.Strtoul.{digit_value, digits_loop}
use my_file.CLib.Strings.Laws.{Lacks}
use my_file.CLib.Strtol.{digits_of, hex_prefix, number_part, clamp, or_nothing, with_sign, strtol}

-- a digit, with small letters from ten on
unfoldable pub digit_char : ℕ → ℕ
digit_char d = if ltb d 10 then 48 + d else 87 + d

-- The digits of `n` in front of `rest`. Fuel `n` is enough.
unfoldable pub base_loop : ℕ → ℕ → ℕ → List ℕ → List ℕ
unfolding digit_char
base_loop b zero n rest = digit_char (n % b) ∷ rest
base_loop b (suc f) n rest =
    let more = base_loop b f (n / b) (digit_char (n % b) ∷ rest) in
    if ltb n b then digit_char n ∷ rest else more

-- a number in a base
unfoldable pub numeral : ℕ → ℤ → List ℕ
unfolding base_loop
numeral b (pos n) = base_loop b n n []
numeral b (negsuc n) = b'-' ∷ base_loop b (suc n) (suc n) []

-- a number that a long of 64 bits holds
abbrev pub InLong : ℤ → Type 0
InLong (pos n) = n < 2 ^ 63
InLong (negsuc n) = n < 2 ^ 63

digit_value-digit_char : (d : ℕ) → d < 16 → digit_value (digit_char d) ≡ d
unfolding digit_value digit_char is_digit
digit_value-digit_char d h = ground arith

-- the bytes of a numeral
abbrev Numeral : List ℕ → Type 0
Numeral [] = Unit
Numeral (c ∷ cs) = (digit_value c < 16) × Numeral cs

plain_byte :
    (c : ℕ)
    → digit_value c < 16
    → (is_space c ≡ false) × ((c == b'-') ≡ false) × ((c == b'+') ≡ false)
unfolding digit_value is_digit is_space
plain_byte c h = (ground arith, ground arith, ground arith)

no_x : (d : ℕ) → digit_value d < 16 → ((d == b'x') || (d == b'X')) ≡ false
unfolding digit_value is_digit
no_x d h = ground arith

hex_prefix-Numeral : (s : List ℕ) → Numeral s → hex_prefix s ≡ false
hex_prefix-Numeral [] h = refl
hex_prefix-Numeral (c ∷ []) h = refl
hex_prefix-Numeral (c ∷ (d ∷ [])) h = refl
hex_prefix-Numeral (c ∷ (d ∷ (e ∷ cs))) h = rw (no_x d h.1.0) (and_false (c == b'0'))

Lacks-Numeral : (c : ℕ) (s : List ℕ) → 16 ≤ digit_value c → Numeral s → Lacks c s
Lacks-Numeral c [] h k = tt
Lacks-Numeral c (x ∷ s) h k = (
  elim (Bool-cases (x == c)) [
    | inl e ↦
        let q : x ≡ c = ground arith in
        absurd
          (let m : digit_value x ≡ digit_value c = ap digit_value q in let l = k.0 in omega arith)
    | inr e ↦ e
  ],
  Lacks-Numeral c s h k.1,
)

module _ (b : ℕ) (lo : 2 ≤ b) (hi : b ≤ 16) where
  mod_small : (n : ℕ) → n % b < b
  mod_small n = mod-lt n (omega arith)

  div_small : (f n : ℕ) → n ≤ suc f → b ≤ n → n / b ≤ f
  div_small f n h l = let s : n / b < n = div-lt_self (omega arith) (omega arith) in omega arith

  digits_loop-digit :
      (acc d m : ℕ) (rest : List ℕ)
      → d < b
      → acc * b + d ≡ m
      → digits_loop b acc (digit_char d ∷ rest) ≡ digits_loop b m rest
  unfolding digits_loop
  digits_loop-digit acc d m rest h e =
      rw (digit_value-digit_char d (omega arith), lt→ltb d b h, e) refl

  digits_loop-base_loop :
      (f n : ℕ) (rest : List ℕ)
      → n ≤ f
      → digits_loop b 0 (base_loop b f n rest) ≡ digits_loop b n rest
  unfolding base_loop
  digits_loop-base_loop zero n rest h =
      digits_loop-digit 0 (n % b) n rest (mod_small n)
        (let e : n % b ≡ n = mod-eq_of_lt (omega arith) in omega arith)
  digits_loop-base_loop (suc f) n rest h = elim (Bool-cases (ltb n b)) [
    | inl small ↦ rw small (digits_loop-digit 0 n n rest (ltb→lt n b small) (omega arith))
    | inr big ↦ rw big (
        digits_loop-base_loop f (n / b) (digit_char (n % b) ∷ rest) (div_small f n h (ground arith))
        ∙ digits_loop-digit (n / b) (n % b) n rest (mod_small n) (div-add-mod' n b))
  ]

  digits_of-digit :
      (d : ℕ) (rest : List ℕ)
      → d < b
      → digits_of b (digit_char d ∷ rest) ≡ some (digits_loop b 0 (digit_char d ∷ rest))
  unfolding digits_of
  digits_of-digit d rest h = rw (digit_value-digit_char d (omega arith), lt→ltb d b h) refl

  digits_of-base_loop :
      (f n : ℕ) (rest : List ℕ)
      → digits_of b (base_loop b f n rest) ≡ some (digits_loop b 0 (base_loop b f n rest))
  unfolding base_loop
  digits_of-base_loop zero n rest = digits_of-digit (n % b) rest (mod_small n)
  digits_of-base_loop (suc f) n rest = elim (Bool-cases (ltb n b)) [
    | inl small ↦ rw small (digits_of-digit n rest (ltb→lt n b small))
    | inr big ↦ rw big (digits_of-base_loop f (n / b) (digit_char (n % b) ∷ rest))
  ]

  digit_char-Numeral :
      (d : ℕ) (rest : List ℕ) → d < b → Numeral rest → Numeral (digit_char d ∷ rest)
  digit_char-Numeral d rest h r = (let e = digit_value-digit_char d (omega arith) in omega arith, r)

  base_loop-Numeral : (f n : ℕ) (rest : List ℕ) → Numeral rest → Numeral (base_loop b f n rest)
  unfolding base_loop
  base_loop-Numeral zero n rest r = digit_char-Numeral (n % b) rest (mod_small n) r
  base_loop-Numeral (suc f) n rest r = elim (Bool-cases (ltb n b)) [
    | inl small ↦ rw small (digit_char-Numeral n rest (ltb→lt n b small) r)
    | inr big ↦ rw big (
        base_loop-Numeral f (n / b) (digit_char (n % b) ∷ rest)
          (digit_char-Numeral (n % b) rest (mod_small n) r))
  ]

  number_part-base_loop : (n : ℕ) → number_part b (base_loop b n n []) ≡ some (n, [])
  unfolding number_part digits_loop
  number_part-base_loop n =
      let e : (b == 0) ≡ false = ground arith in
      let p : (((b == 0) || (b == 16)) && hex_prefix (base_loop b n n [])) ≡ false =
        rw (hex_prefix-Numeral (base_loop b n n []) (base_loop-Numeral n n [] tt))
          (and_false ((b == 0) || (b == 16))) in
      rw (p, e) (digits_of-base_loop n n [] ∙ ap some (digits_loop-base_loop n n [] (omega arith)))

  base_loop-cons :
      (f n : ℕ) (rest : List ℕ) → (c : ℕ) × (cs : List ℕ) × (base_loop b f n rest ≡ c ∷ cs)
  unfolding base_loop
  base_loop-cons zero n rest = (digit_char (n % b), rest, refl)
  base_loop-cons (suc f) n rest = elim (Bool-cases (ltb n b)) [
    | inl small ↦ (digit_char n, rest, rw small refl)
    | inr big ↦
        let r = base_loop-cons f (n / b) (digit_char (n % b) ∷ rest) in (r.0, r.1, rw big r.2)
  ]

  -- A minus is no space, and a numeral has no sign and no space in front.
  strtol-minus : (s : List ℕ) → strtol b (b'-' ∷ s) ≡ or_nothing (b'-' ∷ s) true (number_part b s)
  unfolding strtol with_sign skip_spaces is_space
  strtol-minus s = refl

  strtol-Numeral :
      (c : ℕ) (cs : List ℕ)
      → Numeral (c ∷ cs)
      → strtol b (c ∷ cs) ≡ or_nothing (c ∷ cs) false (number_part b (c ∷ cs))
  unfolding strtol with_sign skip_spaces
  strtol-Numeral c cs h = let p = plain_byte c h.0 in rw (p.0, p.1, p.2) refl

  strtol-base_loop : (n : ℕ) → strtol b (base_loop b n n []) ≡ clamp false (n, [])
  strtol-base_loop n =
      let (c, cs, e) = base_loop-cons n n [] in
      let digits : Numeral (c ∷ cs) = subst Numeral e (base_loop-Numeral n n [] tt) in
      let whole : number_part b (c ∷ cs) ≡ some (n, []) = rw (← e) (number_part-base_loop n) in
      ap (strtol b) e ∙ (strtol-Numeral c cs digits ∙ ap (or_nothing (c ∷ cs) false) whole)

  -- A number of 64 bits reads back from its numeral in the base.
  pub strtol-numeral :
      (j : ℤ) → InLong j → strtol b (numeral b j) ≡ record { value = j; rest = []; erange = false }
  unfolding numeral clamp
  strtol-numeral (pos n) h = strtol-base_loop n ∙ rw (lt→ltb n (2 ^ 63) h) refl
  strtol-numeral (negsuc n) h =
      let small : ltb (2 ^ 63) (suc n) ≡ false = ground arith in
      strtol-minus (base_loop b (suc n) (suc n) [])
      ∙ (ap (or_nothing (numeral b (negsuc n)) true) (number_part-base_loop (suc n))
          ∙ rw small refl)

  pub numeral-cons : (j : ℤ) → (c : ℕ) × (cs : List ℕ) × (numeral b j ≡ c ∷ cs)
  unfolding numeral
  numeral-cons (pos n) = base_loop-cons n n []
  numeral-cons (negsuc n) = (b'-', base_loop b (suc n) (suc n) [], refl)

  -- A byte that is no digit does not stand in a numeral of a number that is not negative.
  pub Lacks-numeral : (c n : ℕ) → 16 ≤ digit_value c → Lacks c (numeral b (pos n))
  unfolding numeral
  Lacks-numeral c n h = Lacks-Numeral c (base_loop b n n []) h (base_loop-Numeral n n [] tt)
