-- ===== src/GetNum/Range.antt =====
-- What `getInt` gives, against what `getLong` gives.
use my_file.Prelude.{
  ℕ, zero, suc, sym, ◌≡◌, refl, ap, ◌∙◌, Bool, true, false, inl, inr, ◌&&◌, Bool-cases, Option,
  none, some, List, [], ◌∷◌, arith, ℤ, pos, negsuc,
}
use my_file.CLib.Strtol.{Converted, strtol}
use my_file.GetNum.{
  Outcome, given, failed, has, base_of, gn_nonneg, gn_gt_0, not_empty, below_zero, at_most_zero,
  checked, get_num, get_long, get_int, out_of_int, as_int, get_long_text, get_int_text,
}
use my_file.GetNum.RoundTrip.{Allowed, InInt}

-- Two outcomes are the same value, which the flags let through, or both a failure.
Same : ℕ → Outcome → Outcome → Type 0
Same flags (given j) (given k) = (j ≡ k) × Allowed flags k
Same flags (given j) (failed u) = ⊥
Same flags (failed t) (given k) = ⊥
Same flags (failed t) (failed u) = Unit

-- The first outcome is the value of the second, which the flags let through, where an int holds it,
-- and a failure where it does not, or where the second is one.
abbrev pub Narrowed : ℕ → Outcome → Outcome → Type 0
Narrowed flags (given j) (given k) = (j ≡ k) × InInt k × Allowed flags k
Narrowed flags (given j) (failed u) = ⊥
Narrowed flags (failed t) (given k) = InInt k → ⊥
Narrowed flags (failed t) (failed u) = Unit

not_negative : (b : Bool) (j : ℤ) → (b && below_zero j) ≡ false → b ≡ true → (n : ℕ) × (j ≡ pos n)
not_negative b (pos n) h e = (n, refl)
not_negative true (negsuc n) h e = absurd (ground arith)
not_negative false (negsuc n) h e = absurd (ground arith)

above_zero :
    (b : Bool) (j : ℤ) → (b && at_most_zero j) ≡ false → b ≡ true → (n : ℕ) × (j ≡ pos (suc n))
above_zero true (pos zero) h e = absurd (ground arith)
above_zero false (pos zero) h e = absurd (ground arith)
above_zero b (pos (suc n)) h e = (n, refl)
above_zero true (negsuc n) h e = absurd (ground arith)
above_zero false (negsuc n) h e = absurd (ground arith)

checked-Same :
    (f g arg : List ℕ) (flags : ℕ) (name : Option (List ℕ)) (r : Converted)
    → Same flags (checked f arg flags name r) (checked g arg flags name r)
unfolding checked Same
checked-Same f g arg flags name r = elim (Bool-cases r.erange) [
  | inl e ↦ rw e tt
  | inr e ↦ elim (Bool-cases (not_empty r.rest)) [
    | inl m ↦ rw (e, m) tt
    | inr m ↦ elim (Bool-cases (has flags gn_nonneg && below_zero r.value)) [
      | inl n ↦ rw (e, m, n) tt
      | inr n ↦ elim (Bool-cases (has flags gn_gt_0 && at_most_zero r.value)) [
        | inl p ↦ rw (e, m, n, p) tt
        | inr p ↦
            rw (e, m, n, p)
              (
                refl,
                record {
                  nonneg = not_negative (has flags gn_nonneg) r.value n;
                  positive = above_zero (has flags gn_gt_0) r.value p;
                },
              )
      ]
    ]
  ]
]

get_num-Same :
    (f g : List ℕ) (arg : Option (List ℕ)) (flags : ℕ) (name : Option (List ℕ))
    → Same flags (get_num f arg flags name) (get_num g arg flags name)
unfolding get_num Same
get_num-Same f g none flags name = tt
get_num-Same f g (some []) flags name = tt
get_num-Same f g (some (c ∷ cs)) flags name =
    checked-Same f g (c ∷ cs) flags name (strtol (base_of flags) (c ∷ cs))

inside : (k : ℤ) → out_of_int k ≡ false → InInt k
unfolding out_of_int
inside (pos n) h = ground arith
inside (negsuc n) h = ground arith

outside : (k : ℤ) → out_of_int k ≡ true → InInt k → ⊥
unfolding out_of_int
outside (pos n) h i = ground arith
outside (negsuc n) h i = ground arith

as_int-Narrowed :
    (arg name : Option (List ℕ)) (flags : ℕ) (r q : Outcome)
    → Same flags r q
    → Narrowed flags (as_int arg name r) q
unfolding Same
as_int-Narrowed arg name flags (failed t) (failed u) h = tt
as_int-Narrowed arg name flags (failed t) (given k) h = absurd h
as_int-Narrowed arg name flags (given j) (failed u) h = absurd h
as_int-Narrowed arg name flags (given j) (given k) h = elim (Bool-cases (out_of_int j)) [
  | inl o ↦ rw o (λ i. outside k (ap out_of_int (sym h.0) ∙ o) i)
  | inr o ↦ rw o (h.0, inside k (ap out_of_int (sym h.0) ∙ o), h.1)
]

-- Whatever the text, the flags and the name: if getLong gives a number, GN_NONNEG and GN_GT_0 let
-- it through where they are among the flags, and getInt gives the same number if an int of 32 bits
-- holds it and fails if not; if getLong fails, getInt fails.
pub get_int-Narrowed :
    (arg : Option (List ℕ)) (flags : ℕ) (name : Option (List ℕ))
    → Narrowed flags (get_int arg flags name) (get_long arg flags name)
unfolding get_int get_long
get_int-Narrowed arg flags name =
    as_int-Narrowed arg name flags (get_num get_int_text arg flags name)
      (get_num get_long_text arg flags name)
      (get_num-Same get_int_text get_long_text arg flags name)
