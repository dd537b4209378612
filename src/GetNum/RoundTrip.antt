-- ===== src/GetNum/RoundTrip.antt =====
-- Numbers that `getLong` and `getInt` read back.
use my_file.Prelude.{
  ℕ, suc, ◌^◌, ◌≤◌, ◌<◌, ◌≡◌, refl, ap, ◌∙◌, Bool, true, false, ◌&&◌, Option, some, List, [], ◌∷◌,
  arith, ℤ, pos, negsuc,
}
use my_file.CLib.Strtol.{strtol}
use my_file.CLib.Strtol.RoundTrip.{InLong, numeral, numeral-cons, strtol-numeral}
use my_file.GetNum.{
  given, has, base_of, gn_any_base, gn_nonneg, gn_gt_0, below_zero, at_most_zero, checked, get_num,
  get_long, get_int, out_of_int, get_long_text, get_int_text,
}

-- The flags let a number through: GN_NONNEG asks for one from 0 on, GN_GT_0 for one above.
pub record Allowed (flags : ℕ) (j : ℤ) : Type 0 where
  pub nonneg : has flags gn_nonneg ≡ true → (n : ℕ) × (j ≡ pos n)
  pub positive : has flags gn_gt_0 ≡ true → (n : ℕ) × (j ≡ pos (suc n))

-- a number that an int of 32 bits holds
abbrev pub InInt : ℤ → Type 0
InInt (pos n) = n < 2 ^ 31
InInt (negsuc n) = n < 2 ^ 31

passes : (b : Bool) (t : ℤ → Bool) (j : ℤ) → (b ≡ true → t j ≡ false) → (b && t j) ≡ false
passes false t j h = refl
passes true t j h = h refl

positive_lem : (n : ℕ) → at_most_zero (pos (suc n)) ≡ false
positive_lem n = ground arith

checked-Allowed :
    (fname arg : List ℕ) (flags : ℕ) (name : Option (List ℕ)) (j : ℤ)
    → Allowed flags j
    → checked fname arg flags name (record { value = j; rest = []; erange = false }) ≡ given j
unfolding checked
checked-Allowed fname arg flags name j a =
    let one : (has flags gn_nonneg && below_zero j) ≡ false =
      passes (has flags gn_nonneg) below_zero j (λ h. ap below_zero (a.nonneg h).1) in
    let two : (has flags gn_gt_0 && at_most_zero j) ≡ false =
      passes (has flags gn_gt_0) at_most_zero j
        (λ h. let p = a.positive h in ap at_most_zero p.1 ∙ positive_lem p.0) in
    rw (one, two) refl

-- Without GN_ANY_BASE, the base is 8, 16 or 10.
base_of-bounds :
    (flags : ℕ) → has flags gn_any_base ≡ false → (2 ≤ base_of flags) × (base_of flags ≤ 16)
unfolding base_of
base_of-bounds flags h = (ground arith, ground arith)

get_num-cons :
    (fname s : List ℕ) (c : ℕ) (cs : List ℕ) (flags : ℕ) (name : Option (List ℕ))
    → s ≡ c ∷ cs
    → get_num fname (some s) flags name ≡ checked fname s flags name (strtol (base_of flags) s)
unfolding get_num
get_num-cons fname [] c cs flags name e = cc
get_num-cons fname (d ∷ ds) c cs flags name e = refl

get_num-numeral :
    (fname : List ℕ) (flags : ℕ) (name : Option (List ℕ)) (j : ℤ)
    → has flags gn_any_base ≡ false
    → InLong j
    → Allowed flags j
    → get_num fname (some (numeral (base_of flags) j)) flags name ≡ given j
get_num-numeral fname flags name j any h a =
    let b = base_of-bounds flags any in
    let s : List ℕ = numeral (base_of flags) j in
    let (c, cs, e) = numeral-cons (base_of flags) b.0 b.1 j in
    get_num-cons fname s c cs flags name e
    ∙ (ap (checked fname s flags name) (strtol-numeral (base_of flags) b.0 b.1 j h)
        ∙ checked-Allowed fname s flags name j a)

int_bound : (j : ℤ) → InInt j → (out_of_int j ≡ false) × InLong j
unfolding out_of_int
int_bound (pos n) h = (ground arith, omega arith)
int_bound (negsuc n) h = (ground arith, omega arith)

-- For flags without GN_ANY_BASE and a number of 64 bits that GN_NONNEG and GN_GT_0, where they are
-- among the flags, let through: getLong gives the number back from its numeral, with its sign, in
-- the base of the flags, and so does getInt if an int of 32 bits holds it.
pub get_int-numeral :
    (flags : ℕ) (name : Option (List ℕ)) (j : ℤ)
    → has flags gn_any_base ≡ false
    → InLong j
    → Allowed flags j
    → (get_long (some (numeral (base_of flags) j)) flags name ≡ given j)
      × (InInt j → get_int (some (numeral (base_of flags) j)) flags name ≡ given j)
unfolding get_long get_int
get_int-numeral flags name j any h a = (
  get_num-numeral get_long_text flags name j any h a,
  λ i. rw (get_num-numeral get_int_text flags name j any h a, (int_bound j i).0) refl,
)
