-- ===== src/CLib/Strtoul/Bound.antt =====
-- The range of `strtoul`.
use my_file.Prelude.{ℕ, ◌^◌, ◌<◌, arith, Option, none, some, List, [], ◌∷◌}
use my_file.CLib.Numbers.{skip_spaces}
use my_file.CLib.Strtoul.{
  strtoul, signed_part, unsigned_part, magnitude, digits_loop, or_start, negated,
}

Low : Option (ℕ × List ℕ) → Type 0
Low none = Unit
Low (some r) = r.0 < 2 ^ 32

magnitude-Low : (r : ℕ × List ℕ) → (magnitude 32 r).0 < 2 ^ 32
unfolding magnitude
magnitude-Low r = ground arith

unsigned_part-Low : (s : List ℕ) → Low (unsigned_part 32 s)
unfolding unsigned_part Low
unsigned_part-Low [] = tt
unsigned_part-Low (c ∷ []) = let m = magnitude-Low (digits_loop 10 0 (c ∷ [])) in ground arith
unsigned_part-Low (c ∷ (d ∷ [])) =
    let m = magnitude-Low (digits_loop 10 0 (c ∷ (d ∷ []))) in
    let o = magnitude-Low (digits_loop 8 0 (c ∷ (d ∷ []))) in ground arith
unsigned_part-Low (c ∷ (d ∷ (e ∷ cs))) =
    let m = magnitude-Low (digits_loop 10 0 (c ∷ (d ∷ (e ∷ cs)))) in
    let o = magnitude-Low (digits_loop 8 0 (c ∷ (d ∷ (e ∷ cs)))) in
    let x = magnitude-Low (digits_loop 16 0 (e ∷ cs)) in ground arith

negated-Low : (r : Option (ℕ × List ℕ)) → Low (negated 32 r)
unfolding Low
negated-Low none = tt
negated-Low (some (n, rest)) = omega arith

signed_part-Low : (s : List ℕ) → Low (signed_part 32 s)
unfolding signed_part Low
signed_part-Low [] = tt
signed_part-Low (c ∷ cs) =
    let m = unsigned_part-Low cs in
    let o = unsigned_part-Low (c ∷ cs) in let n = negated-Low (unsigned_part 32 cs) in ground arith

or_start-Low : (s : List ℕ) (r : Option (ℕ × List ℕ)) → Low r → (or_start s r).0 < 2 ^ 32
unfolding Low
or_start-Low s none h = omega arith
or_start-Low s (some r) h = h

pub strtoul_bound : (s : List ℕ) → (strtoul 32 s).0 < 2 ^ 32
unfolding strtoul
strtoul_bound s = or_start-Low s (signed_part 32 (skip_spaces s)) (signed_part-Low (skip_spaces s))
