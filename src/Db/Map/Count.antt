-- ===== src/Db/Map/Count.antt =====
-- Records that do not overlap are fewer than the index file has bytes.
use my_file.Prelude.{
  ℕ, zero, suc, ◌+◌, ◌≤◌, ◌<◌, ◌≡◌, ◌≢◌, inl, inr, refl, sym, Bool, true, false, List, [], ◌∷◌,
  arith, ◌==◌, Bool-cases, length,
}
use mathlib.Core.Path.{subst}
use my_file.Db.Records.Parse.{length-entry_text}
use my_file.Db.Search.Chain.{Row, IsRow, Chain}
use my_file.Db.Search.Frame.{Behind}
use my_file.Db.Search.Relink.{row_within}
use my_file.Db.Map.Extents.{Apart, AllApart, Spread}
use my_file.Db.Map.Places.{ext, exts}

abbrev one_if : Bool → ℕ
one_if true = 1
one_if false = 0

-- how many records begin at the offset
abbrev begins : ℕ → List Row → ℕ
begins x [] = 0
begins x (r ∷ rows) = one_if (x == r.at) + begins x rows

-- how many begin at the offsets below `n`
abbrev begin_below : ℕ → List Row → ℕ
begin_below zero rows = 0
begin_below (suc n) rows = begins n rows + begin_below n rows

abbrev at_below : ℕ → ℕ → ℕ
at_below zero a = 0
at_below (suc n) a = one_if (n == a) + at_below n a

at_below_none : (n a : ℕ) → n ≤ a → at_below n a ≡ 0
at_below_none zero a h = refl
at_below_none (suc n) a h = let rest = at_below_none n a (omega arith) in ground (arith, rest)

at_below_one : (n a : ℕ) → a < n → at_below n a ≡ 1
at_below_one zero a h = absurd (omega arith)
at_below_one (suc n) a h = elim (Bool-cases (n == a)) [
  | inl e ↦ let same : n ≡ a = ground arith in rw e (omega (arith, at_below_none n a (omega arith)))
  | inr e ↦ let below : a < n = ground arith in rw e (omega (arith, at_below_one n a below))
]

begin_below-cons :
    (n : ℕ) (r : Row) (rows : List Row)
    → begin_below n (r ∷ rows) ≡ at_below n r.at + begin_below n rows
begin_below-cons zero r rows = refl
begin_below-cons (suc n) r rows = omega (arith, begin_below-cons n r rows)

begin_below-nil : (n : ℕ) → begin_below n [] ≡ 0
begin_below-nil zero = refl
begin_below-nil (suc n) = omega (arith, begin_below-nil n)

module _ (idx dat : List ℕ) where
  begin_below-length :
      (off : ℕ) (rows : List Row)
      → Chain idx dat off rows
      → begin_below (length idx) rows ≡ length rows
  begin_below-length off [] c = begin_below-nil (length idx)
  begin_below-length off (r ∷ rows) c = omega (
    arith,
    begin_below-cons (length idx) r rows,
    begin_below-length r.entry.ptr rows c.2,
    at_below_one (length idx) r.at (omega (arith, row_within c.1)),
  )

  row_long : {r : Row} → IsRow idx dat r → r.at < (ext r).till
  row_long {r = r} h = omega (arith, length-entry_text r.entry h.fits)

  not_begun :
      (q r : Row)
      → IsRow idx dat r
      → q.at < (ext q).till
      → Apart (ext q) (ext r)
      → (q.at == r.at) ≡ false
  not_begun q r c h a =
      let l = row_long c in
      let ne : q.at ≢ r.at = elim a.in_idx [
        | inl f ↦ λ e. omega (arith, e)
        | inr f ↦ λ e. omega (arith, e)
      ] in
      ground (arith, ne)

  -- No other record begins where a record does.
  begins_apart :
      (off : ℕ) (q : Row) (rows : List Row)
      → Chain idx dat off rows
      → q.at < (ext q).till
      → AllApart (ext q) (exts rows)
      → begins q.at rows ≡ 0
  begins_apart off q [] c h a = refl
  begins_apart off q (r ∷ rows) c h a =
      let rest = begins_apart r.entry.ptr q rows c.2 h a.1 in
      let ne : (q.at == r.at) ≡ false = not_begun q r c.1 h a.0 in rw ne (omega (arith, rest))

  begins_le :
      (x off : ℕ) (rows : List Row)
      → Chain idx dat off rows
      → Spread (exts rows)
      → begins x rows ≤ 1
  begins_le x off [] c s = omega arith
  begins_le x off (r ∷ rows) c s = elim (Bool-cases (x == r.at)) [
    | inl e ↦
        let same : x ≡ r.at = ground arith in
        let none = begins_apart r.entry.ptr r rows c.2 (row_long c.1) s.0 in
        rw e (
          let none' : begins x rows ≡ 0 = subst (λ y. begins y rows ≡ 0) (sym same) none in
          omega (arith, none'))
    | inr e ↦ rw e (omega (arith, begins_le x r.entry.ptr rows c.2 s.1))
  ]

  begins_in_front :
      (x start : ℕ) (rows : List Row) → Behind start rows → x < start → begins x rows ≡ 0
  begins_in_front x start [] b h = refl
  begins_in_front x start (r ∷ rows) b h =
      let rest = begins_in_front x start rows b.1 h in
      let at = b.0 in let ne : (x == r.at) ≡ false = ground arith in rw ne (omega (arith, rest))

  begin_below_le :
      (off start n : ℕ) (rows : List Row)
      → Chain idx dat off rows
      → Behind start rows
      → Spread (exts rows)
      → 0 < start
      → suc (begin_below (suc n) rows) ≤ suc n
  begin_below_le off start zero rows c b s h = omega (arith, begins_in_front 0 start rows b h)
  begin_below_le off start (suc n) rows c b s h =
      omega (arith, begin_below_le off start n rows c b s h, begins_le (suc n) off rows c s)

  -- Records that do not overlap are fewer than the bytes.
  pub Spread-fewer :
      (off start : ℕ) (rows : List Row)
      → Chain idx dat off rows
      → Behind start rows
      → Spread (exts rows)
      → 0 < start
      → 0 < length idx
      → length rows < length idx
  Spread-fewer off start rows c b s h i = go (length idx) i (begin_below-length off rows c)
    where
      go : (n : ℕ) → 0 < n → begin_below n rows ≡ length rows → length rows < n
      go zero i e = absurd (omega arith)
      go (suc n) i e = omega (arith, begin_below_le off start n rows c b s h, e)
