-- ===== src/Db/Search/Free.antt =====
-- The walk of `_db_findfree` along the free list.
use my_file.Prelude.{
  ℕ, zero, suc, ◌+◌, ◌<◌, ◌≡◌, inl, inr, refl, sym, Bool, false, ◌&&◌, Option, none, some, List, [],
  ◌∷◌, arith, ◌==◌, if◌then◌else◌, Bool-cases, length, pos,
}
use my_file.Db.State.{Db, exclusive, unlocked, relock, ok}
use my_file.Db.Pointers.{ptr_sz}
use my_file.Db.Pointers.RoundTrip.{readptr-inside}
use my_file.Db.Records.{readidx}
use my_file.Db.Records.Parse.{loaded, readidx-entry}
use my_file.Db.Search.{free_off, findfree_loop, findfree}
use my_file.Db.Search.Chain.{Row, row_key, Chain, SameFiles}
use my_file.Db.Search.Frame.{Chained}

-- whether a record has the sizes that are wanted
abbrev pub sizes_fit : ℕ → ℕ → Row → Bool
sizes_fit keylen datlen r = (length (row_key r) == keylen) && (r.entry.datlen == datlen)

-- the first free record of these sizes, with the offset of the pointer to it
abbrev pub find_free : ℕ → ℕ → ℕ → List Row → Option (ℕ × Row)
find_free keylen datlen save [] = none
find_free keylen datlen save (r ∷ rows) =
    if sizes_fit keylen datlen r then some (save, r) else find_free keylen datlen r.at rows

abbrev pub free_walked : ℕ → ℕ → Db → List Row → Db
free_walked keylen datlen s [] = s
free_walked keylen datlen s (r ∷ rows) =
    if sizes_fit keylen datlen r
    then loaded s r.at r.entry
    else free_walked keylen datlen (loaded s r.at r.entry) rows

abbrev pub slot_of : Option (ℕ × Row) → Option ℕ
slot_of none = none
slot_of (some (save, _)) = some save

module _ (keylen datlen : ℕ) where
  -- The loop of _db_findfree, on a free list of fewer records than it has fuel, ends with the first
  -- free record of the sizes or says that there is none.
  pub findfree_loop-Chain :
      (fuel save off : ℕ) (s : Db) (rows : List Row)
      → Chain s.idx s.dat off rows
      → length rows < fuel
      → findfree_loop fuel keylen datlen save (pos off) s
        ≡ ok (slot_of (find_free keylen datlen save rows)) (free_walked keylen datlen s rows)
  unfolding findfree_loop
  findfree_loop-Chain zero save off s rows c h = absurd (omega arith)
  findfree_loop-Chain (suc fuel) save off s [] c h = rw c
  findfree_loop-Chain (suc fuel) save zero s (r ∷ rows) c h = absurd (c.1.at_pos (sym c.0))
  findfree_loop-Chain (suc fuel) save (suc n) s (r ∷ rows) c h =
      let row = c.1 in
      let step : readidx (pos (suc n)) s ≡ ok (pos r.entry.ptr) (loaded s r.at r.entry) =
        rw c.0 (readidx-entry r.entry row.fits s r.at row.at_pos row.in_idx) in
      rw step (elim (Bool-cases (sizes_fit keylen datlen r)) [
        | inl hit ↦ rw hit
        | inr miss ↦
            rw (miss, c.0)
              (findfree_loop-Chain fuel r.at r.entry.ptr (loaded s r.at r.entry) rows c.2
                (omega arith))
      ])

  pub free_walked-SameFiles :
      (s : Db) (rows : List Row) → SameFiles s (free_walked keylen datlen s rows)
  free_walked-SameFiles s [] = record {
    idx = refl;
    dat = refl;
    chainoff = refl;
    hashoff = refl;
    nhash = refl;
  }
  free_walked-SameFiles s (r ∷ rows) = elim (Bool-cases (sizes_fit keylen datlen r)) [
    | inl hit ↦
        rw hit (record { idx = refl; dat = refl; chainoff = refl; hashoff = refl; nhash = refl })
    | inr miss ↦ rw miss (
        let w = free_walked-SameFiles (loaded s r.at r.entry) rows in
        record {
          idx = w.idx;
          dat = w.dat;
          chainoff = w.chainoff;
          hashoff = w.hashoff;
          nhash = w.nhash;
        })
  ]

-- the state in which the walk begins
abbrev pub at_free : Db → Db
at_free s = record s { idxlock = relock s.idxlock free_off 1 exclusive; idxpos = free_off + ptr_sz }

module _ (s : Db) (keylen datlen : ℕ) {start first : ℕ} {frees : List Row}
    (c : Chained s.idx s.dat start free_off first frees) where
  -- With no free record of the sizes the files stay as they are.
  pub findfree-none :
      find_free keylen datlen free_off frees ≡ none
      → (t : Db) × (findfree keylen datlen s ≡ ok false t) × SameFiles s t
  unfolding findfree
  findfree-none none_fits =
      let locked : Db = record s { idxlock = relock s.idxlock free_off 1 exclusive } in
      let end = free_walked keylen datlen (at_free s) frees in
      let same = free_walked-SameFiles keylen datlen (at_free s) frees in
      (
        record end { idxlock = relock end.idxlock free_off 1 unlocked },
        rw (
          readptr-inside locked free_off (let a = c.slot_in in let b = c.start_in in omega arith),
          c.slot_ptr,
          findfree_loop-Chain keylen datlen (suc (length s.idx)) free_off first (at_free s) frees
              c.chain (let n = c.short in omega arith),
          none_fits,
        ),
        record {
          idx = same.idx;
          dat = same.dat;
          chainoff = same.chainoff;
          hashoff = same.hashoff;
          nhash = same.nhash;
        },
      )
