-- ===== src/Db/Map/Places.antt =====
-- The places of the records of a chain, and those that are left where a record goes.
use my_file.Prelude.{
  ℕ, ◌+◌, ◌≤◌, ◌≡◌, inl, inr, refl, ap, sym, some, List, [], ◌∷◌, arith, Bool-cases, length,
  bytes_eq,
}
use mathlib.Core.Path.{subst}
use my_file.CLib.Files.{HasAt-within}
use my_file.Db.Pointers.{ptr_max}
use my_file.Db.Records.Parse.{entry_text, length-entry_text}
use my_file.Db.Search.Chain.{Row, row_key, data_text, IsRow, Chain, find_row}
use my_file.Db.Search.Free.{sizes_fit, find_free}
use my_file.Db.Search.Unlink.{
  entry_end, RowsApart, AllRowsApart, Separate, relink, removed, removed_behind, blanked,
  IsRow-relink, length-data, length-blanked_entry,
}
use my_file.Db.Search.Relink.{Cross}
use my_file.Db.Search.Take.{taken, taken_behind}
use my_file.Db.Ops.Replace.{replaced}
use my_file.Db.Map.Extents.{Extent, Apart, AllApart, Spread, Across, Extract, here, there}

abbrev pub ext : Row → Extent
ext r = record {
  from = r.at;
  till = entry_end r;
  dat_from = r.entry.datoff;
  dat_till = r.entry.datoff + r.entry.datlen;
}

abbrev pub exts : List Row → List Extent
exts [] = []
exts (r ∷ rows) = ext r ∷ exts rows

RowsApart-ext : (r q : Row) → Apart (ext r) (ext q) → RowsApart r q
RowsApart-ext r q a = record { in_idx = a.in_idx; in_dat = a.in_dat }

AllRowsApart-exts : (r : Row) (rows : List Row) → AllApart (ext r) (exts rows) → AllRowsApart r rows
AllRowsApart-exts r [] a = tt
AllRowsApart-exts r (q ∷ rows) a = (RowsApart-ext r q a.0, AllRowsApart-exts r rows a.1)

pub Separate-exts : (rows : List Row) → Spread (exts rows) → Separate rows
Separate-exts [] s = tt
Separate-exts (r ∷ rows) s = (AllRowsApart-exts r rows s.0, Separate-exts rows s.1)

pub Cross-exts : (rows qs : List Row) → Across (exts rows) (exts qs) → Cross rows qs
Cross-exts [] qs a = tt
Cross-exts (r ∷ rows) qs a = (AllRowsApart-exts r qs a.0, Cross-exts rows qs a.1)

module _ (idx dat : List ℕ) where
  ext-relink : (r : Row) (n : ℕ) → IsRow idx dat r → n ≤ ptr_max → ext (relink n r) ≡ ext r
  ext-relink r n h small =
      ap
        (λ t. record {
          from = r.at;
          till = t;
          dat_from = r.entry.datoff;
          dat_till = r.entry.datoff + r.entry.datlen;
        })
        (omega (
          arith,
          length-entry_text r.entry h.fits,
          length-entry_text (relink n r).entry (IsRow-relink h n small).fits,
        ))

  pub ext-blanked : (r : Row) (n : ℕ) → IsRow idx dat r → n ≤ ptr_max → ext (blanked n r) ≡ ext r
  ext-blanked r n h small =
      ap
        (λ t. record {
          from = r.at;
          till = r.at + t;
          dat_from = r.entry.datoff;
          dat_till = r.entry.datoff + r.entry.datlen;
        })
        (length-blanked_entry n small h)

  removed_behind-Extract :
      (key : List ℕ) (off : ℕ) (q : Row) (rows : List Row) (r : Row)
      → Chain idx dat off (q ∷ rows)
      → find_row key rows ≡ some r
      → Extract (ext r) (ext q ∷ exts rows) (exts (removed_behind key q rows))
  removed_behind-Extract key off q [] r c f = cc
  removed_behind-Extract key off q (p ∷ rows) r c f = elim (Bool-cases (bytes_eq (row_key p) key)) [
    | inl hit ↦
        let same : p ≡ r = ground arith in
        rw hit (
          subst
            (λ e.
              Extract (ext r) (ext q ∷ (ext e ∷ exts rows))
                (ext (relink p.entry.ptr q) ∷ exts rows))
            (sym same)
            (subst (λ e. Extract (ext r) (ext q ∷ (ext r ∷ exts rows)) (e ∷ exts rows))
              (sym (ext-relink q p.entry.ptr c.1 c.2.1.fits.ptr_le)) (there here)))
    | inr miss ↦
        rw miss (there (removed_behind-Extract key q.entry.ptr p rows r c.2 (rw miss at f)))
  ]

  pub removed-Extract :
      (key : List ℕ) (off : ℕ) (rows : List Row) (r : Row)
      → Chain idx dat off rows
      → find_row key rows ≡ some r
      → Extract (ext r) (exts rows) (exts (removed key rows))
  removed-Extract key off [] r c f = cc
  removed-Extract key off (q ∷ rows) r c f = elim (Bool-cases (bytes_eq (row_key q) key)) [
    | inl hit ↦
        let same : q ≡ r = ground arith in
        rw hit (subst (λ e. Extract (ext r) (ext e ∷ exts rows) (exts rows)) (sym same) here)
    | inr miss ↦ rw miss (removed_behind-Extract key off q rows r c (rw miss at f))
  ]

  module _ (k d : ℕ) where
    taken_behind-Extract :
        (off : ℕ) (q : Row) (rows : List Row) (at : ℕ) (r : Row)
        → Chain idx dat off (q ∷ rows)
        → find_free k d q.at rows ≡ some (at, r)
        → Extract (ext r) (ext q ∷ exts rows) (exts (taken_behind k d q rows))
    taken_behind-Extract off q [] at r c f = cc
    taken_behind-Extract off q (p ∷ rows) at r c f = elim (Bool-cases (sizes_fit k d p)) [
      | inl hit ↦
          let same : p ≡ r = ground arith in
          rw hit (
            subst
              (λ e.
                Extract (ext r) (ext q ∷ (ext e ∷ exts rows))
                  (ext (relink p.entry.ptr q) ∷ exts rows))
              (sym same)
              (subst (λ e. Extract (ext r) (ext q ∷ (ext r ∷ exts rows)) (e ∷ exts rows))
                (sym (ext-relink q p.entry.ptr c.1 c.2.1.fits.ptr_le)) (there here)))
      | inr miss ↦ rw miss (there (taken_behind-Extract q.entry.ptr p rows at r c.2 (rw miss at f)))
    ]

    pub taken-Extract :
        (off save : ℕ) (rows : List Row) (at : ℕ) (r : Row)
        → Chain idx dat off rows
        → find_free k d save rows ≡ some (at, r)
        → Extract (ext r) (exts rows) (exts (taken k d rows))
    taken-Extract off save [] at r c f = cc
    taken-Extract off save (q ∷ rows) at r c f = elim (Bool-cases (sizes_fit k d q)) [
      | inl hit ↦
          let same : q ≡ r = ground arith in
          rw hit (subst (λ e. Extract (ext r) (ext e ∷ exts rows) (exts rows)) (sym same) here)
      | inr miss ↦ rw miss (taken_behind-Extract off q rows at r c (rw miss at f))
    ]

  -- The ends of the files are behind every record.
  pub AllApart-end :
      (e : Extent) (off : ℕ) (rows : List Row)
      → Chain idx dat off rows
      → length idx ≤ e.from
      → length dat ≤ e.dat_from
      → AllApart e (exts rows)
  AllApart-end e off [] c i d = tt
  AllApart-end e off (q ∷ rows) c i d =
      let h = c.1 in
      let p = h.fits.datlen_pos in
      (
        record {
          in_idx = inr (
              omega (
                arith,
                HasAt-within idx q.at (entry_text q.entry) h.in_idx
                    (omega (arith, length-entry_text q.entry h.fits)),
              ));
          in_dat = inr (
              omega (
                arith,
                length-data h,
                HasAt-within dat q.entry.datoff (data_text q) h.in_dat
                    (omega (arith, length-data h)),
              ));
        },
        AllApart-end e q.entry.ptr rows c.2 i d,
      )

pub exts-replaced :
    (key text : List ℕ) (rows : List Row) → exts (replaced key text rows) ≡ exts rows
exts-replaced key text [] = refl
exts-replaced key text (q ∷ rows) = elim (Bool-cases (bytes_eq (row_key q) key)) [
  | inl hit ↦ rw hit refl
  | inr miss ↦ rw miss (ap (λ l. ext q ∷ l) (exts-replaced key text rows))
]
