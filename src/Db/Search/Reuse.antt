-- ===== src/Db/Search/Reuse.antt =====
-- A free record that another record is written over, and the chains beside it.
use my_file.Prelude.{
  ℕ, ◌+◌, ◌≤◌, ◌≡◌, inl, inr, ap, ◌∙◌, some, List, [], ◌∷◌, arith, Bool-cases, length,
}
use mathlib.Core.Path.{subst}
use my_file.CLib.Numbers.{atol}
use my_file.CLib.Files.{write_at, read_at-before, length-write_at, HasAt-within}
use my_file.Db.Pointers.{ptr_sz, ptr_max, ptr_text}
use my_file.Db.Records.Parse.{Entry, entry_text, length-entry_text}
use my_file.Db.Search.Chain.{Row, data_text, IsRow, Chain}
use my_file.Db.Search.Frame.{Chained}
use my_file.Db.Search.Free.{sizes_fit, find_free}
use my_file.Db.Search.Unlink.{
  RowsApart, AllRowsApart, Separate, entry_end, relink, IsRow-relink, IsRow-write_idx,
  IsRow-write_dat, length-data,
}
use my_file.Db.Search.FindFree.{find_free-Behind}
use my_file.Db.Search.Relink.{Clear, beside-Clear, Cross, AllApartFrom, AllRowsApart-sym}
use my_file.Db.Search.Take.{taken, taken_behind, IsRow-write_beside}
use my_file.Db.Search.Taken.{taken-IsRow, place_within}

module _ (k d : ℕ) where
  find_free-RowsApart :
      (p : Row) (save : ℕ) (rows : List Row) (at : ℕ) (q : Row)
      → AllRowsApart p rows
      → find_free k d save rows ≡ some (at, q)
      → RowsApart p q
  find_free-RowsApart p save [] at q a f = cc
  find_free-RowsApart p save (r ∷ rows) at q a f = elim (Bool-cases (sizes_fit k d r)) [
    | inl hit ↦ let same : r ≡ q = ground arith in rw (← same) a.0
    | inr miss ↦ find_free-RowsApart p r.at rows at q a.1 (rw miss at f)
  ]

  -- The records of another chain are apart from the free one.
  pub Cross-AllApartFrom :
      (rows : List Row) (save : ℕ) (frees : List Row) (at : ℕ) (q : Row)
      → Cross rows frees
      → find_free k d save frees ≡ some (at, q)
      → AllApartFrom q rows
  Cross-AllApartFrom [] save frees at q x f = tt
  Cross-AllApartFrom (p ∷ rows) save frees at q x f =
      (find_free-RowsApart p save frees at q x.0 f, Cross-AllApartFrom rows save frees at q x.1 f)

  module _ (idx dat : List ℕ) where
    RowsApart-relink :
        (p q : Row) (n : ℕ)
        → n ≤ ptr_max
        → IsRow idx dat p
        → RowsApart p q
        → RowsApart (relink n p) q
    RowsApart-relink p q n small h a =
        let end : entry_end (relink n p) ≡ entry_end p = omega (
          arith,
          length-entry_text p.entry h.fits,
          length-entry_text (relink n p).entry (IsRow-relink h n small).fits,
        ) in
        record {
          in_idx = elim a.in_idx [ inl front ↦ inl (omega (arith, end)) | inr behind ↦ inr behind ];
          in_dat = a.in_dat;
        }

    taken_behind-AllApartFrom :
        (off : ℕ) (p : Row) (rows : List Row) (at : ℕ) (q : Row)
        → Chain idx dat off (p ∷ rows)
        → Separate (p ∷ rows)
        → find_free k d p.at rows ≡ some (at, q)
        → AllApartFrom q (taken_behind k d p rows)
    taken_behind-AllApartFrom off p [] at q c a f = cc
    taken_behind-AllApartFrom off p (r ∷ rows) at q c a f = elim (Bool-cases (sizes_fit k d r)) [
      | inl hit ↦
          let same : r ≡ q = ground arith in
          rw hit (
            subst (λ e. AllApartFrom e (relink r.entry.ptr p ∷ rows)) same
              (
                RowsApart-relink p r r.entry.ptr c.2.1.fits.ptr_le c.1 a.0.0,
                AllRowsApart-sym r rows a.1.0,
              ))
      | inr miss ↦ rw miss (
        find_free-RowsApart p p.at (r ∷ rows) at q a.0 f,
        taken_behind-AllApartFrom p.entry.ptr r rows at q c.2 a.1 (rw miss at f),
      )
    ]

    -- The free records that are left are apart from the one that was taken.
    pub taken-AllApartFrom :
        (slot off : ℕ) (rows : List Row) (at : ℕ) (q : Row)
        → Chain idx dat off rows
        → Separate rows
        → find_free k d slot rows ≡ some (at, q)
        → AllApartFrom q (taken k d rows)
    taken-AllApartFrom slot off [] at q c a f = cc
    taken-AllApartFrom slot off (r ∷ rows) at q c a f = elim (Bool-cases (sizes_fit k d r)) [
      | inl hit ↦
          let same : r ≡ q = ground arith in
          rw hit (subst (λ e. AllApartFrom e rows) same (AllRowsApart-sym r rows a.0))
      | inr miss ↦ rw miss (taken_behind-AllApartFrom off r rows at q c a (rw miss at f))
    ]

-- The pointer that is rewritten is not in the record that it led to.
found-Clear :
    (k d : ℕ) (idx dat : List ℕ) (save off : ℕ) (rows : List Row) (at : ℕ) (q : Row)
    → Chain idx dat off rows
    → Separate rows
    → find_free k d save rows ≡ some (at, q)
    → Clear save q
    → Clear at q
found-Clear k d idx dat save off [] at q c a f h = cc
found-Clear k d idx dat save off (r ∷ rows) at q c a f h = elim (Bool-cases (sizes_fit k d r)) [
  | inl hit ↦ let same : save ≡ at = ground arith in rw (← same) h
  | inr miss ↦
      let f' : find_free k d r.at rows ≡ some (at, q) = rw miss at f in
      found-Clear k d idx dat r.at r.entry.ptr rows at q c.2 a.1 f'
        (beside-Clear c.1 (find_free-RowsApart k d r r.at rows at q a.0 f'))
]

-- The record that is off the free list stands where it did.
pub unhooked-IsRow :
    (k d : ℕ) {idx dat : List ℕ} {start slot head : ℕ} {frees : List Row} (at : ℕ) (q : Row)
    → Chained idx dat start slot head frees
    → Separate frees
    → find_free k d slot frees ≡ some (at, q)
    → IsRow (write_at idx at (ptr_text q.entry.ptr)) dat q
unhooked-IsRow k d {idx = idx} {dat = dat} {start = start} {slot = slot} {head = head}
      {frees = frees} at q c a f =
    let row = taken-IsRow k d at q c a f in
    let front = c.slot_in in
    let back = find_free-Behind k d start slot frees at q c.behind f in
    IsRow-write_beside k d idx dat at q.entry.ptr q row.fits.ptr_le (place_within k d at q c a f)
      row (found-Clear k d idx dat slot head frees at q c.chain a f (inr (omega arith)))

module _ {idx dat : List ℕ} {start : ℕ} (q : Row) (row : IsRow idx dat q) (e : Entry) (bs : List ℕ)
    (size : length (entry_text e) ≡ length (entry_text q.entry))
    (data_size : length bs ≡ q.entry.datlen) (back : start ≤ q.at) where
  abbrev pub over_idx : List ℕ
  over_idx = write_at idx q.at (entry_text e)

  abbrev pub over_dat : List ℕ
  over_dat = write_at dat q.entry.datoff bs

  entry_within : q.at + length (entry_text e) ≤ length idx
  entry_within = omega (
    arith,
    size,
    length-entry_text q.entry row.fits,
    HasAt-within idx q.at (entry_text q.entry) row.in_idx
        (omega (arith, length-entry_text q.entry row.fits)),
  )

  data_within : q.entry.datoff + length bs ≤ length dat
  data_within =
      let p = row.fits.datlen_pos in
      omega (
        arith,
        data_size,
        length-data row,
        HasAt-within dat q.entry.datoff (data_text q) row.in_dat (omega (arith, length-data row)),
      )

  pub length-over_idx : length over_idx ≡ length idx
  length-over_idx = length-write_at idx q.at (entry_text e) entry_within

  over-IsRow : (p : Row) → IsRow idx dat p → RowsApart p q → IsRow over_idx over_dat p
  over-IsRow p h a =
      let h1 =
        IsRow-write_idx h q.at (entry_text e) (omega (arith, entry_within))
          (elim a.in_idx [ inl front ↦ inl front | inr behind ↦ inr (omega (arith, size)) ]) in
      IsRow-write_dat h1 q.entry.datoff bs (omega (arith, data_within))
        (elim a.in_dat [ inl front ↦ inl front | inr behind ↦ inr (omega (arith, data_size)) ])

  over-Chain :
      (off : ℕ) (rows : List Row)
      → Chain idx dat off rows
      → AllApartFrom q rows
      → Chain over_idx over_dat off rows
  over-Chain off [] c a = c
  over-Chain off (p ∷ rows) c a = (c.0, over-IsRow p c.1 a.0, over-Chain p.entry.ptr rows c.2 a.1)

  -- A chain of records apart from the one that is written over.
  pub over-Chained :
      (slot first : ℕ) (rows : List Row)
      → Chained idx dat start slot first rows
      → AllApartFrom q rows
      → Chained over_idx over_dat start slot first rows
  over-Chained slot first rows c a =
      let front = c.slot_in in
      record {
        first_le = c.first_le;
        slot_in = c.slot_in;
        start_in = let b = c.start_in in omega (arith, length-over_idx);
        slot_ptr =
            ap atol (
              read_at-before idx q.at (entry_text e) slot ptr_sz (omega arith)
                (omega (arith, entry_within)))
            ∙ c.slot_ptr;
        chain = over-Chain first rows c.chain a;
        behind = c.behind;
        short = let b = c.short in omega (arith, length-over_idx);
      }
