-- ===== src/Db/Search/Erase.antt =====
-- The two files behind `_db_dodelete`, and the chains that they hold.
use my_file.Prelude.{
  ℕ, ◌+◌, ◌≤◌, ◌≡◌, ◌⊎◌, inl, inr, ap, ◌∙◌, some, List, [], ◌∷◌, arith, Bool-cases, length,
  bytes_eq, pos,
}
use my_file.CLib.Numbers.{atol}
use my_file.CLib.Files.{write_at, read_at-before, length-write_at, HasAt-within}
use my_file.Db.Pointers.{ptr_sz, ptr_max, ptr_text}
use my_file.Db.Pointers.RoundTrip.{
  ptr_at, length-ptr_text, ptr_at-write_at_self, read_at-write_at_ptr,
}
use my_file.Db.Records.Parse.{entry_text, length-entry_text}
use my_file.Db.Search.{free_off}
use my_file.Db.Search.Chain.{Row, row_key, data_text, IsRow, Chain, find_row}
use my_file.Db.Search.Frame.{Behind}
use my_file.Db.Search.Unlink.{
  entry_end, RowsApart, blanked, IsRow-write_idx, IsRow-write_dat, length-data,
  length-blanked_entry, length-blanked_data, blanked-IsRow,
}

-- the index file and the data file with the record blanked
abbrev pub erased_idx : List ℕ → ℕ → Row → List ℕ
erased_idx idx head r =
    write_at (write_at idx r.at (entry_text (blanked head r).entry)) free_off (ptr_text r.at)

abbrev pub erased_dat : List ℕ → ℕ → Row → List ℕ
erased_dat dat head r = write_at dat r.entry.datoff (data_text (blanked head r))

-- the index file with the record off its chain too
abbrev pub unlinked_idx : List ℕ → ℕ → Row → ℕ → List ℕ
unlinked_idx idx head r at = write_at (erased_idx idx head r) at (ptr_text r.entry.ptr)

pub find_row-at_le :
    (key idx dat : List ℕ) (first : ℕ) (rows : List Row) (r : Row)
    → Chain idx dat first rows
    → first ≤ ptr_max
    → find_row key rows ≡ some r
    → r.at ≤ ptr_max
find_row-at_le key idx dat first [] r c h found = cc
find_row-at_le key idx dat first (q ∷ rows) r c h found =
    elim (Bool-cases (bytes_eq (row_key q) key)) [
      | inl hit ↦ let same : q ≡ r = ground arith in rw (← same, ← c.0) h
      | inr miss ↦
          find_row-at_le key idx dat q.entry.ptr rows r c.2 c.1.fits.ptr_le (rw miss at found)
    ]

pub find_row-Behind :
    (key : List ℕ) (start : ℕ) (rows : List Row) (r : Row)
    → Behind start rows
    → find_row key rows ≡ some r
    → start ≤ r.at
find_row-Behind key start [] r b found = cc
find_row-Behind key start (q ∷ rows) r b found = elim (Bool-cases (bytes_eq (row_key q) key)) [
  | inl hit ↦ let same : q ≡ r = ground arith in rw (← same) b.0
  | inr miss ↦ find_row-Behind key start rows r b.1 (rw miss at found)
]

module _ {idx dat : List ℕ} {start : ℕ} (head : ℕ) {r : Row} (row : IsRow idx dat r)
    (head_le : head ≤ ptr_max) (at_le : r.at ≤ ptr_max) (back : start ≤ r.at)
    (room : free_off + ptr_sz ≤ start) where
  entry_within : r.at + length (entry_text (blanked head r).entry) ≤ length idx
  entry_within = omega (
    arith,
    length-blanked_entry head head_le row,
    length-entry_text r.entry row.fits,
    HasAt-within idx r.at (entry_text r.entry) row.in_idx
        (omega (arith, length-entry_text r.entry row.fits)),
  )

  data_within : r.entry.datoff + length (data_text (blanked head r)) ≤ length dat
  data_within =
      let p = row.fits.datlen_pos in
      omega (
        arith,
        length-blanked_data head head_le row,
        length-data row,
        HasAt-within dat r.entry.datoff (data_text r) row.in_dat (omega (arith, length-data row)),
      )

  length-blank_write : length (write_at idx r.at (entry_text (blanked head r).entry)) ≡ length idx
  length-blank_write = length-write_at idx r.at (entry_text (blanked head r).entry) entry_within

  pub length-erased_idx : length (erased_idx idx head r) ≡ length idx
  length-erased_idx =
      length-write_at (write_at idx r.at (entry_text (blanked head r).entry)) free_off
        (ptr_text r.at)
        (omega (arith, length-blank_write, length-ptr_text r.at at_le, entry_within))
      ∙ length-blank_write

  pub length-erased_dat : length (erased_dat dat head r) ≡ length dat
  length-erased_dat = length-write_at dat r.entry.datoff (data_text (blanked head r)) data_within

  pub erased-IsRow :
      (q : Row)
      → IsRow idx dat q
      → RowsApart q r
      → start ≤ q.at
      → IsRow (erased_idx idx head r) (erased_dat dat head r) q
  erased-IsRow q h a b =
      let h1 =
        IsRow-write_idx h r.at (entry_text (blanked head r).entry) (omega (arith, entry_within))
          (elim a.in_idx [
            | inl front ↦ inl front
            | inr behind ↦ inr (omega (arith, length-blanked_entry head head_le row))
          ]) in
      let h2 =
        IsRow-write_idx h1 free_off (ptr_text r.at) (omega arith)
          (inr (omega (arith, length-ptr_text r.at at_le))) in
      IsRow-write_dat h2 r.entry.datoff (data_text (blanked head r)) (omega (arith, data_within))
        (elim a.in_dat [
          | inl front ↦ inl front
          | inr behind ↦ inr (omega (arith, length-blanked_data head head_le row))
        ])

  -- A pointer in the table, other than that of the free list, is as it was.
  pub ptr_at-erased :
      (slot : ℕ)
      → free_off + ptr_sz ≤ slot
      → slot + ptr_sz ≤ start
      → ptr_at (erased_idx idx head r) slot ≡ ptr_at idx slot
  ptr_at-erased slot past front =
      let blank = write_at idx r.at (entry_text (blanked head r).entry) in
      ap atol (
        read_at-write_at_ptr blank free_off r.at slot ptr_sz at_le
          (omega (arith, length-blank_write, entry_within)) (inr past)
        ∙ read_at-before idx r.at (entry_text (blanked head r).entry) slot ptr_sz (omega arith)
            (omega (arith, entry_within)))

  -- The pointer of the free list leads to the blanked record.
  pub ptr_at-erased_free : ptr_at (erased_idx idx head r) free_off ≡ pos r.at
  ptr_at-erased_free =
      ptr_at-write_at_self (write_at idx r.at (entry_text (blanked head r).entry)) free_off r.at
        at_le

  pub erased-blanked : IsRow (erased_idx idx head r) (erased_dat dat head r) (blanked head r)
  erased-blanked =
      IsRow-write_idx (blanked-IsRow head head_le row) free_off (ptr_text r.at) (omega arith)
        (inr (omega (arith, length-ptr_text r.at at_le)))

  -- The pointer at `at` is rewritten.
  module _ (at : ℕ) (inside : at + ptr_sz ≤ length idx) where
    pub length-unlinked_idx : length (unlinked_idx idx head r at) ≡ length idx
    length-unlinked_idx =
        length-write_at (erased_idx idx head r) at (ptr_text r.entry.ptr)
          (omega (arith, length-erased_idx, length-ptr_text r.entry.ptr row.fits.ptr_le))
        ∙ length-erased_idx

    pub unlinked-erased :
        (q : Row)
        → IsRow (erased_idx idx head r) (erased_dat dat head r) q
        → (entry_end q ≤ at) ⊎ (at + ptr_sz ≤ q.at)
        → IsRow (unlinked_idx idx head r at) (erased_dat dat head r) q
    unlinked-erased q h apart =
        IsRow-write_idx h at (ptr_text r.entry.ptr) (omega (arith, length-erased_idx)) (elim apart [
          | inl front ↦ inl front
          | inr behind ↦ inr (omega (arith, length-ptr_text r.entry.ptr row.fits.ptr_le))
        ])

    pub unlinked-IsRow :
        (q : Row)
        → IsRow idx dat q
        → RowsApart q r
        → start ≤ q.at
        → (entry_end q ≤ at) ⊎ (at + ptr_sz ≤ q.at)
        → IsRow (unlinked_idx idx head r at) (erased_dat dat head r) q
    unlinked-IsRow q h a b apart = unlinked-erased q (erased-IsRow q h a b) apart
