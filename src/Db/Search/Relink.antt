-- ===== src/Db/Search/Relink.antt =====
-- Records beside the bytes of a chain pointer.
use my_file.Prelude.{
  ℕ, ◌+◌, ◌≤◌, ◌≡◌, ◌⊎◌, inl, inr, some, List, [], ◌∷◌, arith, Bool-cases, length, bytes_eq,
}
use my_file.CLib.Files.{HasAt-within}
use my_file.Db.Pointers.{ptr_sz}
use my_file.Db.Records.Parse.{entry_text, length-entry_text}
use my_file.Db.Search.Chain.{Row, row_key, IsRow, Chain, find_row}
use my_file.Db.Search.Frame.{Behind}
use my_file.Db.Search.Unlink.{entry_end, RowsApart, AllRowsApart, place}

-- The record and the six bytes at the offset do not overlap.
abbrev pub Clear : ℕ → Row → Type 0
Clear at q = (entry_end q ≤ at) ⊎ (at + ptr_sz ≤ q.at)

abbrev pub AllClear : ℕ → List Row → Type 0
AllClear at [] = Unit
AllClear at (q ∷ rows) = Clear at q × AllClear at rows

abbrev pub AllApartFrom : Row → List Row → Type 0
AllApartFrom r [] = Unit
AllApartFrom r (q ∷ rows) = RowsApart q r × AllApartFrom r rows

-- a property of the offsets of the records
abbrev pub AllAt : (ℕ → Type 0) → List Row → Type 0
AllAt P [] = Unit
AllAt P (q ∷ rows) = P q.at × AllAt P rows

-- No record of the one list overlaps one of the other.
abbrev pub Cross : List Row → List Row → Type 0
Cross [] rows = Unit
Cross (q ∷ qs) rows = AllRowsApart q rows × Cross qs rows

pub RowsApart-sym : {r q : Row} → RowsApart r q → RowsApart q r
RowsApart-sym a = record {
  in_idx = elim a.in_idx [ inl h ↦ inr h | inr h ↦ inl h ];
  in_dat = elim a.in_dat [ inl h ↦ inr h | inr h ↦ inl h ];
}

pub AllRowsApart-sym : (r : Row) (rows : List Row) → AllRowsApart r rows → AllApartFrom r rows
AllRowsApart-sym r [] a = tt
AllRowsApart-sym r (q ∷ rows) a = (RowsApart-sym a.0, AllRowsApart-sym r rows a.1)

pub AllRowsApart-find :
    (key : List ℕ) (q r : Row) (rows : List Row)
    → AllRowsApart q rows
    → find_row key rows ≡ some r
    → RowsApart q r
AllRowsApart-find key q r [] a found = cc
AllRowsApart-find key q r (p ∷ rows) a found = elim (Bool-cases (bytes_eq (row_key p) key)) [
  | inl hit ↦ let same : p ≡ r = ground arith in rw (← same) a.0
  | inr miss ↦ AllRowsApart-find key q r rows a.1 (rw miss at found)
]

-- The pointer stands where one of the records does.
pub place-AllAt :
    (P : ℕ → Type 0) (key : List ℕ) (at : ℕ) (rows : List Row)
    → P at
    → AllAt P rows
    → P (place key at rows)
place-AllAt P key at [] h a = h
place-AllAt P key at (q ∷ rows) h a = elim (Bool-cases (bytes_eq (row_key q) key)) [
  | inl hit ↦ rw hit h
  | inr miss ↦ rw miss (place-AllAt P key q.at rows a.0 a.1)
]

module _ {idx dat : List ℕ} where
  entry_long : {r : Row} → IsRow idx dat r → r.at + ptr_sz ≤ entry_end r
  entry_long {r = r} h = omega (arith, length-entry_text r.entry h.fits)

  pub row_within : {r : Row} → IsRow idx dat r → r.at + ptr_sz ≤ length idx
  row_within {r = r} h = omega (
    arith,
    entry_long h,
    HasAt-within idx r.at (entry_text r.entry) h.in_idx
        (omega (arith, length-entry_text r.entry h.fits)),
  )

  -- Where the records that follow `q` stand, a pointer can be written beside `q`.
  pub ahead-Clear : {q p : Row} → IsRow idx dat p → RowsApart q p → Clear p.at q
  ahead-Clear h a = elim a.in_idx [
    | inl front ↦ inl front
    | inr behind ↦ inr (omega (arith, entry_long h))
  ]

  pub beside-Clear : {q p : Row} → IsRow idx dat q → RowsApart q p → Clear q.at p
  beside-Clear h a = elim a.in_idx [
    | inl front ↦ inr (omega (arith, entry_long h))
    | inr behind ↦ inl behind
  ]

  pub AllClear-beside :
      {q : Row} (rows : List Row) → IsRow idx dat q → AllRowsApart q rows → AllClear q.at rows
  AllClear-beside [] h a = tt
  AllClear-beside (p ∷ rows) h a = (beside-Clear h a.0, AllClear-beside rows h a.1)

pub AllClear-table :
    (at start : ℕ) (rows : List Row) → at + ptr_sz ≤ start → Behind start rows → AllClear at rows
AllClear-table at start [] h b = tt
AllClear-table at start (q ∷ rows) h b = (inr (omega arith), AllClear-table at start rows h b.1)

module _ (idx dat : List ℕ) where
  pub Clear-AllAt :
      (q : Row) (off : ℕ) (rows : List Row)
      → Chain idx dat off rows
      → AllRowsApart q rows
      → AllAt (λ at. Clear at q) rows
  Clear-AllAt q off [] c a = tt
  Clear-AllAt q off (p ∷ rows) c a = (ahead-Clear c.1 a.0, Clear-AllAt q p.entry.ptr rows c.2 a.1)

  pub within-AllAt :
      (off : ℕ) (rows : List Row)
      → Chain idx dat off rows
      → AllAt (λ at. at + ptr_sz ≤ length idx) rows
  within-AllAt off [] c = tt
  within-AllAt off (p ∷ rows) c = (row_within c.1, within-AllAt p.entry.ptr rows c.2)

pub start-AllAt : (start : ℕ) (rows : List Row) → Behind start rows → AllAt (λ at. start ≤ at) rows
start-AllAt start [] b = tt
start-AllAt start (q ∷ rows) b = (b.0, start-AllAt start rows b.1)

pub table-AllAt :
    (at start : ℕ) (rows : List Row)
    → at + ptr_sz ≤ start
    → Behind start rows
    → AllAt (λ n. (at + ptr_sz ≤ n) ⊎ (n + ptr_sz ≤ at)) rows
table-AllAt at start [] h b = tt
table-AllAt at start (q ∷ rows) h b = (inl (omega arith), table-AllAt at start rows h b.1)
