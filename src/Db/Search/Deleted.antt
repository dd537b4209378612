-- ===== src/Db/Search/Deleted.antt =====
-- The hash chains and the free list behind `_db_dodelete`.
use my_file.Prelude.{
  ℕ, suc, ◌+◌, ◌≤◌, ◌<◌, ◌≡◌, ◌⊎◌, inl, inr, refl, ap, ◌∙◌, some, List, [], ◌∷◌, arith, Bool-cases,
  length, bytes_eq,
}
use my_file.CLib.Numbers.{atol}
use my_file.Db.Pointers.RoundTrip.{read_at-write_at_ptr}
use my_file.Db.Pointers.{ptr_sz, ptr_max}
use my_file.Db.Search.{free_off}
use my_file.Db.Search.Chain.{Row, find_row-IsRow, row_key, IsRow, Chain, find_row}
use my_file.Db.Search.Frame.{Behind, Chained}
use my_file.Db.Search.Unlink.{
  blanked, length-blanked_entry, Separate, removed_behind, removed, new_first, place,
}
use my_file.Db.Search.Erase.{
  find_row-at_le, find_row-Behind, ptr_at-erased, ptr_at-erased_free, erased-blanked,
  unlinked-erased, length-unlinked_idx, erased_idx, erased_dat, unlinked_idx, length-erased_idx,
  length-erased_dat,
}
use my_file.Db.Search.Relink.{Cross, table-AllAt, Clear, place-AllAt, within-AllAt}
use my_file.Db.Search.Removed.{removed-Chain, ptr_at-removed, place-Clear, Cross-Chain}

length-removed_behind :
    (key : List ℕ) (q : Row) (rows : List Row)
    → length (removed_behind key q rows) ≤ suc (length rows)
length-removed_behind key q [] = omega arith
length-removed_behind key q (p ∷ rows) = elim (Bool-cases (bytes_eq (row_key p) key)) [
  | inl hit ↦ rw hit (omega arith)
  | inr miss ↦ rw miss (omega (arith, length-removed_behind key p rows))
]

length-removed : (key : List ℕ) (rows : List Row) → length (removed key rows) ≤ length rows
length-removed key [] = omega arith
length-removed key (p ∷ rows) = elim (Bool-cases (bytes_eq (row_key p) key)) [
  | inl hit ↦ rw hit (omega arith)
  | inr miss ↦ rw miss (length-removed_behind key p rows)
]

Behind-removed_behind :
    (key : List ℕ) (start : ℕ) (q : Row) (rows : List Row)
    → start ≤ q.at
    → Behind start rows
    → Behind start (removed_behind key q rows)
Behind-removed_behind key start q [] h b = (h, tt)
Behind-removed_behind key start q (p ∷ rows) h b = elim (Bool-cases (bytes_eq (row_key p) key)) [
  | inl hit ↦ rw hit (h, b.1)
  | inr miss ↦ rw miss (h, Behind-removed_behind key start p rows b.0 b.1)
]

Behind-removed :
    (key : List ℕ) (start : ℕ) (rows : List Row)
    → Behind start rows
    → Behind start (removed key rows)
Behind-removed key start [] b = tt
Behind-removed key start (p ∷ rows) b = elim (Bool-cases (bytes_eq (row_key p) key)) [
  | inl hit ↦ rw hit b.1
  | inr miss ↦ rw miss (Behind-removed_behind key start p rows b.0 b.1)
]

new_first_le :
    (key : List ℕ) (idx dat : List ℕ) (first : ℕ) (rows : List Row)
    → Chain idx dat first rows
    → first ≤ ptr_max
    → new_first key first rows ≤ ptr_max
new_first_le key idx dat first [] c h = h
new_first_le key idx dat first (q ∷ rows) c h = elim (Bool-cases (bytes_eq (row_key q) key)) [
  | inl hit ↦ rw hit c.1.fits.ptr_le
  | inr miss ↦ rw miss h
]

module _ (key : List ℕ) {idx dat : List ℕ} {start slot first head : ℕ} {rows frees : List Row}
    {r : Row} (c : Chained idx dat start slot first rows)
    (f : Chained idx dat start free_off head frees) (past : free_off + ptr_sz ≤ slot)
    (found : find_row key rows ≡ some r) (separate : Separate rows) (cross : Cross frees rows)
    (fewer : length frees < length idx) where
  abbrev unlinked : List ℕ
  unlinked = unlinked_idx idx head r (place key slot rows)

  pub found-IsRow : IsRow idx dat r
  found-IsRow = find_row-IsRow key idx dat first rows r c.chain found

  pub found_le : r.at ≤ ptr_max
  found_le = find_row-at_le key idx dat first rows r c.chain c.first_le found

  found_back : start ≤ r.at
  found_back = find_row-Behind key start rows r c.behind found

  room : free_off + ptr_sz ≤ start
  room = f.slot_in

  place_within : place key slot rows + ptr_sz ≤ length idx
  place_within =
      let a = c.slot_in in
      let b = c.start_in in
      place-AllAt (λ n. n + ptr_sz ≤ length idx) key slot rows (omega arith)
        (within-AllAt idx dat first rows c.chain)

  -- A pointer in the table is apart from the one that is rewritten.
  table_apart :
      (at : ℕ)
      → at + ptr_sz ≤ start
      → (at + ptr_sz ≤ slot) ⊎ (slot + ptr_sz ≤ at)
      → (at + ptr_sz ≤ place key slot rows) ⊎ (place key slot rows + ptr_sz ≤ at)
  table_apart at front apart =
      place-AllAt (λ n. (at + ptr_sz ≤ n) ⊎ (n + ptr_sz ≤ at)) key slot rows apart
        (table-AllAt at start rows front c.behind)

  pub length-cleared : length (erased_dat dat head r) ≡ length dat
  length-cleared = length-erased_dat head found-IsRow f.first_le found_le found_back room

  pub length-unlinked : length unlinked ≡ length idx
  length-unlinked =
      length-unlinked_idx head found-IsRow f.first_le found_le found_back room (place key slot rows)
        place_within

  pub removed-Chained :
      Chained unlinked
        (erased_dat dat head r)
        start
        slot
        (new_first key first rows)
        (removed key rows)
  removed-Chained = record {
    first_le = new_first_le key idx dat first rows c.chain c.first_le;
    slot_in = c.slot_in;
    start_in = let b = c.start_in in omega (arith, length-unlinked);
    slot_ptr =
        ptr_at-removed head found-IsRow f.first_le found_le found_back room key slot first rows
          c.chain c.behind found past c.slot_in c.slot_ptr;
    chain =
        removed-Chain head found-IsRow f.first_le found_le found_back room key slot first rows
          c.chain c.behind separate found c.slot_in c.start_in;
    behind = Behind-removed key start rows c.behind;
    short = let b = c.short in omega (arith, length-unlinked, length-removed key rows);
  }

  -- The free list, the blanked record in front.
  pub freed-Chained :
      Chained unlinked (erased_dat dat head r) start free_off r.at (blanked head r ∷ frees)
  freed-Chained =
      let front = c.slot_in in
      let at : ℕ = place key slot rows in
      let clear : Clear at r =
        place-Clear head found-IsRow f.first_le found_le found_back room key slot first rows c.chain
          separate found (inr (let b = found_back in omega arith)) in
      let clear' : Clear at (blanked head r) = elim clear [
        | inl before ↦ inl (omega (arith, length-blanked_entry head f.first_le found-IsRow))
        | inr behind ↦ inr behind
      ] in
      record {
        first_le = found_le;
        slot_in = f.slot_in;
        start_in = let b = c.start_in in omega (arith, length-unlinked);
        slot_ptr =
            ap atol (
              read_at-write_at_ptr (erased_idx idx head r) at r.entry.ptr free_off ptr_sz
                found-IsRow.fits.ptr_le
                (omega (
                  arith,
                  place_within,
                  length-erased_idx head found-IsRow f.first_le found_le found_back room,
                ))
                (table_apart free_off room (inl past)))
            ∙ ptr_at-erased_free head found-IsRow f.first_le found_le found_back room;
        chain = (
          refl,
          unlinked-erased head found-IsRow f.first_le found_le found_back room at place_within
              (blanked head r) (erased-blanked head found-IsRow f.first_le found_le found_back room)
              clear',
          Cross-Chain head found-IsRow f.first_le found_le found_back room key slot first rows
              c.chain found c.slot_in c.start_in head frees f.chain f.behind cross,
        );
        behind = (found_back, f.behind);
        short = omega (arith, length-unlinked);
      }

  -- Another hash chain.
  pub others-Chained :
      (slot' first' : ℕ) (qs : List Row)
      → Chained idx dat start slot' first' qs
      → Cross qs rows
      → free_off + ptr_sz ≤ slot'
      → (slot' + ptr_sz ≤ slot) ⊎ (slot + ptr_sz ≤ slot')
      → Chained unlinked (erased_dat dat head r) start slot' first' qs
  others-Chained slot' first' qs d x past' apart = record {
    first_le = d.first_le;
    slot_in = d.slot_in;
    start_in = let b = c.start_in in omega (arith, length-unlinked);
    slot_ptr =
        ap atol (
          read_at-write_at_ptr (erased_idx idx head r) (place key slot rows) r.entry.ptr slot'
            ptr_sz found-IsRow.fits.ptr_le
            (omega (
              arith,
              place_within,
              length-erased_idx head found-IsRow f.first_le found_le found_back room,
            ))
            (table_apart slot' d.slot_in apart))
        ∙ (ptr_at-erased head found-IsRow f.first_le found_le found_back room slot' past' d.slot_in
            ∙ d.slot_ptr);
    chain =
        Cross-Chain head found-IsRow f.first_le found_le found_back room key slot first rows c.chain
          found c.slot_in c.start_in first' qs d.chain d.behind x;
    behind = d.behind;
    short = let b = d.short in omega (arith, length-unlinked);
  }
