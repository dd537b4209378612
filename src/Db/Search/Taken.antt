-- ===== src/Db/Search/Taken.antt =====
-- The free list without the record that was taken, and the other chains.
use my_file.Prelude.{
  ℕ, suc, ◌+◌, ◌≤◌, ◌≡◌, ◌⊎◌, inl, inr, ap, ◌∙◌, some, List, [], ◌∷◌, arith, Bool-cases, length,
}
use my_file.CLib.Numbers.{atol}
use my_file.CLib.Files.{write_at, length-write_at}
use my_file.Db.Pointers.{ptr_sz, ptr_text}
use my_file.Db.Pointers.RoundTrip.{length-ptr_text, read_at-write_at_ptr}
use my_file.Db.Search.Chain.{Row, IsRow}
use my_file.Db.Search.Frame.{Behind, Chained}
use my_file.Db.Search.Take.{
  taken, taken_behind, taken_first, Chain-write_beside, taken-Chain, ptr_at-taken, taken_first_le,
}
use my_file.Db.Search.Free.{sizes_fit, find_free}
use my_file.Db.Search.FindFree.{find_free-AllAt, find_free-IsRow}
use my_file.Db.Search.Unlink.{Separate}
use my_file.Db.Search.Relink.{Clear, AllClear, Clear-AllAt, within-AllAt, table-AllAt, Cross}

length-taken_behind :
    (k d : ℕ) (p : Row) (rows : List Row) → length (taken_behind k d p rows) ≤ suc (length rows)
length-taken_behind k d p [] = omega arith
length-taken_behind k d p (r ∷ rows) = elim (Bool-cases (sizes_fit k d r)) [
  | inl hit ↦ rw hit (omega arith)
  | inr miss ↦ rw miss (omega (arith, length-taken_behind k d r rows))
]

length-taken : (k d : ℕ) (rows : List Row) → length (taken k d rows) ≤ length rows
length-taken k d [] = omega arith
length-taken k d (r ∷ rows) = elim (Bool-cases (sizes_fit k d r)) [
  | inl hit ↦ rw hit (omega arith)
  | inr miss ↦ rw miss (length-taken_behind k d r rows)
]

Behind-taken_behind :
    (k d start : ℕ) (p : Row) (rows : List Row)
    → start ≤ p.at
    → Behind start rows
    → Behind start (taken_behind k d p rows)
Behind-taken_behind k d start p [] h b = (h, tt)
Behind-taken_behind k d start p (r ∷ rows) h b = elim (Bool-cases (sizes_fit k d r)) [
  | inl hit ↦ rw hit (h, b.1)
  | inr miss ↦ rw miss (h, Behind-taken_behind k d start r rows b.0 b.1)
]

Behind-taken : (k d start : ℕ) (rows : List Row) → Behind start rows → Behind start (taken k d rows)
Behind-taken k d start [] b = tt
Behind-taken k d start (r ∷ rows) b = elim (Bool-cases (sizes_fit k d r)) [
  | inl hit ↦ rw hit b.1
  | inr miss ↦ rw miss (Behind-taken_behind k d start r rows b.0 b.1)
]

-- The free list, and the record of these sizes that is found in it.
module _ (k d : ℕ) {idx dat : List ℕ} {start slot head : ℕ} {frees : List Row} (at : ℕ) (q : Row)
    (c : Chained idx dat start slot head frees) (separate : Separate frees)
    (found : find_free k d slot frees ≡ some (at, q)) where
  pub taken-IsRow : IsRow idx dat q
  taken-IsRow = find_free-IsRow k d idx dat head slot frees at q c.chain found

  pub place_within : at + ptr_sz ≤ length idx
  place_within =
      let a = c.slot_in in
      let b = c.start_in in
      find_free-AllAt k d (λ n. n + ptr_sz ≤ length idx) slot frees at q found (omega arith)
        (within-AllAt idx dat head frees c.chain)

  abbrev pub unhooked : List ℕ
  unhooked = write_at idx at (ptr_text q.entry.ptr)

  pub length-unhooked : length unhooked ≡ length idx
  length-unhooked =
      length-write_at idx at (ptr_text q.entry.ptr)
        (omega (arith, place_within, length-ptr_text q.entry.ptr taken-IsRow.fits.ptr_le))

  Cross-AllClear : (rows : List Row) → Behind start rows → Cross rows frees → AllClear at rows
  Cross-AllClear [] b x = tt
  Cross-AllClear (p ∷ rows) b x =
      let front = c.slot_in in
      (
        find_free-AllAt k d (λ n. Clear n p) slot frees at q found (inr (omega arith))
            (Clear-AllAt idx dat p head frees c.chain x.0),
        Cross-AllClear rows b.1 x.1,
      )

  -- Another chain, of records apart from the free ones.
  pub Chained-unhooked :
      (slot' first : ℕ) (rows : List Row)
      → Chained idx dat start slot' first rows
      → Cross rows frees
      → (slot' + ptr_sz ≤ slot) ⊎ (slot + ptr_sz ≤ slot')
      → Chained unhooked dat start slot' first rows
  Chained-unhooked slot' first rows e x apart =
      let small = taken-IsRow.fits.ptr_le in
      record {
        first_le = e.first_le;
        slot_in = e.slot_in;
        start_in = let b = e.start_in in omega (arith, length-unhooked);
        slot_ptr =
            ap atol (
              read_at-write_at_ptr idx at q.entry.ptr slot' ptr_sz small place_within (
                find_free-AllAt k d (λ n. (slot' + ptr_sz ≤ n) ⊎ (n + ptr_sz ≤ slot')) slot frees at
                  q found apart (table-AllAt slot' start frees e.slot_in c.behind)))
            ∙ e.slot_ptr;
        chain =
            Chain-write_beside k d idx dat at q.entry.ptr small place_within first rows e.chain
              (Cross-AllClear rows e.behind x);
        behind = e.behind;
        short = let b = e.short in omega (arith, length-unhooked);
      }

  -- The free list without the record.
  pub taken-Chained : Chained unhooked dat start slot (taken_first k d head frees) (taken k d frees)
  taken-Chained = record {
    first_le = taken_first_le k d idx dat head frees c.chain c.first_le;
    slot_in = c.slot_in;
    start_in = let b = c.start_in in omega (arith, length-unhooked);
    slot_ptr =
        ptr_at-taken k d idx dat start slot head frees at q c.chain c.behind c.slot_in c.slot_ptr
          found;
    chain =
        taken-Chain k d idx dat start slot head frees at q c.chain c.behind separate c.slot_in
          c.start_in found;
    behind = Behind-taken k d start frees c.behind;
    short = let b = c.short in omega (arith, length-unhooked, length-taken k d frees);
  }
