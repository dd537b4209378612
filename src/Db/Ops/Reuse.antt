-- ===== src/Db/Ops/Reuse.antt =====
-- `db_store` of a new key over a free record of the same sizes.
pub mod Store
use my_file.Prelude.{
  ℕ, suc, ◌+◌, ◌≤◌, ◌<◌, ◌≡◌, ◌≢◌, ◌⊎◌, inl, inr, refl, ap, sym, ◌∙◌, true, false, none, some, List,
  [], ◌∷◌, ◌++◌, arith, ◌==◌, ◌&&◌, le→ltb_false, length, length-append, bytes_eq_refl, pos,
}
use mathlib.Core.Path.{subst}
use my_file.CLib.Numbers.{dec}
use my_file.CLib.Files.{write_at, read_at-write_at, length-write_at}
use my_file.CLib.Strings.Laws.{Lacks}
use my_file.Db.State.{
  Db, exclusive, unlocked, relock, Run, ok, Returns, returns, and_then, pure, ◌>>◌,
}
use my_file.Db.Hash.{chain_offset}
use my_file.Db.Pointers.{readptr, writeptr, ptr_sz, ptr_max, ptr_text}
use my_file.Db.Pointers.RoundTrip.{
  ptr_at, readptr-inside, writeptr-in_range, after_ptr, with_ptr, length-ptr_text,
}
use my_file.Db.Records.{newline, sep, datlen_max}
use my_file.Db.Records.Parse.{Entry, Fits, entry_text, body_text, length-entry_text}
use my_file.Db.Records.Write.{with_data, with_entry, entry_of, writedat-set, writeidx-set}
use my_file.Db.Search.{free_off, findfree, take_free}
use my_file.Db.Search.Chain.{Row, row_key, IsRow, find_row, walked, SameFiles, walked-SameStore}
use my_file.Db.Search.Frame.{Chained, Chained-write_ptr, Chained-cons}
use my_file.Db.Search.Free.{
  sizes_fit, find_free, free_walked, at_free, findfree_loop-Chain, free_walked-SameFiles,
}
use my_file.Db.Search.FindFree.{
  find_free-IsRow, find_free-sizes, find_free-at_le, find_free-Behind, free_walked-IsCurrent,
}
use my_file.Db.Search.Unlink.{Separate}
use my_file.Db.Search.Relink.{Cross}
use my_file.Db.Search.Take.{taken, taken_first}
use my_file.Db.Search.Taken.{unhooked, length-unhooked, taken-Chained, Chained-unhooked}
use my_file.Db.Search.Reuse.{
  Cross-AllApartFrom, taken-AllApartFrom, unhooked-IsRow, over-Chained, length-over_idx,
}
use my_file.Db.Ops.{
  store, store_checked, store_found, insert_record, unlock_chain, Flag, Stored, db_insert,
  db_replace, db_store, other, done,
}
use my_file.Db.Ops.Fetch.{HashChain, at_slot, find_and_lock-HashChain, found_text, fetch-find_row}
use my_file.Db.Ops.Insert.{on_chain, Inserts}
use my_file.Db.Ops.Delete.{slot_past}
use my_file.Db.Ops.Replace.{length-overwritten}
use my_file.Db.Ops.StoreFetch.{Answers, answer_of}

-- the record that is written over the free one
abbrev pub reused_entry : List ℕ → List ℕ → ℕ → Row → Entry
reused_entry key text first q = record {
  ptr = first;
  key = key;
  datoff = q.entry.datoff;
  datlen = length text + 1;
}

abbrev pub reused_row : List ℕ → List ℕ → ℕ → Row → Row
reused_row key text first q = record {
  at = q.at;
  entry = reused_entry key text first q;
  text = text;
}

-- A record over one of the same sizes has a text of the same length.
pub length-reused_body :
    (key text : List ℕ) (first : ℕ) (q : Row)
    → length (row_key q) ≡ length key
    → q.entry.datlen ≡ length text + 1
    → length (body_text (reused_entry key text first q)) ≡ length (body_text q.entry)
length-reused_body key text first q keys datas =
    let tail : ℕ → List ℕ = λ n. sep ∷ (dec q.entry.datoff ++ (sep ∷ (dec n ++ newline ∷ []))) in
    let ends : length (tail q.entry.datlen) ≡ length (tail (length text + 1)) =
      ap (λ n. length (tail n)) datas in
    omega (
      arith,
      keys,
      ends,
      length-append key (tail (length text + 1)),
      length-append (row_key q) (tail q.entry.datlen),
    )

-- the chain of a new key, the free list with a record of its sizes, and what the two files must be like
pub record Reusable (s : Db) (start : ℕ) (key text : List ℕ) (first head : ℕ)
    (rows frees : List Row) (at : ℕ) (q : Row) : Type 0 where
  pub chain : HashChain s start key first rows
  pub free : Chained s.idx s.dat start free_off head frees
  pub past : free_off + ptr_sz ≤ s.hashoff
  pub slots : 0 < s.nhash
  pub absent : find_row key rows ≡ none
  pub found : find_free (length key) (length text + 1) free_off frees ≡ some (at, q)
  pub separate : Separate frees
  pub cross : Cross rows frees
  pub fits : Fits (reused_entry key text first q)
  pub clean : Lacks 0 text
  pub filled : 0 < length text
  pub fewer : length rows < length s.idx

module _ (s : Db) {start first head : ℕ} (key text : List ℕ) {rows frees : List Row} {at : ℕ}
    {q : Row} (d : Reusable s start key text first head rows frees at q) where
  abbrev slot : ℕ
  slot = chain_offset s.nhash s.hashoff key

  -- The new record in front of its chain, in the place of the free one.
  pub record Reused (t : Db) : Type 0 where
    pub chain : HashChain t start key q.at (reused_row key text first q ∷ rows)
    pub free :
        Chained t.idx t.dat start free_off
          (taken_first (length key) (length text + 1) head frees)
          (taken (length key) (length text + 1) frees)
    pub others :
        (slot' first' : ℕ) (qs : List Row)
        → Chained s.idx s.dat start slot' first' qs
        → Cross qs frees
        → free_off + ptr_sz ≤ slot'
        → (slot' + ptr_sz ≤ slot) ⊎ (slot + ptr_sz ≤ slot')
        → Chained t.idx t.dat start slot' first' qs
    pub nhash : t.nhash ≡ s.nhash
    pub hashoff : t.hashoff ≡ s.hashoff
    pub idx_size : length t.idx ≡ length s.idx
    pub dat_size : length t.dat ≡ length s.dat

  free-IsRow : IsRow s.idx s.dat q
  free-IsRow =
      find_free-IsRow (length key) (length text + 1) s.idx s.dat head free_off frees at q
        d.free.chain d.found

  free_le : q.at ≤ ptr_max
  free_le =
      find_free-at_le (length key) (length text + 1) s.idx s.dat head free_off frees at q
        d.free.chain d.free.first_le d.found

  free_back : start ≤ q.at
  free_back =
      find_free-Behind (length key) (length text + 1) start free_off frees at q d.free.behind
        d.found

  same_sizes : (length (row_key q) ≡ length key) × (q.entry.datlen ≡ length text + 1)
  same_sizes =
      let fit = find_free-sizes (length key) (length text + 1) free_off frees at q d.found in
      (ground arith, ground arith)

  size : length (entry_text (reused_entry key text first q)) ≡ length (entry_text q.entry)
  size = omega (
    arith,
    length-reused_body key text first q same_sizes.0 same_sizes.1,
    length-entry_text (reused_entry key text first q) d.fits,
    length-entry_text q.entry free-IsRow.fits,
  )

  data_size : length (text ++ newline ∷ []) ≡ q.entry.datlen
  data_size = omega (arith, same_sizes.1, length-append text (newline ∷ []))

  abbrev freed_idx : List ℕ
  freed_idx = write_at s.idx at (ptr_text q.entry.ptr)

  abbrev new_idx : List ℕ
  new_idx = write_at freed_idx q.at (entry_text (reused_entry key text first q))

  abbrev new_dat : List ℕ
  new_dat = write_at s.dat q.entry.datoff (text ++ newline ∷ [])

  -- the free record off its list, where it stands as before
  off_list-IsRow : IsRow freed_idx s.dat q
  off_list-IsRow = unhooked-IsRow (length key) (length text + 1) at q d.free d.separate d.found

  slot_after : free_off + ptr_sz ≤ slot
  slot_after = slot_past s key d.past d.slots

  new_chain : Chained new_idx new_dat start slot first rows
  new_chain =
      over-Chained q off_list-IsRow (reused_entry key text first q) (text ++ newline ∷ []) size
        data_size free_back slot first rows
        (Chained-unhooked (length key) (length text + 1) at q d.free d.separate d.found slot first
          rows d.chain d.cross (inr slot_after))
        (Cross-AllApartFrom (length key) (length text + 1) rows free_off frees at q d.cross d.found)

  new_free :
      Chained new_idx new_dat start free_off
        (taken_first (length key) (length text + 1) head frees)
        (taken (length key) (length text + 1) frees)
  new_free =
      over-Chained q off_list-IsRow (reused_entry key text first q) (text ++ newline ∷ []) size
        data_size free_back free_off (taken_first (length key) (length text + 1) head frees)
        (taken (length key) (length text + 1) frees)
        (taken-Chained (length key) (length text + 1) at q d.free d.separate d.found)
        (taken-AllApartFrom (length key) (length text + 1) s.idx s.dat free_off head frees at q
          d.free.chain d.separate d.found)

  new_other :
      (slot' first' : ℕ) (qs : List Row)
      → Chained s.idx s.dat start slot' first' qs
      → Cross qs frees
      → free_off + ptr_sz ≤ slot'
      → Chained new_idx new_dat start slot' first' qs
  new_other slot' first' qs c x past' =
      over-Chained q off_list-IsRow (reused_entry key text first q) (text ++ newline ∷ []) size
        data_size free_back slot' first' qs
        (Chained-unhooked (length key) (length text + 1) at q d.free d.separate d.found slot' first'
          qs c x (inr past'))
        (Cross-AllApartFrom (length key) (length text + 1) qs free_off frees at q x d.found)

  written-IsRow : IsRow new_idx new_dat (reused_row key text first q)
  written-IsRow = record {
    at_pos = free-IsRow.at_pos;
    fits = d.fits;
    in_idx = read_at-write_at freed_idx q.at (entry_text (reused_entry key text first q));
    in_dat = read_at-write_at s.dat q.entry.datoff (text ++ newline ∷ []);
    datlen = omega arith;
    no_null = d.clean;
  }

  length-new_idx : length new_idx ≡ length s.idx
  length-new_idx =
      length-over_idx q off_list-IsRow (reused_entry key text first q) (text ++ newline ∷ []) size
        data_size free_back
      ∙ length-unhooked (length key) (length text + 1) at q d.free d.separate d.found

  pub Reused-written :
      (t : Db)
      → t.idx ≡ write_at new_idx slot (ptr_text q.at)
      → t.dat ≡ new_dat
      → t.nhash ≡ s.nhash
      → t.hashoff ≡ s.hashoff
      → Reused t
  Reused-written t i a n o =
      let few = d.fewer in
      let front = d.chain.slot_in in
      record {
        chain =
            rw (i, a, n, o)
              (Chained-cons new_chain (reused_row key text first q) free_le free_back refl
                written-IsRow (omega (arith, length-new_idx)));
        free = rw (i, a) (Chained-write_ptr new_free slot q.at free_le front (inl slot_after));
        others = λ slot' first' qs c x past' apart.
            rw (i, a)
              (Chained-write_ptr (new_other slot' first' qs c x past') slot q.at free_le front
                apart);
        nhash = n;
        hashoff = o;
        idx_size =
            ap length i
            ∙ (length-write_at new_idx slot (ptr_text q.at) (
                  let k = d.chain.start_in in
                  omega (arith, length-new_idx, length-ptr_text q.at free_le))
                ∙ length-new_idx);
        dat_size = ap length a ∙ length-overwritten text q free-IsRow (sym same_sizes.1);
      }
