-- ===== src/Db/Ops/Insert.antt =====
-- `db_store` of a new key, where no free record fits: both files grow.
use my_file.Prelude.{
  ℕ, ◌+◌, ◌≤◌, ◌<◌, ◌≡◌, ◌⊎◌, refl, ap, ◌∙◌, true, false, none, List, [], ◌∷◌, ◌++◌, arith, length,
  length-append, le→ltb_false, pos,
}
use my_file.CLib.Files.{write_at, read_at-write_at, length-write_at_end, length-write_at}
use my_file.CLib.Strings.Laws.{Lacks}
use my_file.Db.State.{Db, exclusive, Run, ok, and_then, pure, ◌>>◌, Returns, returns}
use my_file.Db.Hash.{chain_offset}
use my_file.Db.Pointers.{readptr, ptr_text, ptr_sz, ptr_max}
use my_file.Db.Pointers.RoundTrip.{
  ptr_at, readptr-inside, writeptr-in_range, with_ptr, after_ptr, length-ptr_text,
}
use my_file.Db.Records.{newline}
use my_file.Db.Records.Parse.{Entry, Fits, entry_text, length-entry_text}
use my_file.Db.Records.Write.{
  with_data, relocked_dat, relocked_idx, with_entry, entry_of, writedat-end, writeidx-end,
}
use my_file.Db.Search.{free_off}
use my_file.Db.Search.Chain.{Row, IsRow, find_row, walked, SameFiles, walked-SameStore}
use my_file.Db.Search.Frame.{Chained, Chained-write_ptr, Chained-write_end, Chained-cons}
use my_file.Db.Search.Free.{find_free, findfree-none}
use my_file.Db.Ops.{
  append_record, insert_record, store_found, store_checked, store, unlock_chain, Flag, db_insert,
  db_replace, db_store, other, done,
}
use my_file.Db.Ops.Traverse.{Scan}
use my_file.Db.Ops.Traverse.Grown.{Scan-write_end, Scan-write_front}
use my_file.Db.Ops.Fetch.{HashChain, at_slot, find_and_lock-HashChain}

-- the record that an append makes, at the ends of the files
abbrev pub new_entry : Db → List ℕ → List ℕ → ℕ → Entry
new_entry s key text ptr = record {
  ptr = ptr;
  key = key;
  datoff = length s.dat;
  datlen = length text + 1;
}

abbrev pub new_row : Db → List ℕ → List ℕ → ℕ → Row
new_row s key text ptr = record { at = length s.idx; entry = new_entry s key text ptr; text = text }

-- the two files behind the append
abbrev pub grown_idx : Db → List ℕ → List ℕ → ℕ → List ℕ
grown_idx s key text ptr = write_at s.idx (length s.idx) (entry_text (new_entry s key text ptr))

abbrev pub grown_dat : Db → List ℕ → List ℕ
grown_dat s text = write_at s.dat (length s.dat) (text ++ newline ∷ [])

abbrev pub appended : Db → List ℕ → List ℕ → ℕ → Db
appended s key text ptr =
    let t = relocked_dat (with_data s (length s.dat) text) in
    relocked_idx (with_entry t (length s.idx) (entry_of t key ptr))

module _ (s : Db) (key text : List ℕ) (ptr : ℕ) (h : Fits (new_entry s key text ptr)) where
  pub append_record-run :
      length s.idx ≤ ptr_max
      → append_record key text (pos ptr) s
        ≡ ok tt (with_ptr (appended s key text ptr) s.chainoff (length s.idx))
  unfolding append_record
  append_record-run small =
      let t = relocked_dat (with_data s (length s.dat) text) in
      rw (
        writedat-end s text,
        writeidx-end t key ptr h,
        writeptr-in_range (appended s key text ptr) s.chainoff (length s.idx) small,
      )

  -- The appended record stands in the grown files.
  IsRow-append :
      0 < length s.idx
      → Lacks 0 text
      → IsRow (grown_idx s key text ptr) (grown_dat s text) (new_row s key text ptr)
  IsRow-append ne clean = record {
    at_pos = omega arith;
    fits = h;
    in_idx = read_at-write_at s.idx (length s.idx) (entry_text (new_entry s key text ptr));
    in_dat = read_at-write_at s.dat (length s.dat) (text ++ newline ∷ []);
    datlen = omega arith;
    no_null = clean;
  }

-- the state with the chain of the key
abbrev pub on_chain : Db → List ℕ → Db
on_chain s key = record s { chainoff = chain_offset s.nhash s.hashoff key }

-- What an insertion by appending makes of the database.
pub record Inserted (s : Db) (start : ℕ) (key text : List ℕ) (first : ℕ) (rows : List Row) (t : Db)
    : Type 0 where
  pub chain : HashChain t start key (length s.idx) (new_row s key text first ∷ rows)
  pub others :
      (slot head : ℕ) (qs : List Row)
      → Chained s.idx s.dat start slot head qs
      → (slot + ptr_sz ≤ chain_offset s.nhash s.hashoff key)
        ⊎ (chain_offset s.nhash s.hashoff key + ptr_sz ≤ slot)
      → Chained t.idx t.dat start slot head qs
  pub scan :
      (from : ℕ) (qs : List Row)
      → Scan s.idx s.dat from qs
      → start ≤ from
      → Scan t.idx t.dat from (qs ++ (new_row s key text first ∷ []))
  pub nhash : t.nhash ≡ s.nhash
  pub hashoff : t.hashoff ≡ s.hashoff
  pub idx_size : length t.idx ≡ length s.idx + length (entry_text (new_entry s key text first))
  pub dat_size : length t.dat ≡ length s.dat + (length text + 1)

-- a flag that lets a new record in
abbrev pub Inserts : Flag → Type 0
Inserts db_insert = Unit
Inserts db_store = Unit
Inserts _ = ⊥

module _ (s : Db) {start first head : ℕ} (key text : List ℕ) {rows frees : List Row}
    (c : HashChain s start key first rows) (f : Chained s.idx s.dat start free_off head frees)
    (h : Fits (new_entry s key text first)) (clean : Lacks 0 text)
    (small : length s.idx ≤ ptr_max) where
  pub Inserted-final :
      (t : Db)
      → SameFiles (on_chain s key) t
      → Inserted s start key text first rows
          (with_ptr (appended t key text first) t.chainoff (length t.idx))
  Inserted-final t same =
      let at = same.chainoff in
      let a = entry_text (new_entry s key text first) in
      let b = text ++ newline ∷ [] in
      let in_front = c.start_in in
      let slot_in = c.slot_in in
      let short = c.short in
      let wide : length (grown_idx s key text first) ≡ length s.idx + length a =
        length-write_at_end s.idx a in
      record {
        chain =
            rw (same.idx, same.dat, same.nhash, same.hashoff, at)
              (Chained-cons (Chained-write_end c a b) (new_row s key text first) small in_front refl
                (IsRow-append s key text first h (omega arith) clean)
                (omega (arith, wide, length-entry_text (new_entry s key text first) h)));
        others = λ slot q qs k apart.
            rw (same.idx, same.dat, at)
              (Chained-write_ptr (Chained-write_end k a b) (chain_offset s.nhash s.hashoff key)
                (length s.idx) small slot_in apart);
        scan = λ from qs k behind.
            rw (same.idx, same.dat, at)
              (Scan-write_front (grown_idx s key text first) (grown_dat s text)
                (chain_offset s.nhash s.hashoff key) (ptr_text (length s.idx)) from
                (qs ++ (new_row s key text first ∷ []))
                (Scan-write_end s.idx s.dat b from qs (new_row s key text first) k refl h (
                  let r = IsRow-append s key text first h (omega arith) clean in
                  record { in_dat = r.in_dat; datlen = r.datlen; no_null = r.no_null }))
                (omega (arith, length-ptr_text (length s.idx) small))
                (omega (arith, wide, length-ptr_text (length s.idx) small)));
        nhash = same.nhash;
        hashoff = same.hashoff;
        idx_size =
            rw (same.idx, same.dat, at)
              (length-write_at (grown_idx s key text first) (chain_offset s.nhash s.hashoff key)
                  (ptr_text (length s.idx))
                  (omega (arith, wide, length-ptr_text (length s.idx) small))
                ∙ wide);
        dat_size =
            rw same.dat
              (omega (arith, length-write_at_end s.dat b, length-append text (newline ∷ [])));
      }

  insert_record-Inserted :
      find_free (length key) (length text + 1) free_off frees ≡ none
      → (u : Db) → SameFiles (on_chain s key) u
      → Returns (λ _ t. Inserted s start key text first rows t) (insert_record key text u)
  unfolding insert_record
  insert_record-Inserted nofit u same =
      let at = same.chainoff in
      let value : ptr_at u.idx u.chainoff ≡ pos first =
        ap (λ i. ptr_at i u.chainoff) same.idx ∙ (ap (ptr_at s.idx) at ∙ c.slot_ptr) in
      let inside : u.chainoff + ptr_sz ≤ length u.idx =
        let i = c.slot_in in let j = c.start_in in omega (arith, at, ap (length {0}) same.idx) in
      let read : readptr u.chainoff u ≡ ok (pos first) (after_ptr u u.chainoff) =
        readptr-inside u u.chainoff inside ∙ ap (λ v. ok v (after_ptr u u.chainoff)) value in
      let (t, e, keep) =
        findfree-none (after_ptr u u.chainoff) (length key) (length text + 1) {start = start}
          {first = head} {frees = frees} (rw (same.idx, same.dat) f) nofit in
      let st : SameFiles (on_chain s key) t = record {
        idx = keep.idx ∙ same.idx;
        dat = keep.dat ∙ same.dat;
        chainoff = keep.chainoff ∙ same.chainoff;
        hashoff = keep.hashoff ∙ same.hashoff;
        nhash = keep.nhash ∙ same.nhash;
      } in
      rw (read, e, append_record-run t key text first (rw st.dat h) (rw st.idx small))
        (let i = Inserted-final t st in
          returns (record {
            chain = i.chain;
            others = i.others;
            scan = i.scan;
            nhash = i.nhash;
            hashoff = i.hashoff;
            idx_size = i.idx_size;
            dat_size = i.dat_size;
          }))

module _ (s : Db) {start first head : ℕ} (key text : List ℕ) {rows frees : List Row}
    (c : HashChain s start key first rows) (f : Chained s.idx s.dat start free_off head frees)
    (h : Fits (new_entry s key text first)) (clean : Lacks 0 text) (small : length s.idx ≤ ptr_max)
    (filled : 0 < length text) (absent : find_row key rows ≡ none)
    (nofit : find_free (length key) (length text + 1) free_off frees ≡ none) where
  finish :
      {r : Run (Unit {0})}
      → Returns (λ _ t. Inserted s start key text first rows t) r
      → Returns
          (λ rc t. (rc ≡ done) × Inserted s start key text first rows t)
          (and_then (and_then r (λ _. pure done)) (λ rc. unlock_chain >> pure rc))
  finish (returns i) = returns (
    refl,
    record {
      chain = i.chain;
      others = i.others;
      scan = i.scan;
      nhash = i.nhash;
      hashoff = i.hashoff;
      idx_size = i.idx_size;
      dat_size = i.dat_size;
    },
  )

  find_begins : SameFiles (on_chain s key) (walked (at_slot s key exclusive) rows key)
  find_begins =
      let w = walked-SameStore (at_slot s key exclusive) rows key in
      record {
        idx = w.idx;
        dat = w.dat;
        chainoff = w.chainoff;
        hashoff = w.hashoff;
        nhash = w.nhash;
      }

  store_checked-Inserted :
      (flag : Flag)
      → ((u : Db) → store_found false flag key text u ≡ (insert_record key text >> pure done) u)
      → Returns
          (λ rc t. (rc ≡ done) × Inserted s start key text first rows t)
          (store_checked key text flag s)
  unfolding store_checked
  store_checked-Inserted flag same =
      let fits = h.datlen_le in
      let begin = walked (at_slot s key exclusive) rows key in
      let done_by = insert_record-Inserted s key text c f h clean small nofit begin find_begins in
      rw
        (
          le→ltb_false (length text + 1) 2 (omega arith),
          le→ltb_false 1024 (length text + 1) fits,
          find_and_lock-HashChain s key c true,
          absent,
          same begin,
        )
        (finish done_by)

  pub store-Inserted :
      (flag : Flag)
      → Inserts flag
      → Returns
          (λ rc t. (rc ≡ done) × Inserted s start key text first rows t)
          (store key text flag s)
  unfolding store store_found
  store-Inserted db_insert i = store_checked-Inserted db_insert (λ u. refl)
  store-Inserted db_store i = store_checked-Inserted db_store (λ u. refl)
  store-Inserted db_replace i = absurd i
  store-Inserted (other n) i = absurd i
