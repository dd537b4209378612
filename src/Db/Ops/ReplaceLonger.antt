-- ===== src/Db/Ops/ReplaceLonger.antt =====
-- `db_store` over a record with data of another length: the record is deleted and the new one is appended.
use my_file.Prelude.{
  ℕ, ◌+◌, ◌≤◌, ◌<◌, ◌≡◌, ◌≢◌, ◌⊎◌, inl, refl, ap, sym, ◌∙◌, true, false, some, List, ◌∷◌, arith,
  ◌==◌, le→ltb_false, length, bytes_eq_refl, pos,
}
use mathlib.Core.Path.{subst}
use my_file.CLib.Strings.Laws.{Lacks}
use my_file.Db.State.{
  Db, exclusive, Run, Returns, returns, and_then, pure, M, ◌>>=◌, ◌>>◌, gets, modify,
}
use my_file.Db.Hash.{chain_offset}
use my_file.Db.Pointers.{readptr, ptr_sz, ptr_max}
use my_file.Db.Pointers.RoundTrip.{ptr_at, readptr-inside, after_ptr, with_ptr}
use my_file.Db.Records.{datlen_max}
use my_file.Db.Records.Parse.{Fits, entry_text}
use my_file.Db.Search.{free_off}
use my_file.Db.Search.Chain.{
  Row, find_row, walked, SameFiles, walked-SameStore, walked-IsCurrent, IsCurrent,
}
use my_file.Db.Search.Frame.{Chained}
use my_file.Db.Search.Unlink.{removed, new_first, place, blanked}
use my_file.Db.Search.Relink.{Cross}
use my_file.Db.Search.Deleted.{
  found-IsRow, found_le, removed-Chained, freed-Chained, others-Chained, length-unlinked,
  length-cleared,
}
use my_file.Db.Ops.{
  store, store_checked, store_found, replace_record, replace_longer, append_record, unlock_chain,
  Flag, db_insert, db_replace, db_store, other, done, Stored,
}
use my_file.Db.Ops.Fetch.{HashChain, at_slot, find_and_lock-HashChain, found_text, fetch-find_row}
use my_file.Db.Ops.Insert.{
  new_entry, new_row, on_chain, appended, append_record-run, Inserted-final,
}
use my_file.Db.Ops.Delete.{Erased, Deletable, dodelete-Erased, walked-place, slot_past}
use my_file.Db.Ops.StoreFetch.{Answers, answer_of}
use my_file.Db.Ops.Replace.Store.{Replaces}

module _ (s : Db) {start first head : ℕ} (key text : List ℕ) {rows frees : List Row} {r : Row}
    (d : Deletable s start key first head rows frees r) where
  abbrev slot : ℕ
  slot = chain_offset s.nhash s.hashoff key

  abbrev Gone : Db → Type 0
  Gone t = Erased s head r (place key slot rows) t

  -- The new record in front of the chain that has lost the old one, which is now free.
  pub record Exchanged (t : Db) : Type 0 where
    pub chain :
        HashChain t start key
          (length s.idx)
          (new_row s key text (new_first key first rows) ∷ removed key rows)
    pub free : Chained t.idx t.dat start free_off r.at (blanked head r ∷ frees)
    pub others :
        (slot' first' : ℕ) (qs : List Row)
        → Chained s.idx s.dat start slot' first' qs
        → Cross qs rows
        → free_off + ptr_sz ≤ slot'
        → (slot' + ptr_sz ≤ slot) ⊎ (slot + ptr_sz ≤ slot')
        → Chained t.idx t.dat start slot' first' qs
    pub nhash : t.nhash ≡ s.nhash
    pub hashoff : t.hashoff ≡ s.hashoff
    pub idx_size :
        length t.idx
        ≡ length s.idx + length (entry_text (new_entry s key text (new_first key first rows)))
    pub dat_size : length t.dat ≡ length s.dat + (length text + 1)

  chain_after :
      (t : Db) → Gone t → HashChain t start key (new_first key first rows) (removed key rows)
  chain_after t e =
      rw (e.idx, e.dat, e.nhash, e.hashoff)
        (removed-Chained key d.chain d.free (slot_past s key d.past d.slots) d.found d.separate
          d.cross d.fewer)

  free_after : (t : Db) → Gone t → Chained t.idx t.dat start free_off r.at (blanked head r ∷ frees)
  free_after t e =
      rw (e.idx, e.dat)
        (freed-Chained key d.chain d.free (slot_past s key d.past d.slots) d.found d.separate
          d.cross d.fewer)

  others_after :
      (t : Db)
      → Gone t
      → (slot' first' : ℕ) (qs : List Row) → Chained s.idx s.dat start slot' first' qs
      → Cross qs rows
      → free_off + ptr_sz ≤ slot'
      → (slot' + ptr_sz ≤ slot) ⊎ (slot + ptr_sz ≤ slot')
      → Chained t.idx t.dat start slot' first' qs
  others_after t e slot' first' qs k x past' apart =
      rw (e.idx, e.dat)
        (others-Chained key d.chain d.free (slot_past s key d.past d.slots) d.found d.separate
          d.cross d.fewer slot' first' qs k x past' apart)

  lengths_after : (t : Db) → Gone t → (length t.idx ≡ length s.idx) × (length t.dat ≡ length s.dat)
  lengths_after t e =
      let past = slot_past s key d.past d.slots in
      (
        ap length e.idx
            ∙ length-unlinked key d.chain d.free past d.found d.separate d.cross d.fewer,
        ap length e.dat ∙ length-cleared key d.chain d.free past d.found d.separate d.cross d.fewer,
      )

  same_row :
      (t : Db)
      → Gone t
      → new_row t key text (new_first key first rows)
        ≡ new_row s key text (new_first key first rows)
  same_row t e =
      let l = lengths_after t e in
      ap
        (λ n. record {
          at = n;
          entry = new_entry t key text (new_first key first rows);
          text = text;
        })
        l.0
      ∙ ap
          (λ n. record {
            at = length s.idx;
            entry = record {
              ptr = new_first key first rows;
              key = key;
              datoff = n;
              datlen = length text + 1;
            };
            text = text;
          })
          l.1

  -- what `replace_longer` does behind the deletion
  abbrev append_new : M (Unit {0})
  append_new = do
    chain ← gets λ t. t.chainoff
    ptrval ← readptr chain
    append_record key text ptrval
    modify λ t. record t { cnt_stor3 = t.cnt_stor3 + 1 }

  module _ (h : Fits (new_entry s key text (new_first key first rows))) (clean : Lacks 0 text)
      (small : length s.idx ≤ ptr_max) where
    append-Exchanged :
        (t : Db) → Gone t → t.chainoff ≡ slot → Returns (λ _ u. Exchanged u) (append_new t)
    append-Exchanged t e at =
        let c = chain_after t e in
        let f = free_after t e in
        let l = lengths_after t e in
        let row = same_row t e in
        let h' : Fits (new_entry t key text (new_first key first rows)) =
          subst (λ q. Fits q.entry) (sym row) h in
        let small' : length t.idx ≤ ptr_max = omega (arith, l.0) in
        let here : t.chainoff ≡ chain_offset t.nhash t.hashoff key = rw (e.nhash, e.hashoff) at in
        let value : ptr_at t.idx t.chainoff ≡ pos (new_first key first rows) =
          ap (ptr_at t.idx) here ∙ c.slot_ptr in
        let inside : t.chainoff + ptr_sz ≤ length t.idx =
          let i = c.slot_in in let j = c.start_in in omega (arith, here) in
        let u = after_ptr t t.chainoff in
        let same : SameFiles (on_chain t key) u = record {
          idx = refl;
          dat = refl;
          chainoff = here;
          hashoff = refl;
          nhash = refl;
        } in
        let past = slot_past s key d.past d.slots in
        let v =
          with_ptr (appended u key text (new_first key first rows)) u.chainoff (length u.idx) in
        let i = Inserted-final t key text c f h' clean small' u same in
        rw
          (
            readptr-inside t t.chainoff inside,
            value,
            append_record-run u key text (new_first key first rows) h' small',
          )
          (returns (record {
            chain = subst (λ q. HashChain v start key q.at (q ∷ removed key rows)) row i.chain;
            others = λ slot' first' qs k x past' apart.
                i.others slot' first' qs (others_after t e slot' first' qs k x past' apart)
                  (rw (e.nhash, e.hashoff) apart);
            free =
                i.others free_off r.at (blanked head r ∷ frees) f
                  (inl (rw (e.nhash, e.hashoff) past));
            nhash = i.nhash ∙ e.nhash;
            hashoff = i.hashoff ∙ e.hashoff;
            idx_size =
                let entries = ap (λ q. length (entry_text q.entry)) row in
                omega (arith, i.idx_size, l.0, entries);
            dat_size = omega (arith, i.dat_size, l.1);
          }))

    then_append :
        {m : Run (Unit {0})} (off : ℕ)
        → off ≡ slot
        → Returns (λ _ t. Gone t × (t.chainoff ≡ off)) m
        → Returns (λ _ t. Exchanged t) (and_then m (λ _. append_new))
    then_append off here (returns {s = t} (e, same)) = append-Exchanged t e (same ∙ here)

    replace_longer-Exchanged :
        (u : Db)
        → u.idx ≡ s.idx
        → u.dat ≡ s.dat
        → u.nhash ≡ s.nhash
        → u.hashoff ≡ s.hashoff
        → u.chainoff ≡ slot
        → IsCurrent u r
        → u.ptroff ≡ place key slot rows
        → Returns (λ _ t. Exchanged t) (replace_longer key text u)
    unfolding replace_longer
    replace_longer-Exchanged u i a n o at cur p =
        let past = slot_past s key d.past d.slots in
        let row = found-IsRow key d.chain d.free past d.found d.separate d.cross d.fewer in
        let le = found_le key d.chain d.free past d.found d.separate d.cross d.fewer in
        let f = d.free in
        then_append u.chainoff at (
          dodelete-Erased s head r row f.first_le le
            (let b = f.slot_in in let k = f.start_in in omega arith) f.slot_ptr u
            (place key slot rows) i a n o cur p)

    finish :
        {m : Run (Unit {0})}
        → Returns (λ _ t. Exchanged t) m
        → Returns
            (λ rc t. (rc ≡ done) × Exchanged t)
            (and_then (and_then m (λ _. pure done)) (λ rc. unlock_chain >> pure rc))
    finish (returns x) = returns (
      refl,
      record {
        chain = x.chain;
        free = x.free;
        others = x.others;
        nhash = x.nhash;
        hashoff = x.hashoff;
        idx_size = x.idx_size;
        dat_size = x.dat_size;
      },
    )

    Exchanged-Answers :
        {m : Run Stored}
        → Returns (λ rc t. (rc ≡ done) × Exchanged t) m
        → Returns (λ rc t. (rc ≡ done) × Exchanged t × Answers key (some text) t) m
    Exchanged-Answers (returns {s = t} (rc, x)) =
        let hit : found_text
              (find_row key (new_row s key text (new_first key first rows) ∷ removed key rows))
            ≡ some text =
          rw (bytes_eq_refl key) in
        returns (rc, x, (rw hit at (answer_of (fetch-find_row t key x.chain))))

    module _ (filled : 0 < length text) (differs : length text + 1 ≢ r.entry.datlen) where
      replace_record-Exchanged :
          (u : Db)
          → IsCurrent u r
          → Returns (λ _ t. Exchanged t) (replace_longer key text u)
          → Returns (λ _ t. Exchanged t) (replace_record key text u)
      unfolding replace_record
      replace_record-Exchanged u cur x =
          let old : (length text + 1 == u.datlen) ≡ false =
            let l = cur.datlen in ground (arith, l, differs) in
          rw old x

      store_checked-Exchanged :
          (flag : Flag)
          → ((u : Db) → store_found true flag key text u ≡ (replace_record key text >> pure done) u)
          → Returns (λ rc t. (rc ≡ done) × Exchanged t) (store_checked key text flag s)
      unfolding store_checked
      store_checked-Exchanged flag by =
          let fits = h.datlen_le in
          let begin = walked (at_slot s key exclusive) rows key in
          let w = walked-SameStore (at_slot s key exclusive) rows key in
          let cur = walked-IsCurrent key (at_slot s key exclusive) rows r d.found in
          rw
            (
              le→ltb_false (length text + 1) 2 (omega arith),
              le→ltb_false datlen_max (length text + 1) fits,
              find_and_lock-HashChain s key d.chain true,
              d.found,
              by begin,
            )
            (finish (
              replace_record-Exchanged begin cur (
                replace_longer-Exchanged begin w.idx w.dat w.nhash w.hashoff w.chainoff cur
                  (walked-place (at_slot s key exclusive) rows key r d.found))))

      -- For a key that its well-formed hash chain has, data that are not empty and of another
      -- length than those of the first record of the key, a new record that the format holds at the
      -- ends of the files, an index file of at most PTR_MAX bytes, a hash table that is not empty
      -- and stands behind the pointer of the free list, a well-formed free list of fewer records
      -- than the index file has bytes, and records of the chain that overlap neither each other nor
      -- a free record: db_store with DB_REPLACE or DB_STORE returns 0, the well-formed hash chain
      -- has lost just the old record and has the new one in front, the well-formed free list has
      -- the old one in front, with blanks for its key and its data, a well-formed chain at another
      -- slot with records apart from those of the chain is as it was, and a fetch of the key
      -- answers with the new data.
      pub store-Exchanged :
          (flag : Flag)
          → Replaces flag
          → Returns
              (λ rc t. (rc ≡ done) × Exchanged t × Answers key (some text) t)
              (store key text flag s)
      unfolding store store_found
      store-Exchanged db_replace i =
          Exchanged-Answers (store_checked-Exchanged db_replace (λ u. refl))
      store-Exchanged db_store i = Exchanged-Answers (store_checked-Exchanged db_store (λ u. refl))
      store-Exchanged db_insert i = absurd i
      store-Exchanged (other n) i = absurd i
