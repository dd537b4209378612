-- ===== src/Db/Ops/Reuse/Store.antt =====
-- The calls of `db_store` that take a free record.
use my_file.Prelude.{
  ℕ, ◌+◌, ◌≤◌, ◌≡◌, refl, ap, ◌∙◌, true, false, some, List, ◌∷◌, arith, le→ltb_false, length,
  bytes_eq_refl, pos,
}
use my_file.Db.State.{Db, exclusive, Run, ok, Returns, returns, and_then, pure, ◌>>◌}
use my_file.Db.Hash.{chain_offset}
use my_file.Db.Pointers.{readptr, ptr_sz}
use my_file.Db.Pointers.RoundTrip.{ptr_at, readptr-inside, writeptr-in_range, after_ptr}
use my_file.Db.Records.{datlen_max}
use my_file.Db.Records.Write.{with_data, with_entry, entry_of, writedat-set, writeidx-set}
use my_file.Db.Search.{free_off, findfree}
use my_file.Db.Search.Chain.{Row, find_row, walked, SameFiles, walked-SameStore}
use my_file.Db.Search.Frame.{Chained}
use my_file.Db.Search.FindFree.{find_free-at_le}
use my_file.Db.Ops.{
  store, store_checked, store_found, insert_record, unlock_chain, Flag, Stored, db_insert,
  db_replace, db_store, other, done,
}
use my_file.Db.Ops.Fetch.{at_slot, find_and_lock-HashChain, found_text, fetch-find_row}
use my_file.Db.Ops.Insert.{on_chain, Inserts}
use my_file.Db.Ops.Reuse.{Reusable, Reused, Reused-written, reused_entry, reused_row}
use my_file.Db.Search.Took.{Took, findfree-Took}
use my_file.Db.Ops.StoreFetch.{Answers, answer_of}

module _ (s : Db) {start first head : ℕ} (key text : List ℕ) {rows frees : List Row} {at : ℕ}
    {q : Row} (d : Reusable s start key text first head rows frees at q) where
  -- The insertion, where the free record has been taken.
  take_over :
      (u t : Db)
      → SameFiles (on_chain s key) u
      → findfree (length key) (length text + 1) (after_ptr u u.chainoff) ≡ ok true t
      → Took (after_ptr u u.chainoff) at q t
      → Returns (λ _ t. Reused s key text d t) (insert_record key text u)
  unfolding insert_record
  take_over u t same e took =
      let c = d.chain in
      let here : u.chainoff ≡ chain_offset s.nhash s.hashoff key = same.chainoff in
      let value : ptr_at u.idx u.chainoff ≡ pos first =
        ap (λ i. ptr_at i u.chainoff) same.idx ∙ (ap (ptr_at s.idx) here ∙ c.slot_ptr) in
      let inside : u.chainoff + ptr_sz ≤ length u.idx =
        let i = c.slot_in in let j = c.start_in in omega (arith, here, ap (length {0}) same.idx) in
      let read : readptr u.chainoff u ≡ ok (pos first) (after_ptr u u.chainoff) =
        readptr-inside u u.chainoff inside ∙ ap (λ v. ok v (after_ptr u u.chainoff)) value in
      let t1 = with_data t t.datoff text in
      let new : entry_of t1 key first ≡ reused_entry key text first q =
        ap (λ o. record { ptr = first; key = key; datoff = o; datlen = length text + 1 })
          took.datoff in
      let t2 = with_entry t1 t1.idxoff (entry_of t1 key first) in
      let le =
        find_free-at_le (length key) (length text + 1) s.idx s.dat head free_off frees at q
          d.free.chain d.free.first_le d.found in
      rw
        (
          read,
          e,
          writedat-set t text t.datoff,
          writeidx-set t1 key first (rw new d.fits) t1.idxoff,
          writeptr-in_range t2 t2.chainoff t2.idxoff (rw took.idxoff le),
        )
        (returns (
          Reused-written s key text d _
            (rw (took.idx, took.idxoff, took.datoff, took.chainoff, same.idx, here) refl)
            (rw (took.dat, took.datoff, same.dat) refl) (took.nhash ∙ same.nhash)
            (took.hashoff ∙ same.hashoff)))

  insert_record-Reused :
      (u : Db)
      → SameFiles (on_chain s key) u
      → Returns (λ _ t. Reused s key text d t) (insert_record key text u)
  insert_record-Reused u same =
      let free : Chained u.idx u.dat start free_off head frees = rw (same.idx, same.dat) d.free in
      let (t, e, took) =
        findfree-Took (after_ptr u u.chainoff) (length key) (length text + 1) at q free d.found in
      take_over u t same e took

  finish :
      {m : Run (Unit {0})}
      → Returns (λ _ t. Reused s key text d t) m
      → Returns
          (λ rc t. (rc ≡ done) × Reused s key text d t)
          (and_then (and_then m (λ _. pure done)) (λ rc. unlock_chain >> pure rc))
  finish (returns x) = returns (
    refl,
    record {
      chain = x.chain;
      free = x.free;
      others = x.others;
      nhash = x.nhash;
      hashoff = x.hashoff;
      idx_size = x.idx_size;
      dat_size = x.dat_size;
    },
  )

  Reused-Answers :
      {m : Run Stored}
      → Returns (λ rc t. (rc ≡ done) × Reused s key text d t) m
      → Returns (λ rc t. (rc ≡ done) × Reused s key text d t × Answers key (some text) t) m
  Reused-Answers (returns {s = t} (rc, x)) =
      let hit : found_text (find_row key (reused_row key text first q ∷ rows)) ≡ some text =
        rw (bytes_eq_refl key) in
      returns (rc, x, (rw hit at (answer_of (fetch-find_row t key x.chain))))

  store_checked-Reused :
      (flag : Flag)
      → ((u : Db) → store_found false flag key text u ≡ (insert_record key text >> pure done) u)
      → Returns (λ rc t. (rc ≡ done) × Reused s key text d t) (store_checked key text flag s)
  unfolding store_checked
  store_checked-Reused flag by =
      let fits = d.fits.datlen_le in
      let filled = d.filled in
      let begin = walked (at_slot s key exclusive) rows key in
      let w = walked-SameStore (at_slot s key exclusive) rows key in
      rw
        (
          le→ltb_false (length text + 1) 2 (omega arith),
          le→ltb_false datlen_max (length text + 1) fits,
          find_and_lock-HashChain s key d.chain true,
          d.absent,
          by begin,
        )
        (finish (
          insert_record-Reused begin (record {
            idx = w.idx;
            dat = w.dat;
            chainoff = w.chainoff;
            hashoff = w.hashoff;
            nhash = w.nhash;
          })))

  -- For a key that its well-formed hash chain does not have, data that are not empty, a hash table
  -- that is not empty and stands behind the pointer of the free list, a well-formed free list of
  -- records that overlap neither each other nor those of the chain and of which one has the sizes
  -- of the key and the data, an index record that the format holds with the place of its data, a
  -- chain of fewer records than the index file has bytes, and a flag that lets a new record in:
  -- db_store returns 0, the well-formed hash chain has the new record in front in the place of the
  -- first free record of these sizes, the well-formed free list has lost just that one, a
  -- well-formed chain at another slot with records apart from the free ones is as it was, and a
  -- fetch of the key answers with the data.
  pub store-Reused :
      (flag : Flag)
      → Inserts flag
      → Returns
          (λ rc t. (rc ≡ done) × Reused s key text d t × Answers key (some text) t)
          (store key text flag s)
  unfolding store store_found
  store-Reused db_insert i = Reused-Answers (store_checked-Reused db_insert (λ u. refl))
  store-Reused db_store i = Reused-Answers (store_checked-Reused db_store (λ u. refl))
  store-Reused db_replace i = absurd i
  store-Reused (other n) i = absurd i
