-- ===== src/Db/Ops/Replace/Store.antt =====
-- The calls of `db_store` that overwrite the data of a record.
use my_file.Prelude.{
  ℕ, suc, ◌+◌, ◌<◌, ◌≡◌, refl, true, some, List, [], ◌∷◌, ◌++◌, arith, ◌==◌, le→ltb_false, length,
}
use my_file.CLib.Files.{write_at}
use my_file.CLib.Strings.Laws.{Lacks}
use my_file.Db.State.{Db, exclusive, Run, Returns, returns, and_then, pure, ◌>>◌}
use my_file.Db.Records.{newline}
use my_file.Db.Records.Write.{writedat-set}
use my_file.Db.Search.Chain.{
  Row, find_row, walked, walked-SameStore, walked-IsCurrent, IsCurrent, find_row-IsRow,
}
use my_file.Db.Ops.{
  unlock_chain, store, store_checked, store_found, replace_record, Flag, db_insert, db_replace,
  db_store, other, done, Stored,
}
use my_file.Db.Ops.Fetch.{HashChain, at_slot, find_and_lock-HashChain, fetch-find_row}
use my_file.Db.Ops.StoreFetch.{Answers, answer_of}
use my_file.Db.Ops.Replace.{
  replaced, OthersApart, replaced-Chain, find_row-replaced, length-replaced, Behind-replaced,
}

-- a flag that replaces
abbrev pub Replaces : Flag → Type 0
Replaces db_replace = Unit
Replaces db_store = Unit
Replaces _ = ⊥

-- What the replacement leaves of the database.
pub record Rewritten (s : Db) (text : List ℕ) (r : Row) (t : Db) : Type 0 where
  pub idx : t.idx ≡ s.idx
  pub dat : t.dat ≡ write_at s.dat r.entry.datoff (text ++ newline ∷ [])
  pub nhash : t.nhash ≡ s.nhash
  pub hashoff : t.hashoff ≡ s.hashoff

module _ (s : Db) {start first : ℕ} (key text : List ℕ) {rows : List Row}
    (c : HashChain s start key first rows) (r : Row) (found : find_row key rows ≡ some r)
    (same : suc (length text) ≡ r.entry.datlen) (clean : Lacks 0 text)
    (filled : 0 < length text) where
  pub kept :
      (t : Db)
      → Rewritten s text r t
      → OthersApart key r rows
      → HashChain t start key first (replaced key text rows)
  kept t e apart =
      let row = find_row-IsRow key s.idx s.dat first rows r c.chain found in
      rw (e.idx, e.dat, e.nhash, e.hashoff)
        (record {
          first_le = c.first_le;
          slot_in = c.slot_in;
          start_in = c.start_in;
          slot_ptr = c.slot_ptr;
          chain =
              replaced-Chain s.idx s.dat r text row same clean key first rows c.chain found apart;
          behind = Behind-replaced key text start rows c.behind;
          short = let k = c.short in omega (arith, length-replaced key text rows);
        })

  replace_record-Rewritten :
      (u : Db)
      → u.idx ≡ s.idx
      → u.dat ≡ s.dat
      → u.nhash ≡ s.nhash
      → u.hashoff ≡ s.hashoff
      → IsCurrent u r
      → Returns (λ _ t. Rewritten s text r t) (replace_record key text u)
  unfolding replace_record
  replace_record-Rewritten u i d n o cur =
      let old : (length text + 1 == u.datlen) ≡ true =
        let l = cur.datlen in ground (arith, l, same) in
      rw (old, writedat-set u text u.datoff)
        (returns (record { idx = i; dat = rw (d, cur.datoff) refl; nhash = n; hashoff = o }))

  finish :
      {m : Run (Unit {0})}
      → Returns (λ _ t. Rewritten s text r t) m
      → Returns
          (λ rc t. (rc ≡ done) × Rewritten s text r t)
          (and_then (and_then m (λ _. pure done)) (λ rc. unlock_chain >> pure rc))
  finish (returns h) =
      returns (refl, record { idx = h.idx; dat = h.dat; nhash = h.nhash; hashoff = h.hashoff })

  store_checked-Rewritten :
      (flag : Flag)
      → ((u : Db) → store_found true flag key text u ≡ (replace_record key text >> pure done) u)
      → Returns (λ rc t. (rc ≡ done) × Rewritten s text r t) (store_checked key text flag s)
  unfolding store_checked
  store_checked-Rewritten flag by =
      let row = find_row-IsRow key s.idx s.dat first rows r c.chain found in
      let fits = row.fits.datlen_le in
      let w = walked-SameStore (at_slot s key exclusive) rows key in
      let cur = walked-IsCurrent key (at_slot s key exclusive) rows r found in
      rw
        (
          le→ltb_false (length text + 1) 2 (omega arith),
          le→ltb_false 1024 (length text + 1) (omega arith),
          find_and_lock-HashChain s key c true,
          found,
          by (walked (at_slot s key exclusive) rows key),
        )
        (finish (
          replace_record-Rewritten (walked (at_slot s key exclusive) rows key) w.idx w.dat w.nhash
            w.hashoff cur))

  pub store-Rewritten :
      (flag : Flag)
      → Replaces flag
      → Returns (λ rc t. (rc ≡ done) × Rewritten s text r t) (store key text flag s)
  unfolding store store_found
  store-Rewritten db_replace i = store_checked-Rewritten db_replace (λ u. refl)
  store-Rewritten db_store i = store_checked-Rewritten db_store (λ u. refl)
  store-Rewritten db_insert i = absurd i
  store-Rewritten (other n) i = absurd i

  Rewritten-Answers :
      OthersApart key r rows
      → {m : Run Stored} → Returns (λ rc t. (rc ≡ done) × Rewritten s text r t) m
      → Returns (λ rc t. (rc ≡ done) × Answers key (some text) t) m
  Rewritten-Answers apart (returns {s = t} (rc, e)) = returns (
    rc,
    rw (find_row-replaced key text rows r found) at
        (answer_of (fetch-find_row t key (kept t e apart))),
  )

  -- For a key that its well-formed hash chain has, data of the length of those of the first record
  -- of the key, and a record whose data do not overlap those of the others of the chain, db_store
  -- with DB_REPLACE or DB_STORE returns 0, and a fetch of the key then answers with the new data.
  pub store-fetch_replaced :
      (flag : Flag)
      → Replaces flag
      → OthersApart key r rows
      → Returns (λ rc t. (rc ≡ done) × Answers key (some text) t) (store key text flag s)
  store-fetch_replaced flag i apart = Rewritten-Answers apart (store-Rewritten flag i)
