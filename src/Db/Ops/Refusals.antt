-- ===== src/Db/Ops/Refusals.antt =====
-- The calls of `db_store` and `db_delete` that are refused for what the chain of the key holds.
use my_file.Prelude.{
  ℕ, ◌+◌, ◌≤◌, ◌<◌, ◌≡◌, refl, true, false, none, some, List, arith, ◌==◌, le→ltb_false,
  if◌then◌else◌, length,
}
use my_file.Db.State.{Db, exclusive, unlocked, relock, relock-relock, Returns, returns}
use my_file.Db.Hash.{chain_offset}
use my_file.Db.Records.{datlen_max}
use my_file.Db.Search.Chain.{Row, find_row, walked, walked-SameStore}
use my_file.Db.Ops.{
  delete, store, store_checked, store_found, db_insert, db_replace, exists, enoent,
}
use my_file.Db.Ops.Fetch.{HashChain, at_slot, find_and_lock-HashChain}

-- The two files and the locks are those of before, but for the lock of the chain, which is free.
pub record Untouched (s : Db) (key : List ℕ) (t : Db) : Type 0 where
  pub idx : t.idx ≡ s.idx
  pub dat : t.dat ≡ s.dat
  pub locks :
      (p : ℕ)
      → t.idxlock p ≡ (if p == chain_offset s.nhash s.hashoff key then unlocked else s.idxlock p)
  pub datlocks : t.datlock ≡ s.datlock
  pub nhash : t.nhash ≡ s.nhash
  pub hashoff : t.hashoff ≡ s.hashoff

module _ (s : Db) {start first : ℕ} (key : List ℕ) {rows : List Row}
    (c : HashChain s start key first rows) where
  freed :
      (p : ℕ)
      → relock
          (walked (at_slot s key exclusive) rows key).idxlock
          (walked (at_slot s key exclusive) rows key).chainoff
          1
          unlocked
          p
        ≡ (if p == chain_offset s.nhash s.hashoff key then unlocked else s.idxlock p)
  freed p =
      let same = walked-SameStore (at_slot s key exclusive) rows key in
      rw (same.idxlock, same.chainoff)
        (relock-relock s.idxlock (chain_offset s.nhash s.hashoff key) exclusive unlocked p)

  -- For a key that its well-formed hash chain does not have, db_delete fails, leaves both files as
  -- they were, and of the locks of before gives up only that of the chain.
  pub delete-missing :
      find_row key rows ≡ none → Returns (λ rc t. (rc ≡ false) × Untouched s key t) (delete key s)
  unfolding delete
  delete-missing missing =
      let same = walked-SameStore (at_slot s key exclusive) rows key in
      rw (find_and_lock-HashChain s key c true, missing)
        (returns (
          refl,
          record {
            idx = same.idx;
            dat = same.dat;
            locks = freed;
            datlocks = same.datlock;
            nhash = same.nhash;
            hashoff = same.hashoff;
          },
        ))

  module _ (text : List ℕ) (filled : 0 < length text) (fits : length text + 1 ≤ datlen_max) where
    -- For data of an allowed length and a key that its well-formed hash chain has, db_store with
    -- DB_INSERT returns 1, leaves both files as they were, and of the locks of before gives up only
    -- that of the chain.
    pub store-exists :
        (r : Row)
        → find_row key rows ≡ some r
        → Returns (λ rc t. (rc ≡ exists) × Untouched s key t) (store key text db_insert s)
    unfolding store store_checked store_found
    store-exists r there =
        let same = walked-SameStore (at_slot s key exclusive) rows key in
        rw
          (
            le→ltb_false (length text + 1) 2 (omega arith),
            le→ltb_false 1024 (length text + 1) fits,
            find_and_lock-HashChain s key c true,
            there,
          )
          (returns (
            refl,
            record {
              idx = same.idx;
              dat = same.dat;
              locks = freed;
              datlocks = same.datlock;
              nhash = same.nhash;
              hashoff = same.hashoff;
            },
          ))

    -- For data of an allowed length and a key that its well-formed hash chain does not have,
    -- db_store with DB_REPLACE fails with ENOENT, leaves both files as they were, and of the locks
    -- of before gives up only that of the chain.
    pub store-enoent :
        find_row key rows ≡ none
        → Returns (λ rc t. (rc ≡ enoent) × Untouched s key t) (store key text db_replace s)
    unfolding store store_checked store_found
    store-enoent missing =
        let same = walked-SameStore (at_slot s key exclusive) rows key in
        rw
          (
            le→ltb_false (length text + 1) 2 (omega arith),
            le→ltb_false 1024 (length text + 1) fits,
            find_and_lock-HashChain s key c true,
            missing,
          )
          (returns (
            refl,
            record {
              idx = same.idx;
              dat = same.dat;
              locks = freed;
              datlocks = same.datlock;
              nhash = same.nhash;
              hashoff = same.hashoff;
            },
          ))
