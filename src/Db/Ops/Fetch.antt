-- ===== src/Db/Ops/Fetch.antt =====
-- `db_fetch` against the records of a hash chain.
use my_file.Prelude.{
  ℕ, suc, ◌+◌, ◌≡◌, refl, ◌∙◌, inl, inr, Option-cases, Bool, false, Option, none, some, List, arith,
  ◌==◌, if◌then◌else◌, length,
}
use my_file.CLib.Files.{HasAt}
use my_file.Db.State.{Db, Lock, shared, unlocked, relock, relock-relock, ok, Returns, returns}
use my_file.Db.Hash.{chain_offset}
use my_file.Db.Pointers.{ptr_sz}
use my_file.Db.Pointers.RoundTrip.{readptr-inside}
use my_file.Db.Records.Data.{readdat-text}
use my_file.Db.Search.{find_and_lock, lock_mode}
use my_file.Db.Search.Chain.{
  Row, data_text, find_row, is_some, walked, find_loop-Chain, walked-SameStore, walked-IsCurrent,
  find_row-IsRow,
}
use my_file.Db.Search.Frame.{Chained}
use my_file.Db.Ops.{fetch}

-- The hash chain of a key, with the slot of the table that `_db_hash` gives.
abbrev pub HashChain : Db → ℕ → List ℕ → ℕ → List Row → Type 0
HashChain s start key first rows =
    Chained s.idx s.dat start (chain_offset s.nhash s.hashoff key) first rows

-- the state in which the walk begins
abbrev pub at_slot : Db → List ℕ → Lock → Db
at_slot s key l =
    let off = chain_offset s.nhash s.hashoff key in
    record s {
      chainoff = off;
      ptroff = off;
      idxlock = relock s.idxlock off 1 l;
      idxpos = off + ptr_sz;
    }

module _ (s : Db) {start first : ℕ} (key : List ℕ) {rows : List Row}
    (c : HashChain s start key first rows) where
  pub find_and_lock-HashChain :
      (w : Bool)
      → find_and_lock key w s
        ≡ ok (is_some (find_row key rows)) (walked (at_slot s key (lock_mode w)) rows key)
  unfolding find_and_lock
  find_and_lock-HashChain w =
      let off = chain_offset s.nhash s.hashoff key in
      let locked : Db = record s {
        chainoff = off;
        ptroff = off;
        idxlock = relock s.idxlock off 1 (lock_mode w);
      } in
      rw
        (
          readptr-inside locked off (let a = c.slot_in in let b = c.start_in in omega arith),
          c.slot_ptr,
        )
        (find_loop-Chain key (suc (length s.idx)) first (at_slot s key (lock_mode w)) rows c.chain
          (let n = c.short in omega arith))

-- the data of a record, or NULL
abbrev pub found_text : Option Row → Option (List ℕ)
found_text none = none
found_text (some r) = some r.text

-- What `db_fetch` answers, and what it leaves behind.
pub record Fetched (s : Db) (key : List ℕ) (answer out : Option (List ℕ)) (t : Db) : Type 0 where
  pub out_eq : out ≡ answer
  pub idx : t.idx ≡ s.idx
  pub dat : t.dat ≡ s.dat
  pub locks :
      (p : ℕ)
      → t.idxlock p ≡ (if p == chain_offset s.nhash s.hashoff key then unlocked else s.idxlock p)
  pub datlocks : t.datlock ≡ s.datlock
  pub nhash : t.nhash ≡ s.nhash
  pub hashoff : t.hashoff ≡ s.hashoff

module _ (s : Db) {start first : ℕ} (key : List ℕ) {rows : List Row}
    (c : HashChain s start key first rows) where
  -- On a well-formed hash chain db_fetch returns, and answers with the data of the first record of
  -- the key, or NULL if the chain has none; it leaves the two files as they were, and of the locks
  -- of before only that of the chain is given up.
  pub fetch-find_row :
      Returns (λ out t. Fetched s key (found_text (find_row key rows)) out t) (fetch key s)
  unfolding fetch
  fetch-find_row =
      let begin = at_slot s key shared in
      let end = walked begin rows key in
      let same = walked-SameStore begin rows key in
      let off = chain_offset s.nhash s.hashoff key in
      let freed : (p : ℕ)
          → relock end.idxlock end.chainoff 1 unlocked p
            ≡ (if p == off then unlocked else s.idxlock p) =
        λ p. rw (same.idxlock, same.chainoff) (relock-relock s.idxlock off shared unlocked p) in
      elim (Option-cases (find_row key rows)) [
        | inl missing ↦
            rw (find_and_lock-HashChain s key c false, missing)
              (returns (record {
                out_eq = refl;
                idx = same.idx;
                dat = same.dat;
                locks = freed;
                datlocks = same.datlock;
                nhash = same.nhash;
                hashoff = same.hashoff;
              }))
        | inr (r, found) ↦
            let row = find_row-IsRow key s.idx s.dat first rows r c.chain found in
            let cur = walked-IsCurrent key begin rows r found in
            let there : HasAt end.dat end.datoff (data_text r) =
              rw (same.dat, cur.datoff) row.in_dat in
            rw
              (
                find_and_lock-HashChain s key c false,
                found,
                readdat-text end r.text there (cur.datlen ∙ row.datlen) row.no_null,
              )
              (returns (record {
                out_eq = refl;
                idx = same.idx;
                dat = same.dat;
                locks = freed;
                datlocks = same.datlock;
                nhash = same.nhash;
                hashoff = same.hashoff;
              }))
      ]
