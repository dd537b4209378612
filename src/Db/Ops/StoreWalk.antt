-- ===== src/Db/Ops/StoreWalk.antt =====
-- What a walk by `db_nextrec` gives after `db_store` has appended a record.
use my_file.Prelude.{
  ℕ, ◌+◌, ◌*◌, ◌≤◌, ◌<◌, ◌≡◌, sym, false, none, List, [], ◌∷◌, ◌++◌, arith, length, length-append,
}
use mathlib.Core.Path.{subst}
use my_file.CLib.Strings.Laws.{Lacks}
use my_file.Db.State.{Db, Run, Returns, returns, ◌>>◌}
use my_file.Db.Pointers.{ptr_max}
use my_file.Db.Records.{records_start}
use my_file.Db.Records.Parse.{Fits}
use my_file.Db.Search.{free_off}
use my_file.Db.Search.Chain.{Row, find_row}
use my_file.Db.Search.Frame.{Chained}
use my_file.Db.Search.Free.{find_free}
use my_file.Db.Ops.{store, rewind, Flag, Stored, done}
use my_file.Db.Ops.Fetch.{HashChain}
use my_file.Db.Ops.Insert.{new_entry, new_row, Inserted, Inserts, store-Inserted}
use my_file.Db.Ops.Traverse.{Scan, is_deleted, live_records}
use my_file.Db.Ops.Traverse.Grown.{live_records-append}
use my_file.Db.Ops.Traverse.Walk.{Gives, walk, rewind-walk}

-- A walk from the start of the records gives these keys and data.
abbrev pub Walks : ℕ → List (List ℕ × List ℕ) → Db → Type 0
Walks n xs t = Returns (λ got u. Gives t xs got u) ((rewind >> walk n) t)

Inserted-Walks :
    (s : Db) (first : ℕ) (key text : List ℕ) (rows qs : List Row) (n : ℕ) (r : Run Stored)
    → Scan s.idx s.dat (records_start s) qs
    → is_deleted key ≡ false
    → length (live_records qs) + 1 < n
    → Returns (λ rc t. (rc ≡ done) × Inserted s (records_start s) key text first rows t) r
    → Returns (λ rc t. (rc ≡ done) × Walks n (live_records qs ++ ((key, text) ∷ [])) t) r
Inserted-Walks s first key text rows qs n r c live enough (returns {a = rc} {s = t} p) =
    let new = new_row s key text first in
    let all = live_records-append qs new live in
    let scan : Scan t.idx t.dat (records_start t) (qs ++ (new ∷ [])) =
      subst (λ m. Scan t.idx t.dat ((m + 1) * 6 + 1) (qs ++ (new ∷ []))) (sym p.1.nhash)
        (p.1.scan (records_start s) qs c (omega arith)) in
    returns (
      p.0,
      subst (λ xs. Walks n xs t) all
          (rewind-walk t (qs ++ (new ∷ [])) n scan
            (rw all (omega (arith, length-append (live_records qs) ((key, text) ∷ []))))),
    )

module _ (s : Db) {first head : ℕ} (key text : List ℕ) {rows frees : List Row}
    (c : HashChain s (records_start s) key first rows)
    (f : Chained s.idx s.dat (records_start s) free_off head frees)
    (h : Fits (new_entry s key text first)) (clean : Lacks 0 text) (small : length s.idx ≤ ptr_max)
    (filled : 0 < length text) (absent : find_row key rows ≡ none)
    (nofit : find_free (length key) (length text + 1) free_off frees ≡ none) where
  -- For a key that is not all blanks and that its well-formed hash chain does not have, data that
  -- are not empty, a record that the format holds at the ends of the files, an index file of at
  -- most PTR_MAX bytes that has just well-formed records behind the hash table, a well-formed free
  -- list with no record of these sizes, and a flag that lets a new record in: db_store returns 0,
  -- and a walk with db_rewind and db_nextrec then gives the records of before in their order and
  -- the new key and data last.
  pub store-Walks :
      (flag : Flag)
      → Inserts flag
      → (qs : List Row) (n : ℕ) → Scan s.idx s.dat (records_start s) qs
      → is_deleted key ≡ false
      → length (live_records qs) + 1 < n
      → Returns
          (λ rc t. (rc ≡ done) × Walks n (live_records qs ++ ((key, text) ∷ [])) t)
          (store key text flag s)
  store-Walks flag i qs n scan live enough =
      Inserted-Walks s first key text rows qs n (store key text flag s) scan live enough
        (store-Inserted s key text c f h clean small filled absent nofit flag i)
