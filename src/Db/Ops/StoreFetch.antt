-- ===== src/Db/Ops/StoreFetch.antt =====
-- What `db_fetch` answers after `db_store` has appended a record.
use my_file.Prelude.{
  ℕ, ◌+◌, ◌≤◌, ◌<◌, ◌≡◌, ◌≢◌, ◌⊎◌, false, Option, none, some, List, ◌∷◌, length, bytes_eq,
  bytes_eq_refl,
}
use my_file.CLib.Strings.Laws.{Lacks}
use my_file.Db.State.{Db, Run, Returns, returns, weaken}
use my_file.Db.Hash.{chain_offset, chain_offset_apart}
use my_file.Db.Pointers.{ptr_sz, ptr_max}
use my_file.Db.Records.Parse.{Fits}
use my_file.Db.Search.{free_off}
use my_file.Db.Search.Chain.{Row, find_row}
use my_file.Db.Search.Frame.{Chained}
use my_file.Db.Search.Free.{find_free}
use my_file.Db.Ops.{fetch, store, Flag, done}
use my_file.Db.Ops.Fetch.{HashChain, found_text, Fetched, fetch-find_row}
use my_file.Db.Ops.Insert.{new_entry, new_row, Inserted, Inserts, store-Inserted}

-- A call of `db_fetch` returns with this answer.
abbrev pub Answers : List ℕ → Option (List ℕ) → Db → Type 0
Answers key answer t = Returns (λ out u. out ≡ answer) (fetch key t)

pub answer_of :
    {s : Db} {key : List ℕ} {answer : Option (List ℕ)} {r : Run (Option (List ℕ))}
    → Returns (λ out t. Fetched s key answer out t) r
    → Returns (λ out u. out ≡ answer) r
answer_of (returns f) = returns f.out_eq

module _ (s : Db) {start first : ℕ} (key text : List ℕ) {rows : List Row} (t : Db)
    (i : Inserted s start key text first rows t) where
  fetch_self : Answers key (some text) t
  fetch_self =
      let hit : found_text (find_row key (new_row s key text first ∷ rows)) ≡ some text =
        rw (bytes_eq_refl key) in
      rw hit at (answer_of (fetch-find_row t key i.chain))

  fetch_other :
      (other : List ℕ) (first' : ℕ) (rows' : List Row)
      → HashChain s start other first' rows'
      → chain_offset s.nhash s.hashoff other ≢ chain_offset s.nhash s.hashoff key
      → Answers other (found_text (find_row other rows')) t
  fetch_other other first' rows' c' ne =
      let kept : HashChain t start other first' rows' =
        rw (i.nhash, i.hashoff)
          (i.others (chain_offset s.nhash s.hashoff other) first' rows' c'
            (chain_offset_apart s.nhash s.hashoff other key ne)) in
      answer_of (fetch-find_row t other kept)

  fetch_collision :
      (other : List ℕ)
      → bytes_eq key other ≡ false
      → chain_offset s.nhash s.hashoff other ≡ chain_offset s.nhash s.hashoff key
      → Answers other (found_text (find_row other rows)) t
  fetch_collision other ne same =
      let here = rw (i.nhash, i.hashoff) at i.chain in
      let kept : HashChain t start other (length s.idx) (new_row s key text first ∷ rows) =
        rw (i.nhash, i.hashoff, same) here in
      let miss : found_text (find_row other (new_row s key text first ∷ rows))
          ≡ found_text (find_row other rows) =
        rw ne in
      rw miss at (answer_of (fetch-find_row t other kept))

module _ (s : Db) {start first head : ℕ} (key text : List ℕ) {rows frees : List Row}
    (c : HashChain s start key first rows) (f : Chained s.idx s.dat start free_off head frees)
    (h : Fits (new_entry s key text first)) (clean : Lacks 0 text) (small : length s.idx ≤ ptr_max)
    (filled : 0 < length text) (absent : find_row key rows ≡ none)
    (nofit : find_free (length key) (length text + 1) free_off frees ≡ none) where
  -- For a key that its well-formed hash chain does not have, data that are not empty, a record that
  -- the format holds at the ends of the files, an index file of at most PTR_MAX bytes, a
  -- well-formed free list with no record of these sizes, and a flag that lets a new record in:
  -- db_store returns 0, and the record is then the first of the well-formed hash chain of its key,
  -- in front of the records of before.
  pub store-HashChain :
      (flag : Flag)
      → Inserts flag
      → Returns
          (λ rc t.
            (rc ≡ done) × HashChain t start key (length s.idx) (new_row s key text first ∷ rows))
          (store key text flag s)
  store-HashChain flag i =
      weaken (λ rc t p. (p.0, p.1.chain))
        (store-Inserted s key text c f h clean small filled absent nofit flag i)

  -- For a key that its well-formed hash chain does not have, data that are not empty, a record that
  -- the format holds at the ends of the files, an index file of at most PTR_MAX bytes, a
  -- well-formed free list with no record of these sizes, and a flag that lets a new record in:
  -- db_store returns, and a well-formed chain at a slot that does not overlap that of the key, be
  -- it a hash chain or the free list, is then as it was.
  pub store-Chained_other :
      (flag : Flag)
      → Inserts flag
      → (slot head' : ℕ) (qs : List Row) → Chained s.idx s.dat start slot head' qs
      → (slot + ptr_sz ≤ chain_offset s.nhash s.hashoff key)
        ⊎ (chain_offset s.nhash s.hashoff key + ptr_sz ≤ slot)
      → Returns (λ rc t. Chained t.idx t.dat start slot head' qs) (store key text flag s)
  store-Chained_other flag i slot head' qs k apart =
      weaken (λ rc t p. p.1.others slot head' qs k apart)
        (store-Inserted s key text c f h clean small filled absent nofit flag i)

  -- For a key that its well-formed hash chain does not have, data that are not empty, a record that
  -- the format holds at the ends of the files, an index file of at most PTR_MAX bytes, a
  -- well-formed free list with no record of these sizes, and a flag that lets a new record in:
  -- db_store returns 0, and a fetch of the key then answers with the data that was stored.
  pub store-fetch_self :
      (flag : Flag)
      → Inserts flag
      → Returns (λ rc t. (rc ≡ done) × Answers key (some text) t) (store key text flag s)
  store-fetch_self flag i =
      weaken (λ rc t p. (p.0, fetch_self s key text t p.1))
        (store-Inserted s key text c f h clean small filled absent nofit flag i)

  -- For a key that its well-formed hash chain does not have, data that are not empty, a record that
  -- the format holds at the ends of the files, an index file of at most PTR_MAX bytes, a
  -- well-formed free list with no record of these sizes, and a flag that lets a new record in:
  -- db_store returns 0, and a fetch of a key with another, well-formed hash chain then answers with
  -- the first record of that key in it, as before.
  pub store-fetch_other :
      (flag : Flag)
      → Inserts flag
      → (other : List ℕ) (first' : ℕ) (rows' : List Row) → HashChain s start other first' rows'
      → chain_offset s.nhash s.hashoff other ≢ chain_offset s.nhash s.hashoff key
      → Returns
          (λ rc t. (rc ≡ done) × Answers other (found_text (find_row other rows')) t)
          (store key text flag s)
  store-fetch_other flag i other first' rows' c' ne =
      weaken (λ rc t p. (p.0, fetch_other s key text t p.1 other first' rows' c' ne))
        (store-Inserted s key text c f h clean small filled absent nofit flag i)

  -- For a key that its well-formed hash chain does not have, data that are not empty, a record that
  -- the format holds at the ends of the files, an index file of at most PTR_MAX bytes, a
  -- well-formed free list with no record of these sizes, and a flag that lets a new record in:
  -- db_store returns 0, and a fetch of another key with the same hash chain then answers with the
  -- first record of that key in the chain of before.
  pub store-fetch_collision :
      (flag : Flag)
      → Inserts flag
      → (other : List ℕ) → bytes_eq key other ≡ false
      → chain_offset s.nhash s.hashoff other ≡ chain_offset s.nhash s.hashoff key
      → Returns
          (λ rc t. (rc ≡ done) × Answers other (found_text (find_row other rows)) t)
          (store key text flag s)
  store-fetch_collision flag i other ne same =
      weaken (λ rc t p. (p.0, fetch_collision s key text t p.1 other ne same))
        (store-Inserted s key text c f h clean small filled absent nofit flag i)
