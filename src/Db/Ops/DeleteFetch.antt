-- ===== src/Db/Ops/DeleteFetch.antt =====
-- What `db_fetch` answers after `db_delete`.
use my_file.Prelude.{
  ℕ, suc, ◌+◌, ◌≤◌, ◌<◌, ◌≡◌, ◌≢◌, inl, inr, refl, true, false, none, some, List, [], ◌∷◌, arith,
  if◌then◌else◌, Bool-cases, length, bytes_eq, bytes_eq_sound,
}
use my_file.Db.State.{Db, Returns, weaken}
use my_file.Db.Hash.{chain_offset, chain_offset_apart}
use my_file.Db.Pointers.{ptr_sz}
use my_file.Db.Search.{free_off}
use my_file.Db.Search.Chain.{Row, row_key, find_row}
use my_file.Db.Search.Frame.{Chained}
use my_file.Db.Search.Unlink.{Separate, removed, removed_behind, new_first, place, blanked}
use my_file.Db.Search.Relink.{Cross}
use my_file.Db.Search.Deleted.{removed-Chained, freed-Chained, others-Chained}
use my_file.Db.Ops.{delete}
use my_file.Db.Ops.Fetch.{HashChain, found_text, fetch-find_row}
use my_file.Db.Ops.StoreFetch.{Answers, answer_of}
use my_file.Db.Ops.Delete.{Erased, delete-Erased, slot_past}

-- how many records of the chain have the key
abbrev pub key_count : List ℕ → List Row → ℕ
key_count key [] = 0
key_count key (r ∷ rows) =
    if bytes_eq (row_key r) key then suc (key_count key rows) else key_count key rows

absent_row : (key : List ℕ) (rows : List Row) → key_count key rows ≡ 0 → find_row key rows ≡ none
absent_row key [] h = refl
absent_row key (q ∷ rows) h = elim (Bool-cases (bytes_eq (row_key q) key)) [
  | inl hit ↦ let k = rw hit at h in absurd (omega arith)
  | inr miss ↦ rw miss (absent_row key rows (rw miss at h))
]

-- With one record of the key, there is none behind the deletion.
find_row-removed_behind :
    (key : List ℕ) (q : Row) (rows : List Row)
    → bytes_eq (row_key q) key ≡ false
    → key_count key rows ≡ 1
    → find_row key (removed_behind key q rows) ≡ none
find_row-removed_behind key q [] m h = absurd (omega arith)
find_row-removed_behind key q (p ∷ rows) m h = elim (Bool-cases (bytes_eq (row_key p) key)) [
  | inl hit ↦
      let k : suc (key_count key rows) ≡ 1 = rw hit at h in
      rw (hit, m) (absent_row key rows (omega arith))
  | inr miss ↦ rw (miss, m) (find_row-removed_behind key p rows miss (rw miss at h))
]

pub find_row-removed :
    (key : List ℕ) (rows : List Row)
    → key_count key rows ≡ 1
    → find_row key (removed key rows) ≡ none
find_row-removed key [] h = absurd (omega arith)
find_row-removed key (p ∷ rows) h = elim (Bool-cases (bytes_eq (row_key p) key)) [
  | inl hit ↦
      let k : suc (key_count key rows) ≡ 1 = rw hit at h in
      rw hit (absent_row key rows (omega arith))
  | inr miss ↦ rw miss (find_row-removed_behind key p rows miss (rw miss at h))
]

module _ (key other : List ℕ) (ne : bytes_eq key other ≡ false) where
  not_other : (xs : List ℕ) → bytes_eq xs key ≡ true → bytes_eq xs other ≡ false
  not_other xs h = let e = bytes_eq_sound xs key h in rw e ne

  other-removed_behind :
      (q : Row) (rows : List Row)
      → found_text (find_row other (removed_behind key q rows))
        ≡ found_text (find_row other (q ∷ rows))
  other-removed_behind q [] = refl
  other-removed_behind q (p ∷ rows) = elim (Bool-cases (bytes_eq (row_key p) key)) [
    | inl hit ↦
        let skip = not_other (row_key p) hit in
        elim (Bool-cases (bytes_eq (row_key q) other)) [
          | inl here ↦ rw (hit, here) refl
          | inr past ↦ rw (hit, past, skip) refl
        ]
    | inr miss ↦ elim (Bool-cases (bytes_eq (row_key q) other)) [
      | inl here ↦ rw (miss, here) refl
      | inr past ↦ rw (miss, past) (other-removed_behind p rows)
    ]
  ]

  pub other-removed :
      (rows : List Row)
      → found_text (find_row other (removed key rows)) ≡ found_text (find_row other rows)
  other-removed [] = refl
  other-removed (p ∷ rows) = elim (Bool-cases (bytes_eq (row_key p) key)) [
    | inl hit ↦ let skip = not_other (row_key p) hit in rw (hit, skip) refl
    | inr miss ↦ rw miss (other-removed_behind p rows)
  ]

module _ (s : Db) {start first head : ℕ} (key : List ℕ) {rows frees : List Row} {r : Row}
    (c : HashChain s start key first rows) (f : Chained s.idx s.dat start free_off head frees)
    (past : free_off + ptr_sz ≤ s.hashoff) (slots : 0 < s.nhash)
    (found : find_row key rows ≡ some r) (separate : Separate rows) (cross : Cross frees rows)
    (fewer : length frees < length s.idx) where
  abbrev slot : ℕ
  slot = chain_offset s.nhash s.hashoff key

  gone : Returns (λ rc t. (rc ≡ true) × Erased s head r (place key slot rows) t) (delete key s)
  gone = delete-Erased s key (record {
    chain = c;
    free = f;
    past = past;
    slots = slots;
    found = found;
    separate = separate;
    cross = cross;
    fewer = fewer;
  })

  chain_after :
      (t : Db)
      → Erased s head r (place key slot rows) t
      → HashChain t start key (new_first key first rows) (removed key rows)
  chain_after t e =
      rw (e.idx, e.dat, e.nhash, e.hashoff)
        (removed-Chained key c f (slot_past s key past slots) found separate cross fewer)

  free_after :
      (t : Db)
      → Erased s head r (place key slot rows) t
      → Chained t.idx t.dat start free_off r.at (blanked head r ∷ frees)
  free_after t e =
      rw (e.idx, e.dat)
        (freed-Chained key c f (slot_past s key past slots) found separate cross fewer)

  -- For a key that its well-formed hash chain has, a hash table that is not empty and stands behind
  -- the pointer of the free list, a well-formed free list of fewer records than the index file has
  -- bytes, and records of the chain that overlap neither each other nor a free record: db_delete
  -- returns 0, the hash chain is well-formed and has lost just the first record of the key, and the
  -- well-formed free list has that record, with blanks for its key and its data, in front of the
  -- records of before.
  pub delete-HashChain :
      Returns
        (λ rc t.
          (rc ≡ true)
          × HashChain t start key (new_first key first rows) (removed key rows)
          × Chained t.idx t.dat start free_off r.at (blanked head r ∷ frees))
        (delete key s)
  delete-HashChain = weaken (λ rc t p. (p.0, chain_after t p.1, free_after t p.1)) gone

  -- For a key that its well-formed hash chain has, a hash table that is not empty and stands behind
  -- the pointer of the free list, a well-formed free list of fewer records than the index file has
  -- bytes, and records of the chain that overlap neither each other nor a free record, of which one
  -- has the key: db_delete returns 0, and a fetch of the key then answers NULL.
  pub delete-fetch_self :
      key_count key rows ≡ 1 → Returns (λ rc t. (rc ≡ true) × Answers key none t) (delete key s)
  delete-fetch_self once =
      weaken
        (λ rc t p.
          let e : found_text (find_row key (removed key rows)) ≡ none =
            rw (find_row-removed key rows once) refl in
          (p.0, rw e at (answer_of (fetch-find_row t key (chain_after t p.1)))))
        gone

  -- For a key that its well-formed hash chain has, a hash table that is not empty and stands behind
  -- the pointer of the free list, a well-formed free list of fewer records than the index file has
  -- bytes, and records of the chain that overlap neither each other nor a free record: db_delete
  -- returns 0, and a fetch of another key with the same hash chain then answers with the first
  -- record of that key in the chain of before.
  pub delete-fetch_collision :
      (other : List ℕ)
      → bytes_eq key other ≡ false
      → chain_offset s.nhash s.hashoff other ≡ slot
      → Returns
          (λ rc t. (rc ≡ true) × Answers other (found_text (find_row other rows)) t)
          (delete key s)
  delete-fetch_collision other ne same =
      weaken
        (λ rc t p.
          let e = p.1 in
          let here = rw (e.nhash, e.hashoff) at (chain_after t e) in
          let kept : HashChain t start other (new_first key first rows) (removed key rows) =
            rw (e.nhash, e.hashoff, same) here in
          (p.0, rw (other-removed key other ne rows) at (answer_of (fetch-find_row t other kept))))
        gone

  -- For a key that its well-formed hash chain has, a hash table that is not empty and stands behind
  -- the pointer of the free list, a well-formed free list of fewer records than the index file has
  -- bytes, and records of the chain that overlap neither each other nor a free record: db_delete
  -- returns 0, and a fetch of a key with another, well-formed hash chain, whose records do not
  -- overlap those of the chain of the deleted key, then answers with the first record of that key
  -- in it, as before.
  pub delete-fetch_other :
      (other : List ℕ) (first' : ℕ) (rows' : List Row)
      → HashChain s start other first' rows'
      → Cross rows' rows
      → chain_offset s.nhash s.hashoff other ≢ slot
      → Returns
          (λ rc t. (rc ≡ true) × Answers other (found_text (find_row other rows')) t)
          (delete key s)
  delete-fetch_other other first' rows' c' x ne =
      weaken
        (λ rc t p.
          let e = p.1 in
          let kept : HashChain t start other first' rows' =
            rw (e.idx, e.dat, e.nhash, e.hashoff)
              (others-Chained key c f (slot_past s key past slots) found separate cross fewer
                (chain_offset s.nhash s.hashoff other) first' rows' c' x
                (slot_past s other past slots)
                (chain_offset_apart s.nhash s.hashoff other key ne)) in
          (p.0, answer_of (fetch-find_row t other kept)))
        gone
