-- ===== src/Db/Map/Store.antt =====
-- `db_store` on a database that stands for a map.
use my_file.Prelude.{
  ℕ, suc, ◌+◌, ◌≤◌, ◌<◌, ◌≡◌, ◌≢◌, inl, inr, refl, ap, ◌∙◌, sym, Option-cases, none, some, List,
  arith, length, ◌==◌, Bool-cases, if◌then◌else◌,
}
use my_file.CLib.Strings.Laws.{Lacks}
use my_file.Db.State.{Db, Run, Returns, returns, weaken}
use my_file.Db.Hash.{chain_offset}
use my_file.Db.Pointers.{ptr_max}
use my_file.Db.Records.Parse.{Fits, entry_text, length-entry_text}
use my_file.Db.Search.{free_off}
use my_file.Db.Search.Chain.{Row, find_row, find_row-IsRow}
use my_file.Db.Search.Free.{find_free}
use my_file.Db.Search.Unlink.{new_first}
use my_file.Db.Search.Deleted.{removed-Chained}
use my_file.Db.Ops.{
  store, Flag, Stored, db_insert, db_replace, db_store, other, done, exists, enoent, einval,
}
use my_file.Db.Ops.Fetch.{found_text}
use my_file.Db.Ops.Delete.{slot_past}
use my_file.Db.Ops.Insert.{new_entry, Inserts, store-Inserted}
use my_file.Db.Ops.Reuse.Store.{store-Reused}
use my_file.Db.Ops.Replace.{length-overwritten}
use my_file.Db.Ops.Replace.Store.{Replaces, store-Rewritten}
use my_file.Db.Ops.ReplaceLonger.{store-Exchanged}
use my_file.Db.Ops.Refusals.{Untouched, store-exists, store-enoent}
use my_file.Db.Map.State.{Contents, has, with_key, Holds, Grown, Holds-same, free_chain, key_chain}
use my_file.Db.Map.Delete.{deletable, slot_chain}
use my_file.Db.Map.Insert.{Fits-ptr, Holds-Inserted}
use my_file.Db.Map.Reuse.{reusable, Holds-Reused}
use my_file.Db.Map.Replace.{Holds-Rewritten, Holds-Exchanged}

-- what a call of `db_store` does to a map
abbrev pub stored : Flag → List ℕ → List ℕ → Contents → Stored × Contents
stored db_insert key text m =
    if has (m key) then (exists, m) else (done, with_key key (some text) m)
stored db_replace key text m =
    if has (m key) then (done, with_key key (some text) m) else (enoent, m)
stored db_store key text m = (done, with_key key (some text) m)
stored (other n) key text m = (einval, m)

module _ (s : Db) (start : ℕ) (m : Contents) (h : Holds s start m) (key text : List ℕ)
    (fits : Fits (new_entry s key text 0)) (clean : Lacks 0 text) (filled : 0 < length text)
    (small : length s.idx ≤ ptr_max) where
  abbrev slot : ℕ
  slot = chain_offset s.nhash s.hashoff key

  -- the length of the new record, whatever it points at
  abbrev new_size : ℕ
  new_size = length (entry_text (new_entry s key text 0))

  same_size : (ptr : ℕ) → ptr ≤ ptr_max → length (entry_text (new_entry s key text ptr)) ≡ new_size
  same_size ptr le = omega (
    arith,
    length-entry_text (new_entry s key text ptr) (Fits-ptr s key text ptr le fits),
    length-entry_text (new_entry s key text 0) fits,
  )

  abbrev Bounded : Db → Type 0
  Bounded t = Grown s t new_size (length text + 1)

  bounded : {t : Db} → length t.idx ≡ length s.idx → length t.dat ≡ length s.dat → Bounded t
  bounded i a = record { idx = omega (arith, i); dat = omega (arith, a) }

  longer :
      {t : Db} (ptr : ℕ)
      → ptr ≤ ptr_max
      → length t.idx ≡ length s.idx + length (entry_text (new_entry s key text ptr))
      → length t.dat ≡ length s.dat + (length text + 1)
      → Bounded t
  longer ptr le i a = record { idx = omega (arith, i, same_size ptr le); dat = omega (arith, a) }

  abbrev Added : Stored → Db → Type 0
  Added rc t = (rc ≡ done) × Holds t start (with_key key (some text) m) × Bounded t

  store_new :
      (flag : Flag)
      → Inserts flag
      → find_row key (h.rows slot) ≡ none
      → Returns Added (store key text flag s)
  store_new flag i absent =
      let (first, c) = key_chain h.is_db key in
      let (head, f) = free_chain h.is_db in
      elim (Option-cases (find_free (length key) (length text + 1) free_off (h.rows free_off))) [
        | inl nofit ↦
            weaken
              (λ rc t p. (
                p.0,
                Holds-Inserted s start m h key text first t absent p.1,
                longer first c.first_le p.1.idx_size p.1.dat_size,
              ))
              (store-Inserted s key text c f (Fits-ptr s key text first c.first_le fits) clean small
                filled absent nofit flag i)
        | inr ((at, q), found) ↦
            weaken
              (λ rc t p. (
                p.0,
                Holds-Reused s start m h key text at q found absent fits clean filled t p.1,
                bounded p.1.idx_size p.1.dat_size,
              ))
              (store-Reused s key text
                (reusable s start m h key text at q found absent fits clean filled) flag i)
      ]

  store_over :
      (flag : Flag)
      → Replaces flag
      → (r : Row) → find_row key (h.rows slot) ≡ some r
      → Returns Added (store key text flag s)
  store_over flag i r found =
      let (first, c) = slot_chain s start m h key in
      let d = deletable s start m h key r found in
      let past = slot_past s key d.past d.slots in
      elim (Bool-cases (length text + 1 == r.entry.datlen)) [
        | inl e ↦
            let row = find_row-IsRow key s.idx s.dat first (h.rows slot) r c.chain found in
            let same : suc (length text) ≡ r.entry.datlen = ground (arith, e) in
            weaken
              (λ rc t p. (
                p.0,
                Holds-Rewritten s start m h key text r found same clean filled t p.1,
                bounded (ap length p.1.idx)
                    (ap length p.1.dat ∙ length-overwritten text r row (omega (arith, same))),
              ))
              (store-Rewritten s key text c r found same clean filled flag i)
        | inr e ↦
            let differs : length text + 1 ≢ r.entry.datlen = ground (arith, e) in
            let le =
              (removed-Chained key d.chain d.free past d.found d.separate d.cross
                d.fewer).first_le in
            weaken
              (λ rc t p. (
                p.0,
                Holds-Exchanged s start m h key text r found t p.1,
                longer (new_first key first (h.rows slot)) le p.1.idx_size p.1.dat_size,
              ))
              (store-Exchanged s key text d
                (Fits-ptr s key text (new_first key first (h.rows slot)) le fits) clean small filled
                differs flag i)
      ]

  refused :
      {code : Stored} {q : Run Stored}
      → Returns (λ rc t. (rc ≡ code) × Untouched s key t) q
      → Returns (λ rc t. (rc ≡ code) × Holds t start m × Bounded t) q
  refused = weaken (λ rc t p. (
    p.0,
    Holds-same t p.1.idx p.1.dat p.1.nhash p.1.hashoff h,
    bounded (ap length p.1.idx) (ap length p.1.dat),
  ))

  unknown :
      (n : ℕ)
      → Returns (λ rc t. (rc ≡ einval) × Holds t start m × Bounded t) (store key text (other n) s)
  unfolding store
  unknown n = returns (refl, h, bounded refl refl)

  pub store_within :
      (flag : Flag)
      → Returns
          (λ rc t.
            (rc ≡ (stored flag key text m).0)
            × Holds t start (stored flag key text m).1
            × Bounded t)
          (store key text flag s)
  store_within flag = elim (Option-cases (find_row key (h.rows slot))) [
    | inl absent ↦ missing flag absent (sym (h.agrees key) ∙ ap found_text absent)
    | inr (r, found) ↦ present flag r found (sym (h.agrees key) ∙ ap found_text found)
  ]
    where
      missing :
          (flag : Flag)
          → find_row key (h.rows slot) ≡ none
          → m key ≡ none
          → Returns
              (λ rc t.
                (rc ≡ (stored flag key text m).0)
                × Holds t start (stored flag key text m).1
                × Bounded t)
              (store key text flag s)
      missing db_insert absent e = rw e (store_new db_insert tt absent)
      missing db_store absent e = store_new db_store tt absent
      missing db_replace absent e =
          rw e (
            refused
              (store-enoent s key (key_chain h.is_db key).1 text filled fits.datlen_le absent))
      missing (other n) absent e = unknown n

      present :
          (flag : Flag) (r : Row)
          → find_row key (h.rows slot) ≡ some r
          → m key ≡ some r.text
          → Returns
              (λ rc t.
                (rc ≡ (stored flag key text m).0)
                × Holds t start (stored flag key text m).1
                × Bounded t)
              (store key text flag s)
      present db_insert r found e = rw e (
          refused (store-exists s key (key_chain h.is_db key).1 text filled fits.datlen_le r found))
      present db_store r found e = store_over db_store tt r found
      present db_replace r found e = rw e (store_over db_replace tt r found)
      present (other n) r found e = unknown n

  -- On a well-formed database with an index file of at most PTR_MAX bytes, and for data that are
  -- not empty and without a null byte, and a record of the key and the data that the format holds
  -- at the ends of the files, db_store does what its flag says for a map: with DB_INSERT it returns
  -- 1 where the database has the key, with DB_REPLACE it fails with ENOENT where it does not, with
  -- an unknown flag it fails with EINVAL, and the database is as before; in every other case it
  -- returns 0, and the database is well-formed, has the data for the key, and for every other key
  -- what it had.
  pub store-Holds :
      (flag : Flag)
      → Returns
          (λ rc t. (rc ≡ (stored flag key text m).0) × Holds t start (stored flag key text m).1)
          (store key text flag s)
  store-Holds flag = weaken (λ rc t p. (p.0, p.1)) (store_within flag)
