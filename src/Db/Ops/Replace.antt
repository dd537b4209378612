-- ===== src/Db/Ops/Replace.antt =====
-- `db_store` over a record with data of the same length: the data are overwritten in place.
pub mod Store
use my_file.Prelude.{
  ℕ, suc, ◌+◌, ◌≤◌, ◌<◌, ◌≡◌, ◌⊎◌, inl, inr, refl, ap, sym, true, Bool-cases, some, List, [], ◌∷◌,
  ◌++◌, arith, ◌==◌, le→ltb_false, if◌then◌else◌, length, length-append, bytes_eq,
}
use my_file.CLib.Files.{
  write_at, read_at-write_at, HasAt-within, HasAt-write_apart, length-write_at,
}
use my_file.CLib.Strings.Laws.{Lacks}
use my_file.Db.State.{Db, exclusive, Run, Returns, returns, and_then, pure, ◌>>◌}
use my_file.Db.Records.{newline}
use my_file.Db.Records.Write.{writedat-set}
use my_file.Db.Search.Chain.{
  Row, row_key, data_text, IsRow, Chain, find_row, walked, walked-SameStore, walked-IsCurrent,
  IsCurrent, find_row-IsRow,
}
use my_file.Db.Search.Frame.{Behind}
use my_file.Db.Ops.{
  unlock_chain, store, store_checked, store_found, replace_record, Flag, db_insert, db_replace,
  db_store, other, done, Stored,
}
use my_file.Db.Ops.Fetch.{HashChain, at_slot, find_and_lock-HashChain, found_text, fetch-find_row}
use my_file.Db.Ops.StoreFetch.{Answers, answer_of}

abbrev pub with_text : List ℕ → Row → Row
with_text text r = record { at = r.at; entry = r.entry; text = text }

-- the records, the first one of the key with other data
abbrev pub replaced : List ℕ → List ℕ → List Row → List Row
replaced key text [] = []
replaced key text (q ∷ rows) =
    if bytes_eq (row_key q) key then with_text text q ∷ rows else q ∷ replaced key text rows

-- The data of two records do not overlap.
abbrev pub Apart : Row → Row → Type 0
Apart r q =
    (q.entry.datoff + q.entry.datlen ≤ r.entry.datoff)
    ⊎ (r.entry.datoff + r.entry.datlen ≤ q.entry.datoff)

abbrev pub AllApart : Row → List Row → Type 0
AllApart r [] = Unit
AllApart r (q ∷ rows) = Apart r q × AllApart r rows

-- Those of a record and of each other one but the first of the key.
abbrev pub OthersApart : List ℕ → Row → List Row → Type 0
OthersApart key r [] = Unit
OthersApart key r (q ∷ rows) =
    if bytes_eq (row_key q) key then AllApart r rows else (Apart r q × OthersApart key r rows)

size_of_data :
    (r : Row) → r.entry.datlen ≡ suc (length r.text) → length (data_text r) ≡ r.entry.datlen
size_of_data r h = omega (arith, length-append r.text (newline ∷ []))

module _ (idx dat : List ℕ) (r : Row) (text : List ℕ) (row : IsRow idx dat r)
    (same : suc (length text) ≡ r.entry.datlen) (clean : Lacks 0 text) where
  abbrev overwritten : List ℕ
  overwritten = write_at dat r.entry.datoff (text ++ newline ∷ [])

  size : length (text ++ newline ∷ []) ≡ r.entry.datlen
  size = omega (arith, length-append text (newline ∷ []))

  inside : r.entry.datoff ≤ length dat
  inside =
      let s = size_of_data r row.datlen in
      let pos = row.fits.datlen_pos in
      omega (arith, HasAt-within dat r.entry.datoff (data_text r) row.in_dat (omega arith))

  bytes_beside :
      (q : Row)
      → IsRow idx dat q
      → Apart r q
      → (q.entry.datoff + length (data_text q) ≤ r.entry.datoff)
        ⊎ (r.entry.datoff + length (text ++ newline ∷ []) ≤ q.entry.datoff)
  bytes_beside q h (inl front) = inl (omega (arith, size_of_data q h.datlen))
  bytes_beside q h (inr back) = inr (omega (arith, size))

  beside-IsRow : (q : Row) → IsRow idx dat q → Apart r q → IsRow idx overwritten q
  beside-IsRow q h a = record {
    at_pos = h.at_pos;
    fits = h.fits;
    in_idx = h.in_idx;
    in_dat =
        HasAt-write_apart dat r.entry.datoff (text ++ newline ∷ []) q.entry.datoff (data_text q)
          h.in_dat inside (bytes_beside q h a);
    datlen = h.datlen;
    no_null = h.no_null;
  }

  overwritten-IsRow : IsRow idx overwritten (with_text text r)
  overwritten-IsRow = record {
    at_pos = row.at_pos;
    fits = row.fits;
    in_idx = row.in_idx;
    in_dat = read_at-write_at dat r.entry.datoff (text ++ newline ∷ []);
    datlen = sym same;
    no_null = clean;
  }

  pub beside-Chain :
      (off : ℕ) (rows : List Row)
      → Chain idx dat off rows
      → AllApart r rows
      → Chain idx overwritten off rows
  beside-Chain off [] c a = c
  beside-Chain off (q ∷ rows) c a =
      (c.0, beside-IsRow q c.1 a.0, beside-Chain q.entry.ptr rows c.2 a.1)

  pub replaced-Chain :
      (key : List ℕ) (off : ℕ) (rows : List Row)
      → Chain idx dat off rows
      → find_row key rows ≡ some r
      → OthersApart key r rows
      → Chain idx overwritten off (replaced key text rows)
  replaced-Chain key off [] c found a = c
  replaced-Chain key off (q ∷ rows) c found a = elim (Bool-cases (bytes_eq (row_key q) key)) [
    | inl hit ↦
        let e : q ≡ r = ground arith in
        let a' = rw hit at a in
        rw hit (c.0, (rw e overwritten-IsRow), beside-Chain q.entry.ptr rows c.2 a')
    | inr miss ↦
        let a' = rw miss at a in
        rw miss (
          c.0,
          beside-IsRow q c.1 a'.0,
          replaced-Chain key q.entry.ptr rows c.2 (rw miss at found) a'.1,
        )
  ]

pub find_row-replaced :
    (key text : List ℕ) (rows : List Row) (r : Row)
    → find_row key rows ≡ some r
    → found_text (find_row key (replaced key text rows)) ≡ some text
find_row-replaced key text [] r h = cc
find_row-replaced key text (q ∷ rows) r h = elim (Bool-cases (bytes_eq (row_key q) key)) [
  | inl hit ↦ rw (hit, hit) refl
  | inr miss ↦ rw (miss, miss) (find_row-replaced key text rows r (rw miss at h))
]

pub length-replaced :
    (key text : List ℕ) (rows : List Row) → length (replaced key text rows) ≡ length rows
length-replaced key text [] = refl
length-replaced key text (q ∷ rows) = elim (Bool-cases (bytes_eq (row_key q) key)) [
  | inl hit ↦ rw hit refl
  | inr miss ↦ rw miss (ap suc (length-replaced key text rows))
]

pub Behind-replaced :
    (key text : List ℕ) (start : ℕ) (rows : List Row)
    → Behind start rows
    → Behind start (replaced key text rows)
Behind-replaced key text start [] b = tt
Behind-replaced key text start (q ∷ rows) b = elim (Bool-cases (bytes_eq (row_key q) key)) [
  | inl hit ↦ rw hit b
  | inr miss ↦ rw miss (b.0, Behind-replaced key text start rows b.1)
]

-- The data file keeps its length.
pub length-overwritten :
    {idx dat : List ℕ} (text : List ℕ) (r : Row)
    → IsRow idx dat r
    → length text + 1 ≡ r.entry.datlen
    → length (write_at dat r.entry.datoff (text ++ newline ∷ [])) ≡ length dat
length-overwritten {dat = dat} text r row same =
    let pos = row.fits.datlen_pos in
    length-write_at dat r.entry.datoff (text ++ newline ∷ []) (
      omega (
        arith,
        length-append text (newline ∷ []),
        size_of_data r row.datlen,
        HasAt-within dat r.entry.datoff (data_text r) row.in_dat
            (omega (arith, size_of_data r row.datlen)),
      ))
