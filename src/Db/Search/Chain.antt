-- ===== src/Db/Search/Chain.antt =====
-- Linked records as a list, and the walk of `_db_find_and_lock` along them.
use my_file.Prelude.{
  ℕ, zero, suc, ◌<◌, ◌≡◌, ◌≢◌, inl, inr, refl, sym, Bool, true, false, Option, none, some, List, [],
  ◌∷◌, ◌++◌, arith, if◌then◌else◌, Bool-cases, length, bytes_eq, pos,
}
use my_file.CLib.Files.{HasAt}
use my_file.CLib.Strings.Laws.{Lacks}
use my_file.Db.State.{Db, ok}
use my_file.Db.Records.{newline, readidx}
use my_file.Db.Records.Parse.{Entry, Fits, entry_text, loaded, readidx-entry}
use my_file.Db.Search.{find_loop}

-- a record of the two files: where it stands in the index, what it says, and its data
pub record Row : Type 0 where
  pub at : ℕ
  pub entry : Entry
  pub text : List ℕ

abbrev pub row_key : Row → List ℕ
row_key r = r.entry.key

abbrev pub data_text : Row → List ℕ
data_text r = r.text ++ newline ∷ []

pub record IsRow (idx dat : List ℕ) (r : Row) : Type 0 where
  pub at_pos : r.at ≢ 0
  pub fits : Fits r.entry
  pub in_idx : HasAt idx r.at (entry_text r.entry)
  pub in_dat : HasAt dat r.entry.datoff (data_text r)
  pub datlen : r.entry.datlen ≡ suc (length r.text)
  pub no_null : Lacks 0 r.text

-- From the offset `off` the pointers lead through the records `rows` to 0.
abbrev pub Chain : List ℕ → List ℕ → ℕ → List Row → Type 0
Chain idx dat off [] = off ≡ 0
Chain idx dat off (r ∷ rows) = (off ≡ r.at) × IsRow idx dat r × Chain idx dat r.entry.ptr rows

-- the first record with the key
abbrev pub find_row : List ℕ → List Row → Option Row
find_row key [] = none
find_row key (r ∷ rows) = if bytes_eq (row_key r) key then some r else find_row key rows

abbrev pub is_some : Option Row → Bool
is_some none = false
is_some (some _) = true

-- the state behind the walk: `ptroff` is the last record that was passed
abbrev pub walked : Db → List Row → List ℕ → Db
walked s [] key = s
walked s (r ∷ rows) key =
    if bytes_eq (row_key r) key
    then loaded s r.at r.entry
    else walked (record (loaded s r.at r.entry) { ptroff = r.at }) rows key

module _ (key : List ℕ) where
  -- The loop of _db_find_and_lock, on a chain of fewer records than it has fuel, ends with the
  -- first record of the key or says that there is none.
  pub find_loop-Chain :
      (fuel off : ℕ) (s : Db) (rows : List Row)
      → Chain s.idx s.dat off rows
      → length rows < fuel
      → find_loop fuel key (pos off) s ≡ ok (is_some (find_row key rows)) (walked s rows key)
  unfolding find_loop
  find_loop-Chain zero off s rows c h = absurd (omega arith)
  find_loop-Chain (suc fuel) off s [] c h = rw c
  find_loop-Chain (suc fuel) zero s (r ∷ rows) c h = absurd (c.1.at_pos (sym c.0))
  find_loop-Chain (suc fuel) (suc n) s (r ∷ rows) c h =
      let row = c.1 in
      let step : readidx (pos (suc n)) s ≡ ok (pos r.entry.ptr) (loaded s r.at r.entry) =
        rw c.0 (readidx-entry r.entry row.fits s r.at row.at_pos row.in_idx) in
      rw step (elim (Bool-cases (bytes_eq (row_key r) key)) [
        | inl hit ↦ rw hit
        | inr miss ↦ rw (miss, c.0) (find_loop-Chain fuel r.entry.ptr _ rows c.2 (omega arith))
      ])

-- The files, the locks and the places of the hash table are those of before.
pub record SameStore (s t : Db) : Type 0 where
  pub idx : t.idx ≡ s.idx
  pub dat : t.dat ≡ s.dat
  pub idxlock : t.idxlock ≡ s.idxlock
  pub datlock : t.datlock ≡ s.datlock
  pub chainoff : t.chainoff ≡ s.chainoff
  pub hashoff : t.hashoff ≡ s.hashoff
  pub nhash : t.nhash ≡ s.nhash

-- The same but for the locks.
pub record SameFiles (s t : Db) : Type 0 where
  pub idx : t.idx ≡ s.idx
  pub dat : t.dat ≡ s.dat
  pub chainoff : t.chainoff ≡ s.chainoff
  pub hashoff : t.hashoff ≡ s.hashoff
  pub nhash : t.nhash ≡ s.nhash

pub walked-SameStore : (s : Db) (rows : List Row) (key : List ℕ) → SameStore s (walked s rows key)
walked-SameStore s [] key = record {
  idx = refl;
  dat = refl;
  idxlock = refl;
  datlock = refl;
  chainoff = refl;
  hashoff = refl;
  nhash = refl;
}
walked-SameStore s (r ∷ rows) key = elim (Bool-cases (bytes_eq (row_key r) key)) [
  | inl hit ↦ rw hit (record {
    idx = refl;
    dat = refl;
    idxlock = refl;
    datlock = refl;
    chainoff = refl;
    hashoff = refl;
    nhash = refl;
  })
  | inr miss ↦ rw miss (
      let w = walked-SameStore (record (loaded s r.at r.entry) { ptroff = r.at }) rows key in
      record {
        idx = w.idx;
        dat = w.dat;
        idxlock = w.idxlock;
        datlock = w.datlock;
        chainoff = w.chainoff;
        hashoff = w.hashoff;
        nhash = w.nhash;
      })
]

-- The structure describes this record.
pub record IsCurrent (t : Db) (r : Row) : Type 0 where
  pub idxoff : t.idxoff ≡ r.at
  pub idxbuf : t.idxbuf ≡ r.entry.key
  pub datoff : t.datoff ≡ r.entry.datoff
  pub datlen : t.datlen ≡ r.entry.datlen
  pub ptrval : t.ptrval ≡ pos r.entry.ptr

module _ (key : List ℕ) where
  pub walked-IsCurrent :
      (s : Db) (rows : List Row) (r : Row)
      → find_row key rows ≡ some r
      → IsCurrent (walked s rows key) r
  walked-IsCurrent s [] r h = cc
  walked-IsCurrent s (q ∷ rows) r h = elim (Bool-cases (bytes_eq (row_key q) key)) [
    | inl hit ↦
        let same : q ≡ r = ground arith in
        rw (hit, same)
          (record { idxoff = refl; idxbuf = refl; datoff = refl; datlen = refl; ptrval = refl })
    | inr miss ↦
        rw miss (
          walked-IsCurrent (record (loaded s q.at q.entry) { ptroff = q.at }) rows r (rw miss at h))
  ]

  -- The record that is found is one of the chain.
  pub find_row-IsRow :
      (idx dat : List ℕ) (off : ℕ) (rows : List Row) (r : Row)
      → Chain idx dat off rows
      → find_row key rows ≡ some r
      → IsRow idx dat r
  find_row-IsRow idx dat off [] r c h = cc
  find_row-IsRow idx dat off (q ∷ rows) r c h = elim (Bool-cases (bytes_eq (row_key q) key)) [
    | inl hit ↦ let same : q ≡ r = ground arith in rw (← same) c.1
    | inr miss ↦ find_row-IsRow idx dat q.entry.ptr rows r c.2 (rw miss at h)
  ]
