-- ===== src/Db/Records/Write.antt =====
-- The effects of `_db_writedat` and `_db_writeidx`.
use my_file.Prelude.{
  ℕ, ◌+◌, ◌≡◌, ◌≢◌, refl, ◌||◌, false, List, [], ◌∷◌, ◌++◌, ltb, le→ltb_false, length, pos,
}
use my_file.CLib.Files.{write_at, read_at-write_at}
use native.Mathlib.Nat.{add-zero}
use my_file.Db.State.{Db, exclusive, unlocked, relock, ok, Returns, returns, ◌>>◌}
use my_file.Db.Pointers.{ptr_max}
use my_file.Db.Records.{
  newline, records_start, readidx, writedat, writeidx, seek_set, seek_end, idxlen_min, idxlen_max,
}
use my_file.Db.Records.Parse.{Entry, Fits, body_text, entry_text, length_body_bounds, readidx-entry}

-- the state behind a write of a data record at `off`
abbrev pub with_data : Db → ℕ → List ℕ → Db
with_data s off text = record s {
  dat = write_at s.dat off (text ++ newline ∷ []);
  datpos = off + length (text ++ newline ∷ []);
  datoff = off;
  datlen = length text + 1;
}

-- the state behind the locks of an append to the data file, and to the index file
abbrev pub relocked_dat : Db → Db
relocked_dat s = record s { datlock = relock (relock s.datlock 0 0 exclusive) 0 0 unlocked }

abbrev pub relocked_idx : Db → Db
relocked_idx s = record s {
  idxlock = relock (relock s.idxlock (records_start s) 0 exclusive) (records_start s) 0 unlocked;
}

abbrev pub with_entry : Db → ℕ → Entry → Db
with_entry s off e = record s {
  idx = write_at s.idx off (entry_text e);
  idxpos = off + length (entry_text e);
  idxoff = off;
  idxbuf = body_text e;
  ptrval = pos e.ptr;
}

module _ (s : Db) (text : List ℕ) where
  pub writedat-set : (off : ℕ) → writedat text off seek_set s ≡ ok tt (with_data s off text)
  unfolding writedat
  writedat-set off = refl

  pub writedat-end :
      writedat text 0 seek_end s ≡ ok tt (relocked_dat (with_data s (length s.dat) text))
  unfolding writedat
  writedat-end = rw add-zero

-- the entry that `_db_writeidx` writes
abbrev pub entry_of : Db → List ℕ → ℕ → Entry
entry_of s key ptr = record { ptr = ptr; key = key; datoff = s.datoff; datlen = s.datlen }

module _ (s : Db) (key : List ℕ) (ptr : ℕ) (h : Fits (entry_of s key ptr)) where
  in_bounds :
      (ltb (length (body_text (entry_of s key ptr))) idxlen_min
        || ltb idxlen_max (length (body_text (entry_of s key ptr))))
      ≡ false
  in_bounds = rw (
    le→ltb_false (length (body_text (entry_of s key ptr))) idxlen_min
        (length_body_bounds (entry_of s key ptr) h).0,
    le→ltb_false idxlen_max (length (body_text (entry_of s key ptr))) h.length_le,
  )

  pub writeidx-set :
      (off : ℕ)
      → writeidx key off seek_set (pos ptr) s ≡ ok tt (with_entry s off (entry_of s key ptr))
  unfolding writeidx
  writeidx-set off = rw (le→ltb_false ptr_max ptr h.ptr_le, in_bounds)

  pub writeidx-end :
      writeidx key 0 seek_end (pos ptr) s
      ≡ ok tt (relocked_idx (with_entry s (length s.idx) (entry_of s key ptr)))
  unfolding writeidx
  writeidx-end = rw (le→ltb_false ptr_max ptr h.ptr_le, in_bounds, add-zero)

  -- An index record that the format holds, written at an offset that is not 0 and read again there,
  -- has its pointer, its key, and the place of its data.
  pub readidx-writeidx :
      (off : ℕ)
      → off ≢ 0
      → Returns
          (λ ptr' t.
            (ptr' ≡ pos ptr)
            × (t.idxbuf ≡ key)
            × (t.datoff ≡ s.datoff)
            × (t.datlen ≡ s.datlen)
            × (t.idxoff ≡ off))
          ((writeidx key off seek_set (pos ptr) >> readidx (pos off)) s)
  readidx-writeidx off ne =
      let e = entry_of s key ptr in
      rw
        (
          writeidx-set off,
          readidx-entry e h (with_entry s off e) off ne (read_at-write_at s.idx off (entry_text e)),
        )
        (returns (refl, refl, refl, refl, refl))
