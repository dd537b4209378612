-- ===== src/Db/Pointers/RoundTrip.antt =====
-- Chain pointers of `_db_writeptr` as `_db_readptr` sees them, and the bytes beside them.
use my_file.Prelude.{
  ℕ, ◌+◌, ◌≤◌, ◌≡◌, ◌⊎◌, inl, inr, ap, ◌∙◌, List, arith, le→ltb_false, length, ℤ, pos,
}
use my_file.CLib.Numbers.{atol}
use my_file.CLib.Numbers.RoundTrip.{atol-pad, length-pad}
use my_file.CLib.Files.{
  read_at, write_at, read_at-write_at, read_at-before, read_at-after, length-read_at,
}
use my_file.Db.State.{Db, ok, ◌>>◌}
use my_file.Db.Pointers.{ptr_sz, ptr_max, ptr_text, readptr, writeptr}

-- the pointer that the index file holds at an offset
abbrev pub ptr_at : List ℕ → ℕ → ℤ
ptr_at idx off = atol (read_at idx off ptr_sz)

-- the state behind a read and behind a write of a pointer
abbrev pub after_ptr : Db → ℕ → Db
after_ptr s off = record s { idxpos = off + ptr_sz }

abbrev pub with_ptr : Db → ℕ → ℕ → Db
with_ptr s off n = record s { idx = write_at s.idx off (ptr_text n); idxpos = off + ptr_sz }

pub length-ptr_text : (n : ℕ) → n ≤ ptr_max → length (ptr_text n) ≡ ptr_sz
length-ptr_text n h = length-pad 5 n (omega arith)

pub readptr-inside :
    (s : Db) (off : ℕ)
    → off + ptr_sz ≤ length s.idx
    → readptr off s ≡ ok (ptr_at s.idx off) (after_ptr s off)
unfolding readptr
readptr-inside s off h = rw (length-read_at s.idx off ptr_sz h)

pub writeptr-in_range :
    (s : Db) (off n : ℕ) → n ≤ ptr_max → writeptr off (pos n) s ≡ ok tt (with_ptr s off n)
unfolding writeptr
writeptr-in_range s off n h = rw (le→ltb_false ptr_max n h, length-ptr_text n h)

-- The written pointer.
pub ptr_at-write_at_self :
    (idx : List ℕ) (off n : ℕ) → n ≤ ptr_max → ptr_at (write_at idx off (ptr_text n)) off ≡ pos n
ptr_at-write_at_self idx off n h =
    let e : read_at (write_at idx off (ptr_text n)) off ptr_sz ≡ ptr_text n =
      rw (length-ptr_text n h) at (read_at-write_at idx off (ptr_text n)) in
    ap atol e ∙ atol-pad ptr_sz n

-- The bytes apart from a written pointer.
pub read_at-write_at_ptr :
    (idx : List ℕ) (off n at k : ℕ)
    → n ≤ ptr_max
    → off + ptr_sz ≤ length idx
    → (at + k ≤ off) ⊎ (off + ptr_sz ≤ at)
    → read_at (write_at idx off (ptr_text n)) at k ≡ read_at idx at k
read_at-write_at_ptr idx off n at k h inside (inl before) =
    read_at-before idx off (ptr_text n) at k before (omega arith)
read_at-write_at_ptr idx off n at k h inside (inr behind) =
    read_at-after idx off (ptr_text n) at k (omega (arith, length-ptr_text n h))

-- A chain pointer of at most six digits that is written is the one that is then read.
pub readptr-writeptr :
    (s : Db) (off n : ℕ)
    → n ≤ ptr_max
    → (writeptr off (pos n) >> readptr off) s ≡ ok (pos n) (with_ptr s off n)
unfolding readptr
readptr-writeptr s off n h =
    let got : read_at (write_at s.idx off (ptr_text n)) off ptr_sz ≡ ptr_text n =
      rw (length-ptr_text n h) at (read_at-write_at s.idx off (ptr_text n)) in
    rw (writeptr-in_range s off n h, got, length-ptr_text n h, atol-pad ptr_sz n)
