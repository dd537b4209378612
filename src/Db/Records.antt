-- ===== src/Db/Records.antt =====
-- `_db_readidx`, `_db_readdat`, `_db_writedat` and `_db_writeidx`: the records of the two files.
pub mod Parse
pub mod Data
pub mod Write
use my_file.Prelude.{
  ℕ, ◌+◌, ◌*◌, ◌&&◌, ◌||◌, Option, none, some, List, [], ◌∷◌, ◌++◌, ltb, ◌==◌, if◌then◌else◌,
  length, take, drop, ℤ, pos, negsuc,
}
use my_file.CLib.Numbers.{dec, pad, atol}
use my_file.CLib.Strings.{cstr, cut_at, last_or, init}
use my_file.Db.State.{
  Db, Fault, ok, exclusive, unlocked, readidx_lseek, readidx_readv, readidx_length, readidx_read,
  readidx_newline, first_separator, second_separator, too_many_separators, negative_offset,
  invalid_datlen, readdat_read, readdat_newline, writeidx_ptr, writeidx_length, M, ◌>>=◌, ◌>>◌,
  pure, stop, gets, modify, lock_idx, lock_dat, seek_dat, read_idx, read_dat, write_idx, write_dat,
}
use my_file.Db.Pointers.{ptr_sz, ptr_max}

abbrev pub idxlen_sz : ℕ
idxlen_sz = 4

abbrev pub idxlen_min : ℕ
idxlen_min = 6

abbrev pub idxlen_max : ℕ
idxlen_max = 1024

abbrev pub datlen_max : ℕ
datlen_max = 1024

abbrev pub sep : ℕ
sep = b':'

abbrev pub newline : ℕ
newline = 10

abbrev pub space : ℕ
space = 32

-- the length field, stored in an unsigned variable: a negative number is out of range
unfoldable pub length_field : ℤ → ℕ → ℕ → Option ℕ
length_field (negsuc n) lo hi = none
length_field (pos n) lo hi = if ltb n lo || ltb hi n then none else some n

unfoldable pub offset_field : ℤ → Option ℕ
offset_field (negsuc n) = none
offset_field (pos n) = some n

abbrev pub or_stop : {A : Type 0} → Fault → Option A → M A
or_stop e none = stop e
or_stop e (some a) = pure a

-- "Get the starting offset and length of the data record", behind the two separators
unfoldable pub set_data_fields : List ℕ → List ℕ → List ℕ → M ℤ
unfolding length_field offset_field
set_data_fields key p1 p2 = do
  off ← or_stop negative_offset (offset_field (atol p1))
  len ← or_stop invalid_datlen (length_field (atol p2) 1 datlen_max)
  modify λ s. record s { idxbuf = key; datoff = off; datlen = len }
  gets λ s. s.ptrval

abbrev pub third_field : Option (List ℕ × List ℕ) → M ℤ → M ℤ
third_field none m = m
third_field (some _) m = stop too_many_separators

-- "Find the separators in the index record"
unfoldable pub split_record : List ℕ → M ℤ
unfolding set_data_fields
split_record text = do
  (key, rest) ← or_stop first_separator (cut_at sep text)
  (p1, p2) ← or_stop second_separator (cut_at sep rest)
  third_field (cut_at sep p2) (set_data_fields key p1 p2)

-- "Now read the actual index record"
unfoldable pub read_body : ℕ → M ℤ
unfolding split_record
read_body len = do
  raw ← read_idx len
  if length raw == len
      then if last_or 0 raw == newline then split_record (cstr (init raw)) else stop readidx_newline
      else stop readidx_read

-- the ascii chain pointer and length in front of a record
unfoldable pub read_head : List ℕ → M ℤ
unfolding read_body length_field
read_head got = do
  modify λ s. record s { ptrval = atol (take ptr_sz got) }
  len ← or_stop readidx_length (length_field (atol (drop ptr_sz got)) idxlen_min idxlen_max)
  modify λ s. record s { idxlen = len }
  read_body len

-- At offset 0 the read goes on from the current offset, and -1 is its end of file.
unfoldable pub readidx : ℤ → M ℤ
unfolding read_head
readidx (negsuc n) = stop readidx_lseek
readidx (pos offset) = do
  off ← gets λ s. if offset == 0 then s.idxpos else offset
  modify λ s. record s { idxoff = off; idxpos = off }
  got ← read_idx (ptr_sz + idxlen_sz)
  if length got == ptr_sz + idxlen_sz
      then read_head got
      else if (length got == 0) && (offset == 0)
      then pure (negsuc 0)
      else stop readidx_readv

abbrev keep_data : List ℕ → M (List ℕ)
keep_data text s = ok text (record s { datbuf = text })

unfoldable pub readdat : M (List ℕ)
readdat = do
  off ← gets λ s. s.datoff
  seek_dat off
  len ← gets λ s. s.datlen
  raw ← read_dat len
  if length raw == len
      then if last_or 0 raw == newline then keep_data (cstr (init raw)) else stop readdat_newline
      else stop readdat_read

-- SEEK_SET and SEEK_END
pub data Whence : Type 0 where
  seek_set seek_end : Whence

abbrev pub when_appending : Whence → M (Unit {0}) → M (Unit {0})
when_appending seek_set m = pure tt
when_appending seek_end m = m

-- where `lseek` puts the offset in a file of `size` bytes
abbrev pub position : Whence → ℕ → ℕ → ℕ
position seek_set size offset = offset
position seek_end size offset = size + offset

unfoldable pub writedat : List ℕ → ℕ → Whence → M (Unit {0})
writedat text offset whence = do
  when_appending whence (lock_dat 0 0 exclusive)
  off ← gets λ s. position whence (length s.dat) offset
  modify λ s. record s { datoff = off; datpos = off; datlen = length text + 1 }
  write_dat (text ++ newline ∷ [])
  when_appending whence (lock_dat 0 0 unlocked)

-- what `sprintf` puts in the buffer: the key, the offset and the length of the data record
abbrev pub record_text : List ℕ → ℕ → ℕ → List ℕ
record_text key off len = key ++ (sep ∷ (dec off ++ (sep ∷ (dec len ++ newline ∷ []))))

-- the pointer and the length in front of it
abbrev pub head_text : ℕ → ℕ → List ℕ
head_text ptr len = pad ptr_sz (dec ptr) ++ pad idxlen_sz (dec len)

-- the start of the index records, behind the newline of the hash table
abbrev pub records_start : Db → ℕ
records_start s = (s.nhash + 1) * ptr_sz + 1

unfoldable pub put_record : ℕ → ℕ → Whence → M (Unit {0})
put_record ptr offset whence = do
  text ← gets λ s. s.idxbuf
  start ← gets λ s. records_start s
  when_appending whence (lock_idx start 0 exclusive)
  off ← gets λ s. position whence (length s.idx) offset
  modify λ s. record s { idxoff = off; idxpos = off }
  write_idx (head_text ptr (length text) ++ text)
  when_appending whence (lock_idx start 0 unlocked)

unfoldable pub writeidx : List ℕ → ℕ → Whence → ℤ → M (Unit {0})
unfolding put_record
writeidx key offset whence (negsuc n) = stop writeidx_ptr
writeidx key offset whence (pos ptr) = if ltb ptr_max ptr then stop writeidx_ptr else do
  text ← gets λ s. record_text key s.datoff s.datlen
  modify λ s. record s { ptrval = pos ptr; idxbuf = text }
  if ltb (length text) idxlen_min || ltb idxlen_max (length text)
      then stop writeidx_length
      else put_record ptr offset whence
