-- ===== src/Db/Pointers.antt =====
-- `_db_readptr` and `_db_writeptr`: chain pointers of six characters in the index file.
pub mod RoundTrip
use my_file.Prelude.{ℕ, ◌==◌, ltb, if◌then◌else◌, List, length, ℤ, pos, negsuc}
use my_file.CLib.Numbers.{dec, pad, atol}
use my_file.Db.State.{
  readptr_read, writeptr_ptr, M, ◌>>=◌, ◌>>◌, pure, stop, seek_idx, read_idx, write_idx,
}

abbrev pub ptr_sz : ℕ
ptr_sz = 6

abbrev pub ptr_max : ℕ
ptr_max = 999999

unfoldable pub readptr : ℕ → M ℤ
readptr offset = do
  seek_idx offset
  got ← read_idx ptr_sz
  if length got == ptr_sz then pure (atol got) else stop readptr_read

-- the text of a pointer
abbrev pub ptr_text : ℕ → List ℕ
ptr_text n = pad ptr_sz (dec n)

unfoldable pub writeptr : ℕ → ℤ → M (Unit {0})
writeptr offset (negsuc n) = stop writeptr_ptr
writeptr offset (pos n) =
    if ltb ptr_max n then stop writeptr_ptr else do seek_idx offset; write_idx (ptr_text n)
