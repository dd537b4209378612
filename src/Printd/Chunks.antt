-- ===== src/Printd/Chunks.antt =====
-- The reads of a loop that copies, each with what becomes of its write: `client_thread` and
-- `printer_thread`.
use my_file.Prelude.{ℕ, Bool, true, false, List, [], ◌∷◌, ◌++◌}

-- what `write` does with the bytes: all are written, an error, or too few
pub data Wrote : Type 0 where
  wrote_all : Wrote
  write_error : ℕ → Wrote
  wrote_less : Wrote

-- The bytes of the reads.
abbrev pub documents : List (List ℕ × Wrote) → List ℕ
documents [] = []
documents ((chunk, w) ∷ reads) = chunk ++ documents reads

-- Each write writes all its bytes.
abbrev pub all_written : List (List ℕ × Wrote) → Bool
all_written [] = true
all_written ((chunk, wrote_all) ∷ reads) = all_written reads
all_written ((chunk, write_error errno) ∷ reads) = false
all_written ((chunk, wrote_less) ∷ reads) = false
