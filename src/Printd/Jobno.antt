-- ===== src/Printd/Jobno.antt =====
-- The job counter and its file: `init_request`, `update_jobno` and `get_newjobno`.
pub mod Restart
use my_file.Prelude.{
  ℕ, ◌+◌, ◌-◌, ◌^◌, Bool, true, false, Option, none, some, List, [], ◌∷◌, ◌++◌, ltb, if◌then◌else◌,
  take, ◌==◌, length, ℤ, pos, negsuc,
}
use my_file.CLib.Numbers.{dec, atol}
use my_file.CLib.Strings.{cstr}
use my_file.CLib.Files.{overlay, write_at}
use my_file.Printd.Heap.{Run, ok, exited}

abbrev pub long_max : ℕ
long_max = 2 ^ 63 - 1

-- `nextjob++` on a 64-bit `long` that wraps, and the number that was there
unfoldable pub increment : ℤ → ℤ
increment (negsuc n) = if ltb n 1 then pos 0 else negsuc (n - 1)
increment (pos n) = if ltb n long_max then pos (n + 1) else negsuc long_max

unfoldable pub at_least_one : ℤ → ℤ
at_least_one (negsuc n) = pos 1
at_least_one (pos n) = if ltb 0 n then pos n else pos 1

-- the job number, and the next one
unfoldable pub get_newjobno : ℤ → ℤ × ℤ
unfolding increment at_least_one
get_newjobno nextjob = (nextjob, at_least_one (increment nextjob))

abbrev pub spooldir : List ℕ
spooldir =
    b'/' ∷ b'v' ∷ b'a' ∷ b'r' ∷ b'/' ∷ b's' ∷ b'p' ∷ b'o' ∷ b'o' ∷ b'l' ∷ b'/' ∷ b'p' ∷ b'r' ∷ b'i'
    ∷ b'n' ∷ b't' ∷ b'e' ∷ b'r' ∷ []

abbrev pub jobfile : List ℕ
jobfile = b'j' ∷ b'o' ∷ b'b' ∷ b'n' ∷ b'o' ∷ []

abbrev pub filenmsz : ℕ
filenmsz = 64

-- `%ld`
unfoldable pub print_long : ℤ → List ℕ
print_long (pos n) = dec n
print_long (negsuc n) = b'-' ∷ dec (n + 1)

-- The buffer `name` holds the path of the file, a null byte and what was on the stack; the counter
-- is read over it.
abbrev pub counter_buffer : List ℕ → List ℕ → List ℕ
counter_buffer stack got = overlay got (spooldir ++ (b'/' ∷ (jobfile ++ (0 ∷ stack))))

abbrev first_job : List ℕ → List ℕ → Run ℤ
first_job stack [] = ok (pos 1)
first_job stack (c ∷ cs) = ok (atol (cstr (counter_buffer stack (c ∷ cs))))

-- `nextjob`: whether the record lock was granted, and the bytes of the file unless the read fails
unfoldable pub init_request : Bool → Option (List ℕ) → List ℕ → Run ℤ
init_request false file stack = exited
init_request true none stack = exited
init_request true (some file) stack = first_job stack (take filenmsz file)

-- the file behind the write; a failed write ends the process
unfoldable pub update_jobno : Bool → ℤ → List ℕ → Run (List ℕ)
unfolding print_long
update_jobno true nextjob file = ok (write_at file 0 (print_long nextjob))
update_jobno false nextjob file = exited
