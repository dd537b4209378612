-- ===== src/Io/Main.antt =====
-- `main` of io.c as a whole, and the access that it ends with.
pub mod Runs
pub mod Inside
use my_file.Prelude.{
  ℕ, ◌/◌, ◌+◌, Bool, true, false, not, ◌&&◌, ◌||◌, Option, none, some, List, ◌==◌, if◌then◌else◌,
  length, ltb,
}
use my_file.CLib.Files.{read_at, write_at}
use my_file.Io.Options.{
  Opt, Args, Request, Result, ok, exit, ◌>>=◌, ◌>>◌, exit_if, default_args, options, arguments,
  has_file, usage, mem_open, mmap_failed, aborted, write_failed, short_write, read_failed,
  short_read, outside_mapping,
}
use my_file.Io.Plan.{FileCalls, Plan, open_file, plan}
use my_file.Io.Access.{Line, memread_memory, write_memory as store_values}

-- What the system answers: the calls on the file, whether /dev/mem opens, the bytes that `mmap` of
-- an address and a length shows, the answer typed, the result of `write`, and what `read` gives.
pub record System : Type 0 where
  pub file : FileCalls
  pub mem_ok : Bool
  pub map : ℕ → ℕ → Option (List ℕ)
  pub answer : Option ℕ
  pub wrote : Option ℕ
  pub input : Option (List ℕ)

-- what a run leaves: lines printed, the mapping with bytes stored in it, or bytes in the file
pub data Outcome : Type 0 where
  shown : List Line → Outcome
  stored saved : List ℕ → Outcome

-- the answer begins with 'y' or 'Y'
abbrev pub is_yes : Option ℕ → Bool
is_yes none = false
is_yes (some c) = (c == 121) || (c == 89)

abbrev pub mapped : Option (List ℕ) → Result (List ℕ)
mapped none = exit mmap_failed
mapped (some mem) = ok mem

-- An access of a region by the kernel or by the program: the region is to lie in the mapping.
abbrev pub in_mapping : ℕ → ℕ → List ℕ → Result Outcome → Result Outcome
in_mapping offset len mem r = if ltb (length mem) (offset + len) then exit outside_mapping else r

-- the region goes to the file
abbrev pub save : Option ℕ → ℕ → ℕ → List ℕ → Result Outcome
save none offset len mem = in_mapping offset len mem (exit write_failed)
save (some n) offset len mem =
    in_mapping offset len mem
      (if n == len then ok (saved (read_at mem offset n)) else exit short_write)

-- the file goes to the region
abbrev pub load : Option (List ℕ) → ℕ → ℕ → List ℕ → Result Outcome
load none offset len mem = in_mapping offset len mem (exit read_failed)
load (some bs) offset len mem =
    in_mapping offset len mem
      (if length bs == len then ok (stored (write_at mem offset bs)) else exit short_read)

abbrev pub show_lines : Option (List Line) → Result Outcome
show_lines none = exit outside_mapping
show_lines (some lines) = ok (shown lines)

abbrev pub store_all : Option (List ℕ) → Result Outcome
store_all none = exit outside_mapping
store_all (some mem) = ok (stored mem)

unfoldable pub access : ℕ → System → Request → ℕ → ℕ → List ℕ → Result Outcome
access w s r offset len mem =
    if has_file r.args && r.args.memread
    then save s.wrote offset len mem
    else (if has_file r.args
        then load s.input offset len mem
        else (if r.args.memread
            then show_lines (memread_memory (w / 8) r.args.iosize r.req_addr offset len mem)
            else store_all (store_values (w / 8) r.args.iosize r.req_value offset len mem)))

-- the mapping, the confirmation and the access
unfoldable pub with_plan : ℕ → System → Request → ℕ → Plan → Result Outcome
with_plan w s r len p = do
  exit_if (not s.mem_ok) mem_open
  mem ← mapped (s.map p.real_addr p.real_len)
  exit_if (r.args.verbose && not (is_yes s.answer)) aborted
  access w s r p.offset len mem

-- from the arguments read to the end
unfoldable pub perform : ℕ → System → Request → Result Outcome
perform w s r = do
  len ← open_file s.file r.args
  p ← plan w r.args.iosize r.req_addr len
  with_plan w s r len p

unfoldable pub main : ℕ → System → ℕ → List Opt → List (List ℕ) → Result Outcome
main w s argc opts args = do
  exit_if (argc == 1) usage
  a ← options w opts default_args
  r ← arguments w a args
  perform w s r
