-- ===== src/Io/Plan.antt =====
-- `main` of io.c between the arguments and the mapping: the length, the alignment and the pages.
pub mod Cover
use my_file.Prelude.{
  ℕ, ◌+◌, ◌-◌, ◌%◌, ◌^◌, Bool, not, ◌&&◌, ◌||◌, Option, none, some, ltb, ◌==◌, if◌then◌else◌,
}
use my_file.Io.Options.{
  Args, Request, Result, ok, exit, ◌>>=◌, ◌>>◌, exit_if, has_file, dest_open, src_open, seek_failed,
  addr_alignment, size_alignment, top_page, above_top,
}

-- What the system answers: whether `open` of the file succeeds for writing and for reading, where
-- `lseek` finds its end, and whether it goes back to the start.
pub record FileCalls : Type 0 where
  pub dest_ok : Bool
  pub src_ok : Bool
  pub end : Option ℕ
  pub rewound : Bool

-- the end of the file as an int, none if the call fails or the int is negative
abbrev pub end_as_int : Option ℕ → Option ℕ
end_as_int none = none
end_as_int (some n) = if ltb (n % 2 ^ 32) (2 ^ 31) then some (n % 2 ^ 32) else none

unfoldable pub file_length : FileCalls → Result ℕ
file_length f = elim (end_as_int f.end) [
  | none ↦ exit seek_failed
  | some n ↦ if f.rewound then ok n else exit seek_failed
]

-- the file is opened, and its length is the one that was not given
unfoldable pub open_file : FileCalls → Args → Result ℕ
unfolding file_length
open_file f a = do
  exit_if (has_file a && (a.memread && not f.dest_ok)) dest_open
  exit_if (has_file a && (not a.memread && not f.src_ok)) src_open
  n ← (if has_file a && (a.req_len == 0) then file_length f else ok a.req_len)
  ok (if n == 0 then a.iosize else n)

-- the int `n` as an unsigned long
unfoldable pub sign_extend : ℕ → ℕ → ℕ
sign_extend w n = if ltb n (2 ^ 31) then n else 2 ^ w - 2 ^ 32 + n

-- the low bits that an access of this size may not have
abbrev pub misaligned : ℕ → ℕ → Bool
misaligned iosize n = ((iosize == 2) && not (n % 2 == 0)) || ((iosize == 4) && not (n % 4 == 0))

-- the arguments of `mmap`, and the offset of the access in the mapping
pub record Plan : Type 0 where
  pub real_addr : ℕ
  pub offset : ℕ
  pub real_len : ℕ

-- `n & ~4095`
abbrev pub page_of : ℕ → ℕ
page_of n = n - n % 4096

abbrev pub mapped_length : ℕ → ℕ → ℕ → ℕ
mapped_length w len offset = page_of (((sign_extend w len + offset) % 2 ^ w + 4095) % 2 ^ w)

unfoldable pub plan : ℕ → ℕ → ℕ → ℕ → Result Plan
plan w iosize req_addr req_len = do
  exit_if (misaligned iosize req_addr) addr_alignment
  exit_if (misaligned iosize req_len) size_alignment
  exit_if (page_of req_addr == 0xfffff000) top_page
  let real_addr = page_of req_addr
  let offset = req_addr - real_addr
  let real_len = mapped_length w req_len offset
  exit_if (ltb ((real_addr + real_len) % 2 ^ w) real_addr) above_top
  ok (record { real_addr = real_addr; offset = offset; real_len = real_len })
