-- ===== src/Io/Access.antt =====
-- `memread_memory` and `write_memory` of io.c on the mapped bytes, which are little-endian. An
-- unsigned long has `long` bytes, and it is what an access of size 4 goes by.
pub mod Fill
pub mod Dump
use my_file.Prelude.{
  ℕ, zero, suc, ◌+◌, ◌-◌, ◌*◌, ◌/◌, ◌%◌, ◌^◌, Bool, true, false, not, ◌&&◌, ◌||◌, Option, none,
  some, List, [], ◌∷◌, ltb, leb, ◌==◌, if◌then◌else◌, length,
}
use my_file.CLib.Files.{read_at, write_at}

-- the bytes of a number, lowest first, and the number of such bytes
unfoldable pub bytes_of : ℕ → ℕ → List ℕ
bytes_of zero value = []
bytes_of (suc n) value = value % 256 ∷ bytes_of n (value / 256)

unfoldable pub value_of : List ℕ → ℕ
value_of [] = 0
value_of (b ∷ bs) = b + 256 * value_of bs

-- how many bytes an access moves
abbrev pub access_width : ℕ → ℕ → ℕ
access_width long iosize = if iosize == 4 then long else iosize

abbrev pub is_size : ℕ → Bool
is_size iosize = (iosize == 1) || ((iosize == 2) || (iosize == 4))

-- `len -= iosize` on the bit pattern of an int
abbrev pub less : ℕ → ℕ → ℕ
less len iosize = (len + 2 ^ 32 - iosize) % 2 ^ 32

-- None where a store leaves the mapping, or the fuel runs out.
unfoldable pub write_loop : ℕ → ℕ → ℕ → ℕ → ℕ → ℕ → List ℕ → Option (List ℕ)
write_loop zero long iosize value addr len mem = none
write_loop (suc fuel) long iosize value addr len mem =
    let width = access_width long iosize in
    let rest =
      write_loop fuel long iosize value (addr + iosize) (less len iosize)
        (write_at mem addr (bytes_of width value)) in
    if len == 0 then some mem else if leb (addr + width) (length mem) then rest else none

-- The fuel is more than the number of accesses that a mapping has room for.
unfoldable pub write_memory : ℕ → ℕ → ℕ → ℕ → ℕ → List ℕ → Option (List ℕ)
unfolding write_loop
write_memory long iosize value addr len mem =
    let written = write_loop (suc (length mem)) long iosize value addr len mem in
    if is_size iosize then written else some mem

-- a line of the output: the physical address and the values behind it
pub record Line : Type 0 where
  pub phys_addr : ℕ
  pub values : List ℕ

abbrev pub with_value : ℕ → Option (List ℕ × ℕ × ℕ) → Option (List ℕ × ℕ × ℕ)
with_value v none = none
with_value v (some (vs, addr, len)) = some (v ∷ vs, addr, len)

-- The values of a line, for a size of 1, 2 or 4, with the address and the length behind it.
unfoldable pub line_loop : ℕ → ℕ → ℕ → ℕ → ℕ → ℕ → List ℕ → Option (List ℕ × ℕ × ℕ)
line_loop zero long iosize i addr len mem = none
line_loop (suc fuel) long iosize i addr len mem =
    let width = access_width long iosize in
    let rest = line_loop fuel long iosize (i + iosize) (addr + iosize) (less len iosize) mem in
    if ltb i 16 && not (len == 0)
    then (if leb (addr + width) (length mem)
        then with_value (value_of (read_at mem addr width)) rest
        else none)
    else some ([], addr, len)

abbrev pub with_line : ℕ → List ℕ → Option (List Line) → Option (List Line)
with_line phys vs none = none
with_line phys vs (some lines) = some (record { phys_addr = phys; values = vs } ∷ lines)

abbrev pub and_lines :
    Option (List ℕ × ℕ × ℕ) → (List ℕ → ℕ → ℕ → Option (List Line)) → Option (List Line)
and_lines none k = none
and_lines (some (vs, addr, len)) k = k vs addr len

-- 17 rounds are more than a line of 16 bytes has.
unfoldable pub read_loop : ℕ → ℕ → ℕ → ℕ → ℕ → ℕ → List ℕ → Option (List Line)
read_loop zero long iosize phys addr len mem = none
read_loop (suc fuel) long iosize phys addr len mem =
    let lines = and_lines (line_loop 17 long iosize 0 addr len mem) (λ vs a l.
      with_line phys vs (read_loop fuel long iosize ((phys + 16) % 2 ^ (8 * long)) a l mem)) in
    if len == 0 then some [] else lines

unfoldable pub memread_memory : ℕ → ℕ → ℕ → ℕ → ℕ → List ℕ → Option (List Line)
unfolding read_loop line_loop value_of
memread_memory long iosize phys addr len mem =
    read_loop (suc (length mem)) long iosize phys addr len mem
