-- ===== src/Io/Access/Fill.antt =====
-- The write loops of io.c, against copies of the value.
use my_file.Prelude.{
  ℕ, zero, suc, ◌+◌, ◌*◌, ◌^◌, ◌/◌, ◌≤◌, ◌<◌, ◌≡◌, refl, sym, ap, ◌∙◌, arith, true, false, some,
  List, [], ◌∷◌, ◌++◌, leb, ◌==◌, length,
}
use my_file.CLib.Files.{write_at, write_at-append, write_at-nil, length-write_at}
use my_file.Io.Access.{bytes_of, access_width, is_size, less, write_loop, write_memory}

pub length-bytes_of : (n value : ℕ) → length (bytes_of n value) ≡ n
unfolding bytes_of
length-bytes_of zero value = refl
length-bytes_of (suc n) value = ap suc (length-bytes_of n (value / 256))

-- `n` copies of some bytes
unfoldable pub copies : ℕ → List ℕ → List ℕ
copies zero bs = []
copies (suc n) bs = bs ++ copies n bs

module _ (long iosize value : ℕ) (pos : 0 < iosize) (same : access_width long iosize ≡ iosize) where
  write_loop-copies :
      (n fuel addr : ℕ) (mem : List ℕ)
      → n < fuel
      → addr + n * iosize ≤ length mem
      → n * iosize < 2 ^ 32
      → write_loop fuel long iosize value addr (n * iosize) mem
        ≡ some (write_at mem addr (copies n (bytes_of iosize value)))
  unfolding write_loop copies
  write_loop-copies n zero addr mem h room small = absurd (omega arith)
  write_loop-copies zero (suc fuel) addr mem h room small =
      let none_left : (0 * iosize == 0) ≡ true = ground arith in
      rw none_left (ap some (sym (write_at-nil mem addr (omega arith))))
  write_loop-copies (suc n) (suc fuel) addr mem h room small =
      let more : (suc n * iosize == 0) ≡ false =
        let k : 0 < suc n * iosize = omega arith in ground (arith, k) in
      let fits : leb (addr + iosize) (length mem) ≡ true = ground arith in
      let left : less (suc n * iosize) iosize ≡ n * iosize = omega arith in
      rw (more, same, fits, left)
        (write_loop-copies n fuel (addr + iosize) (write_at mem addr (bytes_of iosize value))
            (omega arith)
            (omega (
              arith,
              length-write_at mem addr (bytes_of iosize value),
              length-bytes_of iosize value,
            ))
            (omega arith)
          ∙ ap some (
              rw (length-bytes_of iosize value) at (
                write_at-append mem addr (bytes_of iosize value)
                  (copies n (bytes_of iosize value)))))

is_size-cases :
    (iosize : ℕ) → is_size iosize ≡ true → (0 < iosize) × (access_width 4 iosize ≡ iosize)
is_size-cases iosize h = ground arith

-- With longs of 4 bytes an access of 1, 2 or 4 bytes fills an aligned region inside the mapping
-- with copies of the value, in bytes lowest first, writes nothing else, and ends.
pub write_memory-copies :
    (iosize value n addr : ℕ) (mem : List ℕ)
    → is_size iosize ≡ true
    → n * iosize < 2 ^ 32
    → addr + n * iosize ≤ length mem
    → write_memory 4 iosize value addr (n * iosize) mem
      ≡ some (write_at mem addr (copies n (bytes_of iosize value)))
unfolding write_memory
write_memory-copies iosize value n addr mem size small room =
    let (pos, same) = is_size-cases iosize size in
    let enough : n < suc (length mem) = grind arith in
    rw size
      (write_loop-copies 4 iosize value pos same n (suc (length mem)) addr mem enough room small)

-- With longs of 8 bytes a 4-byte write of a length of 4 stores 8 bytes, where the mapping has room
-- for them.
pub write_memory_too_wide :
    (value addr : ℕ) (mem : List ℕ)
    → addr + 8 ≤ length mem
    → write_memory 8 4 value addr 4 mem ≡ some (write_at mem addr (bytes_of 8 value))
unfolding write_memory write_loop
write_memory_too_wide value addr [] room = absurd (omega arith)
write_memory_too_wide value addr (b ∷ mem) room = ground arith
