-- ===== src/Io/Tests.antt =====
-- Runs of io.c, and the theorems at them.
use my_file.Prelude.{
  ℕ, ◌*◌, ◌<◌, ◌≡◌, refl, sym, ap, ◌∙◌, arith, true, false, none, some, List, [], ◌∷◌, length,
  replicate, length-replicate,
}
use my_file.CLib.Files.{write_at}
use my_file.CLib.Strtoul.{strtoul}
use my_file.Io.Options.{
  options, arguments, word_access, half_access, size_of, write_memory, exit, no_value,
  value_too_large,
}
use my_file.Io.Plan.{plan}
use my_file.Io.Plan.Cover.{Explained, plan-Explained}
use my_file.Io.Access.{bytes_of, memread_memory, write_memory as store_values}
use my_file.Io.Access.Fill.{copies, write_memory-copies}
use my_file.Io.Access.Dump.{Dumped, per_line, memread_memory-Dumped}
use my_file.Io.Main.{System, main}
use my_file.Io.Main.Runs.{is_outside}
use my_file.Io.Main.Inside.{main-inside}

-- a page of zeros wherever it is asked for
abbrev zeros : System
zeros = record {
  file = record { dest_ok = true; src_ok = true; end = none; rewound = true };
  mem_ok = true;
  map = λ a n. some (replicate n 0);
  answer = none;
  wrote = none;
  input = none;
}

plan-Explained_example : Explained 4 0x1ffc 8 (plan 32 4 0x1ffc 8)
plan-Explained_example = plan-Explained 4 0x1ffc 8 (omega arith) (omega arith) (omega arith)

abbrev eight : List ℕ
eight = replicate 8 0

write_memory-copies_example :
    store_values 4 2 0x1234 2 (2 * 2) eight ≡ some (write_at eight 2 (copies 2 (bytes_of 2 0x1234)))
write_memory-copies_example =
    write_memory-copies 2 0x1234 2 2 eight refl (omega arith) (omega arith)

memread_memory-Dumped_example :
    Dumped 2 (per_line 2) 0x1000 3 2 eight (memread_memory 4 2 0x1000 2 (3 * 2) eight)
memread_memory-Dumped_example =
    memread_memory-Dumped 2 3 0x1000 2 eight refl (omega arith) (omega arith)

zeros-length : (a n : ℕ) (mem : List ℕ) → zeros.map a n ≡ some mem → length mem ≡ n
zeros-length a n mem h =
    let e : replicate n 0 ≡ mem = cc in ap (length {0}) (sym e) ∙ length-replicate n 0

-- "0x1000" and "4"
abbrev address : List ℕ
address = b'0' ∷ b'x' ∷ b'1' ∷ b'0' ∷ b'0' ∷ b'0' ∷ []

abbrev four : List ℕ
four = b'4' ∷ []

four_short : (strtoul 32 four).0 < 0x80000000
unfolding strtoul
four_short = omega arith

main-inside_example :
    is_outside (main 32 zeros 6 (word_access ∷ size_of four ∷ []) (address ∷ four ∷ [])) ≡ false
main-inside_example =
    main-inside zeros zeros-length 6 (word_access ∷ size_of four ∷ []) (address ∷ four ∷ [])
      (four_short, tt)

-- the write from the command line asks for a value that fits
abbrev long_value : List ℕ
long_value = b'6' ∷ b'5' ∷ b'5' ∷ b'3' ∷ b'6' ∷ []

value_missing : main 32 zeros 3 (write_memory ∷ []) (address ∷ []) ≡ exit no_value
unfolding main options arguments strtoul
value_missing = refl

value_long : main 32 zeros 4 (half_access ∷ []) (address ∷ long_value ∷ []) ≡ exit value_too_large
unfolding main options arguments strtoul
value_long = refl
