-- ===== src/Io/Options.antt =====
-- `main` of io.c up to the access itself: the options, the arguments and their checks. `getopt`
-- gives the options in order; an unsigned long has `w` bits.
use my_file.Prelude.{
  ℕ, ◌-◌, ◌/◌, ◌%◌, ◌^◌, Bool, true, false, not, ◌&&◌, ◌||◌, Option, none, some, List, [], ◌∷◌,
  ◌==◌, if◌then◌else◌,
}
use my_file.CLib.Strtoul.{strtoul}

-- what `getopt` returns, with its argument
pub data Opt : Type 0 where
  help verbose_on byte_access half_access word_access read_memory write_memory : Opt
  size_of file_of : List ℕ → Opt
  unknown : Opt

-- the ways in which the program exits with status 1
pub data Failure : Type 0 where
  usage bad_size no_address bad_addr no_value bad_value value_too_large : Failure
  no_file_size too_many_arguments dest_open src_open seek_failed addr_alignment : Failure
  size_alignment top_page above_top mem_open mmap_failed aborted write_failed short_write : Failure
  read_failed short_read outside_mapping : Failure

pub data Result (A : Type 0) : Type 0 where
  ok : A → Result A
  exit : Failure → Result A

infixl 5 ◌>>=◌ ◌>>◌
abbrev pub ◌>>=◌ : {A B : Type 0} → Result A → (A → Result B) → Result B
ok a >>= f = f a
exit e >>= f = exit e

abbrev pub ◌>>◌ : {B : Type 0} → Result (Unit {0}) → Result B → Result B
m >> k = m >>= λ _. k

-- exit where the condition holds
abbrev pub exit_if : Bool → Failure → Result (Unit {0})
exit_if true e = exit e
exit_if false e = ok tt

-- the variables that the options set; `req_len` is the bit pattern of an int
pub record Args : Type 0 where
  pub memread : Bool
  pub iosize : ℕ
  pub req_len : ℕ
  pub filename : Option (List ℕ)
  pub verbose : Bool

abbrev pub default_args : Args
default_args = record { memread = true; iosize = 1; req_len = 0; filename = none; verbose = false }

abbrev pub is_nil : List ℕ → Bool
is_nil [] = true
is_nil (_ ∷ _) = false

-- a number that the whole text must be
unfoldable pub number : ℕ → List ℕ → Failure → Result ℕ
number w text e = let (n, rest) = strtoul w text in if is_nil rest then ok n else exit e

unfoldable pub option : ℕ → Opt → Args → Result Args
option w help a = exit usage
option w verbose_on a = ok (record a { verbose = true })
option w byte_access a = ok (record a { iosize = 1 })
option w half_access a = ok (record a { iosize = 2 })
option w word_access a = ok (record a { iosize = 4 })
option w read_memory a = ok (record a { memread = true })
option w write_memory a = ok (record a { memread = false })
option w (size_of text) a = do n ← number w text bad_size; ok (record a { req_len = n % 2 ^ 32 })
option w (file_of name) a = ok (record a { filename = some name })
option w unknown a = exit usage

unfoldable pub options : ℕ → List Opt → Args → Result Args
unfolding option number
options w [] a = ok a
options w (o ∷ os) a = do a' ← option w o a; options w os a'

abbrev pub has_file : Args → Bool
has_file a = elim a.filename [ none ↦ false | some _ ↦ true ]

-- whether any of the bits above the low `k` bits of a 32 bit number is set
unfoldable pub bits_above : ℕ → ℕ → Bool
bits_above k value = not ((value / 2 ^ k) % 2 ^ (32 - k) == 0)

-- what is asked for, the arguments being read
pub record Request : Type 0 where
  pub args : Args
  pub req_addr : ℕ
  pub req_value : ℕ

-- the value behind the address, for a write from the command line
unfoldable pub value_argument : ℕ → Args → List (List ℕ) → Result (ℕ × List (List ℕ))
unfolding bits_above number
value_argument w a [] = exit no_value
value_argument w a (text ∷ rest) = do
  value ← number w text bad_value
  exit_if (((a.iosize == 1) && bits_above 8 value) || ((a.iosize == 2) && bits_above 16 value))
      value_too_large
  ok (value, rest)

abbrev pub none_left : List (List ℕ) → Bool
none_left [] = true
none_left (_ ∷ _) = false

-- From the test of `optind` to that of too many arguments. The test `optind > argc` in between is
-- left out: it never holds.
unfoldable pub arguments : ℕ → Args → List (List ℕ) → Result Request
unfolding value_argument
arguments w a [] = exit no_address
arguments w a (text ∷ rest) = do
  addr ← number w text bad_addr
  let a' = if not (has_file a) && not (none_left rest) then record a { memread = false } else a
  (value, left) ←
      (if not (has_file a') && not a'.memread then value_argument w a' rest else ok (0, rest))
  exit_if (has_file a' && (a'.memread && (a'.req_len == 0))) no_file_size
  exit_if (not (none_left left)) too_many_arguments
  ok (record { args = a'; req_addr = addr; req_value = value })
