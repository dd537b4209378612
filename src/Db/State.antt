-- ===== src/Db/State.antt =====
-- The `DB` structure of db.c with the two files and the record locks that its process holds, and
-- the monad of its functions. System calls on the files succeed, and a read at the end is short.
use my_file.Prelude.{
  ℕ, ◌+◌, ◌≡◌, arith, Bool, ◌&&◌, ◌||◌, List, ltb, leb, ◌==◌, if◌then◌else◌, length, ℤ,
}
use my_file.CLib.Files.{read_at, write_at}

-- a lock that `fcntl` holds on a byte
pub data Lock : Type 0 where
  unlocked shared exclusive : Lock

-- `idx` and `dat` are the bytes of the files, `idxpos` and `datpos` the file offsets of the
-- descriptors. A buffer stands as the C string that it holds.
pub record Db : Type 0 where
  pub idx : List ℕ
  pub dat : List ℕ
  pub idxpos : ℕ
  pub datpos : ℕ
  pub idxlock : ℕ → Lock
  pub datlock : ℕ → Lock
  pub idxbuf : List ℕ
  pub datbuf : List ℕ
  pub idxoff : ℕ
  pub idxlen : ℕ
  pub datoff : ℕ
  pub datlen : ℕ
  pub ptrval : ℤ
  pub ptroff : ℕ
  pub chainoff : ℕ
  pub hashoff : ℕ
  pub nhash : ℕ
  pub cnt_delok : ℕ
  pub cnt_delerr : ℕ
  pub cnt_fetchok : ℕ
  pub cnt_fetcherr : ℕ
  pub cnt_nextrec : ℕ
  pub cnt_stor1 : ℕ
  pub cnt_stor2 : ℕ
  pub cnt_stor3 : ℕ
  pub cnt_stor4 : ℕ
  pub cnt_storerr : ℕ

-- where `err_dump` or `err_quit` ends the process
pub data Fault : Type 0 where
  readptr_read readidx_lseek readidx_readv readidx_length readidx_read readidx_newline : Fault
  first_separator second_separator too_many_separators negative_offset invalid_datlen : Fault
  readdat_read readdat_newline writeidx_ptr writeidx_length writeptr_ptr store_length : Fault

pub data Run (A : Type 0) : Type 0 where
  ok : A → Db → Run A
  fault : Fault → Run A
  out_of_fuel : Run A

-- The run neither stops at a fault nor runs out of fuel, and its end satisfies `P`.
pub data Returns {A : Type 0} (P : A → Db → Type 0) : Run A → Type 0 where
  returns : {a : A} {s : Db} → P a s → Returns P (ok a s)

pub weaken :
    {A : Type 0} {P Q : A → Db → Type 0} {r : Run A}
    → ((a : A) (t : Db) → P a t → Q a t)
    → Returns P r
    → Returns Q r
weaken k (returns p) = returns (k _ _ p)

abbrev pub M : Type 0 → Type 0
M A = Db → Run A

module _ {A B : Type 0} where
  abbrev pub and_then : Run A → (A → M B) → Run B
  and_then (ok a s) k = k a s
  and_then (fault e) k = fault e
  and_then out_of_fuel k = out_of_fuel

  infixl 5 ◌>>=◌ ◌>>◌
  abbrev pub ◌>>=◌ : M A → (A → M B) → M B
  m >>= k = λ s. and_then (m s) k

  abbrev pub ◌>>◌ : M A → M B → M B
  m >> n = m >>= λ _. n

abbrev pub pure : {A : Type 0} → A → M A
pure = ok

abbrev pub stop : {A : Type 0} → Fault → M A
stop e s = fault e

abbrev pub spent : {A : Type 0} → M A
spent s = out_of_fuel

abbrev pub gets : {A : Type 0} → (Db → A) → M A
gets f s = ok (f s) s

abbrev pub modify : (Db → Db) → M (Unit {0})
modify f s = ok tt (f s)

-- the region of `len` bytes at `start`, up to any end of the file if `len` is 0
unfoldable pub in_region : ℕ → ℕ → ℕ → Bool
in_region start len p = leb start p && ((len == 0) || ltb p (start + len))

unfoldable pub relock : (ℕ → Lock) → ℕ → ℕ → Lock → ℕ → Lock
unfolding in_region
relock held start len l p = if in_region start len p then l else held p

-- Locking one byte twice leaves it with the later lock, and the other bytes with theirs.
pub relock-relock :
    (held : ℕ → Lock) (off : ℕ) (l m : Lock) (p : ℕ)
    → relock (relock held off 1 l) off 1 m p ≡ (if p == off then m else held p)
unfolding relock
relock-relock held off l m p = ground arith

-- `readw_lock`, `writew_lock` and `un_lock` on the index file and on the data file
abbrev pub lock_idx : ℕ → ℕ → Lock → M (Unit {0})
lock_idx start len l = modify λ s. record s { idxlock = relock s.idxlock start len l }

abbrev pub lock_dat : ℕ → ℕ → Lock → M (Unit {0})
lock_dat start len l = modify λ s. record s { datlock = relock s.datlock start len l }

-- `lseek` to an offset, `read` and `write` at the offset of the descriptor
abbrev pub seek_idx : ℕ → M (Unit {0})
seek_idx off = modify λ s. record s { idxpos = off }

abbrev pub seek_dat : ℕ → M (Unit {0})
seek_dat off = modify λ s. record s { datpos = off }

abbrev pub read_idx : ℕ → M (List ℕ)
read_idx n s =
    let got = read_at s.idx s.idxpos n in ok got (record s { idxpos = s.idxpos + length got })

abbrev pub read_dat : ℕ → M (List ℕ)
read_dat n s =
    let got = read_at s.dat s.datpos n in ok got (record s { datpos = s.datpos + length got })

abbrev pub write_idx : List ℕ → M (Unit {0})
write_idx bs s =
    ok tt (record s { idx = write_at s.idx s.idxpos bs; idxpos = s.idxpos + length bs })

abbrev pub write_dat : List ℕ → M (Unit {0})
write_dat bs s =
    ok tt (record s { dat = write_at s.dat s.datpos bs; datpos = s.datpos + length bs })
