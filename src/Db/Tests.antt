-- ===== src/Db/Tests.antt =====
-- Runs of the library on small databases, and the theorems at them.
mod Layers
mod Refusals
mod Removals
mod Walks
mod Reuses
mod Maps
use my_file.Prelude.{
  ℕ, ◌+◌, ◌*◌, ◌⊎◌, ◌≤◌, ◌<◌, ◌≡◌, ◌≢◌, refl, inl, inr, Option, none, some, Bool, true, false, List,
  [], ◌∷◌, arith, length, pos,
}
use my_file.CLib.Numbers.{atol, pad, dec}
use my_file.CLib.Files.{read_at, write_at}
use my_file.CLib.Strings.{cstr, cut_at, last_or, init}
use my_file.Db.Search.{find_and_lock, findfree, find_loop, findfree_loop}
use my_file.Db.Records.{seek_set, readidx, readdat, writedat, writeidx}
use my_file.Db.State.{relock, Db, Run, ok, M, ◌>>=◌, ◌>>◌, pure, Returns}
use my_file.Db.Hash.{chain_offset, chain_offset_bounds, chain_offset_apart}
use my_file.Db.Pointers.{ptr_text, ptr_sz, readptr, writeptr}
use my_file.Db.Pointers.RoundTrip.{ptr_at, with_ptr, readptr-writeptr}
use my_file.Db.Records.Parse.{Fits, Entry}
use my_file.Db.Search.Chain.{Row, find_row, is_some, walked, find_loop-Chain}
use my_file.Db.Search.Free.{find_free, slot_of, free_walked, findfree_loop-Chain}
use my_file.Db.Records.Write.{with_data, entry_of, readidx-writeidx}
use my_file.Db.Records.Data.{readdat-text}
use my_file.Db.Search.Frame.{Chained}
use my_file.Db.Ops.{
  fetch, store, delete, nextrec, rewind, open_db, alloc, empty_index, db_insert, db_replace, done,
}
use my_file.Db.Ops.Fetch.{HashChain, Fetched, fetch-find_row}
use my_file.Db.Ops.Insert.{new_entry, new_row, grown_idx, grown_dat}
use my_file.Db.Ops.StoreFetch.{
  Answers, store-HashChain, store-Chained_other, store-fetch_self, store-fetch_other,
  store-fetch_collision,
}

abbrev pub k1 : List ℕ
k1 = b'k' ∷ b'1' ∷ []

abbrev pub k2 : List ℕ
k2 = b'k' ∷ b'2' ∷ []

abbrev pub vx : List ℕ
vx = b'v' ∷ b'x' ∷ []

abbrev pub vyz : List ℕ
vyz = b'v' ∷ b'y' ∷ b'z' ∷ []

abbrev answer : {A : Type 0} → Run A → Option A
answer (ok a s) = some a
answer _ = none

-- Two insertions, a replacement of another length, a deletion, and a walk through the records.
script : M (Option (List ℕ) × Option (List ℕ) × Bool × Option (List ℕ × List ℕ))
unfolding open_db store fetch delete nextrec rewind
script = do
  open_db true (some []) (some [])
  store k1 vx db_insert
  store k2 vx db_insert
  store k1 vyz db_replace
  v ← fetch k1
  gone ← delete k1
  w ← fetch k1
  rewind
  r ← nextrec
  pure (v, w, gone, r)

script_answer : answer (script (alloc [] [])) ≡ some (some vyz, none, true, some (k2, vx))
unfolding script alloc find_and_lock findfree readptr writeptr readidx readdat writedat writeidx
    chain_offset empty_index read_at write_at pad dec atol cstr cut_at last_or init relock
script_answer = refl

-- a new database
abbrev pub fresh : Db
fresh = alloc empty_index []

pub fresh-chain : HashChain fresh 829 k1 0 []
unfolding chain_offset alloc empty_index read_at atol pad dec
fresh-chain = record {
  first_le = omega arith;
  slot_in = omega arith;
  start_in = omega arith;
  slot_ptr = refl;
  chain = refl;
  behind = tt;
  short = omega arith;
}

pub fresh-free : Chained fresh.idx fresh.dat 829 0 0 []
unfolding alloc empty_index read_at atol pad dec
fresh-free = record {
  first_le = omega arith;
  slot_in = omega arith;
  start_in = omega arith;
  slot_ptr = refl;
  chain = refl;
  behind = tt;
  short = omega arith;
}

pub new-Fits : Fits (new_entry fresh k1 vx 0)
unfolding dec alloc
new-Fits = record {
  key_pos = omega arith;
  no_null = (refl, (refl, tt));
  no_sep = (refl, (refl, tt));
  ptr_le = omega arith;
  datlen_pos = omega arith;
  datlen_le = omega arith;
  length_le = omega arith;
}

pub small : length fresh.idx ≤ 999999
unfolding alloc empty_index pad dec
small = omega arith

-- a key with the hash value of `k1`
abbrev pub i2 : List ℕ
i2 = b'i' ∷ b'2' ∷ []

-- the database with the one record that the insertion makes
abbrev pub row : Row
row = new_row fresh k1 vx 0

abbrev pub one : Db
one = record fresh {
  idx = write_at (grown_idx fresh k1 vx 0) (chain_offset 137 6 k1) (ptr_text 829);
  dat = grown_dat fresh vx;
}

pub one-chain : HashChain one 829 k1 829 (row ∷ [])
unfolding chain_offset alloc empty_index read_at write_at atol pad dec
one-chain = record {
  first_le = omega arith;
  slot_in = omega arith;
  start_in = omega arith;
  slot_ptr = refl;
  chain = (
    refl,
    record {
      at_pos = omega arith;
      fits = new-Fits;
      in_idx = refl;
      in_dat = refl;
      datlen = refl;
      no_null = (refl, (refl, tt));
    },
    refl,
  );
  behind = (omega arith, tt);
  short = omega arith;
}

fetch-find_row_example : Returns (λ out t. Fetched one k1 (some vx) out t) (fetch k1 one)
fetch-find_row_example = fetch-find_row one k1 one-chain

free_apart :
    (0 + ptr_sz ≤ chain_offset fresh.nhash fresh.hashoff k1)
    ⊎ (chain_offset fresh.nhash fresh.hashoff k1 + ptr_sz ≤ 0)
unfolding chain_offset alloc
free_apart = inl (omega arith)
