-- ===== src/Db/Ops.antt =====
-- The interface of the library: `db_open`, `db_fetch`, `db_store`, `db_delete`, `db_rewind` and
-- `db_nextrec`. Keys and data are C strings, so they hold no null byte.
pub mod Fetch
pub mod Insert
pub mod StoreFetch
pub mod Refusals
pub mod Replace
pub mod ReplaceLonger
pub mod Reuse
pub mod Delete
pub mod DeleteFetch
pub mod Traverse
pub mod StoreWalk
use my_file.Prelude.{
  ℕ, zero, suc, ◌+◌, ◌-◌, Bool, true, false, ◌&&◌, ◌||◌, Option, none, some, List, [], ◌∷◌, ◌++◌,
  ltb, ◌==◌, if◌then◌else◌, length, replicate, ℤ, pos, negsuc,
}
use my_file.Db.State.{
  Db, exclusive, shared, unlocked, store_length, M, ◌>>=◌, ◌>>◌, pure, stop, spent, gets, modify,
  lock_idx, write_idx,
}
use my_file.Db.Pointers.{ptr_sz, ptr_text, readptr, writeptr}
use my_file.Db.Records.{
  datlen_max, newline, space, readidx, readdat, seek_set, seek_end, records_start, writedat,
  writeidx,
}
use my_file.Db.Search.{free_off, find_and_lock, findfree}

abbrev pub unlock_chain : M (Unit {0})
unlock_chain s = lock_idx s.chainoff 1 unlocked s

-- the data, or NULL
unfoldable pub fetch : List ℕ → M (Option (List ℕ))
fetch key = do
  found ← find_and_lock key false
  elim found [
    | false ↦ do modify λ s. record s { cnt_fetcherr = s.cnt_fetcherr + 1 }; unlock_chain; pure none
    | true ↦ do
      text ← readdat
      modify λ s. record s { cnt_fetchok = s.cnt_fetchok + 1 }
      unlock_chain
      pure (some text)
  ]

-- The blanks overwrite the data and the key; the record goes to the front of the free list.
unfoldable pub dodelete : M (Unit {0})
dodelete = do
  modify λ s. record s {
    datbuf = replicate (s.datlen - 1) space;
    idxbuf = replicate (length s.idxbuf) space;
  }
  lock_idx free_off 1 exclusive
  blanks ← gets λ s. s.datbuf
  datoff ← gets λ s. s.datoff
  writedat blanks datoff seek_set
  freeptr ← readptr free_off
  saveptr ← gets λ s. s.ptrval
  key ← gets λ s. s.idxbuf
  idxoff ← gets λ s. s.idxoff
  writeidx key idxoff seek_set freeptr
  here ← gets λ s. s.idxoff
  writeptr free_off (pos here)
  ptroff ← gets λ s. s.ptroff
  writeptr ptroff saveptr
  lock_idx free_off 1 unlocked

-- whether there was such a record
unfoldable pub delete : List ℕ → M Bool
unfolding dodelete
delete key = do
  found ← find_and_lock key true
  elim found [
    | true ↦ do
      dodelete
      modify λ s. record s { cnt_delok = s.cnt_delok + 1 }
      unlock_chain
      pure true
    | false ↦ do modify λ s. record s { cnt_delerr = s.cnt_delerr + 1 }; unlock_chain; pure false
  ]

-- the third argument of `db_store`
pub data Flag : Type 0 where
  db_insert db_replace db_store : Flag
  other : ℕ → Flag

-- 0, 1, and -1 with its `errno`
pub data Stored : Type 0 where
  done exists enoent einval : Stored

-- the new record in front of its hash chain
unfoldable pub link_front : M (Unit {0})
link_front = do chain ← gets λ s. s.chainoff; here ← gets λ s. s.idxoff; writeptr chain (pos here)

unfoldable pub append_record : List ℕ → List ℕ → ℤ → M (Unit {0})
unfolding link_front
append_record key text ptrval = do
  writedat text 0 seek_end
  writeidx key 0 seek_end ptrval
  link_front

unfoldable pub insert_record : List ℕ → List ℕ → M (Unit {0})
unfolding append_record
insert_record key text = do
  chain ← gets λ s. s.chainoff
  ptrval ← readptr chain
  free ← findfree (length key) (length text + 1)
  elim free [
    | false ↦ do append_record key text ptrval; modify λ s. record s { cnt_stor1 = s.cnt_stor1 + 1 }
    | true ↦ do
      datoff ← gets λ s. s.datoff
      writedat text datoff seek_set
      idxoff ← gets λ s. s.idxoff
      writeidx key idxoff seek_set ptrval
      link_front
      modify λ s. record s { cnt_stor2 = s.cnt_stor2 + 1 }
  ]

-- "delete the existing record" and append the new one
unfoldable pub replace_longer : List ℕ → List ℕ → M (Unit {0})
unfolding append_record dodelete
replace_longer key text = do
  dodelete
  chain ← gets λ s. s.chainoff
  ptrval ← readptr chain
  append_record key text ptrval
  modify λ s. record s { cnt_stor3 = s.cnt_stor3 + 1 }

-- "Same size data, just replace data record."
abbrev pub overwrite_data : List ℕ → M (Unit {0})
overwrite_data text = do
  datoff ← gets λ s. s.datoff
  writedat text datoff seek_set
  modify λ s. record s { cnt_stor4 = s.cnt_stor4 + 1 }

unfoldable pub replace_record : List ℕ → List ℕ → M (Unit {0})
unfolding replace_longer
replace_record key text = do
  old ← gets λ s. s.datlen
  if length text + 1 == old then overwrite_data text else replace_longer key text

abbrev store_error : Stored → M Stored
store_error rc = do modify λ s. record s { cnt_storerr = s.cnt_storerr + 1 }; pure rc

unfoldable pub store_found : Bool → Flag → List ℕ → List ℕ → M Stored
unfolding insert_record replace_record
store_found false db_replace key text = store_error enoent
store_found false flag key text = insert_record key text >> pure done
store_found true db_insert key text = store_error exists
store_found true flag key text = replace_record key text >> pure done

unfoldable pub store_checked : List ℕ → List ℕ → Flag → M Stored
unfolding store_found
store_checked key text flag =
    if ltb (length text + 1) 2 || ltb datlen_max (length text + 1) then stop store_length else do
      found ← find_and_lock key true
      rc ← store_found found flag key text
      unlock_chain
      pure rc

unfoldable pub store : List ℕ → List ℕ → Flag → M Stored
unfolding store_checked
store key text (other n) = pure einval
store key text db_insert = store_checked key text db_insert
store key text db_replace = store_checked key text db_replace
store key text db_store = store_checked key text db_store

unfoldable pub rewind : M (Unit {0})
rewind = modify λ s. record s { idxoff = records_start s; idxpos = records_start s }

unfoldable pub all_blank : List ℕ → Bool
all_blank [] = true
all_blank (c ∷ cs) = (c == space) && all_blank cs

-- key and data of the next record with a key that is not blank, each round reading one record
unfoldable pub nextrec_loop : ℕ → M (Option (List ℕ × List ℕ))
unfolding all_blank
nextrec_loop zero = spent
nextrec_loop (suc fuel) = do
  next ← readidx (pos 0)
  blank ← gets λ s. all_blank s.idxbuf
  elim next [
    | negsuc n ↦ pure none
    | pos n ↦ elim blank [
      | true ↦ nextrec_loop fuel
      | false ↦ do
        key ← gets λ s. s.idxbuf
        text ← readdat
        modify λ s. record s { cnt_nextrec = s.cnt_nextrec + 1 }
        pure (some (key, text))
    ]
  ]

unfoldable pub nextrec : M (Option (List ℕ × List ℕ))
unfolding nextrec_loop
nextrec = do
  lock_idx free_off 1 shared
  fuel ← gets λ s. suc (length s.idx)
  r ← nextrec_loop fuel
  lock_idx free_off 1 unlocked
  pure r

abbrev pub nhash_def : ℕ
nhash_def = 137

unfoldable pub pointers : ℕ → List ℕ
pointers zero = newline ∷ []
pointers (suc n) = ptr_text 0 ++ pointers n

-- a new index file: the free list and the hash chains, all empty
unfoldable pub empty_index : List ℕ
unfolding pointers
empty_index = pointers (nhash_def + 1)

-- `_db_alloc` and the constants of `db_open`, on files with these contents
unfoldable pub alloc : List ℕ → List ℕ → Db
alloc idx dat = record {
  idx = idx;
  dat = dat;
  idxpos = 0;
  datpos = 0;
  idxlock = λ _. unlocked;
  datlock = λ _. unlocked;
  idxbuf = [];
  datbuf = [];
  idxoff = 0;
  idxlen = 0;
  datoff = 0;
  datlen = 0;
  ptrval = pos 0;
  ptroff = 0;
  chainoff = 0;
  hashoff = ptr_sz;
  nhash = nhash_def;
  cnt_delok = 0;
  cnt_delerr = 0;
  cnt_fetchok = 0;
  cnt_fetcherr = 0;
  cnt_nextrec = 0;
  cnt_stor1 = 0;
  cnt_stor2 = 0;
  cnt_stor3 = 0;
  cnt_stor4 = 0;
  cnt_storerr = 0;
}

unfoldable pub initialize : Bool → M (Unit {0})
initialize false = pure tt
initialize true = do
  lock_idx 0 0 exclusive
  size ← gets λ s. length s.idx
  elim (size == 0) [ true ↦ write_idx empty_index | false ↦ pure tt ]
  lock_idx 0 0 unlocked

-- What the two calls of `open` gave: the bytes of the file, or nothing for an error.
unfoldable pub open_db : Bool → Option (List ℕ) → Option (List ℕ) → M (Option (Unit {0}))
unfolding initialize
open_db create none dat = pure none
open_db create (some idx) none = pure none
open_db create (some idx) (some dat) = do
  modify λ _. alloc idx dat
  initialize create
  rewind
  pure (some tt)
