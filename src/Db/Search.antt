-- ===== src/Db/Search.antt =====
-- `_db_find_and_lock` and `_db_findfree`: the walks along a hash chain and along the free list.
-- Each loop has fuel for as many records as the index file has bytes.
pub mod Chain
pub mod Frame
pub mod Free
pub mod Unlink
pub mod Erase
pub mod Relink
pub mod Removed
pub mod Deleted
pub mod FindFree
pub mod Take
pub mod Taken
pub mod Took
pub mod Reuse
use my_file.Prelude.{
  ℕ, zero, suc, Bool, true, false, ◌&&◌, Option, none, some, List, ◌==◌, length, bytes_eq, ℤ, pos,
  negsuc,
}
use my_file.Db.State.{
  Lock, exclusive, shared, unlocked, M, ◌>>=◌, ◌>>◌, pure, spent, gets, modify, lock_idx,
}
use my_file.Db.Hash.{chain_offset}
use my_file.Db.Pointers.{readptr, writeptr}
use my_file.Db.Records.{readidx}

-- `free_off`, the pointer in front of the hash table
abbrev pub free_off : ℕ
free_off = 0

unfoldable pub find_loop : ℕ → List ℕ → ℤ → M Bool
find_loop zero key offset = spent
find_loop (suc fuel) key (pos zero) = pure false
find_loop (suc fuel) key (negsuc n) = readidx (negsuc n) >> pure false
find_loop (suc fuel) key (pos (suc n)) = do
  next ← readidx (pos (suc n))
  found ← gets λ s. bytes_eq s.idxbuf key
  elim found [
    | true ↦ pure true
    | false ↦ (modify λ s. record s { ptroff = suc n }) >> find_loop fuel key next
  ]

abbrev pub lock_mode : Bool → Lock
lock_mode true = exclusive
lock_mode false = shared

-- Whether the record is there. The hash chain is left locked.
unfoldable pub find_and_lock : List ℕ → Bool → M Bool
unfolding find_loop
find_and_lock key writelock = do
  off ← gets λ s. chain_offset s.nhash s.hashoff key
  modify λ s. record s { chainoff = off; ptroff = off }
  lock_idx off 1 (lock_mode writelock)
  offset ← readptr off
  fuel ← gets λ s. suc (length s.idx)
  find_loop fuel key offset

-- The offset of the pointer to a free record of these sizes, if there is one.
unfoldable pub findfree_loop : ℕ → ℕ → ℕ → ℕ → ℤ → M (Option ℕ)
findfree_loop zero keylen datlen save offset = spent
findfree_loop (suc fuel) keylen datlen save (pos zero) = pure none
findfree_loop (suc fuel) keylen datlen save (negsuc n) = readidx (negsuc n) >> pure none
findfree_loop (suc fuel) keylen datlen save (pos (suc n)) = do
  next ← readidx (pos (suc n))
  found ← gets λ s. (length s.idxbuf == keylen) && (s.datlen == datlen)
  elim found [ true ↦ pure (some save) | false ↦ findfree_loop fuel keylen datlen (suc n) next ]

abbrev pub take_free : Option ℕ → M Bool
take_free none = pure false
take_free (some save) = do next ← gets λ s. s.ptrval; writeptr save next; pure true

-- Whether a free record was found; it is then the current one, off the free list.
unfoldable pub findfree : ℕ → ℕ → M Bool
unfolding findfree_loop
findfree keylen datlen = do
  lock_idx free_off 1 exclusive
  offset ← readptr free_off
  fuel ← gets λ s. suc (length s.idx)
  found ← findfree_loop fuel keylen datlen free_off offset
  rc ← take_free found
  lock_idx free_off 1 unlocked
  pure rc
