-- ===== src/Dtree/Events.antt =====
-- `traverseTree`, `watchSubtree`, `reinitialize` and `processNextInotifyEvent`: how the events of
-- the kernel change the cache. The read buffer is a list of whole events.
pub mod Keeps
pub mod Invariant
pub mod Effects
pub mod Once
use my_file.Prelude.{
  ℕ, zero, suc, ◌+◌, Bool, true, false, not, ◌&&◌, ◌||◌, Option, none, some, List, [], ◌∷◌, ◌++◌,
  ◌==◌, if◌then◌else◌, length,
}
use my_file.Dtree.State.{
  Watch, Tree, Added, watching, enoent, refused, Visit, World, Exit, failure, aborted, undefined, M,
  ◌>>=◌, ◌>>◌, pure, leave, gets, modify,
}
use my_file.Dtree.Cache.{
  find_watch, add_watch_to_cache, mark_cache_slot_empty, pathname_in_cache, slot_at, is_used,
}
use my_file.Dtree.Paths.{join, rewrite_cached_paths, zap_loop, is_root_dir_path, zap_root_dir_path}

abbrev pub set_cache : (List Watch → List Watch) → M (Unit {0})
set_cache f = modify λ t. record t { cache = f t.cache }

-- a descriptor for a path, unless it is in the cache
abbrev pub remember : ℕ → List ℕ → Option ℕ → List Watch → List Watch
remember d path (some _) cache = cache
remember d path none cache = add_watch_to_cache d path cache

abbrev pub add_visit : List ℕ → Added → M (Unit {0})
add_visit path enoent = pure tt
add_visit path refused = leave failure
add_visit path (watching d) = set_cache λ cache. remember d path (find_watch (some d) cache) cache

unfoldable pub traverse_tree : Visit → M (Unit {0})
traverse_tree v = if v.is_dir then add_visit v.pathname v.added else pure tt

unfoldable pub traverse_all : List Visit → M (Unit {0})
unfolding traverse_tree
traverse_all [] = pure tt
traverse_all (v ∷ vs) = traverse_tree v >> traverse_all vs

module _ (world : World) where
  unfoldable pub watch_subtree : List ℕ → M (Unit {0})
  unfolding traverse_all
  watch_subtree path = do
    n ← gets λ t. t.walks
    modify λ t. record t { walks = suc n }
    traverse_all (world.visits n path)

  unfoldable pub watch_roots : List (Option (List ℕ)) → M (Unit {0})
  unfolding watch_subtree
  watch_roots [] = pure tt
  watch_roots (none ∷ rs) = watch_roots rs
  watch_roots (some r ∷ rs) = watch_subtree r >> watch_roots rs

  -- of a cache with a descriptor, which is closed
  unfoldable pub reinitialize : M (Unit {0})
  unfolding watch_roots
  reinitialize = do
    modify λ t. record t { reinits = suc t.reinits; cache = [] }
    roots ← gets λ t. t.roots
    watch_roots roots

  -- Whether no watch was refused.
  unfoldable pub zap_subtree : List ℕ → M Bool
  unfolding zap_loop
  zap_subtree path = do
    n ← gets λ t. t.walks
    r ← gets λ t. (zap_loop (world.removes n) path t.cache).1
    set_cache λ cache. (zap_loop (world.removes n) path cache).0
    pure (elim r [ none ↦ false | some _ ↦ true ])

-- an event of a buffer: the bits of its mask, and its other fields
pub record Event : Type 0 where
  pub wd : Option ℕ
  pub is_dir : Bool
  pub create : Bool
  pub delete_self : Bool
  pub move_self : Bool
  pub moved_from : Bool
  pub moved_to : Bool
  pub was_ignored : Bool
  pub q_overflow : Bool
  pub unmount : Bool
  pub cookie : ℕ
  pub name : List ℕ

-- what the caller does next: go on behind the event, or behind the one that follows it, drop the
-- buffer, or read more events
pub data Next : Type 0 where
  one two discard again : Next

abbrev pub check_path : Option Bool → M ℕ → M ℕ
check_path none rest = do n ← rest; pure (suc n)
check_path (some true) rest = rest
check_path (some false) rest = leave failure

-- the failures of `lstat` for the paths in use; a path that is no directory ends the process
unfoldable pub check_loop : (List ℕ → Option Bool) → List Watch → M ℕ
check_loop stat [] = pure 0
check_loop stat (w ∷ ws) =
    if is_used w then check_path (stat w.path) (check_loop stat ws) else check_loop stat ws

unfoldable pub check_cache_consistency : World → M ℕ
unfolding check_loop
check_cache_consistency world = do
  n ← gets λ t. t.walks
  cache ← gets λ t. t.cache
  check_loop (world.is_directory n) cache

-- the end of the handling of an event
unfoldable pub done : World → Next → M Next
unfolding check_cache_consistency
done world next = do
  check ← gets λ t. t.check_cache
  if check then (check_cache_consistency world >> pure next) else pure next

-- the slot of an event
pub data Slot : Type 0 where
  at : ℕ → Slot
  unset missing : Slot

abbrev pub checked : World → Option ℕ → M Slot
checked world (some j) = pure (at j)
checked world none = if world.abort_on_problem then leave aborted else pure missing

unfoldable pub find_watch_checked : World → Option ℕ → M Slot
find_watch_checked world wd = do slot ← gets λ t. find_watch wd t.cache; checked world slot

abbrev pub event_slot : World → Event → Option ℕ → M Slot
event_slot world e none = pure unset
event_slot world e (some d) =
    if e.was_ignored then pure unset else find_watch_checked world (some d)

abbrev pub or_undefined : Option (List ℕ) → M (List ℕ)
or_undefined none = leave undefined
or_undefined (some path) = pure path

abbrev pub path_of : Option Watch → Option (List ℕ)
path_of none = none
path_of (some w) = some w.path

-- `wlCache[slot].path`
unfoldable pub slot_path : Slot → M (List ℕ)
slot_path (at j) = do p ← gets λ t. path_of (slot_at j t.cache); or_undefined p
slot_path unset = leave undefined
slot_path missing = leave undefined

abbrev pub clear_slot : Slot → M (Unit {0})
clear_slot (at j) = set_cache (mark_cache_slot_empty j)
clear_slot unset = leave undefined
clear_slot missing = leave undefined

abbrev pub matches : Event → Event → Bool
matches e next = next.moved_to && (next.cookie == e.cookie)

-- the end of the handling of an event in which the kernel refused to let a watch go
abbrev pub zapped : World → Bool → M Next
zapped world true = done world one
zapped world false = reinitialize world >> pure discard

-- a directory was moved from its place to that of the next event
abbrev pub move_to : World → Event → Event → Slot → Slot → M Next
move_to world e next slot missing = reinitialize world >> pure discard
move_to world e next slot to = do
  old ← slot_path slot
  new ← slot_path to
  set_cache λ cache. rewrite_cached_paths old e.name new next.name cache
  done world two

abbrev pub move_out : World → Event → Slot → M Next
move_out world e slot = do
  old ← slot_path slot
  whole ← zap_subtree world (join old e.name)
  zapped world whole

unfoldable pub moved_dir : World → Event → List Event → Bool → Slot → M Next
unfolding done slot_path find_watch_checked zap_subtree reinitialize
moved_dir world e [] first_try slot = if first_try then pure again else move_out world e slot
moved_dir world e (next ∷ rest) first_try slot =
    if matches e next
    then (do to ← find_watch_checked world next.wd; move_to world e next slot to)
    else move_out world e slot

-- a directory is new in the tree
unfoldable pub new_dir : World → Event → Slot → M Next
unfolding done slot_path watch_subtree
new_dir world e slot = do
  path ← slot_path slot
  known ← gets λ t. pathname_in_cache (join path e.name) t.cache
  if known then pure tt else watch_subtree world (join path e.name)
  done world one

unfoldable pub deleted_dir : World → Slot → M Next
unfolding done slot_path zap_root_dir_path
deleted_dir world slot = do
  path ← slot_path slot
  root ← is_root_dir_path path
  if root then zap_root_dir_path path else pure tt
  clear_slot slot
  done world one

abbrev pub lose_root : World → List ℕ → M Next
lose_root world path = do zap_root_dir_path path; whole ← zap_subtree world path; zapped world whole

unfoldable pub moved_self : World → Slot → M Next
unfolding done slot_path zap_root_dir_path zap_subtree reinitialize
moved_self world slot = do
  path ← slot_path slot
  root ← is_root_dir_path path
  if root then lose_root world path else done world one

-- the kinds of an event, in the order of the tests
unfoldable pub handle : World → Event → List Event → Bool → Slot → M Next
unfolding done moved_dir new_dir deleted_dir moved_self reinitialize
handle world e rest first_try slot =
    if e.is_dir && (e.create || e.moved_to)
    then new_dir world e slot
    else (if e.delete_self
        then deleted_dir world slot
        else (if e.moved_from && e.is_dir
            then moved_dir world e rest first_try slot
            else (if e.q_overflow
                then (reinitialize world >> done world discard)
                else (if e.unmount
                    then (clear_slot slot >> done world one)
                    else (if e.move_self then moved_self world slot else done world one)))))

abbrev pub handle_slot : World → Event → List Event → Bool → Slot → M Next
handle_slot world e rest first_try missing = reinitialize world >> pure discard
handle_slot world e rest first_try slot = handle world e rest first_try slot

unfoldable pub process_next : World → Event → List Event → Bool → M Next
unfolding handle find_watch_checked reinitialize
process_next world e rest first_try = do
  slot ← event_slot world e e.wd
  handle_slot world e rest first_try slot
