-- ===== src/Dtree/Session.antt =====
-- `copyRootDirPaths`, `processInotifyEvents`, `executeCommand` and the loop of `main`.
pub mod Order
pub mod Fuel
pub mod Roots
use my_file.Prelude.{
  ℕ, zero, suc, ◌+◌, ◌*◌, ◌≡◌, Bool, true, false, not, ◌&&◌, ◌||◌, Option, none, some, List, [],
  ◌∷◌, ◌++◌, ◌==◌, if◌then◌else◌, length,
}
use my_file.Dtree.State.{
  Watch, Tree, World, Exit, Run, ok, failure, success, M, ◌>>=◌, ◌>>◌, pure, leave, gets, modify,
}
use my_file.Dtree.Cache.{is_used}
use my_file.Dtree.Events.{
  watch_subtree, watch_roots, reinitialize, zap_subtree, check_loop, Event, Next, one, two, discard,
  again, process_next,
}

-- what `lstat` says of a path: whether it is a directory, its i-node and its device
pub record Stat : Type 0 where
  pub is_dir : Bool
  pub ino : ℕ
  pub dev : ℕ

abbrev pub same_object : Stat → Stat → Bool
same_object a b = (a.ino == b.ino) && (a.dev == b.dev)

unfoldable pub has_object : Stat → List Stat → Bool
has_object a [] = false
has_object a (b ∷ bs) = same_object a b || has_object a bs

-- An argument, with what the two calls of `lstat` for it give: for the test of the path, and for
-- the comparison with the others.
abbrev pub Argument : Type 0
Argument = List ℕ × Option Stat × Option Stat

-- whether all arguments are directories
unfoldable pub all_directories : List Argument → Bool
all_directories [] = true
all_directories ((path, none, second) ∷ args) = false
all_directories ((path, some s, second) ∷ args) = s.is_dir && all_directories args

abbrev pub with_root : List ℕ → Option (List (Option (List ℕ))) → Option (List (Option (List ℕ)))
with_root path none = none
with_root path (some rs) = some (some path ∷ rs)

-- The copies of the paths, unless an object is named a second time; `seen` are those before.
unfoldable pub copy_loop : List Stat → List Argument → Option (List (Option (List ℕ)))
unfolding has_object
copy_loop seen [] = some []
copy_loop seen ((path, first, none) ∷ args) = none
copy_loop seen ((path, first, some s) ∷ args) =
    let rest = copy_loop (s ∷ seen) args in if has_object s seen then none else with_root path rest

unfoldable pub copy_root_dir_paths : List Argument → Option (List (Option (List ℕ)))
unfolding all_directories copy_loop
copy_root_dir_paths args = if all_directories args then copy_loop [] args else none

-- What a `read` of more events gives: events, a time-out, or nothing at all or an error.
pub data Read : Type 0 where
  got : List Event → Read
  interrupted : Read
  broken : Read

abbrev pub tail_of : List Event → List Event
tail_of [] = []
tail_of (e ∷ es) = es

abbrev pub Loop : Type 0
Loop = List Event → Bool → List Read → M (Option (List Read))

-- The event stands at the end of the buffer: once, more events are read. A read behind the last of
-- the list brings nothing until its time is over.
abbrev pub read_more : Loop → List Event → List Read → M (Option (List Read))
read_more loop buf [] = loop buf false []
read_more loop buf (got more ∷ rest) = loop (buf ++ more) false rest
read_more loop buf (interrupted ∷ rest) = loop buf false rest
read_more loop buf (broken ∷ rest) = leave failure

abbrev pub after_event : Loop → Event → List Event → List Read → Next → M (Option (List Read))
after_event loop e es reads one = loop es true reads
after_event loop e es reads two = loop (tail_of es) true reads
after_event loop e es reads discard = pure (some reads)
after_event loop e es reads again = read_more loop (e ∷ es) reads

-- The events of a buffer, and the reads that are left, none if the fuel runs out.
unfoldable pub events_loop : World → ℕ → List Event → Bool → List Read → M (Option (List Read))
events_loop world zero buf first_try reads = pure none
events_loop world (suc fuel) [] first_try reads = pure (some reads)
events_loop world (suc fuel) (e ∷ es) first_try reads = do
  next ← process_next world e es first_try
  after_event (events_loop world fuel) e es reads next

-- Two rounds for each event of a buffer, and for each that the reads bring.
abbrev pub brought : List Read → ℕ
brought [] = 0
brought (got more ∷ rest) = 2 * length more + brought rest
brought (interrupted ∷ rest) = brought rest
brought (broken ∷ rest) = brought rest

-- The first read and what follows from it.
unfoldable pub process_inotify_events : World → List Read → M (Option (List Read))
unfolding events_loop
process_inotify_events world [] = pure (some [])
process_inotify_events world (got buf ∷ rest) =
    events_loop world (2 * length buf + brought rest + 2) buf true rest
process_inotify_events world (interrupted ∷ rest) = leave failure
process_inotify_events world (broken ∷ rest) = leave failure

-- The command letters that do something; `'v'`, which changes only what is printed, and a letter
-- that is not known, are `other`.
pub data Command : Type 0 where
  add zap : List ℕ → Command
  check list quit toggle_dump toggle_check rebuild other : Command

abbrev pub forget : {A : Type 0} → M A → M (Unit {0})
forget m = do r ← m; pure tt

unfoldable pub execute_command : World → Command → M (Unit {0})
unfolding zap_subtree watch_subtree watch_roots check_loop
execute_command world (add path) = zap_subtree world path >> watch_subtree world path
execute_command world (zap path) = forget (zap_subtree world path)
execute_command world check = do
  n ← gets λ t. t.walks
  cache ← gets λ t. t.cache
  forget (check_loop (world.is_directory n) cache)
execute_command world list = pure tt
execute_command world quit = leave success
execute_command world toggle_dump = modify λ t. record t { dump_cache = not t.dump_cache }
execute_command world toggle_check = modify λ t. record t { check_cache = not t.check_cache }
execute_command world rebuild = do
  modify λ t. record t { reinits = 0; cache = [] }
  roots ← gets λ t. t.roots
  watch_roots world roots
execute_command world other = pure tt

-- what `select` reports
pub data Ready : Type 0 where
  keyboard : Command → Ready
  events : List Read → Ready

abbrev pub serve : World → Ready → M (Unit {0})
serve world (keyboard c) = execute_command world c
serve world (events reads) = forget (process_inotify_events world reads)

-- the state behind the options and the copy of the root paths
abbrev pub first_state : List (Option (List ℕ)) → Bool → Bool → Tree
first_state roots checking dumping = record {
  cache = [];
  roots = roots;
  ignored = 0;
  reinits = 0;
  walks = 0;
  check_cache = checking;
  dump_cache = dumping;
}

-- the first building of the cache
unfoldable pub begin : World → List (Option (List ℕ)) → Bool → Bool → Run (Unit {0})
unfolding execute_command
begin world roots checking dumping =
    execute_command world rebuild (first_state roots checking dumping)

-- The states that the loop of `main` passes through.
pub data Reached (world : World) : Tree → Type 0 where
  started :
      (roots : List (Option (List ℕ))) (checking dumping : Bool) {t : Tree}
      → begin world roots checking dumping ≡ ok tt t
      → Reached world t
  served : (r : Ready) {s t : Tree} → Reached world s → serve world r s ≡ ok tt t → Reached world t
