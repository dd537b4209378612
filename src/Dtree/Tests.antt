-- ===== src/Dtree/Tests.antt =====
-- A session with the directory tree monitor, and the theorems at it.
use my_file.Prelude.{none, ℕ, ◌≡◌, refl, arith, true, false, some, List, [], ◌∷◌, replicate}
use my_file.Dtree.State.{Watch, Tree, World, Visit, watching, ok}
use my_file.Dtree.Cache.{put, empty_slot, find_watch, add_watch_to_cache, slot_at}
use my_file.Dtree.Cache.Distinct.{Distinct}
use my_file.Dtree.Paths.{find_root, below, rewrite_cached_paths, slash}
use my_file.Dtree.Paths.Subtree.{ClearOf, AllGo, without}
use my_file.Dtree.Paths.Rename.{AllMoved, entry_path, rewrite_cached_paths-AllMoved}
use my_file.Dtree.Events.{Event, one, two, process_next, traverse_tree, find_watch_checked}
use my_file.Dtree.Events.Effects.{
  quiet, deletion, departure, arrival, process_next-deletion, process_next-move_out,
  process_next-move_to,
}
use my_file.Dtree.Session.Roots.{names, Roots, copy_root_dir_paths-Roots}
use my_file.Dtree.Session.{
  Argument, Stat, copy_root_dir_paths, got, process_inotify_events, begin, first_state, started,
}
use my_file.Dtree.Session.Order.{Reached-Distinct}
use my_file.Dtree.Session.Fuel.{Ends, process_inotify_events-Ends}

-- "r", "r/a", "r/a/b" and "r/ab"
abbrev r_a : List ℕ
r_a = b'r' ∷ slash ∷ b'a' ∷ []

abbrev r_a_b : List ℕ
r_a_b = b'r' ∷ slash ∷ b'a' ∷ slash ∷ b'b' ∷ []

abbrev r_ab : List ℕ
r_ab = b'r' ∷ slash ∷ b'a' ∷ b'b' ∷ []

abbrev visit : List ℕ → ℕ → Visit
visit path d = record { pathname = path; is_dir = true; added = watching d }

-- a tree of four directories
abbrev four_dirs : World
four_dirs = record {
  visits = λ n path. visit (b'r' ∷ []) 1 ∷ visit r_a 2 ∷ visit r_a_b 3 ∷ visit r_ab 4 ∷ [];
  removes = λ n d. true;
  is_directory = λ n path. some true;
  abort_on_problem = false;
}

abbrev slot : ℕ → List ℕ → Watch
slot d path = record { wd = some d; path = path }

abbrev small_cache : List Watch
small_cache = slot 1 (b'r' ∷ []) ∷ slot 2 r_a ∷ empty_slot ∷ slot 3 r_a_b ∷ slot 4 r_ab ∷ []

abbrev small_tree : Tree
small_tree = record {
  cache = small_cache;
  roots = some (b'r' ∷ []) ∷ [];
  ignored = 0;
  reinits = 0;
  walks = 1;
  check_cache = false;
  dump_cache = false;
}

abbrev moved_from_a : Event
moved_from_a = record {
  wd = some 1;
  is_dir = true;
  create = false;
  delete_self = false;
  move_self = false;
  moved_from = true;
  moved_to = false;
  was_ignored = false;
  q_overflow = false;
  unmount = false;
  cookie = 7;
  name = b'a' ∷ [];
}

abbrev moved_to_c : Event
moved_to_c = record moved_from_a { moved_from = false; moved_to = true; name = b'c' ∷ [] }

small_cache-Distinct : Distinct small_cache
small_cache-Distinct = ground arith

abbrev r_c : List ℕ
r_c = b'r' ∷ slash ∷ b'c' ∷ []

-- the paths "r/a" and "r/a/b" are rewritten, "r/ab" is not
move_in_tree :
    process_next four_dirs moved_from_a (moved_to_c ∷ []) true small_tree
    ≡ ok two (record small_tree {
      cache =
          slot 1 (b'r' ∷ [])
          ∷ slot 2 r_c
          ∷ empty_slot
          ∷ slot 3 (b'r' ∷ slash ∷ b'c' ∷ slash ∷ b'b' ∷ [])
          ∷ slot 4 r_ab
          ∷ [];
    })
unfolding process_next find_watch below rewrite_cached_paths slot_at find_watch_checked
move_in_tree = refl

-- with no event behind it, the directory has left the tree
move_out_of_tree :
    process_next four_dirs moved_from_a [] false small_tree
    ≡ ok one (record small_tree {
      cache = slot 1 (b'r' ∷ []) ∷ empty_slot ∷ empty_slot ∷ empty_slot ∷ slot 4 r_ab ∷ [];
    })
unfolding process_next find_watch below slot_at find_watch_checked
move_out_of_tree = refl

process_inotify_events-Ends_example : Ends (
    process_inotify_events four_dirs
      (got (moved_from_a ∷ []) ∷ got (moved_to_c ∷ []) ∷ [])
      small_tree)
process_inotify_events-Ends_example =
    process_inotify_events-Ends four_dirs (got (moved_from_a ∷ []) ∷ got (moved_to_c ∷ []) ∷ [])
      small_tree

all_go : AllGo (λ d. true) r_a small_cache
unfolding below
all_go = (refl, (refl, (refl, (refl, (refl, tt)))))

-- the directory "r/a" goes out of the tree
rewrite_cached_paths-AllMoved_example :
    AllMoved
      (entry_path (b'r' ∷ []) (b'a' ∷ []))
      (entry_path (b'r' ∷ []) (b'c' ∷ []))
      small_cache
      (rewrite_cached_paths (b'r' ∷ []) (b'a' ∷ []) (b'r' ∷ []) (b'c' ∷ []) small_cache)
rewrite_cached_paths-AllMoved_example =
    rewrite_cached_paths-AllMoved (b'r' ∷ []) (b'a' ∷ []) (b'r' ∷ []) (b'c' ∷ []) small_cache

-- the cache that `main` builds first
abbrev built : Tree
built = record (first_state (some (b'r' ∷ []) ∷ []) false false) {
  cache = slot 1 (b'r' ∷ []) ∷ slot 2 r_a ∷ slot 3 r_a_b ∷ slot 4 r_ab ∷ replicate 196 empty_slot;
  walks = 1;
}

four_begin : begin four_dirs (some (b'r' ∷ []) ∷ []) false false ≡ ok tt built
unfolding begin find_watch add_watch_to_cache traverse_tree
four_begin = refl

Reached-Distinct_example : Distinct built.cache
Reached-Distinct_example =
    Reached-Distinct four_dirs built (started (some (b'r' ∷ []) ∷ []) false false four_begin)

found_1 : find_watch (some 1) small_cache ≡ some 0
unfolding find_watch
found_1 = refl

there_1 : slot_at 0 small_cache ≡ some (slot 1 (b'r' ∷ []))
unfolding slot_at
there_1 = refl

found_3 : find_watch (some 3) small_cache ≡ some 3
unfolding find_watch
found_3 = refl

there_3 : slot_at 3 small_cache ≡ some (slot 3 r_a_b)
unfolding slot_at
there_3 = refl

not_root : find_root r_a_b small_tree.roots ≡ false
unfolding find_root
not_root = refl

process_next-deletion_example :
    (process_next four_dirs (deletion 3) [] true (quiet small_tree)
      ≡ ok one (record (quiet small_tree) { cache = put 3 empty_slot small_cache }))
    × (find_watch (some 3) (put 3 empty_slot small_cache) ≡ none)
process_next-deletion_example =
    process_next-deletion four_dirs small_tree 3 3 (slot 3 r_a_b) found_3 there_3 [] true
      small_cache-Distinct not_root

process_next-move_out_example :
    (process_next four_dirs (departure 1 7 (b'a' ∷ [])) [] false (quiet small_tree)
      ≡ ok one (record (quiet small_tree) { cache = without r_a small_cache }))
    × ClearOf r_a (without r_a small_cache)
process_next-move_out_example =
    process_next-move_out four_dirs small_tree 1 0 (slot 1 (b'r' ∷ [])) found_1 there_1 7
      (b'a' ∷ []) all_go

process_next-move_to_example :
    (cache : List Watch) × (process_next four_dirs
        (departure 1 7 (b'a' ∷ []))
        (arrival 1 7 (b'c' ∷ []) ∷ [])
        true
        (quiet small_tree)
      ≡ ok two (record (quiet small_tree) { cache = cache }))
    × AllMoved
        (entry_path (b'r' ∷ []) (b'a' ∷ []))
        (entry_path (b'r' ∷ []) (b'c' ∷ []))
        small_cache
        cache
process_next-move_to_example =
    process_next-move_to four_dirs small_tree 1 0 (slot 1 (b'r' ∷ [])) found_1 there_1 1 0 7
      (slot 1 (b'r' ∷ [])) (b'a' ∷ []) (b'c' ∷ []) [] true found_1 there_1

abbrev stat : ℕ → Stat
stat n = record { is_dir = true; ino = n; dev = 0 }

abbrev two_dirs : List Argument
two_dirs = (r_a, some (stat 5), some (stat 5)) ∷ (r_c, some (stat 6), some (stat 6)) ∷ []

two_copied : copy_root_dir_paths two_dirs ≡ some (some r_a ∷ some r_c ∷ [])
unfolding copy_root_dir_paths
two_copied = refl

copy_root_dir_paths-Roots_example : ((some r_a ∷ some r_c ∷ []) ≡ names two_dirs) × Roots two_dirs
copy_root_dir_paths-Roots_example =
    copy_root_dir_paths-Roots two_dirs (some r_a ∷ some r_c ∷ []) two_copied
