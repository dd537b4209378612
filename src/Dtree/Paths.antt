-- ===== src/Dtree/Paths.antt =====
-- The paths of the cache: `rewriteCachedPaths`, `zapSubtree`, and the root paths.
pub mod Subtree
pub mod Rename
use my_file.Prelude.{
  ℕ, zero, suc, ◌+◌, Bool, true, false, ◌&&◌, Option, none, some, List, [], ◌∷◌, ◌++◌, ◌==◌,
  if◌then◌else◌, length, take, bytes_eq,
}
use my_file.Dtree.State.{
  Watch, Tree, Exit, failure, no_roots_left, M, ◌>>=◌, ◌>>◌, pure, leave, gets, modify,
}
use my_file.Dtree.Cache.{path_max, empty_slot, is_used}

abbrev pub slash : ℕ
slash = b'/'

-- What `snprintf` of two parts leaves in a buffer of `path_max` bytes.
abbrev pub printed : List ℕ → List ℕ → List ℕ
printed a b = take 4095 (a ++ b)

abbrev pub join : List ℕ → List ℕ → List ℕ
join prefix name = printed prefix (slash ∷ name)

-- The rest of a path that is `full` or goes on with a slash behind it.
unfoldable pub below : List ℕ → List ℕ → Option (List ℕ)
below [] [] = some []
below [] (c ∷ cs) = if c == slash then some (c ∷ cs) else none
below (p ∷ ps) [] = none
below (p ∷ ps) (c ∷ cs) = let rest = below ps cs in if p == c then rest else none

abbrev pub renamed : List ℕ → Watch → Option (List ℕ) → Watch
renamed new w none = w
renamed new w (some rest) = record w { path = printed new rest }

unfoldable pub rewrite_paths : List ℕ → List ℕ → List Watch → List Watch
unfolding below
rewrite_paths old new [] = []
rewrite_paths old new (w ∷ ws) = renamed new w (below old w.path) ∷ rewrite_paths old new ws

unfoldable pub rewrite_cached_paths : List ℕ → List ℕ → List ℕ → List ℕ → List Watch → List Watch
unfolding rewrite_paths
rewrite_cached_paths old_prefix old_name new_prefix new_name cache =
    rewrite_paths (join old_prefix old_name) (join new_prefix new_name) cache

abbrev pub is_below : List ℕ → Watch → Bool
is_below path w = elim (below path w.path) [ none ↦ false | some _ ↦ true ]

-- whether the kernel lets go of the watch of a slot
abbrev pub lets_go : (ℕ → Bool) → Watch → Bool
lets_go removes w = elim w.wd [ none ↦ true | some d ↦ removes d ]

-- The slots behind the scan, with the number of those that were emptied, or none where the kernel
-- refused one, at which the scan stops.
unfoldable pub zap_loop : (ℕ → Bool) → List ℕ → List Watch → List Watch × Option ℕ
unfolding below
zap_loop removes path [] = ([], some 0)
zap_loop removes path (w ∷ ws) =
    let (vs, cnt) = zap_loop removes path ws in
    if is_used w && is_below path w
    then (if lets_go removes w
        then (empty_slot ∷ vs, elim cnt [ none ↦ none | some n ↦ some (suc n) ])
        else (w ∷ ws, none))
    else (w ∷ vs, cnt)

unfoldable pub find_root : List ℕ → List (Option (List ℕ)) → Bool
find_root path [] = false
find_root path (none ∷ rs) = find_root path rs
find_root path (some r ∷ rs) =
    let rest = find_root path rs in if bytes_eq path r then true else rest

-- the root paths without the first one of that name
unfoldable pub clear_root : List ℕ → List (Option (List ℕ)) → List (Option (List ℕ))
clear_root path [] = []
clear_root path (none ∷ rs) = none ∷ clear_root path rs
clear_root path (some r ∷ rs) =
    let rest = clear_root path rs in if bytes_eq path r then none ∷ rs else some r ∷ rest

abbrev pub is_root_dir_path : List ℕ → M Bool
is_root_dir_path path = gets λ t. find_root path t.roots

-- none of the root paths is left
abbrev pub quit_if : Bool → M (Unit {0})
quit_if true = leave no_roots_left
quit_if false = pure tt

abbrev pub found_or_fail : Bool → M (Unit {0})
found_or_fail true = pure tt
found_or_fail false = leave failure

unfoldable pub zap_root_dir_path : List ℕ → M (Unit {0})
unfolding find_root clear_root
zap_root_dir_path path = do
  there ← is_root_dir_path path
  found_or_fail there
  modify λ t. record t { roots = clear_root path t.roots; ignored = suc t.ignored }
  over ← gets λ t. t.ignored == length t.roots
  quit_if over
