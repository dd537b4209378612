-- ===== src/Dtree/Cache.antt =====
-- The watch cache of inotify_dtree.c: an array of slots that is searched linearly.
pub mod Distinct
use my_file.Prelude.{
  ℕ, zero, suc, ◌+◌, Bool, true, false, ◌&&◌, Option, none, some, List, [], ◌∷◌, ◌++◌, ◌==◌,
  if◌then◌else◌, length, take, replicate, bytes_eq,
}
use my_file.Dtree.State.{Watch}

abbrev pub path_max : ℕ
path_max = 4096

abbrev pub next_slot : Option ℕ → Option ℕ
next_slot none = none
next_slot (some j) = some (suc j)

-- the first slot that passes a test
unfoldable pub find_slot : (Watch → Bool) → List Watch → Option ℕ
find_slot p [] = none
find_slot p (w ∷ ws) = let rest = next_slot (find_slot p ws) in if p w then some 0 else rest

abbrev pub is_used : Watch → Bool
is_used w = elim w.wd [ none ↦ false | some _ ↦ true ]

abbrev pub is_empty : Watch → Bool
is_empty w = elim w.wd [ none ↦ true | some _ ↦ false ]

-- the descriptor of a slot against another one
abbrev pub is_wd : Option ℕ → Watch → Bool
is_wd none w = is_empty w
is_wd (some d) w = elim w.wd [ none ↦ false | some e ↦ e == d ]

unfoldable pub find_watch : Option ℕ → List Watch → Option ℕ
unfolding find_slot
find_watch wd cache = find_slot (is_wd wd) cache

abbrev pub empty_slot : Watch
empty_slot = record { wd = none; path = [] }

-- assignment to a slot
unfoldable pub put : ℕ → Watch → List Watch → List Watch
put j w [] = []
put zero w (v ∷ vs) = w ∷ vs
put (suc j) w (v ∷ vs) = v ∷ put j w vs

abbrev pub mark_cache_slot_empty : ℕ → List Watch → List Watch
mark_cache_slot_empty slot cache = put slot empty_slot cache

abbrev pub alloc_incr : ℕ
alloc_incr = 200

abbrev pub free_or_grown : Option ℕ → List Watch → ℕ × List Watch
free_or_grown (some j) cache = (j, cache)
free_or_grown none cache = (length cache, cache ++ replicate alloc_incr empty_slot)

-- the free slot, and the cache in which it is one
unfoldable pub find_empty_cache_slot : List Watch → ℕ × List Watch
unfolding find_slot
find_empty_cache_slot cache = free_or_grown (find_slot is_empty cache) cache

unfoldable pub add_watch_to_cache : ℕ → List ℕ → List Watch → List Watch
unfolding find_empty_cache_slot put
add_watch_to_cache d pathname cache =
    let (slot, room) = find_empty_cache_slot cache in
    put slot (record { wd = some d; path = take path_max pathname }) room

unfoldable pub pathname_to_cache_slot : List ℕ → List Watch → Option ℕ
unfolding find_slot
pathname_to_cache_slot pathname cache = find_slot (λ w. is_used w && bytes_eq w.path pathname) cache

unfoldable pub pathname_in_cache : List ℕ → List Watch → Bool
unfolding pathname_to_cache_slot
pathname_in_cache pathname cache = elim (pathname_to_cache_slot pathname cache) [
  | none ↦ false
  | some _ ↦ true
]

-- the slot of that number
unfoldable pub slot_at : ℕ → List Watch → Option Watch
slot_at j [] = none
slot_at zero (w ∷ ws) = some w
slot_at (suc j) (w ∷ ws) = slot_at j ws
