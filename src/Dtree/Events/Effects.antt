-- ===== src/Dtree/Events/Effects.antt =====
-- What the events of a directory that is deleted, moves out of the tree or moves inside it leave in
-- the cache.
use my_file.Prelude.{
  ℕ, suc, ◌≡◌, ◌≢◌, refl, Bool, true, false, Bool-cases, Option-cases, inl, inr, Option, none, some,
  List, [], ◌∷◌, ◌==◌, ==-refl, arith,
}
use my_file.Dtree.State.{Watch, Tree, World, ok}
use my_file.Dtree.Cache.{find_slot, is_wd, find_watch, empty_slot, put, slot_at}
use my_file.Dtree.Cache.Distinct.{Distinct, Absent}
use my_file.Dtree.Paths.{join, find_root, rewrite_cached_paths}
use my_file.Dtree.Paths.Rename.{AllMoved, entry_path, rewrite_cached_paths-AllMoved}
use my_file.Dtree.Paths.Subtree.{without, AllGo, ClearOf, ClearOf-without, zap_loop-without}
use my_file.Dtree.Events.{
  Event, one, two, find_watch_checked, slot_path, zap_subtree, moved_dir, deleted_dir, handle, done,
  process_next,
}

-- a tree without the checks of the debugging option
abbrev pub quiet : Tree → Tree
quiet t = record t { check_cache = false }

-- the events of a directory that is deleted, and of a directory `name` in that of `d` that is moved
abbrev pub deletion : ℕ → Event
deletion d = record {
  wd = some d;
  is_dir = false;
  create = false;
  delete_self = true;
  move_self = false;
  moved_from = false;
  moved_to = false;
  was_ignored = false;
  q_overflow = false;
  unmount = false;
  cookie = 0;
  name = [];
}

abbrev pub departure : ℕ → ℕ → List ℕ → Event
departure d cookie name = record {
  wd = some d;
  is_dir = true;
  create = false;
  delete_self = false;
  move_self = false;
  moved_from = true;
  moved_to = false;
  was_ignored = false;
  q_overflow = false;
  unmount = false;
  cookie = cookie;
  name = name;
}

abbrev pub arrival : ℕ → ℕ → List ℕ → Event
arrival d cookie name = record (departure d cookie name) { moved_from = false; moved_to = true }

Absent-missed :
    (d : ℕ) (a : Option ℕ) → a ≢ some d → elim a [ none ↦ false | some e ↦ e == d ] ≡ false
Absent-missed d a ne = ground arith

find_watch-missed : (d : ℕ) (ws : List Watch) → Absent d ws → find_watch (some d) ws ≡ none
unfolding find_watch find_slot
find_watch-missed d [] a = refl
find_watch-missed d (w ∷ ws) a = rw (Absent-missed d w.wd a.0, find_watch-missed d ws a.1) refl

has_wd : (d : ℕ) (a : Option ℕ) → elim a [ none ↦ false | some e ↦ e == d ] ≡ true → a ≡ some d
has_wd d a h = ground arith

Absent-head :
    (d : ℕ) (w : Watch) (ws : List Watch) → w.wd ≡ some d → Distinct (w ∷ ws) → Absent d ws
Absent-head d w ws e h = rw e at h.0

-- the descriptor of a slot that is emptied
pub find_watch-put :
    (d j : ℕ) (ws : List Watch)
    → Distinct ws
    → find_watch (some d) ws ≡ some j
    → find_watch (some d) (put j empty_slot ws) ≡ none
unfolding find_watch find_slot put
find_watch-put d j [] h e = cc
find_watch-put d j (w ∷ ws) h e = elim (Bool-cases (is_wd (some d) w)) [
  | inl hit ↦
      let first = rw hit at e in
      let zeroth : j ≡ 0 = ground arith in
      rw (zeroth, find_watch-missed d ws (Absent-head d w ws (has_wd d w.wd hit) h)) refl
  | inr miss ↦ elim (Option-cases (find_watch (some d) ws)) [
    | inl gone ↦ absurd (let k = rw (miss, gone) at e in cc)
    | inr (i, at_i) ↦
        let k = rw (miss, at_i) at e in
        let later : j ≡ suc i = ground arith in
        rw (later, miss, find_watch-put d i ws h.1 at_i) refl
  ]
]

module _ (world : World) (t : Tree) (d j : ℕ) (w : Watch)
    (found : find_watch (some d) t.cache ≡ some j) (there : slot_at j t.cache ≡ some w) where
  -- The deletion of a watched directory that is not a root path, on a cache in which no descriptor
  -- stands twice and with cache checks off, empties its slot and no other, after which its
  -- descriptor is not found, and consumes the event.
  pub process_next-deletion :
      (rest : List Event) (first_try : Bool)
      → Distinct t.cache
      → find_root w.path t.roots ≡ false
      → (process_next world (deletion d) rest first_try (quiet t)
          ≡ ok one (record (quiet t) { cache = put j empty_slot t.cache }))
        × (find_watch (some d) (put j empty_slot t.cache) ≡ none)
  unfolding process_next find_watch_checked handle deleted_dir slot_path done
  process_next-deletion rest first_try distinct child =
      (rw (found, there, child) refl, find_watch-put d j t.cache distinct found)

  -- A directory of a watched directory leaves the tree: where its event is processed with none
  -- behind it for the second time, the kernel lets each watch at or below its path go and cache
  -- checks are off, just the used slots at or below the path are emptied, none of them is left, and
  -- the event is consumed.
  pub process_next-move_out :
      (cookie : ℕ) (name : List ℕ)
      → AllGo (world.removes t.walks) (join w.path name) t.cache
      → (process_next world (departure d cookie name) [] false (quiet t)
          ≡ ok one (record (quiet t) { cache = without (join w.path name) t.cache }))
        × ClearOf (join w.path name) (without (join w.path name) t.cache)
  unfolding process_next find_watch_checked handle moved_dir slot_path done zap_subtree
  process_next-move_out cookie name go = (
    rw (found, there, zap_loop-without (world.removes t.walks) (join w.path name) t.cache go) refl,
    ClearOf-without (join w.path name) t.cache,
  )

  -- A directory of a watched directory moves inside the tree: where the next event has the cookie
  -- of the departure and its directory is watched, and cache checks are off, both events are
  -- consumed and nothing but the cache changes: its paths that are the old path or go on behind it
  -- with a slash have the new path in its place, as far as their buffers go, and all others and the
  -- descriptors are as before.
  pub process_next-move_to :
      (e k cookie : ℕ) (v : Watch) (name new_name : List ℕ) (rest : List Event) (first_try : Bool)
      → find_watch (some e) t.cache ≡ some k
      → slot_at k t.cache ≡ some v
      → (cache : List Watch) × (process_next world
            (departure d cookie name)
            (arrival e cookie new_name ∷ rest)
            first_try
            (quiet t)
          ≡ ok two (record (quiet t) { cache = cache }))
        × AllMoved (entry_path w.path name) (entry_path v.path new_name) t.cache cache
  unfolding process_next find_watch_checked handle moved_dir slot_path done
  process_next-move_to e k cookie v name new_name rest first_try found' there' = (
    rewrite_cached_paths w.path name v.path new_name t.cache,
    rw (found, ==-refl cookie, found', there, there') refl,
    rewrite_cached_paths-AllMoved w.path name v.path new_name t.cache,
  )
