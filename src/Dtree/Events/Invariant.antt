-- ===== src/Dtree/Events/Invariant.antt =====
-- The parts of `processNextInotifyEvent`, and the order of the cache.
use my_file.Prelude.{ℕ, Bool, ◌&&◌, ◌||◌, Option, none, some, List, [], ◌∷◌}
use my_file.Dtree.State.{Tree, World, aborted, ◌>>=◌, ◌>>◌, pure, leave}
use my_file.Dtree.Cache.{find_watch, pathname_in_cache}
use my_file.Dtree.Cache.Distinct.{Distinct, Distinct-Fewer}
use my_file.Dtree.Paths.{join, rewrite_cached_paths, zap_root_dir_path, find_root}
use my_file.Dtree.Paths.Subtree.{rewrite_paths-Fewer}
use my_file.Dtree.Events.{
  set_cache, lose_root, watch_subtree, reinitialize, zap_subtree, Event, one, two, discard, again,
  done, Slot, at, unset, missing, checked, find_watch_checked, event_slot, slot_path, clear_slot,
  matches, move_to, move_out, moved_dir, new_dir, deleted_dir, moved_self, handle, handle_slot,
  process_next,
}
use my_file.Dtree.Events.Keeps.{
  Ordered, Keeps, step, choice, reinitialize-Keeps, done-Keeps, watch_subtree-Keeps, dropped-Keeps,
  zapped-Keeps, zap_subtree-Keeps, slot_path-Keeps, clear_slot-Keeps, zap_root-Keeps,
}

checked-Keeps : (world : World) (found : Option ℕ) → Keeps (checked world found)
checked-Keeps world (some j) t h = h
checked-Keeps world none t h =
    choice world.abort_on_problem (leave aborted) (pure missing) (λ u k. tt) (λ u k. k) t h

find_checked-Keeps : (world : World) (wd : Option ℕ) → Keeps (find_watch_checked world wd)
unfolding find_watch_checked
find_checked-Keeps world wd t h = checked-Keeps world (find_watch wd t.cache) t h

event_slot-Keeps : (world : World) (e : Event) (wd : Option ℕ) → Keeps (event_slot world e wd)
event_slot-Keeps world e none t h = h
event_slot-Keeps world e (some d) t h =
    choice e.was_ignored (pure unset) (find_watch_checked world (some d)) (λ u k. k)
      (find_checked-Keeps world (some d)) t h

module _ (world : World) (e : Event) where
  move_in_place-Keeps :
      (next : Event) (slot to : Slot)
      → Keeps (do
        old ← slot_path slot
        new ← slot_path to
        set_cache λ cache. rewrite_cached_paths old e.name new next.name cache
        done world two)
  unfolding rewrite_cached_paths
  move_in_place-Keeps next slot to t h =
      step (slot_path slot t) _ (slot_path-Keeps slot t h) (λ old u k.
        step (slot_path to u) _ (slot_path-Keeps to u k) (λ new v l. done-Keeps world two _ (
          Distinct-Fewer _ v.cache
            (rewrite_paths-Fewer (join old e.name) (join new next.name) v.cache) l)))

  move_to-Keeps : (next : Event) (slot to : Slot) → Keeps (move_to world e next slot to)
  move_to-Keeps next slot (at j) = move_in_place-Keeps next slot (at j)
  move_to-Keeps next slot unset = move_in_place-Keeps next slot unset
  move_to-Keeps next slot missing = dropped-Keeps world

  move_out-Keeps : (slot : Slot) → Keeps (move_out world e slot)
  move_out-Keeps slot t h = step (slot_path slot t) _ (slot_path-Keeps slot t h) (λ old u k.
      step (zap_subtree world (join old e.name) u) _ (zap_subtree-Keeps world (join old e.name) u k)
        (zapped-Keeps world))

  moved_dir-Keeps :
      (rest : List Event) (first_try : Bool) (slot : Slot)
      → Keeps (moved_dir world e rest first_try slot)
  unfolding moved_dir
  moved_dir-Keeps [] first_try slot =
      choice first_try (pure again) (move_out world e slot) (λ t h. h) (move_out-Keeps slot)
  moved_dir-Keeps (next ∷ rest) first_try slot =
      choice (matches e next) _ (move_out world e slot)
        (λ t h.
          step (find_watch_checked world next.wd t) _ (find_checked-Keeps world next.wd t h)
            (move_to-Keeps next slot))
        (move_out-Keeps slot)

  new_dir-Keeps : (slot : Slot) → Keeps (new_dir world e slot)
  unfolding new_dir
  new_dir-Keeps slot t h = step (slot_path slot t) _ (slot_path-Keeps slot t h) (λ path u k.
      step _ _
        (choice (pathname_in_cache (join path e.name) u.cache) (pure tt)
          (watch_subtree world (join path e.name)) (λ v l. l)
          (watch_subtree-Keeps world (join path e.name)) u k)
        (λ _ v l. done-Keeps world one v l))

deleted_dir-Keeps : (world : World) (slot : Slot) → Keeps (deleted_dir world slot)
unfolding deleted_dir
deleted_dir-Keeps world slot t h = step (slot_path slot t) _ (slot_path-Keeps slot t h) (λ path u k.
    step _ _
      (choice (find_root path u.roots) (zap_root_dir_path path) (pure tt) (zap_root-Keeps path)
        (λ v l. l) u k)
      (λ _ v l.
        step (clear_slot slot v) _ (clear_slot-Keeps slot v l) (λ _ x m. done-Keeps world one x m)))

module _ (world : World) where
  lose_root-Keeps : (path : List ℕ) → Keeps (lose_root world path)
  lose_root-Keeps path t h = step (zap_root_dir_path path t) _ (zap_root-Keeps path t h) (λ _ u k.
      step (zap_subtree world path u) _ (zap_subtree-Keeps world path u k) (zapped-Keeps world))

  moved_self-Keeps : (slot : Slot) → Keeps (moved_self world slot)
  unfolding moved_self
  moved_self-Keeps slot t h = step (slot_path slot t) _ (slot_path-Keeps slot t h) (λ path u k.
      choice (find_root path u.roots) (lose_root world path) (done world one) (lose_root-Keeps path)
        (done-Keeps world one) u k)

  handle-Keeps :
      (e : Event) (rest : List Event) (first_try : Bool) (slot : Slot)
      → Keeps (handle world e rest first_try slot)
  unfolding handle
  handle-Keeps e rest first_try slot =
      choice (e.is_dir && (e.create || e.moved_to)) _ _ (new_dir-Keeps world e slot) (
        choice e.delete_self _ _ (deleted_dir-Keeps world slot) (
          choice (e.moved_from && e.is_dir) _ _ (moved_dir-Keeps world e rest first_try slot) (
            choice e.q_overflow _ _
              (λ t h.
                step (reinitialize world t) _ (reinitialize-Keeps world t h)
                  (λ _ u k. done-Keeps world discard u k))
              (choice e.unmount (clear_slot slot >> done world one) _
                (λ t h.
                  step (clear_slot slot t) _ (clear_slot-Keeps slot t h)
                    (λ _ u k. done-Keeps world one u k))
                (choice e.move_self _ (done world one) (moved_self-Keeps slot)
                  (done-Keeps world one))))))

  handle_slot-Keeps :
      (e : Event) (rest : List Event) (first_try : Bool) (slot : Slot)
      → Keeps (handle_slot world e rest first_try slot)
  handle_slot-Keeps e rest first_try (at j) = handle-Keeps e rest first_try (at j)
  handle_slot-Keeps e rest first_try unset = handle-Keeps e rest first_try unset
  handle_slot-Keeps e rest first_try missing = dropped-Keeps world

-- Whatever the kernel answers, an event that is processed on a cache in which no watch descriptor
-- stands in two slots leaves such a cache, or ends the process.
pub process_next-Ordered :
    (world : World) (e : Event) (rest : List Event) (first_try : Bool) (t : Tree)
    → Distinct t.cache
    → Ordered (process_next world e rest first_try t)
unfolding process_next
process_next-Ordered world e rest first_try t h =
    step (event_slot world e e.wd t) _ (event_slot-Keeps world e e.wd t h)
      (handle_slot-Keeps world e rest first_try)
