-- ===== src/Dtree/Events/Once.antt =====
-- An event that is processed for the second time is not put off again.
use my_file.Prelude.{ℕ, Bool, true, false, ◌&&◌, ◌||◌, List, [], ◌∷◌, if◌then◌else◌}
use my_file.Dtree.State.{Tree, World, Run, ok, exits, M, and_then, pure, ◌>>◌}
use my_file.Dtree.Paths.{join, zap_root_dir_path, find_root}
use my_file.Dtree.Cache.{pathname_in_cache}
use my_file.Dtree.Events.{
  Event, Next, one, two, discard, again, check_cache_consistency, done, Slot, at, unset, missing,
  event_slot, find_watch_checked, slot_path, clear_slot, matches, zapped, move_to, move_out,
  moved_dir, new_dir, deleted_dir, lose_root, moved_self, handle, handle_slot, process_next,
  reinitialize, zap_subtree, watch_subtree,
}

-- The run does not ask for more events.
abbrev pub NoRead : Run Next → Type 0
NoRead (ok again t) = ⊥
NoRead (ok _ t) = Unit
NoRead (exits e) = Unit

abbrev Never : M Next → Type 0
Never m = (t : Tree) → NoRead (m t)

after_step :
    {A : Type 0} → (r : Run A) (k : A → M Next) → ((a : A) → Never (k a)) → NoRead (and_then r k)
after_step (ok a t) k h = h a t
after_step (exits e) k h = tt

choice : (b : Bool) (m n : M Next) → Never m → Never n → Never (if b then m else n)
choice true m n h k = h
choice false m n h k = k

abbrev Kept : Next → Type 0
Kept again = ⊥
Kept _ = Unit

pure-Never : (next : Next) → Kept next → Never (pure next)
pure-Never one k t = tt
pure-Never two k t = tt
pure-Never discard k t = tt
pure-Never again k t = k

module _ (world : World) where
  done-Never : (next : Next) → Kept next → Never (done world next)
  unfolding done
  done-Never next k t =
      choice t.check_cache (check_cache_consistency world >> pure next) (pure next)
        (λ u. after_step (check_cache_consistency world u) _ (λ _. pure-Never next k))
        (pure-Never next k) t

  dropped-Never : Never (reinitialize world >> pure discard)
  dropped-Never t = after_step (reinitialize world t) _ (λ _ u. tt)

  zapped-Never : (whole : Bool) → Never (zapped world whole)
  zapped-Never true = done-Never one tt
  zapped-Never false = dropped-Never

  move_to-Never : (e next : Event) (slot to : Slot) → Never (move_to world e next slot to)
  move_to-Never e next slot missing t = dropped-Never t
  move_to-Never e next slot (at j) t =
      after_step (slot_path slot t) _
        (λ old u. after_step (slot_path (at j) u) _ (λ new v. done-Never two tt _))
  move_to-Never e next slot unset t =
      after_step (slot_path slot t) _
        (λ old u. after_step (slot_path unset u) _ (λ new v. done-Never two tt _))

  move_out-Never : (e : Event) (slot : Slot) → Never (move_out world e slot)
  move_out-Never e slot t =
      after_step (slot_path slot t) _
        (λ old u. after_step (zap_subtree world (join old e.name) u) _ zapped-Never)

  moved_dir-Never :
      (e : Event) (rest : List Event) (slot : Slot) → Never (moved_dir world e rest false slot)
  unfolding moved_dir
  moved_dir-Never e [] slot = move_out-Never e slot
  moved_dir-Never e (next ∷ rest) slot =
      choice (matches e next) _ (move_out world e slot)
        (λ t. after_step (find_watch_checked world next.wd t) _ (move_to-Never e next slot))
        (move_out-Never e slot)

  new_dir-Never : (e : Event) (slot : Slot) → Never (new_dir world e slot)
  unfolding new_dir
  new_dir-Never e slot t = after_step (slot_path slot t) _ (λ path u.
      after_step
        ((if pathname_in_cache (join path e.name) u.cache
            then pure tt
            else watch_subtree world (join path e.name))
          u)
        _ (λ _ v. done-Never one tt v))

  deleted_dir-Never : (slot : Slot) → Never (deleted_dir world slot)
  unfolding deleted_dir
  deleted_dir-Never slot t = after_step (slot_path slot t) _ (λ path u.
      after_step ((if find_root path u.roots then zap_root_dir_path path else pure tt) u) _
        (λ _ v. after_step (clear_slot slot v) _ (λ _ x. done-Never one tt x)))

  lose_root-Never : (path : List ℕ) → Never (lose_root world path)
  lose_root-Never path t =
      after_step (zap_root_dir_path path t) _
        (λ _ u. after_step (zap_subtree world path u) _ zapped-Never)

  moved_self-Never : (slot : Slot) → Never (moved_self world slot)
  unfolding moved_self
  moved_self-Never slot t = after_step (slot_path slot t) _ (λ path u.
      choice (find_root path u.roots) (lose_root world path) (done world one) (lose_root-Never path)
        (done-Never one tt) u)

  handle-Never :
      (e : Event) (rest : List Event) (slot : Slot) → Never (handle world e rest false slot)
  unfolding handle
  handle-Never e rest slot =
      choice (e.is_dir && (e.create || e.moved_to)) _ _ (new_dir-Never e slot) (
        choice e.delete_self _ _ (deleted_dir-Never slot) (
          choice (e.moved_from && e.is_dir) _ _ (moved_dir-Never e rest slot) (
            choice e.q_overflow _ _
              (λ t. after_step (reinitialize world t) _ (λ _ u. done-Never discard tt u))
              (choice e.unmount (clear_slot slot >> done world one) _
                (λ t. after_step (clear_slot slot t) _ (λ _ u. done-Never one tt u))
                (choice e.move_self _ (done world one) (moved_self-Never slot)
                  (done-Never one tt))))))

  handle_slot-Never :
      (e : Event) (rest : List Event) (slot : Slot) → Never (handle_slot world e rest false slot)
  handle_slot-Never e rest (at j) = handle-Never e rest (at j)
  handle_slot-Never e rest unset = handle-Never e rest unset
  handle_slot-Never e rest missing = dropped-Never

  pub process_next-NoRead :
      (e : Event) (rest : List Event) (t : Tree) → NoRead (process_next world e rest false t)
  unfolding process_next
  process_next-NoRead e rest t = after_step (event_slot world e e.wd t) _ (handle_slot-Never e rest)
