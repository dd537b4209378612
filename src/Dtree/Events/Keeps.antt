-- ===== src/Dtree/Events/Keeps.antt =====
-- The order of the cache, and the functions of inotify_dtree.c that change it.
use my_file.Prelude.{
  ℕ, ◌≡◌, refl, Bool, true, false, Option, none, some, List, [], ◌∷◌, if◌then◌else◌,
}
use my_file.Dtree.State.{
  Watch, Tree, Added, watching, enoent, refused, Visit, World, Run, ok, exits, M, and_then, ◌>>◌,
  pure,
}
use my_file.Dtree.Cache.{is_used, find_watch, slot_at}
use my_file.Dtree.Cache.Distinct.{
  Distinct, Distinct-Fewer, put-Fewer, find_watch-Absent, add-Distinct,
}
use my_file.Dtree.Paths.{zap_root_dir_path, quit_if, found_or_fail, find_root}
use my_file.Dtree.Paths.Subtree.{zap_loop-Fewer}
use my_file.Dtree.Events.{
  remember, add_visit, traverse_tree, traverse_all, watch_subtree, watch_roots, reinitialize,
  zap_subtree, Next, one, discard, check_path, check_loop, check_cache_consistency, done, Slot, at,
  unset, missing, or_undefined, path_of, slot_path, clear_slot, zapped,
}

-- The run ends the process, or leaves a cache in which no descriptor stands twice.
abbrev pub Ordered : {A : Type 0} → Run A → Type 0
Ordered (ok a t) = Distinct t.cache
Ordered (exits e) = Unit

abbrev pub Keeps : {A : Type 0} → M A → Type 0
Keeps m = (t : Tree) → Distinct t.cache → Ordered (m t)

-- a run and what follows it
pub step :
    {A B : Type 0}
    → (r : Run A) (k : A → M B) → Ordered r
    → ((a : A) → Keeps (k a))
    → Ordered (and_then r k)
step (ok a t) k h f = f a t h
step (exits e) k h f = tt

pub choice : {A : Type 0} → (b : Bool) (m n : M A) → Keeps m → Keeps n → Keeps (if b then m else n)
choice true m n h k = h
choice false m n h k = k

remember-Distinct :
    (d : ℕ) (path : List ℕ) (found : Option ℕ) (ws : List Watch)
    → find_watch (some d) ws ≡ found
    → Distinct ws
    → Distinct (remember d path found ws)
remember-Distinct d path (some j) ws e h = h
remember-Distinct d path none ws e h = add-Distinct d path ws (find_watch-Absent d ws e) h

add_visit-Keeps : (path : List ℕ) (a : Added) → Keeps (add_visit path a)
add_visit-Keeps path enoent t h = h
add_visit-Keeps path refused t h = tt
add_visit-Keeps path (watching d) t h =
    remember-Distinct d path (find_watch (some d) t.cache) t.cache refl h

traverse_tree-Keeps : (v : Visit) → Keeps (traverse_tree v)
unfolding traverse_tree
traverse_tree-Keeps v =
    choice v.is_dir (add_visit v.pathname v.added) (pure tt) (add_visit-Keeps v.pathname v.added)
      (λ t h. h)

traverse_all-Keeps : (vs : List Visit) → Keeps (traverse_all vs)
unfolding traverse_all
traverse_all-Keeps [] t h = h
traverse_all-Keeps (v ∷ vs) t h =
    step (traverse_tree v t) _ (traverse_tree-Keeps v t h) (λ _. traverse_all-Keeps vs)

found_or_fail-Keeps : (b : Bool) → Keeps (found_or_fail b)
found_or_fail-Keeps true t h = h
found_or_fail-Keeps false t h = tt

quit_if-Keeps : (b : Bool) → Keeps (quit_if b)
quit_if-Keeps true t h = tt
quit_if-Keeps false t h = h

pub zap_root-Keeps : (path : List ℕ) → Keeps (zap_root_dir_path path)
unfolding zap_root_dir_path
zap_root-Keeps path t h =
    step (found_or_fail (find_root path t.roots) t) _ (found_or_fail-Keeps _ t h)
      (λ _ u k. quit_if-Keeps _ _ k)

module _ (world : World) where
  pub watch_subtree-Keeps : (path : List ℕ) → Keeps (watch_subtree world path)
  unfolding watch_subtree
  watch_subtree-Keeps path t h = traverse_all-Keeps (world.visits t.walks path) _ h

  pub watch_roots-Keeps : (rs : List (Option (List ℕ))) → Keeps (watch_roots world rs)
  unfolding watch_roots
  watch_roots-Keeps [] t h = h
  watch_roots-Keeps (none ∷ rs) t h = watch_roots-Keeps rs t h
  watch_roots-Keeps (some r ∷ rs) t h =
      step (watch_subtree world r t) _ (watch_subtree-Keeps r t h) (λ _. watch_roots-Keeps rs)

  pub reinitialize-Keeps : Keeps (reinitialize world)
  unfolding reinitialize
  reinitialize-Keeps t h = watch_roots-Keeps t.roots _ tt

  pub dropped-Keeps : Keeps (reinitialize world >> pure discard)
  dropped-Keeps t h = step (reinitialize world t) _ (reinitialize-Keeps t h) (λ _ u k. k)

  check_path-Keeps : (o : Option Bool) (rest : M ℕ) → Keeps rest → Keeps (check_path o rest)
  check_path-Keeps none rest k t h = step (rest t) _ (k t h) (λ _ u l. l)
  check_path-Keeps (some true) rest k t h = k t h
  check_path-Keeps (some false) rest k t h = tt

  pub check_loop-Keeps :
      (stat : List ℕ → Option Bool) (ws : List Watch) → Keeps (check_loop stat ws)
  unfolding check_loop
  check_loop-Keeps stat [] = λ t h. h
  check_loop-Keeps stat (w ∷ ws) =
      choice (is_used w) _ _
        (check_path-Keeps (stat w.path) (check_loop stat ws) (check_loop-Keeps stat ws))
        (check_loop-Keeps stat ws)

  check-Keeps : Keeps (check_cache_consistency world)
  unfolding check_cache_consistency
  check-Keeps t h = check_loop-Keeps (world.is_directory t.walks) t.cache t h

  pub done-Keeps : (next : Next) → Keeps (done world next)
  unfolding done
  done-Keeps next t h =
      choice t.check_cache (check_cache_consistency world >> pure next) (pure next)
        (λ u k. step (check_cache_consistency world u) _ (check-Keeps u k) (λ _ v l. l)) (λ u k. k)
        t h

  pub zapped-Keeps : (whole : Bool) → Keeps (zapped world whole)
  zapped-Keeps true t h = done-Keeps one t h
  zapped-Keeps false t h = dropped-Keeps t h

  pub zap_subtree-Keeps : (path : List ℕ) → Keeps (zap_subtree world path)
  unfolding zap_subtree
  zap_subtree-Keeps path t h =
      Distinct-Fewer _ t.cache (zap_loop-Fewer (world.removes t.walks) path t.cache) h

or_undefined-Keeps : (p : Option (List ℕ)) → Keeps (or_undefined p)
or_undefined-Keeps none t h = tt
or_undefined-Keeps (some p) t h = h

pub slot_path-Keeps : (slot : Slot) → Keeps (slot_path slot)
unfolding slot_path
slot_path-Keeps (at j) t h = or_undefined-Keeps (path_of (slot_at j t.cache)) t h
slot_path-Keeps unset t h = tt
slot_path-Keeps missing t h = tt

pub clear_slot-Keeps : (slot : Slot) → Keeps (clear_slot slot)
clear_slot-Keeps (at j) t h = Distinct-Fewer _ t.cache (put-Fewer j t.cache) h
clear_slot-Keeps unset t h = tt
clear_slot-Keeps missing t h = tt
