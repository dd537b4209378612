-- ===== src/Dtree/Session/Order.antt =====
-- The order of the cache in the loop of `main` of inotify_dtree.c.
use my_file.Prelude.{ℕ, ◌*◌, zero, suc, ◌+◌, ◌≡◌, Bool, true, false, List, [], ◌∷◌, ◌++◌, length}
use my_file.Dtree.State.{Tree, World, Run, ok, M}
use my_file.Dtree.Cache.Distinct.{Distinct}
use my_file.Dtree.Events.{
  Event, Next, one, two, discard, again, process_next, zap_subtree, check_loop,
}
use my_file.Dtree.Events.Keeps.{
  Ordered, Keeps, step, zap_subtree-Keeps, watch_subtree-Keeps, watch_roots-Keeps, check_loop-Keeps,
}
use my_file.Dtree.Events.Invariant.{process_next-Ordered}
use my_file.Dtree.Session.{
  Read, got, interrupted, broken, tail_of, Loop, read_more, after_event, events_loop, brought,
  process_inotify_events, Command, add, zap, check, list, quit, toggle_dump, toggle_check, rebuild,
  other, forget, execute_command, Ready, keyboard, events, serve, begin, first_state, Reached,
  started, served,
}

module _ (loop : Loop)
    (ih : (buf : List Event) (first_try : Bool) (reads : List Read)
      → Keeps (loop buf first_try reads)) where
  read_more-Keeps : (buf : List Event) (reads : List Read) → Keeps (read_more loop buf reads)
  read_more-Keeps buf [] t h = ih buf false [] t h
  read_more-Keeps buf (got more ∷ rest) t h = ih (buf ++ more) false rest t h
  read_more-Keeps buf (interrupted ∷ rest) t h = ih buf false rest t h
  read_more-Keeps buf (broken ∷ rest) t h = tt

  after_event-Keeps :
      (e : Event) (es : List Event) (reads : List Read) (next : Next)
      → Keeps (after_event loop e es reads next)
  after_event-Keeps e es reads one t h = ih es true reads t h
  after_event-Keeps e es reads two t h = ih (tail_of es) true reads t h
  after_event-Keeps e es reads discard t h = h
  after_event-Keeps e es reads again t h = read_more-Keeps (e ∷ es) reads t h

module _ (world : World) where
  events_loop-Keeps :
      (fuel : ℕ) (buf : List Event) (first_try : Bool) (reads : List Read)
      → Keeps (events_loop world fuel buf first_try reads)
  unfolding events_loop
  events_loop-Keeps zero buf first_try reads t h = h
  events_loop-Keeps (suc fuel) [] first_try reads t h = h
  events_loop-Keeps (suc fuel) (e ∷ es) first_try reads t h =
      step (process_next world e es first_try t) _ (process_next-Ordered world e es first_try t h)
        (after_event-Keeps (events_loop world fuel) (events_loop-Keeps fuel) e es reads)

  process_events-Keeps : (reads : List Read) → Keeps (process_inotify_events world reads)
  unfolding process_inotify_events
  process_events-Keeps [] t h = h
  process_events-Keeps (got buf ∷ rest) t h =
      events_loop-Keeps (2 * length buf + brought rest + 2) buf true rest t h
  process_events-Keeps (interrupted ∷ rest) t h = tt
  process_events-Keeps (broken ∷ rest) t h = tt

  forget-Keeps : {A : Type 0} → (m : M A) → Keeps m → Keeps (forget m)
  forget-Keeps m k t h = step (m t) _ (k t h) (λ _ u l. l)

  execute_command-Keeps : (c : Command) → Keeps (execute_command world c)
  unfolding execute_command
  execute_command-Keeps (add path) t h =
      step (zap_subtree world path t) _ (zap_subtree-Keeps world path t h)
        (λ _. watch_subtree-Keeps world path)
  execute_command-Keeps (zap path) t h =
      forget-Keeps (zap_subtree world path) (zap_subtree-Keeps world path) t h
  execute_command-Keeps check t h =
      forget-Keeps (check_loop (world.is_directory t.walks) t.cache)
        (check_loop-Keeps world (world.is_directory t.walks) t.cache) t h
  execute_command-Keeps list t h = h
  execute_command-Keeps quit t h = tt
  execute_command-Keeps toggle_dump t h = h
  execute_command-Keeps toggle_check t h = h
  execute_command-Keeps rebuild t h = watch_roots-Keeps world t.roots _ tt
  execute_command-Keeps other t h = h

  serve-Keeps : (r : Ready) → Keeps (serve world r)
  serve-Keeps (keyboard c) = execute_command-Keeps c
  serve-Keeps (events reads) =
      forget-Keeps (process_inotify_events world reads) (process_events-Keeps reads)

  end_of : {t : Tree} {r : Run (Unit {0})} → r ≡ ok tt t → Ordered r → Distinct t.cache
  end_of e o = rw e at o

  -- In every state that the loop of main passes through, whatever the kernel and the user do, no
  -- watch descriptor stands in two slots of the cache.
  pub Reached-Distinct : (t : Tree) → Reached world t → Distinct t.cache
  unfolding begin
  Reached-Distinct t (started roots checking dumping e) =
      end_of e (execute_command-Keeps rebuild (first_state roots checking dumping) tt)
  Reached-Distinct t (served r {s = s} before e) =
      end_of e (serve-Keeps r s (Reached-Distinct s before))
