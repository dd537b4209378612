-- ===== src/Dtree/Session/Fuel.antt =====
-- The fuel of the loop of `processInotifyEvents`.
use my_file.Prelude.{
  ℕ, zero, suc, ◌+◌, ◌*◌, ◌<◌, ◌≡◌, refl, arith, Bool, true, false, Option, none, some, List, [],
  ◌∷◌, ◌++◌, length, length-append,
}
use my_file.Dtree.State.{Tree, World, Run, ok, exits, and_then}
use my_file.Dtree.Events.{Event, Next, one, two, discard, again, process_next}
use my_file.Dtree.Events.Once.{NoRead, process_next-NoRead}
use my_file.Dtree.Session.{
  Read, got, interrupted, broken, tail_of, Loop, read_more, after_event, events_loop, brought,
  process_inotify_events,
}

-- The run exits the process or has a result.
abbrev pub Ends : Run (Option (List Read)) → Type 0
Ends (ok none t) = ⊥
Ends (ok (some reads) t) = Unit
Ends (exits e) = Unit

-- the rounds that a buffer may take: two for each event, the first of which may be behind
abbrev rounds : List Event → Bool → ℕ
rounds buf true = 2 * length buf + 1
rounds buf false = 2 * length buf

shorter_tail :
    (es : List Event) (n fuel : ℕ) → 2 * length es + n < fuel → 2 * length (tail_of es) + n < fuel
shorter_tail [] n fuel h = h
shorter_tail (e ∷ es) n fuel h = omega arith

-- an event is put off the first time only
abbrev Allows : Bool → Next → Type 0
Allows false again = ⊥
Allows _ _ = Unit

module _ (loop : Loop) (fuel : ℕ)
    (ih : (buf : List Event) (first_try : Bool) (reads : List Read) (t : Tree)
      → rounds buf first_try + brought reads < fuel
      → Ends (loop buf first_try reads t)) where
  read_more-Ends :
      (buf : List Event) (reads : List Read) (t : Tree)
      → rounds buf true + brought reads < suc fuel
      → Ends (read_more loop buf reads t)
  read_more-Ends buf [] t h = ih buf false [] t (omega arith)
  read_more-Ends buf (got more ∷ rest) t h =
      ih (buf ++ more) false rest t (omega (arith, length-append buf more))
  read_more-Ends buf (interrupted ∷ rest) t h = ih buf false rest t (omega arith)
  read_more-Ends buf (broken ∷ rest) t h = tt

  after_event-Ends :
      (e : Event) (es : List Event) (first_try : Bool) (reads : List Read) (next : Next) (t : Tree)
      → Allows first_try next
      → rounds (e ∷ es) first_try + brought reads < suc fuel
      → Ends (after_event loop e es reads next t)
  after_event-Ends e es true reads one t a h = ih es true reads t (omega arith)
  after_event-Ends e es false reads one t a h = ih es true reads t (omega arith)
  after_event-Ends e es true reads two t a h =
      ih (tail_of es) true reads t
        (let k = shorter_tail es (suc (brought reads)) fuel (omega arith) in omega (arith, k))
  after_event-Ends e es false reads two t a h =
      ih (tail_of es) true reads t
        (let k = shorter_tail es (suc (brought reads)) fuel (omega arith) in omega (arith, k))
  after_event-Ends e es true reads discard t a h = tt
  after_event-Ends e es false reads discard t a h = tt
  after_event-Ends e es true reads again t a h = read_more-Ends (e ∷ es) reads t h
  after_event-Ends e es false reads again t a h = absurd a

  next-Ends :
      (e : Event) (es : List Event) (first_try : Bool) (reads : List Read) (r : Run Next)
      → (first_try ≡ false → NoRead r)
      → rounds (e ∷ es) first_try + brought reads < suc fuel
      → Ends (and_then r (after_event loop e es reads))
  next-Ends e es first_try reads (exits x) n h = tt
  next-Ends e es true reads (ok one t) n h = after_event-Ends e es true reads one t tt h
  next-Ends e es false reads (ok one t) n h = after_event-Ends e es false reads one t tt h
  next-Ends e es true reads (ok two t) n h = after_event-Ends e es true reads two t tt h
  next-Ends e es false reads (ok two t) n h = after_event-Ends e es false reads two t tt h
  next-Ends e es first_try reads (ok discard t) n h = tt
  next-Ends e es true reads (ok again t) n h = after_event-Ends e es true reads again t tt h
  next-Ends e es false reads (ok again t) n h = absurd (n refl)

put_off :
    (world : World) (e : Event) (es : List Event) (first_try : Bool) (t : Tree)
    → first_try ≡ false
    → NoRead (process_next world e es first_try t)
put_off world e es true t h = cc
put_off world e es false t h = process_next-NoRead world e es t

events_loop-Ends :
    (world : World) (fuel : ℕ) (buf : List Event) (first_try : Bool) (reads : List Read) (t : Tree)
    → rounds buf first_try + brought reads < fuel
    → Ends (events_loop world fuel buf first_try reads t)
unfolding events_loop
events_loop-Ends world zero buf first_try reads t h = absurd (omega arith)
events_loop-Ends world (suc fuel) [] first_try reads t h = tt
events_loop-Ends world (suc fuel) (e ∷ es) first_try reads t h =
    next-Ends (events_loop world fuel) fuel (events_loop-Ends world fuel) e es first_try reads
      (process_next world e es first_try t) (put_off world e es first_try t) h

-- Whatever a read of events brings, and the reads behind it where a move stands at the end of the
-- buffer, of which those behind the last bring nothing: all events are processed or dropped, or the
-- process exits, and the loop does not go on for ever.
pub process_inotify_events-Ends :
    (world : World) (reads : List Read) (t : Tree) → Ends (process_inotify_events world reads t)
unfolding process_inotify_events
process_inotify_events-Ends world [] t = tt
process_inotify_events-Ends world (got buf ∷ rest) t =
    events_loop-Ends world (2 * length buf + brought rest + 2) buf true rest t (omega arith)
process_inotify_events-Ends world (interrupted ∷ rest) t = tt
process_inotify_events-Ends world (broken ∷ rest) t = tt
