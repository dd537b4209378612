-- ===== src/Sem/Invariant/Steps.antt =====
-- Every event of a process.
use my_file.Prelude.{◌≡◌, refl}
use my_file.Sem.Process.{
  At, outside, creating, locking, reading, setting_value, setting_count, ending, opening,
  open_waiting, using, operating, closing, counting, removing, unlocking, deleting, stopped,
  next_call, called, Action, call, go, fails, exits, happen, semget_fails,
}
use my_file.Sem.Invariant.{Bounded}
use my_file.Sem.Invariant.Calls.{called-Bounded, semget_fails-Bounded}
use my_file.Sem.Invariant.Good.{Scene, Good, kernel, Good-stay}
use my_file.Sem.Invariant.Operating.{
  ending-Good, open_waiting-Good, operating-Good, closing-Good, unlocking-Good, locking-Good,
}
use my_file.Sem.Invariant.Controlling.{
  reading-Good, setting_value-Good, setting_count-Good, counting-Good, removed-Good, creating-Good,
  opening-Good, exits-Good,
}

module _ (sc : Scene) where
  open sc use {n, few, o, m, procs, i, lt, agrees, below, unknown, idle}

  pub next_call-Good : (p : At) → procs i ≡ p → Bounded p → Good sc (next_call i p (kernel sc))
  unfolding next_call
  next_call-Good outside e b = Good-stay sc outside (λ x. rw e refl) tt
  next_call-Good (creating v) e b = creating-Good sc v e
  next_call-Good (locking id v a) e b = locking-Good sc id v a e
  next_call-Good (reading id v) e b = reading-Good sc id v e
  next_call-Good (setting_value id v) e b = setting_value-Good sc id v e
  next_call-Good (setting_count id) e b = setting_count-Good sc id e
  next_call-Good (ending id a) e b = ending-Good sc id a e
  next_call-Good opening e b = opening-Good sc e
  next_call-Good (open_waiting id a) e b = open_waiting-Good sc id a e
  next_call-Good (using id) e b = Good-stay sc (using id) (λ x. rw e refl) tt
  next_call-Good (operating id z a) e b = operating-Good sc id a z e
  next_call-Good (closing id a) e b = closing-Good sc id a e
  next_call-Good (counting id) e b = counting-Good sc id e
  next_call-Good (removing id) e b = removed-Good sc (removing id) id (λ x. rw e refl) tt
  next_call-Good (unlocking id a) e b = unlocking-Good sc id a e
  next_call-Good (deleting id) e b = removed-Good sc (deleting id) id (λ x. rw e refl) tt
  next_call-Good (stopped r p) e b = Good-stay sc (stopped r p) (λ x. rw e refl) b

  pub happen-Good : (e : Action) → Bounded (procs i) → Good sc (happen i e (procs i) (kernel sc))
  unfolding happen
  happen-Good (call c) b =
      let same = called-Bounded c (procs i) b in Good-stay sc (called c (procs i)) same.0 same.1
  happen-Good go b = next_call-Good (procs i) refl b
  happen-Good fails b =
      let same = semget_fails-Bounded (procs i) b in
      Good-stay sc (semget_fails (procs i)) same.0 same.1
  happen-Good exits b = exits-Good sc
