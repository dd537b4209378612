-- ===== src/Sem/Races.antt =====
-- Calls that come between the last process's GETVAL and its removal of the set.
use my_file.Prelude.{
  ℕ, ◌<◌, ◌≡◌, refl, sym, ap, ◌∙◌, inl, inr, Bool, true, false, Bool-cases, none, some, List, [],
  ◌∷◌, arith, ◌==◌, ==-refl, if◌then◌else◌, pos,
}
use my_file.Sem.Kernel.{SemSet, Kernel, bigcount, set_of, Tried, no_set, tried, from_semop}
use my_file.Sem.Process.{
  At, outside, creating, locking, open_waiting, using, removing, stopped, cant_lock, cant_open,
  op_open, locked, passed, rm_set, Action, go, next_call,
}
use my_file.Sem.System.{Processes, initial, turn, run, moved}
use my_file.Sem.Operations.{op_open_runs}
use my_file.Sem.Invariant.{keeper, stage, user_weight, Sound, Inv}
use my_file.Sem.Invariant.Effects.{sum_of_keeper, count_high}
use my_file.Sem.Invariant.Runs.{run-initial-Inv}
use my_file.Sem.Safety.{Sound-found, users_few}
use my_file.Sem.Removal.{go_step, set_of_found, going}

module _ (n : ℕ) (few : n < bigcount) (s : Processes) (inv : Inv n s) (set : SemSet)
    (found : s.kernel.found ≡ some set) (i j : ℕ) (last : s.procs j ≡ removing set.id) where
  abbrev sound : Sound n set s.procs
  sound = Sound-found n s set inv found

  j_runs : j < n
  j_runs = going n s inv set found j (removing set.id) last (λ e. cc)

  removing_turn :
      (t : Processes) (set' : SemSet)
      → t.procs j ≡ removing set.id
      → t.kernel.found ≡ some set'
      → set'.id ≡ set.id
      → turn n (j, go) t ≡ moved t j (outside, record t.kernel { found = none })
  unfolding next_call
  removing_turn t set' here there same =
      go_step n j t (removing set.id) here j_runs
      ∙ ap (λ o. moved t j (rm_set (removing set.id) t.kernel o))
          (ap (λ x. set_of x t.kernel) (sym same) ∙ set_of_found t.kernel set' there)

  module _ (b : Bool) (here : s.procs i ≡ open_waiting set.id b) where
    i_runs : i < n
    i_runs = going n s inv set found i (open_waiting set.id b) here (λ e. cc)

    apart_ij : (i == j) ≡ false
    apart_ij = elim (Bool-cases (i == j)) [
      | inl e ↦ let q : i ≡ j = ground arith in absurd (cc (sym here ∙ (ap s.procs q ∙ last)))
      | inr e ↦ e
    ]

    opened :
        (t : SemSet) × (turn n (i, go) s
          ≡ moved s i (using set.id, record s.kernel { found = some t }))
        × (t.id ≡ set.id)
    unfolding next_call
    opened =
        let keeps : stage set.id (s.procs j) ≡ keeper = rw (last, ==-refl set.id) refl in
        let sum = sum_of_keeper n set s.procs sound j j_runs keeps in
        let u = users_few n set.id s.procs in
        let undo : (set.undo i).count ≡ pos 0 =
          sound.undo_count i ∙ ap (λ p. pos (user_weight (stage set.id p))) here in
        let r =
          op_open_runs i set sound.single (count_high n set s.procs sound) (omega arith) undo in
        (
          r.0,
          go_step n i s (open_waiting set.id b) here i_runs
              ∙ ap (moved s i) (
                  ap (λ o. after_open (tried i op_open s.kernel o))
                    (set_of_found s.kernel set found)
                  ∙ ap (λ q. after_open (from_semop s.kernel q)) r.1),
          r.2.same,
        )
      where
        after_open : Tried → At × Kernel
        after_open =
            passed (open_waiting set.id b) (using set.id) (open_waiting set.id true) cant_open
              s.kernel

    removed_under_user :
        ((run n ((i, go) ∷ ((j, go) ∷ [])) s).procs i ≡ using set.id)
        × ((run n ((i, go) ∷ ((j, go) ∷ [])) s).kernel.found ≡ none)
    unfolding run
    removed_under_user =
        let r = opened in
        let t : Processes = moved s i (using set.id, record s.kernel { found = some r.0 }) in
        let there : t.procs j ≡ removing set.id = rw apart_ij last in
        let f = removing_turn t r.0 there refl r.2 in
        let all : run n ((i, go) ∷ ((j, go) ∷ [])) s
            ≡ moved t j (outside, record t.kernel { found = none }) =
          ap (turn n (j, go)) r.1 ∙ f in
        let other : (j == i) ≡ false = let q = apart_ij in ground arith in
        rw all (rw (other, ==-refl i) refl, refl)

  module _ (v : ℕ) (b : Bool) (here : s.procs i ≡ locking set.id v b) where
    waiter_runs : i < n
    waiter_runs = going n s inv set found i (locking set.id v b) here (λ e. cc)

    apart_ji : (j == i) ≡ false
    apart_ji = elim (Bool-cases (j == i)) [
      | inl e ↦ let q : j ≡ i = ground arith in absurd (cc (sym last ∙ (ap s.procs q ∙ here)))
      | inr e ↦ e
    ]

    lock_of_none :
        (k : Kernel)
        → locked set.id v b k no_set
          ≡ (if b then stopped cant_lock (locking set.id v true) else creating v, k)
    lock_of_none k =
        elim b
          as (λ c.
            locked set.id v c k no_set
            ≡ (if c then stopped cant_lock (locking set.id v true) else creating v, k)) [
              | true ↦ refl
              | false ↦ refl
            ]

    lock_of_removed :
        ((run n ((j, go) ∷ ((i, go) ∷ [])) s).procs i
          ≡ (if b then stopped cant_lock (locking set.id v true) else creating v))
        × ((run n ((j, go) ∷ ((i, go) ∷ [])) s).kernel.found ≡ none)
    unfolding run next_call
    lock_of_removed =
        let t : Processes = moved s j (outside, record s.kernel { found = none }) in
        let f = removing_turn s set last found refl in
        let there : t.procs i ≡ locking set.id v b = rw apart_ji here in
        let all : run n ((j, go) ∷ ((i, go) ∷ [])) s
            ≡ moved t i
                (if b then stopped cant_lock (locking set.id v true) else creating v, t.kernel) =
          ap (turn n (i, go)) f
          ∙ (go_step n i t (locking set.id v b) there waiter_runs
              ∙ ap (moved t i) (lock_of_none t.kernel)) in
        rw all (rw (==-refl i) refl, refl)

-- With fewer process slots than BIGCOUNT, in any run in which one process is about to remove the
-- set that the key has, as the last one in sem_close, and another is in front of the semop of
-- sem_open on it: if the other goes first, it has opened the semaphore and uses a set that the next
-- system call removes.
pub run-removed_user :
    (n : ℕ) (es : List (ℕ × Action)) (set : SemSet) (i j : ℕ) (b : Bool)
    → n < bigcount
    → (run n es initial).kernel.found ≡ some set
    → (run n es initial).procs j ≡ removing set.id
    → (run n es initial).procs i ≡ open_waiting set.id b
    → ((run n ((i, go) ∷ ((j, go) ∷ [])) (run n es initial)).procs i ≡ using set.id)
      × ((run n ((i, go) ∷ ((j, go) ∷ [])) (run n es initial)).kernel.found ≡ none)
run-removed_user n es set i j b few found last here =
    removed_under_user n few (run n es initial) (run-initial-Inv n few es) set found i j last b here

-- With fewer process slots than BIGCOUNT, in any run in which one process is about to remove the
-- set that the key has, as the last one in sem_close, and another is in the semop of sem_create
-- that takes its lock: once the set is gone, the other starts again with semget if it was in front
-- of the semop, and stops with an error if it slept in it.
pub run-removed_lock :
    (n : ℕ) (es : List (ℕ × Action)) (set : SemSet) (i j v : ℕ) (b : Bool)
    → n < bigcount
    → (run n es initial).kernel.found ≡ some set
    → (run n es initial).procs j ≡ removing set.id
    → (run n es initial).procs i ≡ locking set.id v b
    → ((run n ((j, go) ∷ ((i, go) ∷ [])) (run n es initial)).procs i
        ≡ (if b then stopped cant_lock (locking set.id v true) else creating v))
      × ((run n ((j, go) ∷ ((i, go) ∷ [])) (run n es initial)).kernel.found ≡ none)
run-removed_lock n es set i j v b few found last here =
    lock_of_removed n few (run n es initial) (run-initial-Inv n few es) set found i j last v b here
