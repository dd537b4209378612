-- ===== src/Sem/Removal.antt =====
-- The removal of a set by the last process, and processes that come in between.
use my_file.Prelude.{
  ℕ, ◌≤◌, ◌<◌, ◌≡◌, refl, sym, ap, ◌∙◌, inl, inr, Bool, true, false, Bool-cases, Option, none, some,
  List, [], ◌∷◌, arith, ltb, ltb→lt, lt→ltb, ◌==◌, ==-refl, if◌then◌else◌, pos, negsuc, neg,
}
use my_file.Sem.Kernel.{SemSet, Kernel, bigcount, set_of, if_id, Tried, tried, from_semop}
use my_file.Sem.Process.{
  At, outside, counting, removing, unlocking, Action, go, happen, next_call, last_or_not, rm_set,
  passed, cant_unlock, op_unlock,
}
use my_file.Sem.System.{Processes, initial, turn, run, moved}
use my_file.Sem.Operations.{Becomes, op_unlock_runs}
use my_file.Sem.Invariant.{stage, lock_weight, users, keeper, Sound, Inv}
use my_file.Sem.Invariant.Effects.{sum_of_keeper, lock_taken, count_high}
use my_file.Sem.Invariant.Runs.{run-initial-Inv}
use my_file.Sem.Safety.{Sound-found}

turn_go :
    (n i : ℕ) (s : Processes)
    → i < n
    → turn n (i, go) s ≡ moved s i (next_call i (s.procs i) s.kernel)
unfolding turn happen
turn_go n i s l = rw (lt→ltb i n l) refl

pub go_step :
    (n i : ℕ) (s : Processes) (p : At)
    → s.procs i ≡ p
    → i < n
    → turn n (i, go) s ≡ moved s i (next_call i p s.kernel)
go_step n i s p e l = turn_go n i s l ∙ ap (λ q. moved s i (next_call i q s.kernel)) e

-- The set is gone, or it is what it was with its lock free.
abbrev pub Left : Bool → SemSet → Option SemSet → Type 0
Left true set o = o ≡ none
Left false set o =
    (t : SemSet) × (o ≡ some t) × (t.id ≡ set.id) × (t.count ≡ set.count) × (t.lock ≡ 0)

pub set_of_found : (k : Kernel) (set : SemSet) → k.found ≡ some set → set_of set.id k ≡ some set
set_of_found k set e = ap (if_id set.id) e ∙ rw (==-refl set.id) refl

module _ (n : ℕ) (s : Processes) (inv : Inv n s) (set : SemSet)
    (found : s.kernel.found ≡ some set) where
  abbrev sound : Sound n set s.procs
  sound = Sound-found n s set inv found

  -- a process that is not outside
  pub going : (i : ℕ) (p : At) → s.procs i ≡ p → (p ≡ outside → ⊥) → i < n
  going i p e d = elim (Bool-cases (ltb i n)) [
    | inl l ↦ ltb→lt i n l
    | inr l ↦ let q : n ≤ i = ground arith in absurd (d (sym e ∙ inv.idle i q))
  ]

  module _ (i : ℕ) (here : s.procs i ≡ counting set.id) where
    lt : i < n
    lt = going i (counting set.id) here (λ e. cc)

    at_keeper : stage set.id (s.procs i) ≡ keeper
    at_keeper = rw (here, ==-refl set.id) refl

    counting_step :
        turn n (i, go) s
        ≡ moved s i (
          (if users set.id n s.procs == 0 then removing set.id else unlocking set.id false),
          s.kernel,
        )
    unfolding next_call
    counting_step =
        let sum = sum_of_keeper n set s.procs sound i lt at_keeper in
        let high : ltb bigcount set.count ≡ false = ground arith in
        let same : (set.count == bigcount) ≡ (users set.id n s.procs == 0) = ground arith in
        turn_go n i s lt
        ∙ (ap (λ p. moved s i (next_call i p s.kernel)) here
            ∙ (ap (λ o. moved s i (last_or_not set.id s.kernel o)) (set_of_found s.kernel set found)
                ∙ rw (high, same) refl))

    -- where the process goes on, and the kernel behind the first call
    second : Bool → Processes
    second b = moved s i (if b then removing set.id else unlocking set.id false, s.kernel)

    two_turns :
        (b : Bool) (p : At) (r : At × Kernel)
        → (users set.id n s.procs == 0) ≡ b
        → (if b then removing set.id else unlocking set.id false) ≡ p
        → next_call i p s.kernel ≡ r
        → run n ((i, go) ∷ ((i, go) ∷ [])) s ≡ moved (second b) i r
    unfolding run second
    two_turns b p r z e f =
        let first : turn n (i, go) s ≡ second b = counting_step ∙ rw z refl in
        let at : (second b).procs i ≡ p = rw (==-refl i) e in
        ap (turn n (i, go)) first ∙ (go_step n i (second b) p at lt ∙ ap (moved (second b) i) f)

    removing_call :
        next_call i (removing set.id) s.kernel ≡ (outside, record s.kernel { found = none })
    unfolding next_call
    removing_call = ap (rm_set (removing set.id) s.kernel) (set_of_found s.kernel set found)

    unlocking_call :
        (t : SemSet) × (next_call i (unlocking set.id false) s.kernel
          ≡ (outside, record s.kernel { found = some t }))
        × Becomes i set set.count 0 (set.undo i).count (pos 0) t
    unfolding next_call
    unlocking_call =
        let l = lock_taken n set s.procs sound i lt keeper at_keeper refl in
        let u : (set.undo i).lock ≡ negsuc 0 =
          sound.undo_lock i ∙ ap (λ g. neg (lock_weight g)) at_keeper in
        let r = op_unlock_runs i set sound.single (count_high n set s.procs sound) l u in
        (
          r.0,
          ap (λ o. after_unlock (tried i op_unlock s.kernel o)) (set_of_found s.kernel set found)
              ∙ ap (λ q. after_unlock (from_semop s.kernel q)) r.1,
          r.2,
        )
      where
        after_unlock : Tried → At × Kernel
        after_unlock =
            passed (unlocking set.id false) outside (unlocking set.id true) cant_unlock s.kernel

    Left-Inv :
        ((run n ((i, go) ∷ ((i, go) ∷ [])) s).procs i ≡ outside)
        × Left (users set.id n s.procs == 0) set (run n ((i, go) ∷ ((i, go) ∷ [])) s).kernel.found
    Left-Inv = elim (Bool-cases (users set.id n s.procs == 0)) [
      | inl z ↦
          rw
            (
              two_turns true (removing set.id) (outside, record s.kernel { found = none }) z refl
                  removing_call,
              z,
            )
            (rw (==-refl i) refl, refl)
      | inr z ↦
          let c = unlocking_call in
          rw
            (
              two_turns false (unlocking set.id false)
                  (outside, record s.kernel { found = some c.0 }) z refl c.1,
              z,
            )
            (rw (==-refl i) refl, (c.0, refl, c.2.same, c.2.count_is, c.2.lock_is))
    ]

-- With fewer process slots than BIGCOUNT, in any run in which a process is in front of the GETVAL
-- of sem_close on the set that the key has: after its next two system calls it has left sem_close,
-- and the set is gone if no process uses it, and else is the same set with the same process counter
-- and its lock free.
pub run-Left :
    (n : ℕ) (es : List (ℕ × Action)) (set : SemSet) (i : ℕ)
    → n < bigcount
    → (run n es initial).kernel.found ≡ some set
    → (run n es initial).procs i ≡ counting set.id
    → ((run n ((i, go) ∷ ((i, go) ∷ [])) (run n es initial)).procs i ≡ outside)
      × Left
          (users set.id n (run n es initial).procs == 0)
          set
          (run n ((i, go) ∷ ((i, go) ∷ [])) (run n es initial)).kernel.found
run-Left n es set i few found here =
    Left-Inv n (run n es initial) (run-initial-Inv n few es) set found i here
