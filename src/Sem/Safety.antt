-- ===== src/Sem/Safety.antt =====
-- What holds of the processes in every run.
use mathlib.Core.Path.{subst}
use my_file.Prelude.{
  ℕ, ◌+◌, ◌≤◌, ◌<◌, ◌≡◌, ◌≢◌, ap, ◌⊎◌, inl, inr, Bool-cases, Option, none, some, List, arith, ltb,
  ltb→lt,
}
use my_file.Sem.Kernel.{SemSet, bigcount}
use my_file.Sem.Process.{At, stopped, above_bigcount, Action}
use my_file.Sem.System.{Processes, initial, run}
use my_file.Sem.Totals.{total-two, total-le}
use my_file.Sem.Invariant.{stage, user_weight, lock_weight, users, Sound, Agrees, Inv, Bounded}
use my_file.Sem.Invariant.Moves.{weight_small}
use my_file.Sem.Invariant.Runs.{run-initial-Inv}

pub Sound-found :
    (n : ℕ) (s : Processes) (set : SemSet)
    → Inv n s
    → s.kernel.found ≡ some set
    → Sound n set s.procs
Sound-found n s set inv e = subst (λ o. Agrees n o s.procs) e inv.agrees

-- Process `i` is between taking the lock of the set and giving it back.
abbrev pub Holds : ℕ → Processes → SemSet → Type 0
Holds i s set = lock_weight (stage set.id (s.procs i)) ≡ 1

idle_apart : (n : ℕ) (s : Processes) (set : SemSet) (i : ℕ) → Inv n s → Holds i s set → i < n
idle_apart n s set i inv h = elim (Bool-cases (ltb i n)) [
  | inl l ↦ ltb→lt i n l
  | inr l ↦
      let q : n ≤ i = ground arith in
      let z : lock_weight (stage set.id (s.procs i)) ≡ 0 =
        ap (λ p. lock_weight (stage set.id p)) (inv.idle i q) in
      absurd (omega arith)
]

Exclusive-Inv :
    (n : ℕ) (s : Processes) (set : SemSet)
    → Inv n s
    → s.kernel.found ≡ some set
    → (i j : ℕ) → Holds i s set
    → Holds j s set
    → i < j
    → ⊥
Exclusive-Inv n s set inv e i j hi hj l =
    let ok = Sound-found n s set inv e in
    let held = ok.held in
    let single = ok.single in
    let two =
      total-two (λ q. lock_weight (stage set.id q)) n s.procs i j l (idle_apart n s set j inv hj) in
    omega arith

-- With fewer process slots than BIGCOUNT, a process using one semaphore at a time, and whatever the
-- order of calls, system calls, failed semgets and exits: two processes that are between taking the
-- lock of the set that the key has and giving it back are the same process.
pub run-Exclusive :
    (n : ℕ) (es : List (ℕ × Action)) (set : SemSet) (i j : ℕ)
    → n < bigcount
    → (run n es initial).kernel.found ≡ some set
    → Holds i (run n es initial) set
    → Holds j (run n es initial) set
    → i ≡ j
run-Exclusive n es set i j few e hi hj =
    let inv = run-initial-Inv n few es in
    let s : Processes = run n es initial in
    let a : i < j → ⊥ = Exclusive-Inv n s set inv e i j hi hj in
    let b : j < i → ⊥ = Exclusive-Inv n s set inv e j i hj hi in
    elim (Bool-cases (ltb i j)) [
      | inl l ↦ absurd (a (ltb→lt i j l))
      | inr l ↦ elim (Bool-cases (ltb j i)) [
        | inl m ↦ absurd (b (ltb→lt j i m))
        | inr m ↦ ground arith
      ]
    ]

pub users_few : (n x : ℕ) (procs : ℕ → At) → users x n procs ≤ n
users_few n x procs =
    total-le (λ q. user_weight (stage x q)) (λ q. weight_small (stage x q)) n procs

-- The process counter of a set: nothing has been done with it yet, or it and the processes that
-- use the set make up BIGCOUNT.
abbrev pub Accounted : ℕ → Option SemSet → (ℕ → At) → Type 0
Accounted n none procs = Unit
Accounted n (some set) procs =
    ((set.count ≡ 0) × (users set.id n procs ≡ 0)) ⊎ (set.count + users set.id n procs ≡ bigcount)

Agrees-Accounted :
    (n : ℕ) (o : Option SemSet) (procs : ℕ → At) → Agrees n o procs → Accounted n o procs
Agrees-Accounted n none procs a = tt
Agrees-Accounted n (some set) procs a = elim a.accounted [
  | inl z ↦ inl (omega arith)
  | inr b ↦ inr b
]

-- With fewer process slots than BIGCOUNT, a process using one semaphore at a time, and whatever the
-- order of calls, system calls, failed semgets and exits: if the key has a set, either its process
-- counter is 0 and no process uses it, or the counter and the processes that use the set make up
-- BIGCOUNT; and no process has stopped in sem_close for a counter above BIGCOUNT.
pub run-Accounted :
    (n : ℕ) (es : List (ℕ × Action)) (i : ℕ) (p : At)
    → n < bigcount
    → Accounted n (run n es initial).kernel.found (run n es initial).procs
      × ((run n es initial).procs i ≢ stopped above_bigcount p)
run-Accounted n es i p few =
    let s : Processes = run n es initial in
    let inv : Inv n s = run-initial-Inv n few es in
    (Agrees-Accounted n s.kernel.found s.procs inv.agrees, λ q. subst Bounded q (inv.bounded i))
