-- ===== src/Sem/Tests.antt =====
-- Runs of two processes that use one semaphore.
use my_file.Prelude.{
  ℕ, ◌≡◌, ◌≢◌, refl, true, false, Option, none, some, List, [], ◌∷◌, ◌++◌, arith, negsuc, ◌==◌,
  if◌then◌else◌,
}
use my_file.Sem.Kernel.{SemSet, semop, setval, new_set, undone}
use my_file.Sem.Process.{
  outside, creating, locking, counting, using, operating, stopped, cant_lock, above_bigcount,
  Action, call, go, exits, sem_create, sem_open, sem_close, sem_wait, named,
}
use my_file.Sem.System.{initial, turn, run}
use my_file.Sem.Invariant.{users}
use my_file.Sem.Safety.{Accounted, run-Exclusive, run-Accounted}
use my_file.Sem.Removal.{Left, run-Left}
use my_file.Sem.Races.{run-removed_user, run-removed_lock}

-- Process 0 creates the semaphore with the value 1.
abbrev created : List (ℕ × Action)
created =
    (0, call (sem_create named 1))
    ∷ ((0, go) ∷ ((0, go) ∷ ((0, go) ∷ ((0, go) ∷ ((0, go) ∷ ((0, go) ∷ []))))))

abbrev closing_0 : List (ℕ × Action)
closing_0 = (0, call sem_close) ∷ ((0, go) ∷ [])

abbrev took_lock : List (ℕ × Action)
took_lock = (0, call (sem_create named 1)) ∷ ((0, go) ∷ ((0, go) ∷ []))

abbrev set_at : List (ℕ × Action) → Option SemSet
set_at es = (run 2 es initial).kernel.found

abbrev the : Option SemSet → SemSet
the none = new_set 0
the (some s) = s

created_using : (run 2 created initial).procs 0 ≡ using 0
unfolding run turn semop setval
created_using = refl

-- A wait with the value 1 goes on, and a second one sleeps.
second_wait_sleeps :
    (run 2
        (created ++ ((0, call sem_wait) ∷ ((0, go) ∷ ((0, call sem_wait) ∷ ((0, go) ∷ [])))))
        initial).procs
      0
    ≡ operating 0 (negsuc 0) true
unfolding run turn semop setval
second_wait_sleeps = refl

-- The exit of the process that waited takes the wait back.
exit_undoes :
    (the (set_at (created ++ ((0, call sem_wait) ∷ ((0, go) ∷ ((0, exits) ∷ [])))))).value ≡ 1
unfolding run turn semop setval undone
exit_undoes = refl

run-Exclusive_example : ◌≡◌ {A = ℕ} 0 0
unfolding run turn semop
run-Exclusive_example =
    run-Exclusive 2 took_lock (the (set_at took_lock)) 0 0 (omega arith) refl refl refl

run-Accounted_example :
    Accounted 2 (run 2 created initial).kernel.found (run 2 created initial).procs
    × ((run 2 created initial).procs 0 ≢ stopped above_bigcount (counting 0))
run-Accounted_example = run-Accounted 2 created 0 (counting 0) (omega arith)

abbrev one_closes : List (ℕ × Action)
one_closes = created ++ closing_0

run-Left_example :
    ((run 2 ((0, go) ∷ ((0, go) ∷ [])) (run 2 one_closes initial)).procs 0 ≡ outside)
    × Left
        (users (the (set_at one_closes)).id 2 (run 2 one_closes initial).procs == 0)
        (the (set_at one_closes))
        (run 2 ((0, go) ∷ ((0, go) ∷ [])) (run 2 one_closes initial)).kernel.found
unfolding run turn semop setval
run-Left_example = run-Left 2 one_closes (the (set_at one_closes)) 0 (omega arith) refl refl

-- Process 1 has the identifier of the set, and process 0 is about to remove it.
abbrev opened_late : List (ℕ × Action)
opened_late = one_closes ++ ((1, call (sem_open named)) ∷ ((1, go) ∷ ((0, go) ∷ [])))

run-removed_user_example :
    ((run 2 ((1, go) ∷ ((0, go) ∷ [])) (run 2 opened_late initial)).procs 1
      ≡ using (the (set_at opened_late)).id)
    × ((run 2 ((1, go) ∷ ((0, go) ∷ [])) (run 2 opened_late initial)).kernel.found ≡ none)
unfolding run turn semop setval
run-removed_user_example =
    run-removed_user 2 opened_late (the (set_at opened_late)) 1 0 false (omega arith) refl refl refl

-- Process 1 sleeps for the lock.
abbrev slept_late : List (ℕ × Action)
slept_late = one_closes ++ ((1, call (sem_create named 1)) ∷ ((1, go) ∷ ((1, go) ∷ ((0, go) ∷ []))))

run-removed_lock_example :
    ((run 2 ((0, go) ∷ ((1, go) ∷ [])) (run 2 slept_late initial)).procs 1 ≡ (
      if true then stopped cant_lock (locking (the (set_at slept_late)).id 1 true) else creating 1))
    × ((run 2 ((0, go) ∷ ((1, go) ∷ [])) (run 2 slept_late initial)).kernel.found ≡ none)
unfolding run turn semop setval
run-removed_lock_example =
    run-removed_lock 2 slept_late (the (set_at slept_late)) 1 0 1 true (omega arith) refl refl refl
