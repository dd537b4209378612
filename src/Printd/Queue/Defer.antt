-- ===== src/Printd/Queue/Defer.antt =====
-- A job that is picked up and put back, with jobs that come in between.
use mathlib.Core.List.{append_assoc, append-nil}
use my_file.Prelude.{ℕ, ◌≡◌, refl, ap, ◌∙◌, none, some, List, [], ◌∷◌, ◌++◌}
use my_file.Printd.Heap.{Run, ok, ◌>>=◌}
use my_file.Printd.Heap.Span.{first_or, NotIn}
use my_file.Printd.Heap.Distinct.{NotIn-append, NotIn-left, flip}
use my_file.Printd.Queue.{Job, Jobs, add_job, replace_job, remove_job}
use my_file.Printd.Queue.Order.{IsQueue, Becomes, add_job-IsQueue, replace_job-IsQueue}
use my_file.Printd.Queue.Remove.{remove_job-IsQueue}

-- calls of `add_job`, each with the memory that `malloc` gives
abbrev pub add_jobs : List (ℕ × Job) → Jobs → Run Jobs
add_jobs [] s = ok s
add_jobs ((a, x) ∷ new) s = add_job (some a) x.req x.jobid s >>= add_jobs new

-- The memory of each call is neither in use nor that of another call.
abbrev pub FreshCells : List (ℕ × Job) → List (ℕ × Job) → Type 0
FreshCells xs [] = Unit
FreshCells xs ((a, x) ∷ new) = NotIn a xs × FreshCells (xs ++ (a, x) ∷ []) new

add_jobs-IsQueue :
    (s : Jobs) (xs new : List (ℕ × Job))
    → IsQueue s xs
    → FreshCells xs new
    → Becomes s (add_jobs new s) (xs ++ new)
add_jobs-IsQueue s xs [] q f =
    rw (append-nil xs) (record { state = s; runs = refl; queue = q; same = λ c i. refl })
add_jobs-IsQueue s xs ((a, x) ∷ new) q f =
    let b = add_job-IsQueue s a x.req x.jobid xs q f.0 in
    let r = add_jobs-IsQueue b.state (xs ++ (a, x) ∷ []) new b.queue f.1 in
    let e : (xs ++ (a, x) ∷ []) ++ new ≡ xs ++ ((a, x) ∷ new) = append_assoc xs ((a, x) ∷ []) new in
    record {
      state = r.state;
      runs = rw b.runs r.runs;
      queue = rw (← e) r.queue;
      same = λ c i.
          let i' : NotIn c ((xs ++ (a, x) ∷ []) ++ new) = rw e i in
          r.same c i' ∙ b.same c (NotIn-left c (xs ++ (a, x) ∷ []) new i');
    }

FreshCells-tail :
    (p : ℕ × Job) (xs new : List (ℕ × Job)) → FreshCells (p ∷ xs) new → FreshCells xs new
FreshCells-tail p xs [] f = tt
FreshCells-tail p xs ((a, x) ∷ new) f = (f.0.1, FreshCells-tail p (xs ++ (a, x) ∷ []) new f.1)

FreshCells-NotIn :
    (a : ℕ) (x : Job) (xs new : List (ℕ × Job)) → FreshCells ((a, x) ∷ xs) new → NotIn a new
FreshCells-NotIn a x xs [] f = tt
FreshCells-NotIn a x xs ((c, y) ∷ new) f =
    (flip a c f.0.0, FreshCells-NotIn a x (xs ++ (c, y) ∷ []) new f.1)

-- On a job list of the process that holds jobs in an order, and memory for the new jobs that is not
-- in use: the first job is removed, jobs are added, the first job is put back on the head; each
-- function goes on, and the list holds the first job, the jobs behind it and the new jobs, in this
-- order.
pub remove_job-replace_job :
    (s : Jobs) (a : ℕ) (x : Job) (xs new : List (ℕ × Job))
    → IsQueue s ((a, x) ∷ xs)
    → FreshCells ((a, x) ∷ xs) new
    → (t : Jobs) × ((remove_job s.jobhead s >>= add_jobs new >>= replace_job (some a)) ≡ ok t)
      × IsQueue t ((a, x) ∷ (xs ++ new))
remove_job-replace_job s a x xs new q f =
    let r = remove_job-IsQueue s [] xs a x q in
    let b = add_jobs-IsQueue r.state xs new r.queue (FreshCells-tail (a, x) xs new f) in
    let apart : NotIn a (xs ++ new) =
      NotIn-append a xs new q.distinct.0 (FreshCells-NotIn a x xs new f) in
    let there : b.state.heap a ≡ some (record { next = first_or none xs; prev = none; item = x }) =
      b.same a apart ∙ (r.same a q.distinct.0 ∙ q.span.0) in
    let p =
      replace_job-IsQueue b.state a x (first_or none xs) none there (xs ++ new) b.queue apart in
    let first : remove_job s.jobhead s ≡ ok r.state = ap (λ o. remove_job o s) q.head ∙ r.runs in
    (p.state, rw (first, b.runs) p.runs, p.queue)
