-- ===== src/Printd/Start/Requeue.antt =====
-- Spooled requests that are queued again.
use mathlib.Core.List.{append_assoc, append-nil}
use my_file.Prelude.{
  ℕ, zero, suc, ◌+◌, ◌/◌, ◌%◌, ◌≡◌, refl, sym, ap, ◌∙◌, inl, inr, Bool, true, false, ◌||◌,
  Bool-cases, Option, some, List, [], ◌∷◌, ◌++◌, ltb, ◌==◌, arith, bytes_eq, ℤ, pos,
}
use my_file.CLib.Numbers.{dec_loop, dec, atol}
use my_file.CLib.Numbers.RoundTrip.{atol-dec}
use my_file.Printd.Heap.{Run, ok, ◌>>=◌}
use my_file.Printd.Queue.{Job, Jobs, add_job}
use my_file.Printd.Queue.Order.{IsQueue, add_job-IsQueue}
use my_file.Printd.Queue.Defer.{FreshCells}
use my_file.Printd.Jobno.{print_long}
use my_file.Printd.Client.{Dir, SpoolFile, request, Server, req_dir}
use my_file.Printd.Start.{
  Dirent, dot, dot_dot, queue_request, read_entry, visit, build_loop, build_qonstart,
}

abbrev pub entry_of : ℕ → Job → Dirent
entry_of a x = record { d_name = print_long x.jobid; opens = true; reads = true; memory = some a }

-- an entry of the spool directory: `.`, `..`, a file that cannot be opened, or the file of a job,
-- with the memory for its node
pub data Entry : Type 0 where
  here : Dirent → Entry
  up : Dirent → Entry
  closed : Dirent → Entry
  spooled : ℕ → Job → Entry

abbrev pub dirent : Entry → Dirent
dirent (here e) = record e { d_name = dot }
dirent (up e) = record e { d_name = dot_dot }
dirent (closed e) = record e { opens = false }
dirent (spooled a x) = entry_of a x

abbrev pub dirents : List Entry → List Dirent
dirents [] = []
dirents (e ∷ es) = dirent e ∷ dirents es

-- the jobs among the entries
abbrev pub jobs_of : List Entry → List (ℕ × Job)
jobs_of [] = []
jobs_of (here e ∷ es) = jobs_of es
jobs_of (up e ∷ es) = jobs_of es
jobs_of (closed e ∷ es) = jobs_of es
jobs_of (spooled a x ∷ es) = (a, x) ∷ jobs_of es

-- The requests of the jobs are in the spool, and their numbers are not negative.
abbrev pub InSpool : (Dir → List ℕ → Option SpoolFile) → List (ℕ × Job) → Type 0
InSpool spool [] = Unit
InSpool spool ((a, x) ∷ new) =
    (spool req_dir (print_long x.jobid) ≡ some (request x.req))
    × ((n : ℕ) × (x.jobid ≡ pos n))
    × InSpool spool new

digit_no_dot : (d : ℕ) → ((48 + d) == 46) ≡ false
digit_no_dot d = ground arith

dec_loop_no_dot : (f n : ℕ) (rest ys : List ℕ) → bytes_eq (dec_loop f n rest) (46 ∷ ys) ≡ false
unfolding dec_loop
dec_loop_no_dot zero n rest ys = rw (digit_no_dot (n % 10)) refl
dec_loop_no_dot (suc f) n rest ys = elim (Bool-cases (ltb n 10)) [
  | inl small ↦ rw (small, digit_no_dot n) refl
  | inr big ↦ rw big (dec_loop_no_dot f (n / 10) ((48 + n % 10) ∷ rest) ys)
]

no_dot : (n : ℕ) (ys : List ℕ) → bytes_eq (print_long (pos n)) (46 ∷ ys) ≡ false
unfolding print_long dec
no_dot n ys = dec_loop_no_dot n n [] ys

-- A run goes on, its job list holds the jobs in this order, and the files are those of before.
pub record Requeued (run : Run Server) (s : Server) (xs : List (ℕ × Job)) : Type 0 where
  pub server : Server
  pub runs : run ≡ ok server
  pub queue : IsQueue server.jobs xs
  pub spool : server.spool ≡ s.spool

abbrev with_jobs : Server → Run Jobs → Run Server
with_jobs s run = do jobs ← run; ok (record s { jobs = jobs })

atol-print_long : (j : ℤ) (n : ℕ) → j ≡ pos n → atol (print_long j) ≡ j
unfolding print_long
atol-print_long j n e = ap (λ k. atol (print_long k)) e ∙ (atol-dec n ∙ sym e)

visit-entry_of :
    (s : Server) (a : ℕ) (x : Job) (n : ℕ)
    → x.jobid ≡ pos n
    → s.spool req_dir (print_long x.jobid) ≡ some (request x.req)
    → visit
        (entry_of a x)
        (bytes_eq (print_long x.jobid) dot || bytes_eq (print_long x.jobid) dot_dot)
        s
      ≡ with_jobs s (add_job (some a) x.req x.jobid s.jobs)
visit-entry_of s a x n num there =
    let one : bytes_eq (print_long x.jobid) dot ≡ false =
      ap (λ j. bytes_eq (print_long j) dot) num ∙ no_dot n [] in
    let two : bytes_eq (print_long x.jobid) dot_dot ≡ false =
      ap (λ j. bytes_eq (print_long j) dot_dot) num ∙ no_dot n (46 ∷ []) in
    let found : read_entry (entry_of a x) true s
        ≡ with_jobs s (add_job (some a) x.req (atol (print_long x.jobid)) s.jobs) =
      ap (λ o. queue_request (entry_of a x) o s) there in
    rw (one, two, there)
      (found
        ∙ ap (λ j. with_jobs s (add_job (some a) x.req j s.jobs)) (atol-print_long x.jobid n num))

visit-closed : (s : Server) (e : Dirent) (b : Bool) → visit (record e { opens = false }) b s ≡ ok s
visit-closed s e false = refl
visit-closed s e true = refl

-- An entry that is passed over leaves what the others leave.
Requeued-pass :
    (s : Server) (xs : List (ℕ × Job)) (run : Run Server) (rest : Server → Run Server)
    → run ≡ ok s
    → Requeued (rest s) s xs
    → Requeued (run >>= rest) s xs
Requeued-pass s xs run rest e r = record {
  server = r.server;
  runs = ap (λ o. o >>= rest) e ∙ r.runs;
  queue = r.queue;
  spool = r.spool;
}

build_loop-Requeued :
    (s : Server) (xs : List (ℕ × Job)) (es : List Entry)
    → IsQueue s.jobs xs
    → FreshCells xs (jobs_of es)
    → InSpool s.spool (jobs_of es)
    → Requeued (build_loop (dirents es) s) s (xs ++ jobs_of es)
unfolding build_loop
build_loop-Requeued s xs [] q f h =
    rw (append-nil xs) (record { server = s; runs = refl; queue = q; spool = refl })
build_loop-Requeued s xs (here e ∷ es) q f h = build_loop-Requeued s xs es q f h
build_loop-Requeued s xs (up e ∷ es) q f h = build_loop-Requeued s xs es q f h
build_loop-Requeued s xs (closed e ∷ es) q f h =
    let skip : Bool = bytes_eq e.d_name dot || bytes_eq e.d_name dot_dot in
    Requeued-pass s (xs ++ jobs_of es) (visit (dirent (closed e)) skip s) (build_loop (dirents es))
      (visit-closed s e skip) (build_loop-Requeued s xs es q f h)
build_loop-Requeued s xs (spooled a x ∷ es) q f (there, (n, num), h) =
    let b = add_job-IsQueue s.jobs a x.req x.jobid xs q f.0 in
    let t : Server = record s { jobs = b.state } in
    let new : List (ℕ × Job) = jobs_of es in
    let r = build_loop-Requeued t (xs ++ (a, x) ∷ []) es b.queue f.1 h in
    let e : (xs ++ (a, x) ∷ []) ++ new ≡ xs ++ ((a, x) ∷ new) = append_assoc xs ((a, x) ∷ []) new in
    record {
      server = r.server;
      runs =
          ap (λ o. o >>= build_loop (dirents es))
            (visit-entry_of s a x n num there ∙ ap (with_jobs s) b.runs)
          ∙ r.runs;
      queue = rw (← e) r.queue;
      spool = r.spool;
    }

-- With an empty job list, where the entries of the request directory are `.`, `..`, files that
-- cannot be opened and the files of jobs of numbers that are not negative, each read whole with the
-- request of its job, and malloc gives memory that is not in use: build_qonstart goes on, the job
-- list holds these jobs in the order of the directory, under the numbers of their file names, and
-- all files are as before.
pub build_qonstart-Requeued :
    (s : Server) (es : List Entry)
    → IsQueue s.jobs []
    → FreshCells [] (jobs_of es)
    → InSpool s.spool (jobs_of es)
    → Requeued (build_qonstart (some (dirents es)) s) s (jobs_of es)
unfolding build_qonstart
build_qonstart-Requeued s es q f h = build_loop-Requeued s [] es q f h
