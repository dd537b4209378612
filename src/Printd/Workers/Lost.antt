-- ===== src/Printd/Workers/Lost.antt =====
-- What becomes of a worker that is added to a list that is not empty.
use my_file.Prelude.{
  ℕ, zero, suc, ◌<◌, ◌≡◌, refl, ◌∙◌, Bool, true, Option, none, some, List, [], ◌∷◌, ==-refl, arith,
}
use my_file.Printd.Heap.{Node, Heap, Run, ok, invalid, ◌>>=◌, set_node, release, deref, set_next}
use my_file.Printd.Heap.Span.{
  first_or, Span, NotIn, DistinctCells, Span-set_node, set_node_self, set_prev-Linked,
}
use my_file.Printd.Workers.{
  drop_worker, Worker, Workers, add_worker, kill_loop, kill_workers, find_worker, client_cleanup,
}

-- The list of the process holds these workers.
pub record IsWorkers (s : Workers) (ws : List (ℕ × Worker)) : Type 0 where
  pub span : Span s.heap none ws none
  pub head : s.workers ≡ first_or none ws
  pub distinct : DistinctCells ws

-- What holds behind `add_worker` on a list that is not empty.
record Added (run : Run (Bool × Workers)) (wtp tid sockfd : ℕ) (b : ℕ) (w : Worker)
    (ws : List (ℕ × Worker)) : Type 0 where
  state : Workers
  runs : run ≡ ok (true, state)
  head : state.workers ≡ some b
  span : Span state.heap (some wtp) ((b, w) ∷ ws) none
  new :
      state.heap wtp
      ≡ some (record { next = some b; prev = none; item = record { tid = tid; sockfd = sockfd } })

release_self : (h : Heap Worker) (a : ℕ) → release h a a ≡ none
unfolding release
release_self h a = rw (==-refl a) refl

-- The first node is freed behind the node `wtp`, and `workers` still points at it.
record Dangling (run : Run (Option ℕ × Workers)) (b : ℕ) (first : Option ℕ) : Type 0 where
  closed : Option ℕ
  state : Workers
  runs : run ≡ ok (closed, state)
  head : state.workers ≡ first
  gone : state.heap b ≡ none

drop_first :
    (ws : List (ℕ × Worker)) (wtp b : ℕ) (w : Worker) (s : Workers) (n : Node Worker)
    → Span s.heap (some wtp) ((b, w) ∷ ws) none
    → s.heap wtp ≡ some n
    → DistinctCells ((b, w) ∷ ws)
    → NotIn wtp ((b, w) ∷ ws)
    → Dangling (drop_worker s (some b)) b s.workers
unfolding deref set_next
drop_first [] wtp b w s n span new d i = record {
  closed = some w.sockfd;
  state = record {
    heap = release (set_node s.heap wtp (record n { next = none })) b;
    workers = s.workers;
  };
  runs = rw (span.0, span.0, new) refl;
  head = refl;
  gone = release_self (set_node s.heap wtp (record n { next = none })) b;
}
drop_first ((c, v) ∷ ws) wtp b w s n span new d i =
    let l = set_prev-Linked s.heap (some b) (some wtp) c v ws none d.1 span.1 in
    record {
      closed = some w.sockfd;
      state = record {
        heap = release (set_node l.heap wtp (record n { next = some c })) b;
        workers = s.workers;
      };
      runs = rw (span.0, l.runs, l.same b d.0 ∙ span.0, l.same wtp i.1 ∙ new) refl;
      head = refl;
      gone = release_self (set_node l.heap wtp (record n { next = some c })) b;
    }

module _ (s : Workers) (wtp tid sockfd b : ℕ) (w : Worker) (ws : List (ℕ × Worker))
    (q : IsWorkers s ((b, w) ∷ ws)) (fresh : NotIn wtp ((b, w) ∷ ws)) where
  add_worker-Added : Added (add_worker (some wtp) tid sockfd s) wtp tid sockfd b w ws
  unfolding add_worker
  add_worker-Added =
      let n : Node Worker = record {
        next = some b;
        prev = none;
        item = record { tid = tid; sockfd = sockfd };
      } in
      let l =
        set_prev-Linked (set_node s.heap wtp n) none (some wtp) b w ws none q.distinct
          (Span-set_node s.heap wtp n none ((b, w) ∷ ws) none fresh q.span) in
      record {
        state = record { heap = l.heap; workers = some b };
        runs = rw (q.head, l.runs) refl;
        head = refl;
        span = l.span;
        new = l.same wtp fresh ∙ set_node_self s.heap wtp n;
      }

  -- On a worker list that is not empty, after add_worker adds a worker in memory that is not in use
  -- and client_cleanup runs for the thread of the first node, kill_workers follows a dangling
  -- pointer.
  pub client_cleanup-dangling :
      (fuel fuel' : ℕ)
      → 0 < fuel
      → 0 < fuel'
      → (add_worker (some wtp) tid sockfd s >>= λ r.
          (client_cleanup fuel w.tid r.1 >>= λ t. kill_workers fuel' t.1))
        ≡ invalid
  unfolding kill_workers kill_loop client_cleanup find_worker deref
  client_cleanup-dangling zero fuel' l l' = absurd (omega arith)
  client_cleanup-dangling (suc fuel) zero l l' = absurd (omega arith)
  client_cleanup-dangling (suc fuel) (suc fuel') l l' =
      let a = add_worker-Added in
      let d =
        drop_first ws wtp b w a.state
          (record { next = some b; prev = none; item = record { tid = tid; sockfd = sockfd } })
          a.span a.new q.distinct fresh in
      rw (a.runs, a.head, a.span.0, ==-refl w.tid, d.runs, d.head, a.head, d.gone) refl
