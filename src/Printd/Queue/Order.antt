-- ===== src/Printd/Queue/Order.antt =====
-- The functions on the job list against a list of jobs in order.
use my_file.Prelude.{ℕ, ◌≡◌, refl, sym, ap, ◌∙◌, Option, none, some, List, [], ◌∷◌, ◌++◌, ℤ}
use my_file.Printd.Heap.{Node, Heap, Run, ok, set_node, set_next}
use my_file.Printd.Heap.Span.{
  first_or, last_or, Span, NotIn, DistinctCells, Disjoint, SameBut, Span-same, Span-set_node,
  Span-append, last_or-append, last_some, set_prev-Linked, set_next-Linked, set_node_self,
  set_node_other,
}
use my_file.Printd.Heap.Distinct.{NotIn-left, NotIn-right, Distinct-snoc, Disjoint-cell}
use my_file.Printd.Queue.{link_tail, Printreq, Job, Jobs, add_job, replace_job}

-- The list of the process holds these jobs in this order, linked both ways, each in a node of its own.
pub record IsQueue (s : Jobs) (xs : List (ℕ × Job)) : Type 0 where
  pub span : Span s.heap none xs none
  pub head : s.jobhead ≡ first_or none xs
  pub tail : s.jobtail ≡ last_or none xs
  pub distinct : DistinctCells xs

-- A function goes on with the jobs in this order,
-- and writes no other nodes.
pub record Becomes (s : Jobs) (run : Run Jobs) (xs : List (ℕ × Job)) : Type 0 where
  pub state : Jobs
  pub runs : run ≡ ok state
  pub queue : IsQueue state xs
  pub same : SameBut xs s.heap state.heap

-- `link_tail` where there is a tail
link_tail-Linked :
    (h : Heap Job) (s : Jobs) (a t : ℕ) (o : Option ℕ) (h' : Heap Job)
    → o ≡ some t
    → set_next h o (some a) ≡ ok h'
    → link_tail h s a o ≡ ok (record { heap = h'; jobhead = s.jobhead; jobtail = some a })
link_tail-Linked h s a t none h' e r = cc
link_tail-Linked h s a t (some u) h' e r = rw r refl

module _ (s : Jobs) (a : ℕ) (reqp : Printreq) (jobid : ℤ) where
  abbrev new_job : Job
  new_job = record { jobid = jobid; req = reqp }

  abbrev new_node : Option ℕ → Node Job
  new_node prev = record { next = none; prev = prev; item = new_job }

  -- add job
  pub add_job-IsQueue :
      (xs : List (ℕ × Job))
      → IsQueue s xs
      → NotIn a xs
      → Becomes s (add_job (some a) reqp jobid s) (xs ++ (a, new_job) ∷ [])
  unfolding add_job
  add_job-IsQueue [] q i = record {
    state = record { heap = set_node s.heap a (new_node none); jobhead = some a; jobtail = some a };
    runs = rw q.tail refl;
    queue = record {
      span = (set_node_self s.heap a (new_node none), tt);
      head = refl;
      tail = refl;
      distinct = (tt, tt);
    };
    same = λ c i. set_node_other s.heap a c (new_node none) i.0;
  }
  add_job-IsQueue ((b, y) ∷ xs) q i =
      let all : List (ℕ × Job) = (b, y) ∷ xs in
      let h : Heap Job = set_node s.heap a (new_node s.jobtail) in
      let l =
        set_next-Linked h none b y xs none (some a) q.distinct
          (Span-set_node s.heap a (new_node s.jobtail) none all none i q.span) in
      let (t, e) = last_some b xs in
      let tail : s.jobtail ≡ some t = q.tail ∙ e in
      let here : l.heap a ≡ some (new_node (last_or (some b) xs)) =
        l.same a i
        ∙ (set_node_self s.heap a (new_node s.jobtail) ∙ ap (λ p. some (new_node p)) q.tail) in
      record {
        state = record { heap = l.heap; jobhead = s.jobhead; jobtail = some a };
        runs =
            link_tail-Linked h s a t s.jobtail l.heap tail
              (ap (λ o. set_next h o (some a)) q.tail ∙ l.runs);
        queue = record {
          span = Span-append l.heap none all ((a, new_job) ∷ []) none l.span (here, tt);
          head = q.head;
          tail = sym (last_or-append none all ((a, new_job) ∷ []));
          distinct = Distinct-snoc all a new_job q.distinct i;
        };
        same = λ c j.
            let k = NotIn-right c all ((a, new_job) ∷ []) j in
            l.same c (NotIn-left c all ((a, new_job) ∷ []) j)
            ∙ set_node_other s.heap a c (new_node s.jobtail) k.0;
      }

module _ (s : Jobs) (a : ℕ) (x : Job) (e p : Option ℕ)
    (there : s.heap a ≡ some (record { next = e; prev = p; item = x })) where
  -- replace
  pub replace_job-IsQueue :
      (xs : List (ℕ × Job))
      → IsQueue s xs
      → NotIn a xs
      → Becomes s (replace_job (some a) s) ((a, x) ∷ xs)
  unfolding replace_job
  replace_job-IsQueue [] q i =
      let l1 = set_prev-Linked s.heap p none a x [] e (tt, tt) (there, tt) in
      let l2 = set_next-Linked l1.heap none a x [] e none (tt, tt) l1.span in
      let next : set_next l1.heap (some a) s.jobhead ≡ ok l2.heap =
        ap (λ o. set_next l1.heap (some a) o) q.head ∙ l2.runs in
      record {
        state = record { heap = l2.heap; jobhead = some a; jobtail = some a };
        runs = rw (l1.runs, next, q.head) refl;
        queue = record { span = l2.span; head = refl; tail = refl; distinct = (tt, tt) };
        same = λ c j. l2.same c j ∙ l1.same c j;
      }
  replace_job-IsQueue ((b, y) ∷ xs) q i =
      let all : List (ℕ × Job) = (b, y) ∷ xs in
      let l1 = set_prev-Linked s.heap p none a x [] e (tt, tt) (there, tt) in
      let l2 = set_next-Linked l1.heap none a x [] e (some b) (tt, tt) l1.span in
      let next : set_next l1.heap (some a) s.jobhead ≡ ok l2.heap =
        ap (λ o. set_next l1.heap (some a) o) q.head ∙ l2.runs in
      let apart : Disjoint all ((a, x) ∷ []) = Disjoint-cell a x all i in
      let rest =
        Span-same l1.heap l2.heap ((a, x) ∷ []) l2.same none all none apart
          (Span-same s.heap l1.heap ((a, x) ∷ []) l1.same none all none apart q.span) in
      let l3 = set_prev-Linked l2.heap none (some a) b y xs none q.distinct rest in
      record {
        state = record { heap = l3.heap; jobhead = some a; jobtail = s.jobtail };
        runs = rw (l1.runs, next, q.head, l3.runs) refl;
        queue = record {
          span = (l3.same a i ∙ l2.span.0, l3.span);
          head = refl;
          tail = q.tail;
          distinct = (i, q.distinct);
        };
        same = λ c j. l3.same c j.1 ∙ (l2.same c (j.0, tt) ∙ l1.same c (j.0, tt));
      }
