-- ===== src/Printd/Queue/Remove.antt =====
-- `remove_job` on the list of jobs.
use my_file.Prelude.{ℕ, ◌≡◌, refl, sym, ap, ◌∙◌, none, some, List, [], ◌∷◌, ◌++◌}
use my_file.Printd.Heap.{Node, Run, ok, deref, set_next}
use my_file.Printd.Heap.Span.{
  first_or, last_or, Span, SameBut, Span-same, Span-append, Span-split, last_or-append, last_some,
  set_prev-Linked, set_next-Linked,
}
use my_file.Printd.Heap.Distinct.{
  NotIn-left, NotIn-right, Disjoint-append, Distinct-left, Distinct-right, Disjoint-tail,
  Disjoint-sym, Distinct-append,
}
use my_file.Printd.Queue.{Job, Jobs, unlink_next, unlink_prev, remove_job}
use my_file.Printd.Queue.Order.{IsQueue, Becomes}

module _ (s : Jobs) (ys zs : List (ℕ × Job)) (a : ℕ) (x : Job) where
  abbrev node : Node Job
  node = record { next = first_or none zs; prev = last_or none ys; item = x }

  -- The list between the two halves of `remove_job`: the back link leads past the job.
  record Halfway (run : Run Jobs) : Type 0 where
    state : Jobs
    runs : run ≡ ok state
    front : Span state.heap none ys (some a)
    there : state.heap a ≡ some node
    back : Span state.heap (last_or none ys) zs none
    head : state.jobhead ≡ s.jobhead
    tail : state.jobtail ≡ last_or none (ys ++ zs)
    same : SameBut zs s.heap state.heap

module _ (s : Jobs) (ys : List (ℕ × Job)) (a : ℕ) (x : Job) where
  unlink_next-Halfway :
      (zs : List (ℕ × Job))
      → IsQueue s (ys ++ (a, x) ∷ zs)
      → Halfway s ys zs a x (unlink_next s (last_or none ys) (first_or none zs))
  unlink_next-Halfway [] q =
      let (front, back) = Span-split s.heap none ys ((a, x) ∷ []) none q.span in
      record {
        state = record s { jobtail = last_or none ys };
        runs = refl;
        front = front;
        there = back.0;
        back = tt;
        head = refl;
        tail = sym (last_or-append none ys []);
        same = λ c i. refl;
      }
  unlink_next-Halfway ((c, z) ∷ zs) q =
      let rest : List (ℕ × Job) = (c, z) ∷ zs in
      let (front, back) = Span-split s.heap none ys ((a, x) ∷ rest) none q.span in
      let d = Distinct-right ys ((a, x) ∷ rest) q.distinct in
      let j = Disjoint-append ys ((a, x) ∷ rest) q.distinct in
      let l = set_prev-Linked s.heap (some a) (last_or none ys) c z zs none d.1 back.1 in
      record {
        state = record s { heap = l.heap };
        runs = rw l.runs refl;
        front =
            Span-same s.heap l.heap rest l.same none ys (some a) (Disjoint-tail a x ys rest j)
              front;
        there = l.same a d.0 ∙ back.0;
        back = l.span;
        head = refl;
        tail =
            q.tail ∙ (last_or-append none ys ((a, x) ∷ rest) ∙ sym (last_or-append none ys rest));
        same = l.same;
      }

unlink_prev-IsQueue :
    (s : Jobs) (ys zs : List (ℕ × Job)) (a : ℕ) (x : Job) (q : IsQueue s (ys ++ (a, x) ∷ zs))
    {run : Run Jobs} (h : Halfway s ys zs a x run)
    → Becomes h.state (unlink_prev h.state (first_or none zs) (last_or none ys)) (ys ++ zs)
unlink_prev-IsQueue s [] zs a x q h = record {
  state = record h.state { jobhead = first_or none zs };
  runs = refl;
  queue = record { span = h.back; head = refl; tail = h.tail; distinct = q.distinct.1 };
  same = λ c i. refl;
}
unlink_prev-IsQueue s ((b, y) ∷ ys) zs a x q h =
    let all : List (ℕ × Job) = (b, y) ∷ ys in
    let d = Distinct-left all ((a, x) ∷ zs) q.distinct in
    let e = Distinct-right all ((a, x) ∷ zs) q.distinct in
    let j = Disjoint-tail a x all zs (Disjoint-append all ((a, x) ∷ zs) q.distinct) in
    let (t, last) = last_some b ys in
    let l = set_next-Linked h.state.heap none b y ys (some a) (first_or none zs) d h.front in
    let link : set_next h.state.heap (some t) (first_or none zs) ≡ ok l.heap =
      ap (λ o. set_next h.state.heap o (first_or none zs)) (sym last) ∙ l.runs in
    record {
      state = record h.state { heap = l.heap };
      runs = rw (last, link) refl;
      queue = record {
        span = Span-append l.heap none all zs none l.span (
            Span-same h.state.heap l.heap all l.same (last_or none all) zs none
              (Disjoint-sym all zs j) h.back);
        head = h.head ∙ q.head;
        tail = h.tail;
        distinct = Distinct-append all zs d e.1 j;
      };
      same = λ c i. l.same c (NotIn-left c all zs i);
    }

-- remove
pub remove_job-IsQueue :
    (s : Jobs) (ys zs : List (ℕ × Job)) (a : ℕ) (x : Job)
    → IsQueue s (ys ++ (a, x) ∷ zs)
    → Becomes s (remove_job (some a) s) (ys ++ zs)
unfolding remove_job deref
remove_job-IsQueue s ys zs a x q =
    let there = (Span-split s.heap none ys ((a, x) ∷ zs) none q.span).1.0 in
    let h = unlink_next-Halfway s ys a x zs q in
    let r = unlink_prev-IsQueue s ys zs a x q h in
    record {
      state = r.state;
      runs = rw (there, h.runs, h.there, r.runs) refl;
      queue = r.queue;
      same = λ c i. r.same c i ∙ h.same c (NotIn-right c ys zs i);
    }
