-- ===== src/Printd/Heap/Span.antt =====
-- Stretches of a doubly linked list, as the lists of their nodes.
use my_file.Prelude.{
  ℕ, ◌≡◌, refl, ◌∙◌, false, Option, some, List, [], ◌∷◌, ◌++◌, ◌==◌, ==-refl, arith,
}
use my_file.Printd.Heap.{Node, Heap, Run, ok, set_node, set_next, set_prev}

module _ {A : Type 0} where
  -- the address of the first node, and of the last one
  abbrev pub first_or : Option ℕ → List (ℕ × A) → Option ℕ
  first_or e [] = e
  first_or e ((a, x) ∷ xs) = some a

  abbrev pub last_or : Option ℕ → List (ℕ × A) → Option ℕ
  last_or p [] = p
  last_or p ((a, x) ∷ xs) = last_or (some a) xs

  -- The nodes are linked in this order both ways, between `p` and `e`.
  abbrev pub Span : Heap A → Option ℕ → List (ℕ × A) → Option ℕ → Type 0
  Span h p [] e = Unit
  Span h p ((a, x) ∷ xs) e =
      (h a ≡ some (record { next = first_or e xs; prev = p; item = x })) × Span h (some a) xs e

  abbrev pub NotIn : ℕ → List (ℕ × A) → Type 0
  NotIn a [] = Unit
  NotIn a ((b, x) ∷ xs) = ((b == a) ≡ false) × NotIn a xs

  -- No address stands twice.
  abbrev pub DistinctCells : List (ℕ × A) → Type 0
  DistinctCells [] = Unit
  DistinctCells ((a, x) ∷ xs) = NotIn a xs × DistinctCells xs

  -- no address of the one list in the other
  abbrev pub Disjoint : List (ℕ × A) → List (ℕ × A) → Type 0
  Disjoint [] ys = Unit
  Disjoint ((a, x) ∷ xs) ys = NotIn a ys × Disjoint xs ys

  -- The two heaps agree but at the nodes of the list.
  abbrev pub SameBut : List (ℕ × A) → Heap A → Heap A → Type 0
  SameBut xs h h' = (b : ℕ) → NotIn b xs → h' b ≡ h b

  pub Span-same :
      (h h' : Heap A) (ys : List (ℕ × A))
      → SameBut ys h h'
      → (p : Option ℕ) (xs : List (ℕ × A)) (e : Option ℕ) → Disjoint xs ys
      → Span h p xs e
      → Span h' p xs e
  Span-same h h' ys same p [] e d s = tt
  Span-same h h' ys same p ((a, x) ∷ xs) e d s =
      (same a d.0 ∙ s.0, Span-same h h' ys same (some a) xs e d.1 s.1)

  pub Span-set_node :
      (h : Heap A) (a : ℕ) (n : Node A) (p : Option ℕ) (xs : List (ℕ × A)) (e : Option ℕ)
      → NotIn a xs
      → Span h p xs e
      → Span (set_node h a n) p xs e
  unfolding set_node
  Span-set_node h a n p [] e d s = tt
  Span-set_node h a n p ((b, x) ∷ xs) e d s =
      (rw d.0 s.0, Span-set_node h a n (some b) xs e d.1 s.1)

  pub Span-append :
      (h : Heap A) (p : Option ℕ) (xs ys : List (ℕ × A)) (e : Option ℕ)
      → Span h p xs (first_or e ys)
      → Span h (last_or p xs) ys e
      → Span h p (xs ++ ys) e
  Span-append h p [] ys e s t = t
  Span-append h p ((a, x) ∷ []) ys e s t = (s.0, t)
  Span-append h p ((a, x) ∷ ((b, y) ∷ xs)) ys e s t =
      (s.0, Span-append h (some a) ((b, y) ∷ xs) ys e s.1 t)

  pub Span-split :
      (h : Heap A) (p : Option ℕ) (xs ys : List (ℕ × A)) (e : Option ℕ)
      → Span h p (xs ++ ys) e
      → Span h p xs (first_or e ys) × Span h (last_or p xs) ys e
  Span-split h p [] ys e s = (tt, s)
  Span-split h p ((a, x) ∷ []) ys e s = ((s.0, tt), s.1)
  Span-split h p ((a, x) ∷ ((b, y) ∷ xs)) ys e s =
      let r = Span-split h (some a) ((b, y) ∷ xs) ys e s.1 in ((s.0, r.0), r.1)

  pub last_or-append :
      (p : Option ℕ) (xs ys : List (ℕ × A)) → last_or p (xs ++ ys) ≡ last_or (last_or p xs) ys
  last_or-append p [] ys = refl
  last_or-append p ((a, x) ∷ xs) ys = last_or-append (some a) xs ys

  pub last_some : (b : ℕ) (xs : List (ℕ × A)) → (t : ℕ) × (last_or (some b) xs ≡ some t)
  last_some b [] = (b, refl)
  last_some b ((c, y) ∷ xs) = last_some c xs

  -- What an assignment to a link leaves.
  pub record Linked (run : Run (Heap A)) (xs : List (ℕ × A)) (h : Heap A) (p e : Option ℕ)
      : Type 0 where
    pub heap : Heap A
    pub runs : run ≡ ok heap
    pub span : Span heap p xs e
    pub same : SameBut xs h heap

  pub set_node_other :
      (h : Heap A) (a b : ℕ) (n : Node A) → (a == b) ≡ false → set_node h a n b ≡ h b
  unfolding set_node
  set_node_other h a b n d = let d' : (b == a) ≡ false = ground arith in rw d' refl

  pub set_node_self : (h : Heap A) (a : ℕ) (n : Node A) → set_node h a n a ≡ some n
  unfolding set_node
  set_node_self h a n = rw (==-refl a) refl

  -- The back link of the first node.
  pub set_prev-Linked :
      (h : Heap A) (p q : Option ℕ) (a : ℕ) (x : A) (xs : List (ℕ × A)) (e : Option ℕ)
      → DistinctCells ((a, x) ∷ xs)
      → Span h p ((a, x) ∷ xs) e
      → Linked (set_prev h (some a) q) ((a, x) ∷ xs) h q e
  unfolding set_prev
  set_prev-Linked h p q a x xs e d s =
      let n : Node A = record { next = first_or e xs; prev = q; item = x } in
      record {
        heap = set_node h a n;
        runs = rw s.0 refl;
        span = (set_node_self h a n, Span-set_node h a n (some a) xs e d.0 s.1);
        same = λ b i. set_node_other h a b n i.0;
      }

  -- The forward link of the last node.
  pub set_next-Linked :
      (h : Heap A) (p : Option ℕ) (a : ℕ) (x : A) (xs : List (ℕ × A)) (e e' : Option ℕ)
      → DistinctCells ((a, x) ∷ xs)
      → Span h p ((a, x) ∷ xs) e
      → Linked (set_next h (last_or p ((a, x) ∷ xs)) e') ((a, x) ∷ xs) h p e'
  unfolding set_next
  set_next-Linked h p a x [] e e' d s =
      let n : Node A = record { next = e'; prev = p; item = x } in
      record {
        heap = set_node h a n;
        runs = rw s.0 refl;
        span = (set_node_self h a n, tt);
        same = λ b i. set_node_other h a b n i.0;
      }
  set_next-Linked h p a x ((b, y) ∷ xs) e e' d s =
      let r = set_next-Linked h (some a) b y xs e e' d.1 s.1 in
      record {
        heap = r.heap;
        runs = r.runs;
        span = (r.same a d.0 ∙ s.0, r.span);
        same = λ c i. r.same c i.1;
      }
