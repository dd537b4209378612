-- ===== src/Printd/Heap/Distinct.antt =====
-- Lists of nodes that share no address.
use my_file.Prelude.{ℕ, ◌≡◌, false, List, [], ◌∷◌, ◌++◌, ◌==◌, arith}
use my_file.Printd.Heap.Span.{NotIn, DistinctCells, Disjoint}

pub flip : (a b : ℕ) → (a == b) ≡ false → (b == a) ≡ false
flip a b h = ground arith

module _ {A : Type 0} where
  pub NotIn-append : (c : ℕ) (xs ys : List (ℕ × A)) → NotIn c xs → NotIn c ys → NotIn c (xs ++ ys)
  NotIn-append c [] ys h k = k
  NotIn-append c ((b, y) ∷ xs) ys h k = (h.0, NotIn-append c xs ys h.1 k)

  pub NotIn-left : (c : ℕ) (xs ys : List (ℕ × A)) → NotIn c (xs ++ ys) → NotIn c xs
  NotIn-left c [] ys h = tt
  NotIn-left c ((b, y) ∷ xs) ys h = (h.0, NotIn-left c xs ys h.1)

  pub NotIn-right : (c : ℕ) (xs ys : List (ℕ × A)) → NotIn c (xs ++ ys) → NotIn c ys
  NotIn-right c [] ys h = h
  NotIn-right c ((b, y) ∷ xs) ys h = NotIn-right c xs ys h.1

  pub Disjoint-cell : (a : ℕ) (x : A) (xs : List (ℕ × A)) → NotIn a xs → Disjoint xs ((a, x) ∷ [])
  Disjoint-cell a x [] i = tt
  Disjoint-cell a x ((b, y) ∷ xs) i = ((flip b a i.0, tt), Disjoint-cell a x xs i.1)

  pub Disjoint-append : (xs ys : List (ℕ × A)) → DistinctCells (xs ++ ys) → Disjoint xs ys
  Disjoint-append [] ys d = tt
  Disjoint-append ((b, y) ∷ xs) ys d = (NotIn-right b xs ys d.0, Disjoint-append xs ys d.1)

  pub Distinct-left : (xs ys : List (ℕ × A)) → DistinctCells (xs ++ ys) → DistinctCells xs
  Distinct-left [] ys d = tt
  Distinct-left ((b, y) ∷ xs) ys d = (NotIn-left b xs ys d.0, Distinct-left xs ys d.1)

  pub Distinct-right : (xs ys : List (ℕ × A)) → DistinctCells (xs ++ ys) → DistinctCells ys
  Distinct-right [] ys d = d
  Distinct-right ((b, y) ∷ xs) ys d = Distinct-right xs ys d.1

  pub Disjoint-tail :
      (a : ℕ) (x : A) (xs ys : List (ℕ × A)) → Disjoint xs ((a, x) ∷ ys) → Disjoint xs ys
  Disjoint-tail a x [] ys d = tt
  Disjoint-tail a x ((b, y) ∷ xs) ys d = (d.0.1, Disjoint-tail a x xs ys d.1)

  pub Disjoint-NotIn :
      (a : ℕ) (x : A) (xs ys : List (ℕ × A)) → Disjoint xs ((a, x) ∷ ys) → NotIn a xs
  Disjoint-NotIn a x [] ys d = tt
  Disjoint-NotIn a x ((b, y) ∷ xs) ys d = (flip a b d.0.0, Disjoint-NotIn a x xs ys d.1)

  pub Disjoint-sym : (xs ys : List (ℕ × A)) → Disjoint xs ys → Disjoint ys xs
  Disjoint-sym xs [] d = tt
  Disjoint-sym xs ((b, y) ∷ ys) d =
      (Disjoint-NotIn b y xs ys d, Disjoint-sym xs ys (Disjoint-tail b y xs ys d))

  pub Distinct-append :
      (xs ys : List (ℕ × A))
      → DistinctCells xs
      → DistinctCells ys
      → Disjoint xs ys
      → DistinctCells (xs ++ ys)
  Distinct-append [] ys d e j = e
  Distinct-append ((b, y) ∷ xs) ys d e j =
      (NotIn-append b xs ys d.0 j.0, Distinct-append xs ys d.1 e j.1)

  pub Distinct-snoc :
      (xs : List (ℕ × A)) (a : ℕ) (x : A)
      → DistinctCells xs
      → NotIn a xs
      → DistinctCells (xs ++ (a, x) ∷ [])
  Distinct-snoc xs a x d i = Distinct-append xs ((a, x) ∷ []) d (tt, tt) (Disjoint-cell a x xs i)
