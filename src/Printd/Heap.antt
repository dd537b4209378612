-- ===== src/Printd/Heap.antt =====
-- The nodes of the doubly linked lists of printd.c in memory, and the outcomes of its functions.
pub mod Span
pub mod Distinct
use my_file.Prelude.{ℕ, Option, none, some, ◌==◌, if◌then◌else◌}

-- `struct job` and `struct worker_thread`: the links, and the members behind them
pub record Node (A : Type 0) : Type 0 where
  pub next : Option ℕ
  pub prev : Option ℕ
  pub item : A

-- memory by address, nothing where no node is allocated
abbrev pub Heap : Type 0 → Type 0
Heap A = ℕ → Option (Node A)

-- A function goes on, ends the process (`log_quit`, `log_sys`), or follows a pointer that is NULL
-- or dangling or writes behind a buffer; a loop of the model may run out of its fuel.
pub data Run (A : Type 0) : Type 0 where
  ok : A → Run A
  exited : Run A
  invalid : Run A
  out_of_fuel : Run A

module _ {A B : Type 0} where
  infixl 5 ◌>>=◌
  abbrev pub ◌>>=◌ : Run A → (A → Run B) → Run B
  ok a >>= k = k a
  exited >>= k = exited
  invalid >>= k = invalid
  out_of_fuel >>= k = out_of_fuel

module _ {A : Type 0} where
  unfoldable pub set_node : Heap A → ℕ → Node A → Heap A
  set_node h a n b = if b == a then some n else h b

  unfoldable pub release : Heap A → ℕ → Heap A
  release h a b = if b == a then none else h b

  abbrev pub or_invalid : Option (Node A) → Run (Node A)
  or_invalid none = invalid
  or_invalid (some n) = ok n

  -- `*p`
  unfoldable pub deref : Heap A → Option ℕ → Run (Node A)
  deref h none = invalid
  deref h (some a) = or_invalid (h a)

  -- `p->next = v` and `p->prev = v`
  abbrev write_next : Heap A → ℕ → Option ℕ → Option (Node A) → Run (Heap A)
  write_next h a v none = invalid
  write_next h a v (some n) = ok (set_node h a (record n { next = v }))

  unfoldable pub set_next : Heap A → Option ℕ → Option ℕ → Run (Heap A)
  set_next h none v = invalid
  set_next h (some a) v = write_next h a v (h a)

  abbrev write_prev : Heap A → ℕ → Option ℕ → Option (Node A) → Run (Heap A)
  write_prev h a v none = invalid
  write_prev h a v (some n) = ok (set_node h a (record n { prev = v }))

  unfoldable pub set_prev : Heap A → Option ℕ → Option ℕ → Run (Heap A)
  set_prev h none v = invalid
  set_prev h (some a) v = write_prev h a v (h a)
