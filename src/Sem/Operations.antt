-- ===== src/Sem/Operations.antt =====
-- What the operations of semaph.c do to a set whose lock has at most one holder.
use my_file.Prelude.{
  ℕ, [], ◌∷◌, zero, suc, ◌+◌, ◌-◌, ◌≤◌, ◌≡◌, refl, sym, ◌∙◌, inl, inr, true, false, Bool-cases,
  arith, ==-refl, ltb, ◌==◌, ℤ, pos, negsuc,
}
use mathlib.Core.Path.{subst}
use my_file.Sem.Kernel.{
  operate, in_range, Sembuf, adjusted, Adjust, SemSet, Semop, done, sleeps, out_of_range, semop,
  minus, update, bigcount, semvmx, setval, undone, plus_adjust, sem_value,
}
use my_file.Sem.Process.{op_lock, op_endcreate, op_open, op_close, op_unlock, op_op}

-- A set has this counter, this lock and these adjustments of process `i` for them, those of the
-- other processes being as before.
pub record Becomes (i : ℕ) (s : SemSet) (count lock : ℕ) (uc ul : ℤ) (t : SemSet) : Type 0 where
  pub same : t.id ≡ s.id
  pub count_is : t.count ≡ count
  pub lock_is : t.lock ≡ lock
  pub undo_count : (t.undo i).count ≡ uc
  pub undo_lock : (t.undo i).lock ≡ ul
  pub others :
      (j : ℕ)
      → (i == j) ≡ false
      → ((t.undo j).count ≡ (s.undo j).count) × ((t.undo j).lock ≡ (s.undo j).lock)

-- An operation sleeps, or it finds what it waits for and is done.
pub data Runs (i : ℕ) (s : SemSet) (when : Type 0) (count lock : ℕ) (uc ul : ℤ)
    : Semop → Type 0 where
  slept : Runs i s when count lock uc ul sleeps
  did :
      (t : SemSet) → when → Becomes i s count lock uc ul t → Runs i s when count lock uc ul (done t)

module _ (i : ℕ) (s : SemSet) where
  abbrev adjusting : ℕ → ℕ → Adjust → SemSet
  adjusting count lock a = record s { count = count; lock = lock; undo = update s.undo i a }

  adjusting-Becomes :
      (count lock : ℕ) (a : Adjust) → Becomes i s count lock a.count a.lock (adjusting count lock a)
  adjusting-Becomes count lock a = record {
    same = refl;
    count_is = refl;
    lock_is = refl;
    undo_count = rw (==-refl i) refl;
    undo_lock = rw (==-refl i) refl;
    others = λ j d. (rw d refl, rw d refl);
  }

  module _ (small : s.lock ≤ 1) (high : s.count ≤ bigcount) where
    pub semop-op_lock :
        (s.undo i).lock ≡ pos 0
        → Runs i s (s.lock ≡ 0) s.count 1 (s.undo i).count (negsuc 0) (semop i op_lock s)
    unfolding semop minus
    semop-op_lock u = elim (Bool-cases (s.lock == 0)) [
      | inl e ↦
          let free : s.lock ≡ 0 = ground arith in
          let a : Adjust = record (s.undo i) { lock = negsuc 0 } in
          let r : semop i op_lock s ≡ done (adjusting s.count 1 a) = ground arith in
          rw r (did (adjusting s.count 1 a) free (adjusting-Becomes s.count 1 a))
      | inr e ↦ let r : semop i op_lock s ≡ sleeps = ground arith in rw r slept
    ]

    pub semop-op_endcreate :
        s.lock ≡ 1
        → (s.undo i).lock ≡ negsuc 0
        → (s.undo i).count ≡ pos 0
        → Runs i s (1 ≤ s.count) (s.count - 1) 0 (pos 1) (pos 0) (semop i op_endcreate s)
    unfolding semop minus
    semop-op_endcreate l u v = elim (Bool-cases (ltb 0 s.count)) [
      | inl e ↦
          let some_left : 1 ≤ s.count = ground arith in
          let a : Adjust = record (s.undo i) { count = pos 1; lock = pos 0 } in
          let r : semop i op_endcreate s ≡ done (adjusting (s.count - 1) 0 a) = ground arith in
          rw r (did (adjusting (s.count - 1) 0 a) some_left (adjusting-Becomes (s.count - 1) 0 a))
      | inr e ↦ let r : semop i op_endcreate s ≡ sleeps = ground arith in rw r slept
    ]

    pub semop-op_open :
        (s.undo i).count ≡ pos 0
        → Runs i s (1 ≤ s.count) (s.count - 1) s.lock (pos 1) (s.undo i).lock (semop i op_open s)
    unfolding semop minus
    semop-op_open v = elim (Bool-cases (ltb 0 s.count)) [
      | inl e ↦
          let some_left : 1 ≤ s.count = ground arith in
          let a : Adjust = record (s.undo i) { count = pos 1 } in
          let r : semop i op_open s ≡ done (adjusting (s.count - 1) s.lock a) = ground arith in
          rw r (
            did (adjusting (s.count - 1) s.lock a) some_left
              (adjusting-Becomes (s.count - 1) s.lock a))
      | inr e ↦ let r : semop i op_open s ≡ sleeps = ground arith in rw r slept
    ]

    pub op_open_runs :
        1 ≤ s.count
        → (s.undo i).count ≡ pos 0
        → (t : SemSet) × (semop i op_open s ≡ done t)
          × Becomes i s (s.count - 1) s.lock (pos 1) (s.undo i).lock t
    unfolding semop minus
    op_open_runs c v =
        let a : Adjust = record (s.undo i) { count = pos 1 } in
        (adjusting (s.count - 1) s.lock a, ground arith, adjusting-Becomes (s.count - 1) s.lock a)

    pub semop-op_close :
        (s.undo i).lock ≡ pos 0
        → (s.undo i).count ≡ pos 1
        → Runs i s (s.lock ≡ 0) (s.count + 1) 1 (pos 0) (negsuc 0) (semop i op_close s)
    unfolding semop minus
    semop-op_close u v = elim (Bool-cases (s.lock == 0)) [
      | inl e ↦
          let free : s.lock ≡ 0 = ground arith in
          let a : Adjust = record (s.undo i) { count = pos 0; lock = negsuc 0 } in
          let r : semop i op_close s ≡ done (adjusting (s.count + 1) 1 a) = ground arith in
          rw r (did (adjusting (s.count + 1) 1 a) free (adjusting-Becomes (s.count + 1) 1 a))
      | inr e ↦ let r : semop i op_close s ≡ sleeps = ground arith in rw r slept
    ]

    pub op_unlock_runs :
        s.lock ≡ 1
        → (s.undo i).lock ≡ negsuc 0
        → (t : SemSet) × (semop i op_unlock s ≡ done t)
          × Becomes i s s.count 0 (s.undo i).count (pos 0) t
    unfolding semop minus
    op_unlock_runs l u =
        let a : Adjust = record (s.undo i) { lock = pos 0 } in
        (adjusting s.count 0 a, ground arith, adjusting-Becomes s.count 0 a)

    pub semop-op_unlock :
        s.lock ≡ 1
        → (s.undo i).lock ≡ negsuc 0
        → Runs i s Unit s.count 0 (s.undo i).count (pos 0) (semop i op_unlock s)
    semop-op_unlock l u = let r = op_unlock_runs l u in rw r.1 (did r.0 tt r.2)

-- What an operation that ends leaves.
pub Runs-done :
    {i : ℕ} {s : SemSet} {when : Type 0} {count lock : ℕ} {uc ul : ℤ} {r : Semop} (t : SemSet)
    → Runs i s when count lock uc ul r
    → r ≡ done t
    → when × Becomes i s count lock uc ul t
Runs-done t slept e = cc
Runs-done {i} {s} {count} {lock} {uc} {ul} t (did u w b) e =
    (w, subst (Becomes i s count lock uc ul) (cc) b)

-- Two sets differ at most in the semaphore and the adjustments for it.
pub record Alike (s t : SemSet) : Type 0 where
  pub same : t.id ≡ s.id
  pub count_is : t.count ≡ s.count
  pub lock_is : t.lock ≡ s.lock
  pub undo_is :
      (j : ℕ) → ((t.undo j).count ≡ (s.undo j).count) × ((t.undo j).lock ≡ (s.undo j).lock)

-- An operation that ends leaves such a set.
abbrev AlikeDone : SemSet → Semop → Type 0
AlikeDone s (done t) = Alike s t
AlikeDone s sleeps = Unit
AlikeDone s out_of_range = Unit

update_value :
    (i j : ℕ) (z : ℤ) (f : ℕ → Adjust)
    → ((update f i (record (f i) { value = z }) j).count ≡ (f j).count)
      × ((update f i (record (f i) { value = z }) j).lock ≡ (f j).lock)
update_value i j z f = elim (Bool-cases (i == j)) [
  | inl e ↦ let q : i ≡ j = ground arith in rw (e, q) (refl, refl)
  | inr e ↦ rw e (refl, refl)
]

adjusted-Alike :
    (i : ℕ) (z : ℤ) (s : SemSet) (v : ℕ)
    → AlikeDone s (adjusted i sem_value z true (record s { value = v }))
adjusted-Alike i z s v = elim (Bool-cases (in_range (minus (s.undo i).value z))) [
  | inl e ↦ rw e (record {
    same = refl;
    count_is = refl;
    lock_is = refl;
    undo_is = λ j. update_value i j (minus (s.undo i).value z) s.undo;
  })
  | inr e ↦ rw e tt
]

operate-Alike : (i : ℕ) (z : ℤ) (s : SemSet) → AlikeDone s (operate i sem_value z true s)
operate-Alike i (pos zero) s = elim (Bool-cases (s.value == 0)) [
  | inl e ↦
      rw e (record { same = refl; count_is = refl; lock_is = refl; undo_is = λ j. (refl, refl) })
  | inr e ↦ rw e tt
]
operate-Alike i (pos (suc n)) s = elim (Bool-cases (ltb semvmx (s.value + suc n))) [
  | inl e ↦ rw e tt
  | inr e ↦ rw e (adjusted-Alike i (pos (suc n)) s (s.value + suc n))
]
operate-Alike i (negsuc n) s = elim (Bool-cases (ltb n s.value)) [
  | inl e ↦ rw e (adjusted-Alike i (negsuc n) s (s.value - suc n))
  | inr e ↦ rw e tt
]

one_operation :
    (i : ℕ) (o : Sembuf) (s : SemSet)
    → semop i (o ∷ []) s ≡ operate i o.sem_num o.sem_op o.sem_undo s
unfolding semop
one_operation i o s =
    elim (operate i o.sem_num o.sem_op o.sem_undo s)
      as (λ r.
        (elim r [ done s' ↦ semop i [] s' | sleeps ↦ sleeps | out_of_range ↦ out_of_range ]) ≡ r) [
          | done s' ↦ refl
          | sleeps ↦ refl
          | out_of_range ↦ refl
        ]

pub semop-op_op : (i : ℕ) (z : ℤ) (s t : SemSet) → semop i (op_op z) s ≡ done t → Alike s t
semop-op_op i z s t e =
    let o : Sembuf = record { sem_num = sem_value; sem_op = z; sem_undo = true } in
    subst (AlikeDone s) (sym (one_operation i o s) ∙ e) (operate-Alike i z s)

pub setval-Alike : (v : ℕ) (s : SemSet) → Alike s (setval sem_value v s)
unfolding setval
setval-Alike v s = record {
  same = refl;
  count_is = refl;
  lock_is = refl;
  undo_is = λ j. (refl, refl);
}

pub undone-Becomes :
    (i : ℕ) (s : SemSet)
    → Becomes i s
        (plus_adjust s.count (s.undo i).count)
        (plus_adjust s.lock (s.undo i).lock)
        (pos 0)
        (pos 0)
        (undone i s)
unfolding undone
undone-Becomes i s = record {
  same = refl;
  count_is = refl;
  lock_is = refl;
  undo_count = rw (==-refl i) refl;
  undo_lock = rw (==-refl i) refl;
  others = λ j d. (rw d refl, rw d refl);
}
