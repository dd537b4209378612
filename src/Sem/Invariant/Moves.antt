-- ===== src/Sem/Invariant/Moves.antt =====
-- What the moves of one process keep.
use my_file.Prelude.{
  ℕ, ◌+◌, ◌≤◌, ◌<◌, ◌≡◌, refl, sym, ap, ◌∙◌, ◌⊎◌, inl, inr, false, Bool-cases, arith, ◌==◌, ltb,
  ltb→lt, ℤ, pos, neg,
}
use my_file.Sem.Kernel.{SemSet, bigcount, update, setval, sem_count}
use my_file.Sem.Process.{At}
use my_file.Sem.Operations.{Becomes, Alike}
use my_file.Sem.Totals.{total-update, weight-le-total, total-le, total_mono}
use my_file.Sem.Invariant.{
  Stage, apart, user, reader, initialiser, keeper, stage, user_weight, lock_weight, fresh_weight,
  kept_weight, users, holders, initialisers, keepers, Sound,
}

pub weight_small : (g : Stage) → user_weight g ≤ 1
weight_small apart = omega arith
weight_small user = omega arith
weight_small reader = omega arith
weight_small initialiser = omega arith
weight_small keeper = omega arith

fresh-le-lock : (g : Stage) → fresh_weight g ≤ lock_weight g
fresh-le-lock apart = omega arith
fresh-le-lock user = omega arith
fresh-le-lock reader = omega arith
fresh-le-lock initialiser = omega arith
fresh-le-lock keeper = omega arith

module _ (n : ℕ) (s : SemSet) (procs : ℕ → At) (ok : Sound n s procs) (i : ℕ) (lt : i < n)
    (p : At) where
  open ok use {held, single, accounted, fresh, kept, undo_count, undo_lock}

  abbrev here : Stage
  here = stage s.id (procs i)

  abbrev there : Stage
  there = stage s.id p

  abbrev after : ℕ → At
  after = update procs i p

  -- Process `i` goes on at `p`, the counter and the lock change by what it is to the set before and
  -- behind.
  pub Sound-move :
      (t : SemSet)
      → t.id ≡ s.id
      → t.lock + lock_weight here ≡ s.lock + lock_weight there
      → t.lock ≤ 1
      → t.count + user_weight there ≡ s.count + user_weight here
      → (fresh_weight there ≤ fresh_weight here) ⊎ (s.count + users s.id n procs ≡ 0)
      → (kept_weight there ≤ kept_weight here) ⊎ (s.count + users s.id n procs ≡ bigcount)
      → (t.undo i).count ≡ pos (user_weight there)
      → (t.undo i).lock ≡ neg (lock_weight there)
      → ((j : ℕ)
          → (i == j) ≡ false
          → ((t.undo j).count ≡ (s.undo j).count) × ((t.undo j).lock ≡ (s.undo j).lock))
      → Sound n t after
  Sound-move t same l one c f k uc ul others =
      let u = total-update (λ q. user_weight (stage s.id q)) n procs i p lt in
      let h = total-update (λ q. lock_weight (stage s.id q)) n procs i p lt in
      let z = total-update (λ q. fresh_weight (stage s.id q)) n procs i p lt in
      let w = total-update (λ q. kept_weight (stage s.id q)) n procs i p lt in
      let sum : t.count + users s.id n after ≡ s.count + users s.id n procs = omega arith in
      let fresh_before : 1 ≤ initialisers s.id n after → s.count + users s.id n procs ≡ 0 =
        λ q. elim f [ inl less ↦ fresh (omega arith) | inr e ↦ e ] in
      let kept_before : 1 ≤ keepers s.id n after → s.count + users s.id n procs ≡ bigcount =
        λ q. elim k [ inl less ↦ kept (omega arith) | inr e ↦ e ] in
      let count_of : (j : ℕ) → (t.undo j).count ≡ pos (user_weight (stage s.id (after j))) = λ j.
        elim (Bool-cases (i == j)) [
          | inl e ↦ let q : i ≡ j = ground arith in rw (e, ← q) uc
          | inr e ↦ rw e ((others j e).0 ∙ undo_count j)
        ] in
      let lock_of : (j : ℕ) → (t.undo j).lock ≡ neg (lock_weight (stage s.id (after j))) = λ j.
        elim (Bool-cases (i == j)) [
          | inl e ↦ let q : i ≡ j = ground arith in rw (e, ← q) ul
          | inr e ↦ rw e ((others j e).1 ∙ undo_lock j)
        ] in
      record {
        held = rw same (omega arith);
        single = one;
        accounted = rw same (rw sum accounted);
        fresh = rw same (λ q. sum ∙ fresh_before q);
        kept = rw same (λ q. sum ∙ kept_before q);
        undo_count = rw same (λ j. count_of j);
        undo_lock = rw same (λ j. lock_of j);
      }

  -- Nothing of the set changes, and the process is to it what it was.
  pub Sound-stay : there ≡ here → Sound n s after
  Sound-stay e =
      Sound-move s refl (rw e refl) single (rw e refl) (inl (rw e (omega arith)))
        (inl (rw e (omega arith))) (rw e (undo_count i)) (rw e (undo_lock i)) (λ j d. (refl, refl))

  -- The set becomes another by an operation, and the process is another thing to it.
  pub Sound-Becomes :
      (g g' : Stage) (t : SemSet) {count lock : ℕ} {uc ul : ℤ}
      → here ≡ g
      → there ≡ g'
      → Becomes i s count lock uc ul t
      → lock + lock_weight g ≡ s.lock + lock_weight g'
      → lock ≤ 1
      → count + user_weight g' ≡ s.count + user_weight g
      → (fresh_weight g' ≤ fresh_weight g) ⊎ (s.count + users s.id n procs ≡ 0)
      → (kept_weight g' ≤ kept_weight g) ⊎ (s.count + users s.id n procs ≡ bigcount)
      → uc ≡ pos (user_weight g')
      → ul ≡ neg (lock_weight g')
      → Sound n t after
  Sound-Becomes g g' t e e' b l one c f k uc ul =
      Sound-move t b.same (rw (b.lock_is, e, e') l) (rw b.lock_is one) (rw (b.count_is, e, e') c)
        (rw (e, e') f) (rw (e, e') k) (rw e' (b.undo_count ∙ uc)) (rw e' (b.undo_lock ∙ ul))
        b.others

  -- Only the semaphore changes.
  pub Sound-Alike :
      (g g' : Stage) (t : SemSet)
      → here ≡ g
      → there ≡ g'
      → Alike s t
      → user_weight g' ≡ user_weight g
      → lock_weight g' ≡ lock_weight g
      → fresh_weight g' ≤ fresh_weight g
      → kept_weight g' ≤ kept_weight g
      → Sound n t after
  Sound-Alike g g' t e e' a u l f k =
      Sound-move t a.same (rw (a.lock_is, e, e', l) refl) (rw a.lock_is single)
        (rw (a.count_is, e, e', u) refl) (inl (rw (e, e') f)) (inl (rw (e, e') k))
        (rw (e', u, ← e) ((a.undo_is i).0 ∙ undo_count i))
        (rw (e', l, ← e) ((a.undo_is i).1 ∙ undo_lock i)) (λ j d. a.undo_is j)

  pub users_below : n < bigcount → users s.id n procs < bigcount
  users_below few =
      let le =
        total-le (λ q. user_weight (stage s.id q)) (λ q. weight_small (stage s.id q)) n procs in
      omega arith

  -- SETVAL of the process counter by the process that found it to be zero: no process uses the set,
  -- and no other one initialises it.
  pub Sound-setval :
      here ≡ initialiser
      → there ≡ keeper
      → ((j : ℕ) → n ≤ j → stage s.id (procs j) ≡ apart)
      → Sound n (setval sem_count bigcount s) after
  unfolding setval
  Sound-setval e e' idle =
      let u = total-update (λ q. user_weight (stage s.id q)) n procs i p lt in
      let h = total-update (λ q. lock_weight (stage s.id q)) n procs i p lt in
      let z = total-update (λ q. fresh_weight (stage s.id q)) n procs i p lt in
      let mine = weight-le-total (λ q. fresh_weight (stage s.id q)) n procs i lt in
      let uh : user_weight here ≡ 0 = rw e refl in
      let ut : user_weight there ≡ 0 = rw e' refl in
      let lh : lock_weight here ≡ 1 = rw e refl in
      let lt' : lock_weight there ≡ 1 = rw e' refl in
      let fh : fresh_weight here ≡ 1 = rw e refl in
      let ft : fresh_weight there ≡ 0 = rw e' refl in
      let zero_sum : s.count + users s.id n procs ≡ 0 = fresh (omega arith) in
      let holding : initialisers s.id n procs ≤ holders s.id n procs =
        total_mono (λ q. fresh_weight (stage s.id q)) (λ q. lock_weight (stage s.id q))
          (λ q. fresh-le-lock (stage s.id q)) n procs in
      let unused : (j : ℕ) → user_weight (stage s.id (after j)) ≡ 0 = λ j.
        elim (Bool-cases (i == j)) [
          | inl d ↦ rw d ut
          | inr d ↦ rw d (elim (Bool-cases (ltb j n)) [
            | inl l ↦
                let w =
                  weight-le-total (λ q. user_weight (stage s.id q)) n procs j (ltb→lt j n l) in
                omega arith
            | inr l ↦ let q : n ≤ j = ground arith in rw (idle j q) refl
          ])
        ] in
      let lock_of : (j : ℕ) → (s.undo j).lock ≡ neg (lock_weight (stage s.id (after j))) = λ j.
        elim (Bool-cases (i == j)) [
          | inl d ↦
              let q : i ≡ j = ground arith in rw (d, ← q) (undo_lock i ∙ ap neg (lh ∙ sym lt'))
          | inr d ↦ rw d (undo_lock j)
        ] in
      record {
        held = omega arith;
        single = single;
        accounted = inr (omega arith);
        fresh = λ q. absurd (omega arith);
        kept = λ q. omega arith;
        undo_count = λ j. rw (unused j) refl;
        undo_lock = lock_of;
      }
