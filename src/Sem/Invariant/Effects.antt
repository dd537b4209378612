-- ===== src/Sem/Invariant/Effects.antt =====
-- What the operations on a set keep, by what the process is to the set in front of them and behind.
use my_file.Prelude.{ℕ, ◌+◌, ◌≤◌, ◌<◌, ◌≡◌, refl, ap, ◌∙◌, inl, inr, false, ◌==◌, arith, pos, neg}
use my_file.Sem.Kernel.{SemSet, done, semop, bigcount, update}
use my_file.Sem.Process.{At, op_lock, op_endcreate, op_open, op_close, op_unlock}
use my_file.Sem.Totals.{weight-le-total}
use my_file.Sem.Operations.{
  Runs-done, semop-op_lock, semop-op_endcreate, semop-op_open, semop-op_close, semop-op_unlock,
}
use my_file.Sem.Invariant.{
  Stage, apart, user, reader, initialiser, keeper, stage, user_weight, lock_weight, kept_weight,
  users, Sound,
}
use my_file.Sem.Invariant.Moves.{Sound-move, Sound-Becomes, users_below}

module _ (n : ℕ) (s : SemSet) (procs : ℕ → At) (ok : Sound n s procs) where
  pub count_high : s.count ≤ bigcount
  count_high = elim ok.accounted [ inl e ↦ omega arith | inr e ↦ omega arith ]

  module _ (i : ℕ) (lt : i < n) where
    abbrev here : Stage
    here = stage s.id (procs i)

    pub lock_taken : (g : Stage) → here ≡ g → lock_weight g ≡ 1 → s.lock ≡ 1
    lock_taken g e w =
        let mine = weight-le-total (λ q. lock_weight (stage s.id q)) n procs i lt in
        let one : lock_weight here ≡ 1 = rw e w in
        let held = ok.held in let single = ok.single in omega arith

    pub sum_of_user : here ≡ user → s.count + users s.id n procs ≡ bigcount
    sum_of_user e =
        let mine = weight-le-total (λ q. user_weight (stage s.id q)) n procs i lt in
        let one : user_weight here ≡ 1 = rw e refl in
        elim ok.accounted [ inl z ↦ absurd (omega arith) | inr b ↦ b ]

    pub sum_of_keeper : here ≡ keeper → s.count + users s.id n procs ≡ bigcount
    sum_of_keeper e =
        let mine = weight-le-total (λ q. kept_weight (stage s.id q)) n procs i lt in
        let one : kept_weight here ≡ 1 = rw e refl in ok.kept (omega arith)

    undo_count_of : (g : Stage) → here ≡ g → (s.undo i).count ≡ pos (user_weight g)
    undo_count_of g e = ok.undo_count i ∙ ap (λ h. pos (user_weight h)) e

    undo_lock_of : (g : Stage) → here ≡ g → (s.undo i).lock ≡ neg (lock_weight g)
    undo_lock_of g e = ok.undo_lock i ∙ ap (λ h. neg (lock_weight h)) e

    module _ (p : At) (t : SemSet) where
      pub op_lock-Sound :
          here ≡ apart
          → stage s.id p ≡ reader
          → semop i op_lock s ≡ done t
          → (t.id ≡ s.id) × Sound n t (update procs i p)
      op_lock-Sound e e' f =
          let r = Runs-done t (semop-op_lock i s ok.single count_high (undo_lock_of apart e)) f in
          (
            r.1.same,
            Sound-Becomes n s procs ok i lt p apart reader t e e' r.1 (omega (arith, r.0))
                (omega arith) refl (inl (omega arith)) (inl (omega arith)) (undo_count_of apart e)
                refl,
          )

      pub op_endcreate-Sound :
          here ≡ keeper
          → stage s.id p ≡ user
          → semop i op_endcreate s ≡ done t
          → (t.id ≡ s.id) × Sound n t (update procs i p)
      op_endcreate-Sound e e' f =
          let l = lock_taken keeper e refl in
          let r =
            Runs-done t
              (semop-op_endcreate i s ok.single count_high l (undo_lock_of keeper e)
                (undo_count_of keeper e))
              f in
          (
            r.1.same,
            Sound-Becomes n s procs ok i lt p keeper user t e e' r.1 (omega arith) (omega arith)
                (omega (arith, r.0)) (inl (omega arith)) (inl (omega arith)) refl refl,
          )

      pub op_open-Sound :
          here ≡ apart
          → stage s.id p ≡ user
          → semop i op_open s ≡ done t
          → (t.id ≡ s.id) × Sound n t (update procs i p)
      op_open-Sound e e' f =
          let r = Runs-done t (semop-op_open i s ok.single count_high (undo_count_of apart e)) f in
          (
            r.1.same,
            Sound-Becomes n s procs ok i lt p apart user t e e' r.1 (omega arith) ok.single
                (omega (arith, r.0)) (inl (omega arith)) (inl (omega arith)) refl
                (undo_lock_of apart e),
          )

      pub op_close-Sound :
          here ≡ user
          → stage s.id p ≡ keeper
          → semop i op_close s ≡ done t
          → (t.id ≡ s.id) × Sound n t (update procs i p)
      op_close-Sound e e' f =
          let r =
            Runs-done t
              (semop-op_close i s ok.single count_high (undo_lock_of user e) (undo_count_of user e))
              f in
          (
            r.1.same,
            Sound-Becomes n s procs ok i lt p user keeper t e e' r.1 (omega (arith, r.0))
                (omega arith) (omega arith) (inl (omega arith)) (inr (sum_of_user e)) refl refl,
          )

      pub op_unlock-Sound :
          here ≡ keeper
          → stage s.id p ≡ apart
          → semop i op_unlock s ≡ done t
          → (t.id ≡ s.id) × Sound n t (update procs i p)
      op_unlock-Sound e e' f =
          let l = lock_taken keeper e refl in
          let r =
            Runs-done t (semop-op_unlock i s ok.single count_high l (undo_lock_of keeper e)) f in
          (
            r.1.same,
            Sound-Becomes n s procs ok i lt p keeper apart t e e' r.1 (omega arith) (omega arith)
                refl (inl (omega arith)) (inl (omega arith)) (undo_count_of keeper e) refl,
          )

    module _ (few : n < bigcount) (p : At) where
      -- GETVAL: a counter of zero means that no process uses the set, another one that it is set.
      pub found_zero-Sound :
          here ≡ reader → stage s.id p ≡ initialiser → s.count ≡ 0 → Sound n s (update procs i p)
      found_zero-Sound e e' z =
          let b = users_below n s procs ok i lt p few in
          let none_uses : s.count + users s.id n procs ≡ 0 = elim ok.accounted [
            | inl a ↦ a
            | inr a ↦ absurd (omega arith)
          ] in
          Sound-move n s procs ok i lt p s refl (rw (e, e') refl) ok.single (rw (e, e') refl)
            (inr none_uses) (inl (rw (e, e') (omega arith))) (rw e' (undo_count_of reader e))
            (rw e' (undo_lock_of reader e)) (λ j d. (refl, refl))

      pub found_more-Sound :
          here ≡ reader
          → stage s.id p ≡ keeper
          → (s.count == 0) ≡ false
          → Sound n s (update procs i p)
      found_more-Sound e e' z =
          let full : s.count + users s.id n procs ≡ bigcount = elim ok.accounted [
            | inl a ↦ absurd (ground arith)
            | inr a ↦ a
          ] in
          Sound-move n s procs ok i lt p s refl (rw (e, e') refl) ok.single (rw (e, e') refl)
            (inl (rw (e, e') (omega arith))) (inr full) (rw e' (undo_count_of reader e))
            (rw e' (undo_lock_of reader e)) (λ j d. (refl, refl))
