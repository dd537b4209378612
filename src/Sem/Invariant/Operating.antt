-- ===== src/Sem/Invariant/Operating.antt =====
-- The calls of `semop`.
use my_file.Prelude.{ℕ, ◌≡◌, refl, Bool, true, false, some, arith, ◌==◌, ℤ}
use my_file.Sem.Kernel.{
  SemSet, Semop, done, sleeps, out_of_range, semop, no_set, from_semop, tried, try_ops, update,
}
use my_file.Sem.Process.{
  outside, creating, locking, reading, ending, open_waiting, using, operating, closing, counting,
  unlocking, stopped, passed, locked, cant_lock, cant_end_create, cant_open, cant_semop,
  cant_unlock, sem_op_error, op_lock, op_endcreate, op_open, op_close, op_unlock, op_op,
}
use my_file.Sem.Operations.{semop-op_op}
use my_file.Sem.Invariant.{user, reader, keeper, Sound}
use my_file.Sem.Invariant.Effects.{
  op_lock-Sound, op_endcreate-Sound, op_open-Sound, op_close-Sound, op_unlock-Sound,
}
use my_file.Sem.Invariant.Moves.{Sound-Alike}
use my_file.Sem.Invariant.Good.{
  Scene, Good, kernel, with_id, Good-stay, Good-set, passed-Good, sound_of, stage_of, self_if,
}

module _ (sc : Scene) where
  open sc use {n, few, o, m, procs, i, lt, agrees, below, unknown, idle}

  module _ (id : ℕ) (b : Bool) where
    pub ending-Good :
        procs i ≡ ending id b
        → Good sc (
            passed
              (ending id b)
              (using id)
              (ending id true)
              cant_end_create
              (kernel sc)
              (try_ops i op_endcreate id (kernel sc)))
    ending-Good e =
        passed-Good sc (ending id b) (using id) (ending id true) cant_end_create op_endcreate id
          (λ x. rw e refl) (λ x. rw e refl) tt tt tt (λ x d. rw d refl)
          (λ s t ok same f.
            op_endcreate-Sound n s procs ok i lt (using id) t
              (stage_of sc (ending id b) s id keeper e same (self_if sc id keeper))
              (rw same (self_if sc id user)) f)

    pub open_waiting-Good :
        procs i ≡ open_waiting id b
        → Good sc (
            passed
              (open_waiting id b)
              (using id)
              (open_waiting id true)
              cant_open
              (kernel sc)
              (try_ops i op_open id (kernel sc)))
    open_waiting-Good e =
        passed-Good sc (open_waiting id b) (using id) (open_waiting id true) cant_open op_open id
          (λ x. rw e refl) (λ x. rw e refl) tt tt tt (λ x d. rw d refl)
          (λ s t ok same f.
            op_open-Sound n s procs ok i lt (using id) t (rw e refl) (rw same (self_if sc id user))
              f)

    pub operating-Good :
        (z : ℤ)
        → procs i ≡ operating id z b
        → Good sc (
            passed
              (operating id z b)
              (using id)
              (operating id z true)
              sem_op_error
              (kernel sc)
              (try_ops i (op_op z) id (kernel sc)))
    operating-Good z e =
        passed-Good sc (operating id z b) (using id) (operating id z true) sem_op_error (op_op z) id
          (λ x. rw e refl) (λ x. rw e refl) tt tt tt (λ x d. rw d refl)
          (λ s t ok same f.
            let a = semop-op_op i z s t f in
            (
              a.same,
              Sound-Alike n s procs ok i lt (using id) user user t
                  (stage_of sc (operating id z b) s id user e same (self_if sc id user))
                  (rw same (self_if sc id user)) a refl refl (omega arith) (omega arith),
            ))

    pub closing-Good :
        procs i ≡ closing id b
        → Good sc (
            passed
              (closing id b)
              (counting id)
              (closing id true)
              cant_semop
              (kernel sc)
              (try_ops i op_close id (kernel sc)))
    closing-Good e =
        passed-Good sc (closing id b) (counting id) (closing id true) cant_semop op_close id
          (λ x. rw e refl) (λ x. rw e refl) tt tt tt (λ x d. rw d refl)
          (λ s t ok same f.
            op_close-Sound n s procs ok i lt (counting id) t
              (stage_of sc (closing id b) s id user e same (self_if sc id user))
              (rw same (self_if sc id keeper)) f)

    pub unlocking-Good :
        procs i ≡ unlocking id b
        → Good sc (
            passed
              (unlocking id b)
              outside
              (unlocking id true)
              cant_unlock
              (kernel sc)
              (try_ops i op_unlock id (kernel sc)))
    unlocking-Good e =
        passed-Good sc (unlocking id b) outside (unlocking id true) cant_unlock op_unlock id
          (λ x. rw e refl) (λ x. rw e refl) tt tt tt (λ x d. refl)
          (λ s t ok same f.
            op_unlock-Sound n s procs ok i lt outside t
              (stage_of sc (unlocking id b) s id keeper e same (self_if sc id keeper)) refl f)

  module _ (id initval : ℕ) where
    locked-Good :
        (b : Bool) (s : SemSet) (q : Semop)
        → procs i ≡ locking id initval b
        → o ≡ some s
        → s.id ≡ id
        → ((t : SemSet)
            → q ≡ done t
            → (t.id ≡ s.id) × Sound n t (update procs i (reading id initval)))
        → Good sc (locked id initval b (kernel sc) (from_semop (kernel sc) q))
    locked-Good b s (done t) e f same ok =
        let g = ok t refl in
        Good-set sc (reading id initval) s t f g.0 g.1
          (λ x d. let d' : (id == x) ≡ false = rw (← same) d in rw d' refl) tt
    locked-Good b s sleeps e f same ok = Good-stay sc (locking id initval true) (λ x. rw e refl) tt
    locked-Good b s out_of_range e f same ok =
        Good-stay sc (stopped cant_lock (locking id initval b)) (λ x. rw e refl) tt

    gone-Good :
        (b : Bool)
        → procs i ≡ locking id initval b
        → Good sc (locked id initval b (kernel sc) no_set)
    gone-Good false e = Good-stay sc (creating initval) (λ x. rw e refl) tt
    gone-Good true e =
        Good-stay sc (stopped cant_lock (locking id initval true)) (λ x. rw e refl) tt

    pub locking-Good :
        (b : Bool)
        → procs i ≡ locking id initval b
        → Good sc (locked id initval b (kernel sc) (try_ops i op_lock id (kernel sc)))
    locking-Good b e =
        with_id (λ q. Good sc (locked id initval b (kernel sc) (tried i op_lock (kernel sc) q))) o
          id (gone-Good b e)
          (λ s f same. locked-Good b s (semop i op_lock s) e f same (λ t r.
            op_lock-Sound n s procs (sound_of sc s f) i lt (reading id initval) t (rw e refl)
              (rw same (self_if sc id reader)) r))
