-- ===== src/Sem/Invariant/Calls.antt =====
-- The calls of a process, in front of their first system call.
use my_file.Prelude.{ℕ, zero, suc, ◌≡◌, refl, pos, negsuc}
use my_file.Sem.Process.{
  At, outside, creating, opening, using, Call, called, ipc_private, no_key, named, sem_create,
  sem_open, sem_close, sem_rm, sem_op, sem_wait, sem_signal, semget_fails,
}
use my_file.Sem.Invariant.{stage, Bounded}

-- A call, and a `semget` that fails, leave what the process is to every set.
pub called-Bounded :
    (c : Call) (p : At)
    → Bounded p
    → ((x : ℕ) → stage x (called c p) ≡ stage x p) × Bounded (called c p)
called-Bounded (sem_create ipc_private v) outside b = (λ x. refl, tt)
called-Bounded (sem_create no_key v) outside b = (λ x. refl, tt)
called-Bounded (sem_create named v) outside b = (λ x. refl, tt)
called-Bounded (sem_open ipc_private) outside b = (λ x. refl, tt)
called-Bounded (sem_open no_key) outside b = (λ x. refl, tt)
called-Bounded (sem_open named) outside b = (λ x. refl, tt)
called-Bounded sem_close outside b = (λ x. refl, tt)
called-Bounded sem_rm outside b = (λ x. refl, tt)
called-Bounded (sem_op z) outside b = (λ x. refl, tt)
called-Bounded sem_wait outside b = (λ x. refl, tt)
called-Bounded sem_signal outside b = (λ x. refl, tt)
called-Bounded (sem_create k v) (using id) b = (λ x. refl, tt)
called-Bounded (sem_open k) (using id) b = (λ x. refl, tt)
called-Bounded sem_close (using id) b = (λ x. refl, tt)
called-Bounded sem_rm (using id) b = (λ x. refl, tt)
called-Bounded (sem_op (pos zero)) (using id) b = (λ x. refl, tt)
called-Bounded (sem_op (pos (suc n))) (using id) b = (λ x. refl, tt)
called-Bounded (sem_op (negsuc n)) (using id) b = (λ x. refl, tt)
called-Bounded sem_wait (using id) b = (λ x. refl, tt)
called-Bounded sem_signal (using id) b = (λ x. refl, tt)
called-Bounded c p b = (λ x. refl, b)

pub semget_fails-Bounded :
    (p : At)
    → Bounded p
    → ((x : ℕ) → stage x (semget_fails p) ≡ stage x p) × Bounded (semget_fails p)
semget_fails-Bounded (creating v) b = (λ x. refl, tt)
semget_fails-Bounded opening b = (λ x. refl, tt)
semget_fails-Bounded p b = (λ x. refl, b)
