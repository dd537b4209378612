-- ===== src/Sem/Process.antt =====
-- A process in `sem_create`, `sem_open`, `sem_close`, `sem_op` and `sem_rm`, one system call at a
-- time.
use my_file.Prelude.{
  ℕ, zero, suc, ◌+◌, Bool, true, false, Option, none, some, List, [], ◌∷◌, ltb, ◌==◌, if◌then◌else◌,
  ℤ, pos, negsuc,
}
use my_file.Sem.Kernel.{
  sem_value, sem_count, sem_lock, SemSet, Sembuf, Kernel, Tried, went, would_sleep, erange, no_set,
  try_ops, set_of, setval, undone, new_set, bigcount, semvmx,
}

abbrev pub op_lock : List Sembuf
op_lock =
    record { sem_num = sem_lock; sem_op = pos 0; sem_undo = false }
    ∷ (record { sem_num = sem_lock; sem_op = pos 1; sem_undo = true } ∷ [])

abbrev pub op_endcreate : List Sembuf
op_endcreate =
    record { sem_num = sem_count; sem_op = negsuc 0; sem_undo = true }
    ∷ (record { sem_num = sem_lock; sem_op = negsuc 0; sem_undo = true } ∷ [])

abbrev pub op_open : List Sembuf
op_open = record { sem_num = sem_count; sem_op = negsuc 0; sem_undo = true } ∷ []

abbrev pub op_close : List Sembuf
op_close =
    record { sem_num = sem_lock; sem_op = pos 0; sem_undo = false }
    ∷ (record { sem_num = sem_lock; sem_op = pos 1; sem_undo = true }
        ∷ (record { sem_num = sem_count; sem_op = pos 1; sem_undo = true } ∷ []))

abbrev pub op_unlock : List Sembuf
op_unlock = record { sem_num = sem_lock; sem_op = negsuc 0; sem_undo = true } ∷ []

abbrev pub op_op : ℤ → List Sembuf
op_op z = record { sem_num = sem_value; sem_op = z; sem_undo = true } ∷ []

-- the messages of `err_sys`, and that of `err_dump`
pub data Reason : Type 0 where
  cant_lock cant_getval cant_setval_0 cant_setval_1 cant_end_create cant_open cant_rmid : Reason
  cant_semop cant_unlock zero_value sem_op_error : Reason
  above_bigcount : Reason

-- Where a process stands: the call that comes next, with the identifier that it has and, in front
-- of a `semop`, whether it sleeps in it. A process uses one semaphore at a time.
pub data At : Type 0 where
  outside : At
  creating : (initval : ℕ) → At
  locking : (id initval : ℕ) → (asleep : Bool) → At
  reading : (id initval : ℕ) → At
  setting_value : (id initval : ℕ) → At
  setting_count : (id : ℕ) → At
  ending : (id : ℕ) → (asleep : Bool) → At
  opening : At
  open_waiting : (id : ℕ) → (asleep : Bool) → At
  using : (id : ℕ) → At
  operating : (id : ℕ) → (value : ℤ) → (asleep : Bool) → At
  closing : (id : ℕ) → (asleep : Bool) → At
  counting : (id : ℕ) → At
  removing : (id : ℕ) → At
  unlocking : (id : ℕ) → (asleep : Bool) → At
  deleting : (id : ℕ) → At
  stopped : Reason → At → At

-- the key of a call
pub data Key : Type 0 where
  ipc_private no_key named : Key

pub data Call : Type 0 where
  sem_create : Key → (initval : ℕ) → Call
  sem_open : Key → Call
  sem_close : Call
  sem_rm : Call
  sem_op : (value : ℤ) → Call
  sem_wait : Call
  sem_signal : Call

-- A process calls a function, goes on with its next system call, which does what it does or, where
-- it is `semget`, fails, or it exits.
pub data Action : Type 0 where
  call : Call → Action
  go : Action
  fails : Action
  exits : Action

abbrev pub start_create : Key → ℕ → At
start_create ipc_private initval = outside
start_create no_key initval = outside
start_create named initval = creating initval

abbrev pub start_open : Key → At
start_open ipc_private = outside
start_open no_key = outside
start_open named = opening

abbrev pub start_op : ℕ → ℤ → At
start_op id (pos zero) = stopped zero_value (using id)
start_op id (pos (suc n)) = operating id (pos (suc n)) false
start_op id (negsuc n) = operating id (negsuc n) false

-- a call of a process that uses no semaphore, and of one that does
abbrev pub start : Call → At
start (sem_create key initval) = start_create key initval
start (sem_open key) = start_open key
start sem_close = outside
start sem_rm = outside
start (sem_op value) = outside
start sem_wait = outside
start sem_signal = outside

abbrev pub start_using : ℕ → Call → At
start_using id (sem_create key initval) = using id
start_using id (sem_open key) = using id
start_using id sem_close = closing id false
start_using id sem_rm = deleting id
start_using id (sem_op value) = start_op id value
start_using id sem_wait = start_op id (negsuc 0)
start_using id sem_signal = start_op id (pos 1)

-- `semget` with IPC_CREAT
abbrev pub got_or_new : ℕ → Kernel → Option SemSet → At × Kernel
got_or_new initval k none = (
  locking k.next_id initval false,
  record { found = some (new_set k.next_id); next_id = k.next_id + 1 },
)
got_or_new initval k (some s) = (locking s.id initval false, k)

abbrev pub found_set : Kernel → Option SemSet → At × Kernel
found_set k none = (outside, k)
found_set k (some s) = (open_waiting s.id false, k)

-- Where the set is gone, `errno` is EINVAL at the call, and EIDRM if the process slept in it.
abbrev pub locked : ℕ → ℕ → Bool → Kernel → Tried → At × Kernel
locked id initval asleep k (went k') = (reading id initval, k')
locked id initval asleep k would_sleep = (locking id initval true, k)
locked id initval asleep k erange = (stopped cant_lock (locking id initval asleep), k)
locked id initval false k no_set = (creating initval, k)
locked id initval true k no_set = (stopped cant_lock (locking id initval true), k)

abbrev pub read_count : ℕ → ℕ → Kernel → Option SemSet → At × Kernel
read_count id initval k none = (stopped cant_getval (reading id initval), k)
read_count id initval k (some s) =
    (if s.count == 0 then setting_value id initval else ending id false, k)

abbrev pub set_value : ℕ → ℕ → Kernel → Option SemSet → At × Kernel
set_value id initval k none = (stopped cant_setval_0 (setting_value id initval), k)
set_value id initval k (some s) =
    if ltb semvmx initval
    then (stopped cant_setval_0 (setting_value id initval), k)
    else (setting_count id, record k { found = some (setval sem_value initval s) })

abbrev pub set_count : ℕ → Kernel → Option SemSet → At × Kernel
set_count id k none = (stopped cant_setval_1 (setting_count id), k)
set_count id k (some s) = (ending id false, record k { found = some (setval sem_count bigcount s) })

-- the state behind a `semop` that stops the process where it fails
abbrev pub passed : At → At → At → Reason → Kernel → Tried → At × Kernel
passed here next asleep r k (went k') = (next, k')
passed here next asleep r k would_sleep = (asleep, k)
passed here next asleep r k erange = (stopped r here, k)
passed here next asleep r k no_set = (stopped r here, k)

abbrev pub last_or_not : ℕ → Kernel → Option SemSet → At × Kernel
last_or_not id k none = (stopped cant_getval (counting id), k)
last_or_not id k (some s) = (
  if ltb bigcount s.count
      then stopped above_bigcount (counting id)
      else if s.count == bigcount
      then removing id
      else unlocking id false,
  k,
)

-- IPC_RMID
abbrev pub rm_set : At → Kernel → Option SemSet → At × Kernel
rm_set here k none = (stopped cant_rmid here, k)
rm_set here k (some s) = (outside, record k { found = none })

-- the next system call of process `i`
unfoldable pub next_call : ℕ → At → Kernel → At × Kernel
next_call i outside k = (outside, k)
next_call i (creating initval) k = got_or_new initval k k.found
next_call i (locking id initval asleep) k = locked id initval asleep k (try_ops i op_lock id k)
next_call i (reading id initval) k = read_count id initval k (set_of id k)
next_call i (setting_value id initval) k = set_value id initval k (set_of id k)
next_call i (setting_count id) k = set_count id k (set_of id k)
next_call i (ending id b) k =
    passed (ending id b) (using id) (ending id true) cant_end_create k (try_ops i op_endcreate id k)
next_call i opening k = found_set k k.found
next_call i (open_waiting id b) k =
    passed (open_waiting id b) (using id) (open_waiting id true) cant_open k
      (try_ops i op_open id k)
next_call i (using id) k = (using id, k)
next_call i (operating id z b) k =
    passed (operating id z b) (using id) (operating id z true) sem_op_error k
      (try_ops i (op_op z) id k)
next_call i (closing id b) k =
    passed (closing id b) (counting id) (closing id true) cant_semop k (try_ops i op_close id k)
next_call i (counting id) k = last_or_not id k (set_of id k)
next_call i (removing id) k = rm_set (removing id) k (set_of id k)
next_call i (unlocking id b) k =
    passed (unlocking id b) outside (unlocking id true) cant_unlock k (try_ops i op_unlock id k)
next_call i (deleting id) k = rm_set (deleting id) k (set_of id k)
next_call i (stopped r p) k = (stopped r p, k)

abbrev pub called : Call → At → At
called c outside = start c
called c (using id) = start_using id c
called c p = p

-- a `semget` that fails
abbrev pub semget_fails : At → At
semget_fails (creating initval) = outside
semget_fails opening = outside
semget_fails p = p

abbrev pub exit_of : ℕ → Kernel → Option SemSet → Kernel
exit_of i k none = k
exit_of i k (some s) = record k { found = some (undone i s) }

unfoldable pub happen : ℕ → Action → At → Kernel → At × Kernel
unfolding next_call
happen i (call c) p k = (called c p, k)
happen i go p k = next_call i p k
happen i fails p k = (semget_fails p, k)
happen i exits p k = (outside, exit_of i k k.found)
