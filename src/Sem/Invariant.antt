-- ===== src/Sem/Invariant.antt =====
-- What the processes and the set agree on.
pub mod Moves
pub mod Effects
pub mod Ends
pub mod Calls
pub mod Good
pub mod Operating
pub mod Controlling
pub mod Steps
pub mod Runs
use my_file.Prelude.{
  ℕ, ◌+◌, ◌≤◌, ◌<◌, ◌≡◌, ◌⊎◌, Bool, true, false, Option, none, some, ◌==◌, pos, neg,
}
use my_file.Sem.Kernel.{SemSet, bigcount}
use my_file.Sem.Process.{
  At, outside, reading, setting_value, setting_count, ending, using, operating, closing, counting,
  removing, unlocking, deleting, stopped, above_bigcount,
}
use my_file.Sem.System.{Processes}
use my_file.Sem.Totals.{total}

-- What a process is to a set: a user has decremented the process counter, the others hold the
-- lock. A reader does not know the counter, an initialiser has found it to be zero, and a keeper
-- has found or made it not to be.
pub data Stage : Type 0 where
  apart user reader initialiser keeper : Stage

abbrev pub stage_if : Bool → Stage → Stage
stage_if true g = g
stage_if false g = apart

abbrev pub stage : ℕ → At → Stage
stage x (reading id v) = stage_if (id == x) reader
stage x (setting_value id v) = stage_if (id == x) initialiser
stage x (setting_count id) = stage_if (id == x) initialiser
stage x (ending id b) = stage_if (id == x) keeper
stage x (counting id) = stage_if (id == x) keeper
stage x (removing id) = stage_if (id == x) keeper
stage x (unlocking id b) = stage_if (id == x) keeper
stage x (using id) = stage_if (id == x) user
stage x (operating id z b) = stage_if (id == x) user
stage x (closing id b) = stage_if (id == x) user
stage x (deleting id) = stage_if (id == x) user
stage x (stopped r p) = stage x p
stage x _ = apart

abbrev pub user_weight : Stage → ℕ
user_weight user = 1
user_weight _ = 0

abbrev pub lock_weight : Stage → ℕ
lock_weight apart = 0
lock_weight user = 0
lock_weight _ = 1

abbrev pub fresh_weight : Stage → ℕ
fresh_weight initialiser = 1
fresh_weight _ = 0

abbrev pub kept_weight : Stage → ℕ
kept_weight keeper = 1
kept_weight _ = 0

-- how many of the first processes use the set, hold its lock, initialise it, and keep it
abbrev pub users : ℕ → ℕ → (ℕ → At) → ℕ
users x = total (λ p. user_weight (stage x p))

abbrev pub holders : ℕ → ℕ → (ℕ → At) → ℕ
holders x = total (λ p. lock_weight (stage x p))

abbrev pub initialisers : ℕ → ℕ → (ℕ → At) → ℕ
initialisers x = total (λ p. fresh_weight (stage x p))

abbrev pub keepers : ℕ → ℕ → (ℕ → At) → ℕ
keepers x = total (λ p. kept_weight (stage x p))

pub record Sound (n : ℕ) (s : SemSet) (procs : ℕ → At) : Type 0 where
  pub held : s.lock ≡ holders s.id n procs
  pub single : s.lock ≤ 1
  pub accounted : (s.count + users s.id n procs ≡ 0) ⊎ (s.count + users s.id n procs ≡ bigcount)
  pub fresh : 1 ≤ initialisers s.id n procs → s.count + users s.id n procs ≡ 0
  pub kept : 1 ≤ keepers s.id n procs → s.count + users s.id n procs ≡ bigcount
  pub undo_count : (j : ℕ) → (s.undo j).count ≡ pos (user_weight (stage s.id (procs j)))
  pub undo_lock : (j : ℕ) → (s.undo j).lock ≡ neg (lock_weight (stage s.id (procs j)))

abbrev pub Agrees : ℕ → Option SemSet → (ℕ → At) → Type 0
Agrees n none procs = Unit
Agrees n (some s) procs = Sound n s procs

abbrev pub IdBelow : ℕ → Option SemSet → Type 0
IdBelow k none = Unit
IdBelow k (some s) = s.id < k

-- The process has not stopped for a process counter above BIGCOUNT.
abbrev pub Bounded : At → Type 0
Bounded (stopped above_bigcount p) = ⊥
Bounded _ = Unit

pub record Inv (n : ℕ) (s : Processes) : Type 0 where
  pub agrees : Agrees n s.kernel.found s.procs
  pub below : IdBelow s.kernel.next_id s.kernel.found
  pub unknown : (x j : ℕ) → s.kernel.next_id ≤ x → stage x (s.procs j) ≡ apart
  pub idle : (j : ℕ) → n ≤ j → s.procs j ≡ outside
  pub bounded : (j : ℕ) → Bounded (s.procs j)
