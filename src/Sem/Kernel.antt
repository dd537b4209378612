-- ===== src/Sem/Kernel.antt =====
-- A set of three semaphores in the kernel: `semop` and `semctl` as semaph.c calls them.
use my_file.Prelude.{
  ℕ, zero, suc, ◌+◌, ◌-◌, Bool, true, false, Option, none, some, List, [], ◌∷◌, ltb, leb, ◌==◌,
  if◌then◌else◌, ℤ, pos, negsuc,
}

abbrev pub bigcount : ℕ
bigcount = 10000

-- the largest value of a semaphore, and of an adjustment
abbrev pub semvmx : ℕ
semvmx = 32767

-- the member [0] is the semaphore, [1] counts processes, [2] is the lock
pub data Member : Type 0 where
  sem_value sem_count sem_lock : Member

-- what the exit of a process adds to the members
pub record Adjust : Type 0 where
  pub value : ℤ
  pub count : ℤ
  pub lock : ℤ

abbrev pub no_adjust : Adjust
no_adjust = record { value = pos 0; count = pos 0; lock = pos 0 }

pub record SemSet : Type 0 where
  pub id : ℕ
  pub value : ℕ
  pub count : ℕ
  pub lock : ℕ
  pub undo : ℕ → Adjust

abbrev pub member : Member → SemSet → ℕ
member sem_value s = s.value
member sem_count s = s.count
member sem_lock s = s.lock

abbrev pub with_member : Member → ℕ → SemSet → SemSet
with_member sem_value n s = record s { value = n }
with_member sem_count n s = record s { count = n }
with_member sem_lock n s = record s { lock = n }

abbrev pub adjustment : Member → Adjust → ℤ
adjustment sem_value a = a.value
adjustment sem_count a = a.count
adjustment sem_lock a = a.lock

abbrev pub with_adjustment : Member → ℤ → Adjust → Adjust
with_adjustment sem_value z a = record a { value = z }
with_adjustment sem_count z a = record a { count = z }
with_adjustment sem_lock z a = record a { lock = z }

abbrev pub update {ℓ} : {A : Type ℓ} → (ℕ → A) → ℕ → A → ℕ → A
update f i a j = if i == j then a else f j

abbrev pub plus_part : ℤ → ℕ
plus_part (pos n) = n
plus_part (negsuc n) = 0

abbrev pub minus_part : ℤ → ℕ
minus_part (pos n) = 0
minus_part (negsuc n) = suc n

-- a - b, as an integer
abbrev pub difference : ℕ → ℕ → ℤ
difference a b = if leb b a then pos (a - b) else negsuc (b - a - 1)

unfoldable pub minus : ℤ → ℤ → ℤ
minus a b = difference (plus_part a + minus_part b) (minus_part a + plus_part b)

abbrev pub in_range : ℤ → Bool
in_range (pos n) = leb n semvmx
in_range (negsuc n) = leb n semvmx

-- `struct sembuf`, with SEM_UNDO as the flag
pub record Sembuf : Type 0 where
  pub sem_num : Member
  pub sem_op : ℤ
  pub sem_undo : Bool

pub data Semop : Type 0 where
  done : SemSet → Semop
  sleeps : Semop
  out_of_range : Semop

-- the adjustment of process `i` by an operation with SEM_UNDO
abbrev pub adjusted : ℕ → Member → ℤ → Bool → SemSet → Semop
adjusted i m z false s = done s
adjusted i m z true s =
    let a = minus (adjustment m (s.undo i)) z in
    if in_range a
    then done (record s { undo = update s.undo i (with_adjustment m a (s.undo i)) })
    else out_of_range

-- one operation, by what `sem_op` is: zero waits for zero
abbrev pub operate : ℕ → Member → ℤ → Bool → SemSet → Semop
operate i m (pos zero) u s = if member m s == 0 then done s else sleeps
operate i m (pos (suc n)) u s =
    if ltb semvmx (member m s + suc n)
    then out_of_range
    else adjusted i m (pos (suc n)) u (with_member m (member m s + suc n) s)
operate i m (negsuc n) u s =
    if ltb n (member m s)
    then adjusted i m (negsuc n) u (with_member m (member m s - suc n) s)
    else sleeps

-- all operations or none
unfoldable pub semop : ℕ → List Sembuf → SemSet → Semop
unfolding minus
semop i [] s = done s
semop i (o ∷ os) s = elim (operate i o.sem_num o.sem_op o.sem_undo s) [
  | done s' ↦ semop i os s'
  | sleeps ↦ sleeps
  | out_of_range ↦ out_of_range
]

-- SETVAL, which clears the adjustments of the member in all processes
unfoldable pub setval : Member → ℕ → SemSet → SemSet
setval m n s = record (with_member m n s) { undo = λ i. with_adjustment m (pos 0) (s.undo i) }

-- a value and an adjustment at the exit of a process, held at 0 and the largest value
abbrev pub plus_adjust : ℕ → ℤ → ℕ
plus_adjust n (pos k) = if ltb semvmx (n + k) then semvmx else n + k
plus_adjust n (negsuc k) = n - suc k

unfoldable pub undone : ℕ → SemSet → SemSet
undone i s = record {
  id = s.id;
  value = plus_adjust s.value (s.undo i).value;
  count = plus_adjust s.count (s.undo i).count;
  lock = plus_adjust s.lock (s.undo i).lock;
  undo = update s.undo i no_adjust;
}

-- the set that the key has, and an identifier that no set has had
pub record Kernel : Type 0 where
  pub found : Option SemSet
  pub next_id : ℕ

abbrev pub no_kernel : Kernel
no_kernel = record { found = none; next_id = 0 }

abbrev pub if_id : ℕ → Option SemSet → Option SemSet
if_id id none = none
if_id id (some s) = if s.id == id then some s else none

-- the set of an identifier
abbrev pub set_of : ℕ → Kernel → Option SemSet
set_of id k = if_id id k.found

abbrev pub new_set : ℕ → SemSet
new_set id = record { id = id; value = 0; count = 0; lock = 0; undo = λ i. no_adjust }

-- `semop` on an identifier, or its error
pub data Tried : Type 0 where
  went : Kernel → Tried
  would_sleep : Tried
  erange : Tried
  no_set : Tried

abbrev pub from_semop : Kernel → Semop → Tried
from_semop k (done s) = went (record k { found = some s })
from_semop k sleeps = would_sleep
from_semop k out_of_range = erange

abbrev pub tried : ℕ → List Sembuf → Kernel → Option SemSet → Tried
tried i ops k none = no_set
tried i ops k (some s) = from_semop k (semop i ops s)

abbrev pub try_ops : ℕ → List Sembuf → ℕ → Kernel → Tried
try_ops i ops id k = tried i ops k (set_of id k)
