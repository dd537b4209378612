-- ===== src/Sem/System.antt =====
-- Processes that use one semaphore of semaph.c, their system calls interleaved in any order.
use my_file.Prelude.{ℕ, List, [], ◌∷◌, ltb, if◌then◌else◌}
use my_file.Sem.Kernel.{Kernel, no_kernel, update}
use my_file.Sem.Process.{At, outside, Action, happen}

pub record Processes : Type 0 where
  pub kernel : Kernel
  pub procs : ℕ → At

abbrev pub initial : Processes
initial = record { kernel = no_kernel; procs = λ i. outside }

abbrev pub moved : Processes → ℕ → At × Kernel → Processes
moved s i (p, k) = record { kernel = k; procs = update s.procs i p }

-- The event of a process from `n` on does not happen.
unfoldable pub turn : ℕ → ℕ × Action → Processes → Processes
unfolding happen
turn n (i, e) s = if ltb i n then moved s i (happen i e (s.procs i) s.kernel) else s

-- the events of a schedule, the first one first
unfoldable pub run : ℕ → List (ℕ × Action) → Processes → Processes
unfolding turn
run n [] s = s
run n (e ∷ es) s = run n es (turn n e s)
