-- ===== src/Io/Main/Runs.antt =====
-- How a property of the steps of `main` of io.c passes to the whole.
use my_file.Prelude.{◌≡◌, Bool, true, false}
use my_file.Io.Options.{Result, ok, exit, outside_mapping, Failure, ◌>>=◌, exit_if}
use my_file.Io.Main.{Outcome}

-- the run ends in an access behind the mapping
abbrev pub is_fault : Failure → Bool
is_fault outside_mapping = true
is_fault _ = false

abbrev pub is_outside : Result Outcome → Bool
is_outside (exit e) = is_fault e
is_outside (ok _) = false

-- what holds of the value of a step that does not end in such a fault
abbrev pub Runs : {A : Type 0} → Result A → (A → Type 0) → Type 0
Runs (ok a) P = P a
Runs (exit e) P = is_fault e ≡ false

pub bind-inside :
    {A : Type 0}
    → (m : Result A) (k : A → Result Outcome) → Runs m (λ a. is_outside (k a) ≡ false)
    → is_outside (m >>= k) ≡ false
bind-inside (ok a) k h = h
bind-inside (exit e) k h = h

pub exit_if-Runs :
    (b : Bool) (e : Failure) (P : Unit {0} → Type 0)
    → is_fault e ≡ false
    → P tt
    → Runs (exit_if b e) P
exit_if-Runs true e P inside h = inside
exit_if-Runs false e P inside h = h

pub Runs-map :
    {A : Type 0} → (m : Result A) (P Q : A → Type 0) → Runs m P → ((a : A) → P a → Q a) → Runs m Q
Runs-map (ok a) P Q h f = f a h
Runs-map (exit e) P Q h f = h

pub bind-Runs :
    {A B : Type 0}
    → (m : Result A) (k : A → Result B) (P : A → Type 0) (Q : B → Type 0) → Runs m P
    → ((a : A) → P a → Runs (k a) Q)
    → Runs (m >>= k) Q
bind-Runs (ok a) k P Q h f = f a h
bind-Runs (exit e) k P Q h f = h
