-- ===== src/Sem/Totals.antt =====
-- How much the processes below a bound weigh together.
use my_file.Prelude.{
  ℕ, zero, suc, ◌+◌, ◌≤◌, ◌<◌, ◌≡◌, refl, inl, inr, arith, ltb, ltb→lt, Bool-cases,
}
use my_file.Sem.Kernel.{update}

module _ {ℓ} {P : Type ℓ} (weight : P → ℕ) where
  pub total : ℕ → (ℕ → P) → ℕ
  total zero procs = 0
  total (suc last) procs = weight (procs last) + total last procs

  pub weight-le-total :
      (bound : ℕ) (procs : ℕ → P) (who : ℕ) → who < bound → weight (procs who) ≤ total bound procs
  unfolding total
  weight-le-total zero procs who h = absurd (omega arith)
  weight-le-total (suc last) procs who h = elim (Bool-cases (ltb who last)) [
    | inl l ↦
        let below : who < last = ltb→lt who last l in
        let rest = weight-le-total last procs who below in omega arith
    | inr l ↦ let same : who ≡ last = ground arith in rw same (omega arith)
  ]

  -- A process from the bound on weighs nothing in the total.
  unseen :
      (bound : ℕ) (procs : ℕ → P) (who : ℕ) (p : P)
      → bound ≤ who
      → total bound procs ≡ total bound (update procs who p)
  unfolding total
  unseen zero procs who p h = refl
  unseen (suc last) procs who p h = ground (arith, unseen last procs who p)

  -- Where one process goes on, the total changes by the change of its weight.
  pub total-update :
      (bound : ℕ) (procs : ℕ → P) (who : ℕ) (p : P)
      → who < bound
      → weight p + total bound procs ≡ weight (procs who) + total bound (update procs who p)
  unfolding total
  total-update zero procs who p h = absurd (omega arith)
  total-update (suc last) procs who p h = elim (Bool-cases (ltb who last)) [
    | inl l ↦
        let below : who < last = ltb→lt who last l in
        let rest = total-update last procs who p below in ground arith
    | inr l ↦
        let same : who ≡ last = ground arith in
        let rest = unseen last procs who p (omega arith) in ground arith
  ]

  pub total-le : ((p : P) → weight p ≤ 1) → (bound : ℕ) (procs : ℕ → P) → total bound procs ≤ bound
  unfolding total
  total-le light zero procs = omega arith
  total-le light (suc last) procs =
      let one = light (procs last) in let rest = total-le light last procs in omega arith

  pub total-zero :
      (bound : ℕ) (procs : ℕ → P) → ((who : ℕ) → weight (procs who) ≡ 0) → total bound procs ≡ 0
  unfolding total
  total-zero zero procs h = refl
  total-zero (suc last) procs h =
      let none = h last in let rest = total-zero last procs h in omega arith

  -- Two processes weigh no more than all.
  pub total-two :
      (bound : ℕ) (procs : ℕ → P) (who next : ℕ)
      → who < next
      → next < bound
      → weight (procs who) + weight (procs next) ≤ total bound procs
  unfolding total
  total-two zero procs who next l h = absurd (omega arith)
  total-two (suc last) procs who next l h = elim (Bool-cases (ltb next last)) [
    | inl b ↦
        let below : next < last = ltb→lt next last b in
        let rest = total-two last procs who next l below in omega arith
    | inr b ↦
        let same : next ≡ last = ground arith in
        let first = weight-le-total last procs who (omega arith) in rw same (omega arith)
  ]

pub total_mono {ℓ} :
    {P : Type ℓ} (light heavy : P → ℕ)
    → ((p : P) → light p ≤ heavy p)
    → (bound : ℕ) (procs : ℕ → P) → total light bound procs ≤ total heavy bound procs
unfolding total
total_mono light heavy h zero procs = omega arith
total_mono light heavy h (suc last) procs =
    let one = h (procs last) in let rest = total_mono light heavy h last procs in omega arith
