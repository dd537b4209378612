-- ===== src/Sem/Invariant/Ends.antt =====
-- A new set, and the exit of a process.
use my_file.Prelude.{ℕ, zero, suc, ◌+◌, ◌≤◌, ◌<◌, ◌≡◌, refl, sym, ap, ◌∙◌, inl, arith, pos, neg}
use my_file.Sem.Kernel.{SemSet, new_set, undone, plus_adjust, semvmx, update}
use my_file.Sem.Process.{At, outside}
use my_file.Sem.Totals.{total-zero, weight-le-total}
use my_file.Sem.Operations.{undone-Becomes}
use my_file.Sem.Invariant.{
  Stage, apart, stage, user_weight, lock_weight, kept_weight, users, holders, keepers, Sound,
}
use my_file.Sem.Invariant.Moves.{Sound-Becomes, weight_small}
use my_file.Sem.Invariant.Effects.{count_high}

-- A set whose identifier no process knows.
pub Sound-new :
    (n x : ℕ) (procs : ℕ → At) → ((j : ℕ) → stage x (procs j) ≡ apart) → Sound n (new_set x) procs
Sound-new n x procs h =
    let u : users x n procs ≡ 0 =
      total-zero (λ q. user_weight (stage x q)) n procs (λ j. ap user_weight (h j)) in
    let l : holders x n procs ≡ 0 =
      total-zero (λ q. lock_weight (stage x q)) n procs (λ j. ap lock_weight (h j)) in
    let k : keepers x n procs ≡ 0 =
      total-zero (λ q. kept_weight (stage x q)) n procs (λ j. ap kept_weight (h j)) in
    record {
      held = sym l;
      single = omega arith;
      accounted = inl (omega arith);
      fresh = λ q. omega arith;
      kept = λ q. absurd (omega arith);
      undo_count = λ j. rw (h j) refl;
      undo_lock = λ j. rw (h j) refl;
    }

plus_adjust-pos : (v w : ℕ) → v + w ≤ semvmx → plus_adjust v (pos w) ≡ v + w
plus_adjust-pos v w h = ground arith

plus_adjust-neg : (v w : ℕ) → w ≤ v → v ≤ semvmx → plus_adjust v (neg w) + w ≡ v
plus_adjust-neg v zero h k = ground arith
plus_adjust-neg v (suc w) h k = omega arith

-- The adjustments of a process take back what it did to the counter and the lock.
pub Sound-undone :
    (n : ℕ) (s : SemSet) (procs : ℕ → At)
    → Sound n s procs
    → (i : ℕ) → i < n
    → Sound n (undone i s) (update procs i outside)
Sound-undone n s procs ok i lt =
    let g : Stage = stage s.id (procs i) in
    let b = undone-Becomes i s in
    let small = weight_small g in
    let high = count_high n s procs ok in
    let mine = weight-le-total (λ q. lock_weight (stage s.id q)) n procs i lt in
    let held = ok.held in
    let single = ok.single in
    let c : plus_adjust s.count (s.undo i).count ≡ s.count + user_weight g =
      ap (plus_adjust s.count) (ok.undo_count i)
      ∙ plus_adjust-pos s.count (user_weight g) (omega arith) in
    let e : plus_adjust s.lock (s.undo i).lock ≡ plus_adjust s.lock (neg (lock_weight g)) =
      ap (plus_adjust s.lock) (ok.undo_lock i) in
    let d = plus_adjust-neg s.lock (lock_weight g) (omega arith) (omega arith) in
    Sound-Becomes n s procs ok i lt outside g apart (undone i s) refl refl b (omega arith)
      (omega arith) (omega arith) (inl (omega arith)) (inl (omega arith)) refl refl
