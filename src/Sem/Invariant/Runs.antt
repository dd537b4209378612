-- ===== src/Sem/Invariant/Runs.antt =====
-- The invariant in every run.
use my_file.Prelude.{
  ℕ, ◌<◌, ◌≡◌, refl, inl, inr, false, Bool-cases, List, [], ◌∷◌, arith, ltb, ltb→lt, ◌==◌,
}
use my_file.Sem.Kernel.{Kernel, bigcount}
use my_file.Sem.Process.{At, Action, happen}
use my_file.Sem.System.{Processes, initial, moved, turn, run}
use my_file.Sem.Invariant.{Inv}
use my_file.Sem.Invariant.Good.{Scene, Good}
use my_file.Sem.Invariant.Steps.{happen-Good}

module _ (n : ℕ) (few : n < bigcount) where
  initial-Inv : Inv n initial
  initial-Inv = record {
    agrees = tt;
    below = tt;
    unknown = λ x j h. refl;
    idle = λ j h. refl;
    bounded = λ j. tt;
  }

  abbrev scene : (s : Processes) (i : ℕ) → i < n → Inv n s → Scene
  scene s i lt inv = record {
    n = n;
    few = few;
    o = s.kernel.found;
    m = s.kernel.next_id;
    procs = s.procs;
    i = i;
    lt = lt;
    agrees = inv.agrees;
    below = inv.below;
    unknown = inv.unknown;
    idle = inv.idle;
  }

  Good-Inv :
      (s : Processes) (i : ℕ) (lt : i < n) (inv : Inv n s) (r : At × Kernel)
      → Good (scene s i lt inv) r
      → Inv n (moved s i r)
  Good-Inv s i lt inv r g = record {
    agrees = g.good_set;
    below = g.good_id;
    unknown = λ x j h. elim (Bool-cases (i == j)) [
      | inl d ↦ rw d (g.new_ids x h)
      | inr d ↦ rw d (let grows = g.grows in inv.unknown x j (omega arith))
    ];
    idle = λ j h. let d : (i == j) ≡ false = ground arith in rw d (inv.idle j h);
    bounded =
        λ j. elim (Bool-cases (i == j)) [ inl d ↦ rw d g.bounded | inr d ↦ rw d (inv.bounded j) ];
  }

  turn-Inv : (i : ℕ) (e : Action) (s : Processes) → Inv n s → Inv n (turn n (i, e) s)
  unfolding turn
  turn-Inv i e s inv = elim (Bool-cases (ltb i n)) [
    | inl l ↦
        let lt = ltb→lt i n l in
        rw l (
          Good-Inv s i lt inv (happen i e (s.procs i) s.kernel)
            (happen-Good (scene s i lt inv) e (inv.bounded i)))
    | inr l ↦ rw l inv
  ]

  pub run-Inv : (es : List (ℕ × Action)) (s : Processes) → Inv n s → Inv n (run n es s)
  unfolding run
  run-Inv [] s inv = inv
  run-Inv ((i, e) ∷ es) s inv = run-Inv es (turn n (i, e) s) (turn-Inv i e s inv)

  pub run-initial-Inv : (es : List (ℕ × Action)) → Inv n (run n es initial)
  run-initial-Inv es = run-Inv es initial initial-Inv
