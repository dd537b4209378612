-- ===== src/Sem/Invariant/Controlling.antt =====
-- The calls of `semctl` and `semget`, and the exit of a process.
use mathlib.Core.Path.{subst}
use my_file.Prelude.{
  ℕ, ◌≡◌, refl, sym, inl, inr, Option-cases, false, Bool-cases, Option, none, some, arith, ◌==◌,
  ltb,
}
use my_file.Sem.Kernel.{
  SemSet, set_of, undone, bigcount, semvmx, update, setval, sem_value, sem_count,
}
use my_file.Sem.Process.{
  At, outside, creating, locking, reading, setting_value, setting_count, ending, opening,
  open_waiting, counting, removing, unlocking, stopped, cant_getval, cant_setval_0, cant_setval_1,
  cant_rmid, got_or_new, found_set, exit_of, read_count, set_value, set_count, last_or_not, rm_set,
}
use my_file.Sem.Operations.{setval-Alike, undone-Becomes}
use my_file.Sem.Invariant.{reader, initialiser, keeper, stage, Bounded}
use my_file.Sem.Invariant.Ends.{Sound-new, Sound-undone}
use my_file.Sem.Invariant.Effects.{found_zero-Sound, found_more-Sound, count_high}
use my_file.Sem.Invariant.Moves.{Sound-Alike, Sound-setval}
use my_file.Sem.Invariant.Good.{
  Scene, Good, kernel, with_id, Good-stay, Good-set, Good-self, sound_of, stage_of, self_if,
}

module _ (sc : Scene) where
  open sc use {n, few, o, m, procs, i, lt, agrees, below, unknown, idle}

  module _ (id initval : ℕ) where
    pub reading-Good :
        procs i ≡ reading id initval
        → Good sc (read_count id initval (kernel sc) (set_of id (kernel sc)))
    reading-Good e =
        with_id (λ q. Good sc (read_count id initval (kernel sc) q)) o id
          (Good-stay sc (stopped cant_getval (reading id initval)) (λ x. rw e refl) tt)
          (λ s f same. elim (Bool-cases (s.count == 0)) [
            | inl z ↦ rw z (
                Good-self sc (setting_value id initval) s f
                  (found_zero-Sound n s procs (sound_of sc s f) i lt few (setting_value id initval)
                    (stage_of sc (reading id initval) s id reader e same (self_if sc id reader))
                    (rw same (self_if sc id initialiser)) (ground arith))
                  (λ x d. let d' : (id == x) ≡ false = rw (← same) d in rw d' refl) tt)
            | inr z ↦ rw z (
                Good-self sc (ending id false) s f
                  (found_more-Sound n s procs (sound_of sc s f) i lt few (ending id false)
                    (stage_of sc (reading id initval) s id reader e same (self_if sc id reader))
                    (rw same (self_if sc id keeper)) z)
                  (λ x d. let d' : (id == x) ≡ false = rw (← same) d in rw d' refl) tt)
          ])

    pub setting_value-Good :
        procs i ≡ setting_value id initval
        → Good sc (set_value id initval (kernel sc) (set_of id (kernel sc)))
    setting_value-Good e =
        with_id (λ q. Good sc (set_value id initval (kernel sc) q)) o id
          (Good-stay sc (stopped cant_setval_0 (setting_value id initval)) (λ x. rw e refl) tt)
          (λ s f same. elim (Bool-cases (ltb semvmx initval)) [
            | inl l ↦ rw l (
                Good-stay sc (stopped cant_setval_0 (setting_value id initval)) (λ x. rw e refl) tt)
            | inr l ↦ rw l (
                Good-set sc (setting_count id) s (setval sem_value initval s) f
                  (setval-Alike initval s).same
                  (Sound-Alike n s procs (sound_of sc s f) i lt (setting_count id) initialiser
                    initialiser (setval sem_value initval s)
                    (stage_of sc (setting_value id initval) s id initialiser e same
                      (self_if sc id initialiser))
                    (rw same (self_if sc id initialiser)) (setval-Alike initval s) refl refl
                    (omega arith) (omega arith))
                  (λ x d. let d' : (id == x) ≡ false = rw (← same) d in rw d' refl) tt)
          ])

  module _ (id : ℕ) where
    pub setting_count-Good :
        procs i ≡ setting_count id → Good sc (set_count id (kernel sc) (set_of id (kernel sc)))
    unfolding setval
    setting_count-Good e =
        with_id (λ q. Good sc (set_count id (kernel sc) q)) o id
          (Good-stay sc (stopped cant_setval_1 (setting_count id)) (λ x. rw e refl) tt)
          (λ s f same.
            Good-set sc (ending id false) s (setval sem_count bigcount s) f refl
              (Sound-setval n s procs (sound_of sc s f) i lt (ending id false)
                (stage_of sc (setting_count id) s id initialiser e same (self_if sc id initialiser))
                (rw same (self_if sc id keeper)) (λ j h. rw (idle j h) refl))
              (λ x d. let d' : (id == x) ≡ false = rw (← same) d in rw d' refl) tt)

    pub counting-Good :
        procs i ≡ counting id → Good sc (last_or_not id (kernel sc) (set_of id (kernel sc)))
    counting-Good e =
        with_id (λ q. Good sc (last_or_not id (kernel sc) q)) o id
          (Good-stay sc (stopped cant_getval (counting id)) (λ x. rw e refl) tt)
          (λ s f same.
            let high : ltb bigcount s.count ≡ false =
              let h = count_high n s procs (sound_of sc s f) in ground arith in
            rw high (elim (Bool-cases (s.count == bigcount)) [
              | inl c ↦ rw c (Good-stay sc (removing id) (λ x. rw e refl) tt)
              | inr c ↦ rw c (Good-stay sc (unlocking id false) (λ x. rw e refl) tt)
            ]))

  pub removed-Good :
      (here : At) (id : ℕ)
      → ((x : ℕ) → stage x here ≡ stage x (procs i))
      → Bounded (stopped cant_rmid here)
      → Good sc (rm_set here (kernel sc) (set_of id (kernel sc)))
  removed-Good here id sh b =
      with_id (λ q. Good sc (rm_set here (kernel sc) q)) o id
        (Good-stay sc (stopped cant_rmid here) sh b)
        (λ s f same. record {
          good_set = tt;
          good_id = tt;
          grows = omega arith;
          new_ids = λ x h. refl;
          bounded = tt;
        })

  pub creating-Good : (v : ℕ) → procs i ≡ creating v → Good sc (got_or_new v (kernel sc) o)
  creating-Good v e = elim (Option-cases o) [
    | inl f ↦
        subst (λ q. Good sc (got_or_new v (kernel sc) q)) (sym f)
          (record {
            good_set = Sound-new n m (update procs i (locking m v false)) (λ j.
                elim (Bool-cases (i == j)) [
                  | inl d ↦ rw d refl
                  | inr d ↦ rw d (unknown m j (omega arith))
                ]);
            good_id = omega arith;
            grows = omega arith;
            new_ids = λ x h. refl;
            bounded = tt;
          })
    | inr (s, f) ↦
        subst (λ q. Good sc (got_or_new v (kernel sc) q)) (sym f)
          (Good-stay sc (locking s.id v false) (λ x. rw e refl) tt)
  ]

  pub opening-Good : procs i ≡ opening → Good sc (found_set (kernel sc) o)
  opening-Good e = elim (Option-cases o) [
    | inl f ↦
        subst (λ q. Good sc (found_set (kernel sc) q)) (sym f)
          (Good-stay sc outside (λ x. rw e refl) tt)
    | inr (s, f) ↦
        subst (λ q. Good sc (found_set (kernel sc) q)) (sym f)
          (Good-stay sc (open_waiting s.id false) (λ x. rw e refl) tt)
  ]

  exits-Good' : (q : Option SemSet) → o ≡ q → Good sc (outside, exit_of i (kernel sc) q)
  exits-Good' none f =
      subst (λ q. Good sc (outside, record { found = q; next_id = m })) (sym f)
        (record {
          good_set = tt;
          good_id = tt;
          grows = omega arith;
          new_ids = λ x h. refl;
          bounded = tt;
        })
  exits-Good' (some s) f =
      Good-set sc outside s (undone i s) f (undone-Becomes i s).same
        (Sound-undone n s procs (sound_of sc s f) i lt) (λ x d. refl) tt

  pub exits-Good : Good sc (outside, exit_of i (kernel sc) o)
  exits-Good = exits-Good' o refl
