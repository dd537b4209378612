-- ===== src/Sem/Invariant/Good.antt =====
-- What an event of one process has to keep.
use mathlib.Core.Path.{subst}
use my_file.Prelude.{
  ℕ, ◌≤◌, ◌<◌, ◌≡◌, refl, sym, ◌∙◌, inl, inr, false, Bool-cases, Option, none, some, List, arith,
  ==-refl, ◌==◌,
}
use my_file.Sem.Kernel.{
  SemSet, Sembuf, Semop, done, sleeps, out_of_range, semop, Kernel, from_semop, tried, try_ops,
  if_id, bigcount, update,
}
use my_file.Sem.Process.{At, outside, stopped, Reason, passed}
use my_file.Sem.Invariant.{Stage, apart, stage, stage_if, Sound, Agrees, IdBelow, Bounded}
use my_file.Sem.Invariant.Moves.{Sound-stay}

pub with_id :
    (R : Option SemSet → Type 0) (o : Option SemSet) (id : ℕ)
    → R none
    → ((s : SemSet) → o ≡ some s → s.id ≡ id → R (some s))
    → R (if_id id o)
with_id R none id a b = a
with_id R (some s) id a b = elim (Bool-cases (s.id == id)) [
  | inl e ↦ rw e (b s refl (ground arith))
  | inr e ↦ rw e a
]

Agrees-stay :
    (n : ℕ) (o : Option SemSet) (procs : ℕ → At) (i : ℕ) (p : At)
    → i < n
    → Agrees n o procs
    → ((x : ℕ) → stage x p ≡ stage x (procs i))
    → Agrees n o (update procs i p)
Agrees-stay n none procs i p lt a same = tt
Agrees-stay n (some s) procs i p lt a same = Sound-stay n s procs a i lt p (same s.id)

-- Process `i` of `n` in front of its next event, where the invariant holds.
pub record Scene : Type 0 where
  pub n : ℕ
  pub few : n < bigcount
  pub o : Option SemSet
  pub m : ℕ
  pub procs : ℕ → At
  pub i : ℕ
  pub lt : i < n
  pub agrees : Agrees n o procs
  pub below : IdBelow m o
  pub unknown : (x j : ℕ) → m ≤ x → stage x (procs j) ≡ apart
  pub idle : (j : ℕ) → n ≤ j → procs j ≡ outside

module _ (c : Scene) where
  open c use {n, few, o, m, procs, i, lt, agrees, below, unknown, idle}

  abbrev pub kernel : Kernel
  kernel = record { found = o; next_id = m }

  -- The invariant holds where the process goes on.
  pub record Good (r : At × Kernel) : Type 0 where
    pub good_set : Agrees n r.1.found (update procs i r.0)
    pub good_id : IdBelow r.1.next_id r.1.found
    pub grows : m ≤ r.1.next_id
    pub new_ids : (x : ℕ) → r.1.next_id ≤ x → stage x r.0 ≡ apart
    pub bounded : Bounded r.0

  pub Good-stay :
      (p : At) → ((x : ℕ) → stage x p ≡ stage x (procs i)) → Bounded p → Good (p, kernel)
  Good-stay p same b = record {
    good_set = Agrees-stay n o procs i p lt agrees same;
    good_id = below;
    grows = omega arith;
    new_ids = λ x h. same x ∙ unknown x i h;
    bounded = b;
  }

  pub sound_of : (s : SemSet) → o ≡ some s → Sound n s procs
  sound_of s e = subst (λ q. Agrees n q procs) e agrees

  pub below_of : (s : SemSet) → o ≡ some s → s.id < m
  below_of s e = subst (IdBelow m) e below

  -- The kernel has another set of the same identifier.
  pub Good-set :
      (p : At) (s t : SemSet)
      → o ≡ some s
      → t.id ≡ s.id
      → Sound n t (update procs i p)
      → ((x : ℕ) → (s.id == x) ≡ false → stage x p ≡ apart)
      → Bounded p
      → Good (p, record kernel { found = some t })
  Good-set p s t e same ok ids b =
      let l : s.id < m = below_of s e in
      record {
        good_set = ok;
        good_id = omega arith;
        grows = omega arith;
        new_ids = λ x h. let d : (s.id == x) ≡ false = ground arith in ids x d;
        bounded = b;
      }

  pub Good-self :
      (p : At) (s : SemSet)
      → o ≡ some s
      → Sound n s (update procs i p)
      → ((x : ℕ) → (s.id == x) ≡ false → stage x p ≡ apart)
      → Bounded p
      → Good (p, kernel)
  Good-self p s e ok ids b =
      subst (λ q. Good (p, record { found = q; next_id = m })) (sym e)
        (Good-set p s s e refl ok ids b)

  from_semop-Good :
      (here next asleep : At) (r : Reason) (s : SemSet) (q : Semop)
      → o ≡ some s
      → ((x : ℕ) → stage x here ≡ stage x (procs i))
      → ((x : ℕ) → stage x asleep ≡ stage x (procs i))
      → Bounded asleep
      → Bounded (stopped r here)
      → Bounded next
      → ((x : ℕ) → (s.id == x) ≡ false → stage x next ≡ apart)
      → ((t : SemSet) → q ≡ done t → (t.id ≡ s.id) × Sound n t (update procs i next))
      → Good (passed here next asleep r kernel (from_semop kernel q))
  from_semop-Good here next asleep r s (done t) e sh sa ba bs bn ids ok =
      let g = ok t refl in Good-set next s t e g.0 g.1 ids bn
  from_semop-Good here next asleep r s sleeps e sh sa ba bs bn ids ok = Good-stay asleep sa ba
  from_semop-Good here next asleep r s out_of_range e sh sa ba bs bn ids ok =
      Good-stay (stopped r here) sh bs

  pub passed-Good :
      (here next asleep : At) (r : Reason) (ops : List Sembuf) (id : ℕ)
      → ((x : ℕ) → stage x here ≡ stage x (procs i))
      → ((x : ℕ) → stage x asleep ≡ stage x (procs i))
      → Bounded asleep
      → Bounded (stopped r here)
      → Bounded next
      → ((x : ℕ) → (id == x) ≡ false → stage x next ≡ apart)
      → ((s t : SemSet)
          → Sound n s procs
          → s.id ≡ id
          → semop i ops s ≡ done t
          → (t.id ≡ s.id) × Sound n t (update procs i next))
      → Good (passed here next asleep r kernel (try_ops i ops id kernel))
  passed-Good here next asleep r ops id sh sa ba bs bn ids ok =
      with_id (λ q. Good (passed here next asleep r kernel (tried i ops kernel q))) o id
        (Good-stay (stopped r here) sh bs)
        (λ s e same.
          from_semop-Good here next asleep r s (semop i ops s) e sh sa ba bs bn
            (λ x d. ids x (rw (← same) d)) (λ t f. ok s t (sound_of s e) same f))

  -- the stage of the process, where it is known
  pub stage_of :
      (p : At) (s : SemSet) (id : ℕ) (g : Stage)
      → procs i ≡ p
      → s.id ≡ id
      → stage id p ≡ g
      → stage s.id (procs i) ≡ g
  stage_of p s id g e same h = rw (e, same) h

  pub self_if : (id : ℕ) (g : Stage) → stage_if (id == id) g ≡ g
  self_if id g = rw (==-refl id) refl
