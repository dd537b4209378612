-- ===== src/Dtree/Cache/Distinct.antt =====
-- Watch descriptors that stand in one slot of the cache each, and the changes of a slot.
use my_file.Prelude.{
  ℕ, zero, suc, ◌≡◌, ◌≢◌, ◌⊎◌, inl, inr, refl, Bool, false, Bool-cases, Option-cases, Option, none,
  some, List, [], ◌∷◌, ◌++◌, ◌==◌, arith, take, replicate,
}
use my_file.Dtree.State.{Watch}
use my_file.Dtree.Cache.{
  find_slot, is_wd, is_empty, find_watch, empty_slot, put, alloc_incr, free_or_grown,
  find_empty_cache_slot, add_watch_to_cache, path_max,
}

-- no slot has the descriptor
abbrev pub Absent : ℕ → List Watch → Type 0
Absent d [] = Unit
Absent d (w ∷ ws) = (w.wd ≢ some d) × Absent d ws

abbrev AbsentWd : Option ℕ → List Watch → Type 0
AbsentWd none ws = Unit
AbsentWd (some d) ws = Absent d ws

abbrev pub Distinct : List Watch → Type 0
Distinct [] = Unit
Distinct (w ∷ ws) = AbsentWd w.wd ws × Distinct ws

-- each slot has the descriptor of before or none
abbrev pub Fewer : List Watch → List Watch → Type 0
Fewer [] [] = Unit
Fewer [] (w ∷ ws) = ⊥
Fewer (v ∷ vs) [] = ⊥
Fewer (v ∷ vs) (w ∷ ws) = ((v.wd ≡ w.wd) ⊎ (v.wd ≡ none)) × Fewer vs ws

kept_or_none : (a b : Option ℕ) (d : ℕ) → (a ≡ b) ⊎ (a ≡ none) → b ≢ some d → a ≢ some d
kept_or_none a b d h ne = ground arith

Absent-Fewer : (d : ℕ) (vs ws : List Watch) → Fewer vs ws → Absent d ws → Absent d vs
Absent-Fewer d [] ws f a = tt
Absent-Fewer d (v ∷ vs) [] f a = absurd f
Absent-Fewer d (v ∷ vs) (w ∷ ws) f a =
    (kept_or_none v.wd w.wd d f.0 a.0, Absent-Fewer d vs ws f.1 a.1)

AbsentWd-Fewer :
    (a b : Option ℕ) (vs ws : List Watch)
    → (a ≡ b) ⊎ (a ≡ none)
    → Fewer vs ws
    → AbsentWd b ws
    → AbsentWd a vs
AbsentWd-Fewer none b vs ws h f x = tt
AbsentWd-Fewer (some d) none vs ws h f x = absurd (ground arith)
AbsentWd-Fewer (some d) (some e) vs ws h f x =
    let same : d ≡ e = ground arith in Absent-Fewer d vs ws f (rw same x)

pub Distinct-Fewer : (vs ws : List Watch) → Fewer vs ws → Distinct ws → Distinct vs
Distinct-Fewer [] ws f h = tt
Distinct-Fewer (v ∷ vs) [] f h = absurd f
Distinct-Fewer (v ∷ vs) (w ∷ ws) f h =
    (AbsentWd-Fewer v.wd w.wd vs ws f.0 f.1 h.0, Distinct-Fewer vs ws f.1 h.1)

pub Fewer-refl : (ws : List Watch) → Fewer ws ws
Fewer-refl [] = tt
Fewer-refl (w ∷ ws) = (inl refl, Fewer-refl ws)

pub put-Fewer : (j : ℕ) (ws : List Watch) → Fewer (put j empty_slot ws) ws
unfolding put
put-Fewer j [] = tt
put-Fewer zero (w ∷ ws) = (inr refl, Fewer-refl ws)
put-Fewer (suc j) (w ∷ ws) = (inl refl, put-Fewer j ws)

find_slot-none :
    (p : Watch → Bool) (w : Watch) (ws : List Watch)
    → find_slot p (w ∷ ws) ≡ none
    → (p w ≡ false) × (find_slot p ws ≡ none)
unfolding find_slot
find_slot-none p w ws h = elim (Bool-cases (p w)) [
  | inl hit ↦ absurd (let k = rw hit at h in cc)
  | inr miss ↦ (
    miss,
    elim (Option-cases (find_slot p ws)) [
      | inl gone ↦ gone
      | inr (j, there) ↦ absurd (let k = rw (miss, there) at h in cc)
    ],
  )
]

other_wd : (d : ℕ) (a : Option ℕ) → elim a [ none ↦ false | some e ↦ e == d ] ≡ false → a ≢ some d
other_wd d a h = ground arith

-- a descriptor that is not found
pub find_watch-Absent : (d : ℕ) (ws : List Watch) → find_watch (some d) ws ≡ none → Absent d ws
unfolding find_watch
find_watch-Absent d [] h = tt
find_watch-Absent d (w ∷ ws) h =
    let (miss, rest) = find_slot-none (is_wd (some d)) w ws h in
    (other_wd d w.wd miss, find_watch-Absent d ws rest)

-- a descriptor is put in an empty slot
put-Absent :
    (d j : ℕ) (v : Watch) (ws : List Watch) → v.wd ≢ some d → Absent d ws → Absent d (put j v ws)
unfolding put
put-Absent d j v [] ne a = tt
put-Absent d zero v (w ∷ ws) ne a = (ne, a.1)
put-Absent d (suc j) v (w ∷ ws) ne a = (a.0, put-Absent d j v ws ne a.1)

put-AbsentWd :
    (d j : ℕ) (v : Watch) (b : Option ℕ) (ws : List Watch)
    → v.wd ≡ some d
    → b ≢ some d
    → AbsentWd b ws
    → AbsentWd b (put j v ws)
put-AbsentWd d j v none ws e ne a = tt
put-AbsentWd d j v (some b) ws e ne a = put-Absent b j v ws (grind arith) a

put-Distinct :
    (d j : ℕ) (path : List ℕ) (ws : List Watch)
    → Absent d ws
    → Distinct ws
    → Distinct (put j (record { wd = some d; path = path }) ws)
unfolding put
put-Distinct d j path [] a h = tt
put-Distinct d zero path (w ∷ ws) a h = (a.1, h.1)
put-Distinct d (suc j) path (w ∷ ws) a h = (
  put-AbsentWd d j (record { wd = some d; path = path }) w.wd ws refl a.0 h.0,
  put-Distinct d j path ws a.1 h.1,
)

-- the cache grows by empty slots
Absent-grown : (d n : ℕ) (ws : List Watch) → Absent d ws → Absent d (ws ++ replicate n empty_slot)
Absent-grown d zero [] a = tt
Absent-grown d (suc n) [] a = (ground arith, Absent-grown d n [] tt)
Absent-grown d n (w ∷ ws) a = (a.0, Absent-grown d n ws a.1)

AbsentWd-grown :
    (b : Option ℕ) (n : ℕ) (ws : List Watch)
    → AbsentWd b ws
    → AbsentWd b (ws ++ replicate n empty_slot)
AbsentWd-grown none n ws a = tt
AbsentWd-grown (some d) n ws a = Absent-grown d n ws a

Distinct-grown : (n : ℕ) (ws : List Watch) → Distinct ws → Distinct (ws ++ replicate n empty_slot)
Distinct-grown zero [] h = tt
Distinct-grown (suc n) [] h = (tt, Distinct-grown n [] tt)
Distinct-grown n (w ∷ ws) h = (AbsentWd-grown w.wd n ws h.0, Distinct-grown n ws h.1)

grown-Distinct :
    (d : ℕ) (free : Option ℕ) (ws : List Watch)
    → Absent d ws
    → Distinct ws
    → Absent d (free_or_grown free ws).1 × Distinct (free_or_grown free ws).1
grown-Distinct d none ws a h = (Absent-grown d alloc_incr ws a, Distinct-grown alloc_incr ws h)
grown-Distinct d (some j) ws a h = (a, h)

-- A descriptor that is not in the cache is added to it.
pub add-Distinct :
    (d : ℕ) (path : List ℕ) (ws : List Watch)
    → Absent d ws
    → Distinct ws
    → Distinct (add_watch_to_cache d path ws)
unfolding add_watch_to_cache find_empty_cache_slot
add-Distinct d path ws a h =
    let (a', h') = grown-Distinct d (find_slot is_empty ws) ws a h in
    put-Distinct d (find_empty_cache_slot ws).0 (take path_max path) (find_empty_cache_slot ws).1 a'
      h'
