-- ===== src/Dtree/Paths/Subtree.antt =====
-- The slots below a path, behind `zapSubtree` and `rewriteCachedPaths`.
use my_file.Prelude.{
  false, ℕ, suc, ◌≡◌, inl, inr, refl, Bool, true, ◌&&◌, Bool-cases, Option, none, some, List, [],
  ◌∷◌, if◌then◌else◌,
}
use my_file.Dtree.State.{Watch}
use my_file.Dtree.Cache.{empty_slot, is_used}
use my_file.Dtree.Cache.Distinct.{Fewer, Fewer-refl}
use my_file.Dtree.Paths.{below, is_below, lets_go, zap_loop, renamed, rewrite_paths}

-- The scan keeps or empties each slot.
pub zap_loop-Fewer :
    (removes : ℕ → Bool) (path : List ℕ) (ws : List Watch) → Fewer (zap_loop removes path ws).0 ws
unfolding zap_loop
zap_loop-Fewer removes path [] = tt
zap_loop-Fewer removes path (w ∷ ws) = elim (Bool-cases (is_used w && is_below path w)) [
  | inr other ↦ rw other (inl refl, zap_loop-Fewer removes path ws)
  | inl hit ↦ elim (Bool-cases (lets_go removes w)) [
    | inl gone ↦ rw (hit, gone) (inr refl, zap_loop-Fewer removes path ws)
    | inr kept ↦ rw (hit, kept) (inl refl, Fewer-refl ws)
  ]
]

renamed-wd : (new : List ℕ) (w : Watch) (o : Option (List ℕ)) → (renamed new w o).wd ≡ w.wd
renamed-wd new w none = refl
renamed-wd new w (some rest) = refl

pub rewrite_paths-Fewer : (old new : List ℕ) (ws : List Watch) → Fewer (rewrite_paths old new ws) ws
unfolding rewrite_paths
rewrite_paths-Fewer old new [] = tt
rewrite_paths-Fewer old new (w ∷ ws) =
    (inl (renamed-wd new w (below old w.path)), rewrite_paths-Fewer old new ws)

-- the slots with those that are in use and below a path emptied
abbrev pub without : List ℕ → List Watch → List Watch
without path [] = []
without path (w ∷ ws) = (if is_used w && is_below path w then empty_slot else w) ∷ without path ws

-- the kernel lets all watches below the path go
abbrev pub AllGo : (ℕ → Bool) → List ℕ → List Watch → Type 0
AllGo removes path [] = Unit
AllGo removes path (w ∷ ws) =
    ((if is_used w && is_below path w then lets_go removes w else true) ≡ true)
    × AllGo removes path ws

abbrev pub count_below : List ℕ → List Watch → ℕ
count_below path [] = 0
count_below path (w ∷ ws) =
    if is_used w && is_below path w then suc (count_below path ws) else count_below path ws

-- Where the kernel lets each watch at or below the path go, zapSubtree empties just the used slots
-- at or below the path, and counts them.
pub zap_loop-without :
    (removes : ℕ → Bool) (path : List ℕ) (ws : List Watch)
    → AllGo removes path ws
    → zap_loop removes path ws ≡ (without path ws, some (count_below path ws))
unfolding zap_loop
zap_loop-without removes path [] go = refl
zap_loop-without removes path (w ∷ ws) go = elim (Bool-cases (is_used w && is_below path w)) [
  | inr other ↦ rw (other, zap_loop-without removes path ws go.1)
  | inl hit ↦ rw (hit, (rw hit at go.0), zap_loop-without removes path ws go.1)
]

-- No slot in use is at or below the path.
abbrev pub ClearOf : List ℕ → List Watch → Type 0
ClearOf path [] = Unit
ClearOf path (w ∷ ws) = ((is_used w && is_below path w) ≡ false) × ClearOf path ws

pub ClearOf-without : (path : List ℕ) (ws : List Watch) → ClearOf path (without path ws)
ClearOf-without path [] = tt
ClearOf-without path (w ∷ ws) = elim (Bool-cases (is_used w && is_below path w)) [
  | inl hit ↦ rw hit (refl, ClearOf-without path ws)
  | inr other ↦ rw other (other, ClearOf-without path ws)
]
