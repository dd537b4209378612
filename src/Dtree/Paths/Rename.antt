-- ===== src/Dtree/Paths/Rename.antt =====
-- The paths of the cache behind the renaming of a directory.
use my_file.Prelude.{
  ℕ, ◌≡◌, inl, inr, refl, ap, sym, ◌∙◌, Bool-cases, Option, none, some, List, [], ◌∷◌, ◌++◌, ◌==◌,
  ==-refl, arith, take, ◌≢◌,
}
use my_file.Dtree.State.{Watch}
use my_file.Dtree.Paths.{below, renamed, rewrite_paths, rewrite_cached_paths, join, slash}

-- the end of a path, or a slash with more
abbrev pub Rest : List ℕ → Type 0
Rest [] = Unit
Rest (c ∷ cs) = c ≡ slash

below-append : (full rest : List ℕ) → Rest rest → below full (full ++ rest) ≡ some rest
unfolding below
below-append [] [] h = refl
below-append [] (c ∷ cs) h = rw h refl
below-append (p ∷ ps) rest h = rw (==-refl p) (below-append ps rest h)

below-some :
    (full path rest : List ℕ) → below full path ≡ some rest → (path ≡ full ++ rest) × Rest rest
unfolding below
below-some [] [] rest h = let e : [] ≡ rest = cc in rw (← e) (refl, tt)
below-some [] (c ∷ cs) rest h = elim (Bool-cases (c == slash)) [
  | inl hit ↦
      let k = rw hit at h in
      let e : c ∷ cs ≡ rest = cc in
      let at_slash : c ≡ slash = ground arith in rw (← e) (refl, at_slash)
  | inr other ↦ absurd (let k = rw other at h in cc)
]
below-some (p ∷ ps) [] rest h = cc
below-some (p ∷ ps) (c ∷ cs) rest h = elim (Bool-cases (p == c)) [
  | inl same ↦
      let k = rw same at h in
      let (e, r) = below-some ps cs rest k in
      let first : c ≡ p = ground arith in (rw first (ap (λ l. p ∷ l) e), r)
  | inr other ↦ absurd (let k = rw other at h in cc)
]

-- The slot behind the renaming of `old` to `new`: a path at or below the old one has its front
-- replaced, as far as its buffer of PATH_MAX bytes goes, and any other is as before.
pub data Moved (old new : List ℕ) (w : Watch) : Watch → Type 0 where
  moved :
      (rest : List ℕ)
      → Rest rest
      → w.path ≡ old ++ rest
      → Moved old new w (record w { path = take 4095 (new ++ rest) })
  kept : ((rest : List ℕ) → Rest rest → w.path ≢ old ++ rest) → Moved old new w w

abbrev pub AllMoved : List ℕ → List ℕ → List Watch → List Watch → Type 0
AllMoved old new [] [] = Unit
AllMoved old new (w ∷ ws) (v ∷ vs) = Moved old new w v × AllMoved old new ws vs
AllMoved old new _ _ = ⊥

-- the path of an entry of a directory, as far as its buffer goes
abbrev pub entry_path : List ℕ → List ℕ → List ℕ
entry_path prefix name = take 4095 (prefix ++ (b'/' ∷ name))

renamed-Moved :
    (old new : List ℕ) (w : Watch) (o : Option (List ℕ))
    → below old w.path ≡ o
    → Moved old new w (renamed new w o)
renamed-Moved old new w (some rest) e =
    let (whole, r) = below-some old w.path rest e in moved rest r whole
renamed-Moved old new w none e = kept (λ rest r whole.
    let found : below old w.path ≡ some rest = rw whole (below-append old rest r) in
    let k = sym e ∙ found in cc)

rewrite_paths-AllMoved :
    (old new : List ℕ) (ws : List Watch) → AllMoved old new ws (rewrite_paths old new ws)
unfolding rewrite_paths
rewrite_paths-AllMoved old new [] = tt
rewrite_paths-AllMoved old new (w ∷ ws) =
    (renamed-Moved old new w (below old w.path) refl, rewrite_paths-AllMoved old new ws)

-- rewriteCachedPaths replaces the old path by the new one in the front of the paths of the cache
-- that are the old one or go on behind it with a slash, as far as the buffer of PATH_MAX bytes
-- goes, and changes no other path and no descriptor.
pub rewrite_cached_paths-AllMoved :
    (old_prefix old_name new_prefix new_name : List ℕ) (cache : List Watch)
    → AllMoved
        (entry_path old_prefix old_name)
        (entry_path new_prefix new_name)
        cache
        (rewrite_cached_paths old_prefix old_name new_prefix new_name cache)
unfolding rewrite_cached_paths
rewrite_cached_paths-AllMoved old_prefix old_name new_prefix new_name cache =
    rewrite_paths-AllMoved (join old_prefix old_name) (join new_prefix new_name) cache
