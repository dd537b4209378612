-- ===== src/Dtree/Session/Roots.antt =====
-- The root paths that the command line may name.
use my_file.Prelude.{
  ℕ, ◌≡◌, ap, sym, ◌∙◌, true, false, Bool-cases, Option-cases, inl, inr, Option, none, some, List,
  [], ◌∷◌, arith,
}
use my_file.Dtree.Session.{
  Argument, Stat, same_object, has_object, all_directories, copy_loop, copy_root_dir_paths,
}

abbrev pub names : List Argument → List (Option (List ℕ))
names [] = []
names ((path, first, second) ∷ args) = some path ∷ names args

-- An object is none of those that the arguments name.
abbrev pub NotNamed : Stat → List Argument → Type 0
NotNamed a [] = Unit
NotNamed a ((path, first, none) ∷ args) = ⊥
NotNamed a ((path, first, some b) ∷ args) = (same_object a b ≡ false) × NotNamed a args

-- The arguments are directories, no two of them the same object.
abbrev pub Roots : List Argument → Type 0
Roots [] = Unit
Roots ((path, some a, some b) ∷ args) = (a.is_dir ≡ true) × NotNamed b args × Roots args
Roots ((path, _, _) ∷ args) = ⊥

abbrev NoneNamed : List Stat → List Argument → Type 0
NoneNamed [] args = Unit
NoneNamed (a ∷ seen) args = NotNamed a args × NoneNamed seen args

same_object-swap : (a b : Stat) → same_object a b ≡ false → same_object b a ≡ false
same_object-swap a b h = ground arith

NoneNamed-cons :
    (path : List ℕ) (first : Option Stat) (b : Stat) (seen : List Stat) (args : List Argument)
    → has_object b seen ≡ false
    → NoneNamed seen args
    → NoneNamed seen ((path, first, some b) ∷ args)
unfolding has_object
NoneNamed-cons path first b [] args h n = tt
NoneNamed-cons path first b (a ∷ seen) args h n =
    let apart : same_object b a ≡ false = ground arith in
    let rest : has_object b seen ≡ false = ground arith in
    ((same_object-swap b a apart, n.0), NoneNamed-cons path first b seen args rest n.1)

NoneNamed-nil : (seen : List Stat) → NoneNamed seen []
NoneNamed-nil [] = tt
NoneNamed-nil (a ∷ seen) = (tt, NoneNamed-nil seen)

copy_loop-some :
    (seen : List Stat) (args : List Argument) (rs : List (Option (List ℕ)))
    → all_directories args ≡ true
    → copy_loop seen args ≡ some rs
    → (rs ≡ names args) × NoneNamed seen args × Roots args
unfolding copy_loop all_directories
copy_loop-some seen [] rs d h = (let e : [] ≡ rs = cc in sym e, NoneNamed-nil seen, tt)
copy_loop-some seen ((path, none, second) ∷ args) rs d h = cc
copy_loop-some seen ((path, some b, none) ∷ args) rs d h = cc
copy_loop-some seen ((path, some b, some a) ∷ args) rs d h = elim (Bool-cases (has_object a seen)) [
  | inl twice ↦ absurd (let k = rw twice at h in cc)
  | inr fresh ↦ elim (Option-cases (copy_loop (a ∷ seen) args)) [
    | inl refused ↦ absurd (let k = rw (fresh, refused) at h in cc)
    | inr (qs, copied) ↦
        let k = rw (fresh, copied) at h in
        let e : some path ∷ qs ≡ rs = cc in
        let all : all_directories args ≡ true = ground arith in
        let here : b.is_dir ≡ true = ground arith in
        let (same, none_named, roots) = copy_loop-some (a ∷ seen) args qs all copied in
        (
          sym e ∙ ap (λ l. some path ∷ l) same,
          NoneNamed-cons path (some b) a seen args fresh none_named.1,
          (here, none_named.0, roots),
        )
  ]
]

-- If copyRootDirPaths accepts the arguments, the root paths are the arguments in order, each is a
-- directory at the first lstat of it, and no two of them are the same object of the file system at
-- the second.
pub copy_root_dir_paths-Roots :
    (args : List Argument) (rs : List (Option (List ℕ)))
    → copy_root_dir_paths args ≡ some rs
    → (rs ≡ names args) × Roots args
unfolding copy_root_dir_paths
copy_root_dir_paths-Roots args rs h = elim (Bool-cases (all_directories args)) [
  | inr other ↦ absurd (let k = rw other at h in cc)
  | inl all ↦ let c = copy_loop-some [] args rs all (rw all at h) in (c.0, c.2)
]
