-- ===== src/Dtree/State.antt =====
-- The watch cache and the root paths of inotify_dtree.c, what the kernel answers, and the monad of
-- the functions that may end the process.
use my_file.Prelude.{ℕ, Bool, Option, List}

-- A slot of the cache; a watch descriptor of -1 is none.
pub record Watch : Type 0 where
  pub wd : Option ℕ
  pub path : List ℕ

-- `wlCache`, `rootDirPaths` with none for a null pointer, `ignoreRootDirs`, `reinitCnt`, the number
-- of tree walks so far, and the two flags of the debugging options
pub record Tree : Type 0 where
  pub cache : List Watch
  pub roots : List (Option (List ℕ))
  pub ignored : ℕ
  pub reinits : ℕ
  pub walks : ℕ
  pub check_cache : Bool
  pub dump_cache : Bool

-- what `inotify_add_watch` gives
pub data Added : Type 0 where
  watching : ℕ → Added
  enoent refused : Added

-- an object that `nftw` visits, with what adding a watch for it gives if it is a directory
pub record Visit : Type 0 where
  pub pathname : List ℕ
  pub is_dir : Bool
  pub added : Added

-- The kernel: what the walk of that number through a tree visits, whether `inotify_rm_watch` of a
-- descriptor succeeds behind so many walks, and whether `lstat` of a path fails or finds a
-- directory then; with it the program's flag `abortOnCacheProblem`.
pub record World : Type 0 where
  pub visits : ℕ → List ℕ → List Visit
  pub removes : ℕ → ℕ → Bool
  pub is_directory : ℕ → List ℕ → Option Bool
  pub abort_on_problem : Bool

-- how the process ends, and `undefined` where a slot is used that was not set
pub data Exit : Type 0 where
  failure success no_roots_left aborted undefined : Exit

pub data Run (A : Type 0) : Type 0 where
  ok : A → Tree → Run A
  exits : Exit → Run A

abbrev pub M : Type 0 → Type 0
M A = Tree → Run A

module _ {A B : Type 0} where
  abbrev pub and_then : Run A → (A → M B) → Run B
  and_then (ok a t) k = k a t
  and_then (exits e) k = exits e

  infixl 5 ◌>>=◌ ◌>>◌
  abbrev pub ◌>>=◌ : M A → (A → M B) → M B
  m >>= k = λ t. and_then (m t) k

  abbrev pub ◌>>◌ : M A → M B → M B
  m >> n = m >>= λ _. n

abbrev pub pure : {A : Type 0} → A → M A
pure = ok

abbrev pub leave : {A : Type 0} → Exit → M A
leave e t = exits e

abbrev pub gets : {A : Type 0} → (Tree → A) → M A
gets f t = ok (f t) t

abbrev pub modify : (Tree → Tree) → M (Unit {0})
modify f t = ok tt (f t)
