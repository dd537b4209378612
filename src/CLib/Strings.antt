-- ===== src/CLib/Strings.antt =====
-- C strings in buffers, as the bytes in front of the terminating null byte.
pub mod Laws
use my_file.Prelude.{ℕ, Option, none, some, List, [], ◌∷◌, ◌==◌, if◌then◌else◌}

-- the string that a buffer holds
unfoldable pub cstr : List ℕ → List ℕ
cstr [] = []
cstr (c ∷ cs) = let more = c ∷ cstr cs in if c == 0 then [] else more

-- A string cut at the first `c`, which `strchr` finds; `none` where it returns NULL.
unfoldable pub cut_at : ℕ → List ℕ → Option (List ℕ × List ℕ)
cut_at c [] = none
cut_at c (x ∷ xs) =
    let more : Option (List ℕ × List ℕ) = elim (cut_at c xs) [
      | none ↦ none
      | some (a, b) ↦ some (x ∷ a, b)
    ] in
    if x == c then some ([], xs) else more

-- the last byte of a buffer, `d` if it is empty
unfoldable pub last_or : ℕ → List ℕ → ℕ
last_or d [] = d
last_or d (x ∷ xs) = last_or x xs

-- a buffer less its last byte
unfoldable pub init : List ℕ → List ℕ
init [] = []
init (x ∷ []) = []
init (x ∷ (y ∷ xs)) = x ∷ init (y ∷ xs)
