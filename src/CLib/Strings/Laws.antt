-- ===== src/CLib/Strings/Laws.antt =====
-- Strings that lack a byte, and what the functions on buffers make of them.
use my_file.Prelude.{
  ℕ, zero, suc, replicate, ◌≡◌, refl, ap, false, none, some, List, [], ◌∷◌, ◌++◌, ◌==◌, ==-refl,
}
use my_file.CLib.Strings.{cstr, cut_at, last_or, init}

-- no byte of the string is `c`
abbrev pub Lacks : ℕ → List ℕ → Type 0
Lacks c [] = Unit
Lacks c (x ∷ xs) = ((x == c) ≡ false) × Lacks c xs

pub Lacks-append : (c : ℕ) (xs ys : List ℕ) → Lacks c xs → Lacks c ys → Lacks c (xs ++ ys)
Lacks-append c [] ys h k = k
Lacks-append c (x ∷ xs) ys h k = (h.0, Lacks-append c xs ys h.1 k)

pub cstr-Lacks : (s : List ℕ) → Lacks 0 s → cstr s ≡ s
unfolding cstr
cstr-Lacks [] h = refl
cstr-Lacks (x ∷ xs) h = rw (h.0, cstr-Lacks xs h.1)

pub cut_at-append :
    (c : ℕ) (xs ys : List ℕ) → Lacks c xs → cut_at c (xs ++ (c ∷ ys)) ≡ some (xs, ys)
unfolding cut_at
cut_at-append c [] ys h = rw (==-refl c)
cut_at-append c (x ∷ xs) ys h = rw (h.0, cut_at-append c xs ys h.1)

pub cut_at-Lacks : (c : ℕ) (xs : List ℕ) → Lacks c xs → cut_at c xs ≡ none
unfolding cut_at
cut_at-Lacks c [] h = refl
cut_at-Lacks c (x ∷ xs) h = rw (h.0, cut_at-Lacks c xs h.1)

pub init-append : (xs : List ℕ) (c : ℕ) → init (xs ++ c ∷ []) ≡ xs
unfolding init
init-append [] c = refl
init-append (x ∷ []) c = refl
init-append (x ∷ (y ∷ xs)) c = ap (λ l. x ∷ l) (init-append (y ∷ xs) c)

pub last_or-append : (d : ℕ) (xs : List ℕ) (c : ℕ) → last_or d (xs ++ c ∷ []) ≡ c
unfolding last_or
last_or-append d [] c = refl
last_or-append d (x ∷ xs) c = last_or-append x xs c

pub Lacks-replicate : (c x n : ℕ) → (x == c) ≡ false → Lacks c (replicate n x)
Lacks-replicate c x zero h = tt
Lacks-replicate c x (suc n) h = (h, Lacks-replicate c x n h)
