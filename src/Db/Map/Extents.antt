-- ===== src/Db/Map/Extents.antt =====
-- Where records stand in the two files, and lists of places that do not overlap.
use my_file.Prelude.{
  ℕ, ◌≤◌, ◌≡◌, ◌≢◌, ◌⊎◌, inl, inr, refl, ◌∙◌, sym, List, [], ◌∷◌, arith, ==-refl, Bool-cases, ◌==◌,
  if◌then◌else◌,
}

-- the bytes of a record in the index file and of its data
pub record Extent : Type 0 where
  pub from : ℕ
  pub till : ℕ
  pub dat_from : ℕ
  pub dat_till : ℕ

pub record Apart (e f : Extent) : Type 0 where
  pub in_idx : (e.till ≤ f.from) ⊎ (f.till ≤ e.from)
  pub in_dat : (e.dat_till ≤ f.dat_from) ⊎ (f.dat_till ≤ e.dat_from)

abbrev pub AllApart : Extent → List Extent → Type 0
AllApart e [] = Unit {0}
AllApart e (f ∷ fs) = Apart e f × AllApart e fs

abbrev pub Spread : List Extent → Type 0
Spread [] = Unit {0}
Spread (e ∷ es) = AllApart e es × Spread es

abbrev pub Across : List Extent → List Extent → Type 0
Across [] fs = Unit {0}
Across (e ∷ es) fs = AllApart e fs × Across es fs

-- The second list is the first one without one occurrence of the place.
pub data Extract (e : Extent) : List Extent → List Extent → Type 0 where
  here : {es : List Extent} → Extract e (e ∷ es) es
  there : {f : Extent} {es fs : List Extent} → Extract e es fs → Extract e (f ∷ es) (f ∷ fs)

pub Apart-sym : {e f : Extent} → Apart e f → Apart f e
Apart-sym a = record {
  in_idx = elim a.in_idx [ inl h ↦ inr h | inr h ↦ inl h ];
  in_dat = elim a.in_dat [ inl h ↦ inr h | inr h ↦ inl h ];
}

pub AllApart-Extract :
    {e f : Extent} {es fs : List Extent}
    → Extract e es fs
    → AllApart f es
    → Apart f e × AllApart f fs
AllApart-Extract here a = a
AllApart-Extract (there x) a = let r = AllApart-Extract x a.1 in (r.0, (a.0, r.1))

Spread-Extract :
    {e : Extent} {es fs : List Extent} → Extract e es fs → Spread es → AllApart e fs × Spread fs
Spread-Extract here s = s
Spread-Extract (there x) s =
    let r = Spread-Extract x s.1 in
    let a = AllApart-Extract x s.0 in ((Apart-sym a.0, r.0), (a.1, r.1))

-- The place taken out of the first list is apart from the second, as is what is left.
pub Across-Extract :
    {e : Extent} {es fs : List Extent} (gs : List Extent)
    → Extract e es fs
    → Across es gs
    → AllApart e gs × Across fs gs
Across-Extract gs here a = a
Across-Extract gs (there x) a = let r = Across-Extract gs x a.1 in (r.0, (a.0, r.1))

Across-Extract_right :
    {e : Extent} {es fs : List Extent} (gs : List Extent)
    → Extract e es fs
    → Across gs es
    → Across gs fs
Across-Extract_right [] x a = tt
Across-Extract_right (g ∷ gs) x a = ((AllApart-Extract x a.0).1, Across-Extract_right gs x a.1)

Across-cons_right :
    (e : Extent) (es gs : List Extent) → AllApart e gs → Across gs es → Across gs (e ∷ es)
Across-cons_right e es [] a x = tt
Across-cons_right e es (g ∷ gs) a x = ((Apart-sym a.0, x.0), Across-cons_right e es gs a.1 x.1)

-- another list in the place `o` of a family
abbrev pub put : {A : Type 0} → (ℕ → List A) → ℕ → List A → ℕ → List A
put f o l i = if i == o then l else f i

pub put_cases :
    {A : Type 0}
    → (P : List A → Type 0) (f : ℕ → List A) (o : ℕ) (l : List A) (i : ℕ) → (i ≡ o → P l)
    → (i ≢ o → P (f i))
    → P (put f o l i)
put_cases P f o l i hit miss = elim (Bool-cases (i == o)) [
  | inl e ↦ let same : i ≡ o = ground arith in rw e (hit same)
  | inr e ↦ let other : i ≢ o = ground arith in rw e (miss other)
]

pub put_same : {A : Type 0} → (f : ℕ → List A) (o : ℕ) (l : List A) → put f o l o ≡ l
put_same f o l = rw (==-refl o) refl

pub put_other :
    {A : Type 0} → (f : ℕ → List A) (o : ℕ) (l : List A) (i : ℕ) → i ≢ o → put f o l i ≡ f i
put_other f o l i ne = put_cases (λ x. x ≡ f i) f o l i (λ e. absurd (ne e)) (λ _. refl)

-- No two places of the lists overlap.
pub record Disjoint (f : ℕ → List Extent) : Type 0 where
  pub spread : (o : ℕ) → Spread (f o)
  pub across : (o p : ℕ) → o ≢ p → Across (f o) (f p)

module _ (f : ℕ → List Extent) (d : Disjoint f) where
  -- A new place in front of a list.
  pub Disjoint-add :
      (o : ℕ) (e : Extent) → ((p : ℕ) → AllApart e (f p)) → Disjoint (put f o (e ∷ f o))
  Disjoint-add o e a = record {
    spread = λ p. put_cases Spread f o (e ∷ f o) p (λ _. (a o, d.spread o)) (λ _. d.spread p);
    across = λ p q ne.
        put_cases (λ l. Across l (put f o (e ∷ f o) q)) f o (e ∷ f o) p
          (λ i.
            rw (put_other f o (e ∷ f o) q (λ j. ne (i ∙ sym j)))
              (a q, d.across o q (λ j. ne (i ∙ j))))
          (λ i.
            put_cases (λ l. Across (f p) l) f o (e ∷ f o) q
              (λ j. Across-cons_right e (f o) (f p) (a p) (d.across p o i)) (λ j. d.across p q ne));
  }

  pub Disjoint-drop :
      (o : ℕ) (e : Extent) (fs : List Extent)
      → Extract e (f o) fs
      → Disjoint (put f o fs) × ((p : ℕ) → AllApart e (put f o fs p))
  Disjoint-drop o e fs x = (
    record {
      spread =
          λ p. put_cases Spread f o fs p (λ _. (Spread-Extract x (d.spread o)).1) (λ _. d.spread p);
      across = λ p q ne.
          put_cases (λ l. Across l (put f o fs q)) f o fs p
            (λ i.
              rw (put_other f o fs q (λ j. ne (i ∙ sym j)))
                ((Across-Extract (f q) x (d.across o q (λ j. ne (i ∙ j)))).1))
            (λ i.
              put_cases (λ l. Across (f p) l) f o fs q
                (λ j. Across-Extract_right (f p) x (d.across p o i)) (λ j. d.across p q ne));
    },
    λ p.
        put_cases (AllApart e) f o fs p (λ _. (Spread-Extract x (d.spread o)).0)
          (λ i. (Across-Extract (f p) x (d.across o p (λ j. i (sym j)))).0),
  )
