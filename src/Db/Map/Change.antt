-- ===== src/Db/Map/Change.antt =====
-- A database in which the chain of a key and the free list have changed.
use my_file.Prelude.{
  ℕ, ◌≤◌, ◌≡◌, ◌≢◌, ◌⊎◌, inl, inr, refl, ap, ◌∙◌, sym, Option, List, [], arith, if◌then◌else◌,
  Bool-cases, bytes_eq, bytes_eq_sound,
}
use mathlib.Core.Path.{subst, fun_ext}
use my_file.Db.State.{Db}
use my_file.Db.Hash.{chain_offset}
use my_file.Db.Search.{free_off}
use my_file.Db.Search.Chain.{Row, find_row}
use my_file.Db.Search.Frame.{Chained}
use my_file.Db.Ops.Fetch.{found_text}
use my_file.Db.Ops.Delete.{slot_past}
use my_file.Db.Ops.DeleteFetch.{key_count}
use my_file.Db.Map.Extents.{Extent, Disjoint, put, put_cases, put_same, put_other}
use my_file.Db.Map.Places.{exts}
use my_file.Db.Map.State.{Contents, with_key, IsHead, IsDb, view, Holds}
use my_file.Db.Map.Views.{Fresh}

pub Disjoint-ext : {f g : ℕ → List Extent} → ((o : ℕ) → f o ≡ g o) → Disjoint f → Disjoint g
Disjoint-ext e d = subst Disjoint (fun_ext e) d

module _ (s : Db) {start : ℕ} {rows : ℕ → List Row} (d : IsDb s start rows) (key : List ℕ)
    (l frees : List Row) where
  abbrev slot : ℕ
  slot = chain_offset s.nhash s.hashoff key

  -- the chain of the key is `l`, and the free list `frees`
  abbrev pub changed : ℕ → List Row
  changed = put (put rows slot l) free_off frees

  slot_free : slot ≢ free_off
  slot_free e = omega (arith, e, slot_past s key d.past d.slots)

  pub changed_cases :
      (P : ℕ → List Row → Type 0)
      → P slot l
      → P free_off frees
      → ((o : ℕ) → o ≢ slot → o ≢ free_off → P o (rows o))
      → (o : ℕ) → P o (changed o)
  changed_cases P here free other o =
      put_cases (P o) (put rows slot l) free_off frees o (λ e. subst (λ i. P i frees) (sym e) free)
        (λ f.
          put_cases (P o) rows slot l o (λ e. subst (λ i. P i l) (sym e) here) (λ e. other o e f))

  pub changed_here : changed slot ≡ l
  changed_here = put_other (put rows slot l) free_off frees slot slot_free ∙ put_same rows slot l

  pub changed_free : changed free_off ≡ frees
  changed_free = put_same (put rows slot l) free_off frees

  pub changed_other : (o : ℕ) → o ≢ slot → o ≢ free_off → changed o ≡ rows o
  changed_other o ne nf =
      put_other (put rows slot l) free_off frees o nf ∙ put_other rows slot l o ne

  abbrev places : ℕ → List Extent
  places o = exts (rows o)

  -- The places change first at the slot.
  pub Disjoint-slot_free :
      (x y : List Extent)
      → x ≡ exts l
      → y ≡ exts frees
      → Disjoint (put (put places slot x) free_off y)
      → Disjoint (λ o. exts (changed o))
  Disjoint-slot_free x y e f d =
      Disjoint-ext
        (changed_cases (λ o z. put (put places slot x) free_off y o ≡ exts z)
          (put_other (put places slot x) free_off y slot slot_free ∙ (put_same places slot x ∙ e))
          (put_same (put places slot x) free_off y ∙ f)
          (λ o ne nf. put_other (put places slot x) free_off y o nf ∙ put_other places slot x o ne))
        d

  pub Disjoint-free_slot :
      (x y : List Extent)
      → x ≡ exts l
      → y ≡ exts frees
      → Disjoint (put (put places free_off y) slot x)
      → Disjoint (λ o. exts (changed o))
  Disjoint-free_slot x y e f d =
      Disjoint-ext
        (changed_cases (λ o z. put (put places free_off y) slot x o ≡ exts z)
          (put_same (put places free_off y) slot x ∙ e)
          (put_other (put places free_off y) slot x free_off (λ i. slot_free (sym i))
            ∙ (put_same places free_off y ∙ f))
          (λ o ne nf.
            put_other (put places free_off y) slot x o ne ∙ put_other places free_off y o nf))
        d

  -- The places change at the slot alone.
  pub Disjoint-slot :
      (x : List Extent)
      → x ≡ exts l
      → frees ≡ rows free_off
      → Disjoint (put places slot x)
      → Disjoint (λ o. exts (changed o))
  Disjoint-slot x e f d =
      Disjoint-ext
        (changed_cases (λ o z. put places slot x o ≡ exts z) (put_same places slot x ∙ e)
          (put_other places slot x free_off (λ i. slot_free (sym i)) ∙ ap exts (sym f))
          (λ o ne nf. put_other places slot x o ne))
        d

  module _ (t : Db) (n : t.nhash ≡ s.nhash) (h : t.hashoff ≡ s.hashoff)
      (here : (first : ℕ) × Chained t.idx t.dat start slot first l)
      (free : (first : ℕ) × Chained t.idx t.dat start free_off first frees)
      (others : (o : ℕ)
        → IsHead s.nhash s.hashoff o
        → o ≢ slot
        → o ≢ free_off
        → (first : ℕ) × Chained t.idx t.dat start o first (rows o))
      (apart : Disjoint (λ o. exts (changed o))) (v : Option (List ℕ))
      (fresh : Fresh key v (rows slot) l) where
    once_cases : (k : List ℕ) → key_count k (changed (chain_offset s.nhash s.hashoff k)) ≤ 1
    once_cases k =
        changed_cases (λ o x. o ≡ chain_offset s.nhash s.hashoff k → key_count k x ≤ 1)
          (λ e. fresh.count k (subst (λ i. key_count k (rows i) ≤ 1) (sym e) (d.once k)))
          (λ e. absurd (omega (arith, sym e, slot_past s k d.past d.slots)))
          (λ o _ _ e. subst (λ i. key_count k (rows i) ≤ 1) (sym e) (d.once k))
          (chain_offset s.nhash s.hashoff k) refl

    IsDb-changed : IsDb t start changed
    IsDb-changed = record {
      past = rw h d.past;
      slots = rw n d.slots;
      chains =
          rw (n, h)
            (changed_cases
              (λ o x.
                IsHead s.nhash s.hashoff o → (first : ℕ) × Chained t.idx t.dat start o first x)
              (λ _. here) (λ _. free) (λ o e f i. others o i e f));
      elsewhere =
          rw (n, h)
            (changed_cases (λ o x. IsHead s.nhash s.hashoff o ⊎ (x ≡ [])) (inl (inr (key, refl)))
              (inl (inl refl)) (λ o e f. d.elsewhere o));
      apart = apart;
      once = rw (n, h) once_cases;
    }

    view-changed : (k : List ℕ) → view t changed k ≡ with_key key v (view s rows) k
    view-changed k =
        rw (n, h)
          (elim (Bool-cases (bytes_eq key k)) [
            | inl e ↦
                let same : k ≡ key = sym (bytes_eq_sound key k e) in
                rw e (
                  subst
                    (λ j. found_text (find_row j (changed (chain_offset s.nhash s.hashoff j))) ≡ v)
                    (sym same) (ap (λ x. found_text (find_row key x)) changed_here ∙ fresh.hit))
            | inr e ↦ rw e (
                changed_cases
                  (λ o x.
                    o ≡ chain_offset s.nhash s.hashoff k
                    → found_text (find_row k x) ≡ found_text (find_row k (rows o)))
                  (λ _. fresh.miss k e)
                  (λ i. absurd (omega (arith, sym i, slot_past s k d.past d.slots)))
                  (λ o _ _ _. refl) (chain_offset s.nhash s.hashoff k) refl)
          ])

    pub Holds-changed :
        (m : Contents) → ((k : List ℕ) → view s rows k ≡ m k) → Holds t start (with_key key v m)
    Holds-changed m same = record {
      rows = changed;
      is_db = IsDb-changed;
      agrees = λ k. view-changed k ∙ ap (λ x. if bytes_eq key k then v else x) (same k);
    }
