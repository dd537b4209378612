-- ===== src/Db/Search/FindFree.antt =====
-- The free record that `_db_findfree` finds, and the pointer to it.
use my_file.Prelude.{ℕ, ◌≤◌, ◌≡◌, some, List, [], ◌∷◌, arith, true, refl, inl, inr, Bool-cases}
use my_file.Db.Pointers.{ptr_max}
use my_file.Db.Search.Chain.{Row, IsRow, IsCurrent, Chain}
use my_file.Db.Search.Frame.{Behind}
use my_file.Db.Search.Relink.{AllAt}
use my_file.Db.State.{Db}
use my_file.Db.Records.Parse.{loaded}
use my_file.Db.Search.Free.{sizes_fit, find_free, free_walked}

module _ (keylen datlen : ℕ) where
  -- The pointer to the record that is taken stands at the start or at one of the records.
  pub find_free-AllAt :
      (P : ℕ → Type 0) (save : ℕ) (rows : List Row) (at : ℕ) (q : Row)
      → find_free keylen datlen save rows ≡ some (at, q)
      → P save
      → AllAt P rows
      → P at
  find_free-AllAt P save [] at q f h a = cc
  find_free-AllAt P save (r ∷ rows) at q f h a = elim (Bool-cases (sizes_fit keylen datlen r)) [
    | inl hit ↦ let same : save ≡ at = ground arith in rw (← same) h
    | inr miss ↦ find_free-AllAt P r.at rows at q (rw miss at f) a.0 a.1
  ]

  -- A property that the records have is one of the record that is taken.
  pub find_free-IsRow :
      (idx dat : List ℕ) (off save : ℕ) (rows : List Row) (at : ℕ) (q : Row)
      → Chain idx dat off rows
      → find_free keylen datlen save rows ≡ some (at, q)
      → IsRow idx dat q
  find_free-IsRow idx dat off save [] at q c f = cc
  find_free-IsRow idx dat off save (r ∷ rows) at q c f =
      elim (Bool-cases (sizes_fit keylen datlen r)) [
        | inl hit ↦ let same : r ≡ q = ground arith in rw (← same) c.1
        | inr miss ↦ find_free-IsRow idx dat r.entry.ptr r.at rows at q c.2 (rw miss at f)
      ]

  pub find_free-sizes :
      (save : ℕ) (rows : List Row) (at : ℕ) (q : Row)
      → find_free keylen datlen save rows ≡ some (at, q)
      → sizes_fit keylen datlen q ≡ true
  find_free-sizes save [] at q f = cc
  find_free-sizes save (r ∷ rows) at q f = elim (Bool-cases (sizes_fit keylen datlen r)) [
    | inl hit ↦ let same : r ≡ q = ground arith in rw (← same) hit
    | inr miss ↦ find_free-sizes r.at rows at q (rw miss at f)
  ]

  pub find_free-at_le :
      (idx dat : List ℕ) (off save : ℕ) (rows : List Row) (at : ℕ) (q : Row)
      → Chain idx dat off rows
      → off ≤ ptr_max
      → find_free keylen datlen save rows ≡ some (at, q)
      → q.at ≤ ptr_max
  find_free-at_le idx dat off save [] at q c h f = cc
  find_free-at_le idx dat off save (r ∷ rows) at q c h f =
      elim (Bool-cases (sizes_fit keylen datlen r)) [
        | inl hit ↦ let same : r ≡ q = ground arith in rw (← same, ← c.0) h
        | inr miss ↦
            find_free-at_le idx dat r.entry.ptr r.at rows at q c.2 c.1.fits.ptr_le (rw miss at f)
      ]

  pub find_free-Behind :
      (start save : ℕ) (rows : List Row) (at : ℕ) (q : Row)
      → Behind start rows
      → find_free keylen datlen save rows ≡ some (at, q)
      → start ≤ q.at
  find_free-Behind start save [] at q b f = cc
  find_free-Behind start save (r ∷ rows) at q b f = elim (Bool-cases (sizes_fit keylen datlen r)) [
    | inl hit ↦ let same : r ≡ q = ground arith in rw (← same) b.0
    | inr miss ↦ find_free-Behind start r.at rows at q b.1 (rw miss at f)
  ]

  -- The walk leaves the record as the current one.
  pub free_walked-IsCurrent :
      (s : Db) (save : ℕ) (rows : List Row) (at : ℕ) (q : Row)
      → find_free keylen datlen save rows ≡ some (at, q)
      → IsCurrent (free_walked keylen datlen s rows) q
  free_walked-IsCurrent s save [] at q f = cc
  free_walked-IsCurrent s save (r ∷ rows) at q f = elim (Bool-cases (sizes_fit keylen datlen r)) [
    | inl hit ↦
        let same : r ≡ q = ground arith in
        rw (hit, same)
          (record { idxoff = refl; idxbuf = refl; datoff = refl; datlen = refl; ptrval = refl })
    | inr miss ↦
        rw miss (free_walked-IsCurrent (loaded s r.at r.entry) r.at rows at q (rw miss at f))
  ]
