-- ===== src/Db/Map/Views.antt =====
-- What the changes of a chain make of the records that its keys find.
use my_file.Prelude.{
  ℕ, ◌≤◌, ◌≡◌, inl, inr, refl, false, Option, none, some, List, [], ◌∷◌, arith, Bool-cases,
  bytes_eq, bytes_eq_refl, bytes_eq_sound,
}
use my_file.Db.Search.Chain.{Row, row_key, find_row}
use my_file.Db.Search.Unlink.{removed, removed_behind}
use my_file.Db.Ops.Fetch.{found_text}
use my_file.Db.Ops.Replace.{replaced, find_row-replaced}
use my_file.Db.Ops.DeleteFetch.{key_count, find_row-removed, other-removed}

-- The new chain finds `v` for the key, what the old one finds for another, and no key more often but
-- the one that was missing.
pub record Fresh (key : List ℕ) (v : Option (List ℕ)) (old new : List Row) : Type 0 where
  pub hit : found_text (find_row key new) ≡ v
  pub miss :
      (k : List ℕ)
      → bytes_eq key k ≡ false
      → found_text (find_row k new) ≡ found_text (find_row k old)
  pub count : (k : List ℕ) → key_count k old ≤ 1 → key_count k new ≤ 1

pub count-none :
    (key : List ℕ) (rows : List Row) → find_row key rows ≡ none → key_count key rows ≡ 0
count-none key [] h = refl
count-none key (q ∷ rows) h = elim (Bool-cases (bytes_eq (row_key q) key)) [
  | inl hit ↦ let e = rw hit at h in cc
  | inr miss ↦ rw miss (count-none key rows (rw miss at h))
]

pub count-some :
    (key : List ℕ) (rows : List Row) (r : Row)
    → find_row key rows ≡ some r
    → key_count key rows ≤ 1
    → key_count key rows ≡ 1
count-some key [] r h c = cc
count-some key (q ∷ rows) r h c = elim (Bool-cases (bytes_eq (row_key q) key)) [
  | inl hit ↦ let c' = rw hit at c in rw hit (omega arith)
  | inr miss ↦ rw miss (count-some key rows r (rw miss at h) (rw miss at c))
]

count-removed_behind :
    (key k : List ℕ) (q : Row) (rows : List Row)
    → key_count k (removed_behind key q rows) ≤ key_count k (q ∷ rows)
count-removed_behind key k q [] = omega arith
count-removed_behind key k q (p ∷ rows) =
    let rest = count-removed_behind key k p rows in
    elim (Bool-cases (bytes_eq (row_key p) key)) [
      | inl hit ↦ ground (arith, hit)
      | inr miss ↦ ground (arith, miss, rest)
    ]

count-removed :
    (key k : List ℕ) (rows : List Row) → key_count k (removed key rows) ≤ key_count k rows
count-removed key k [] = omega arith
count-removed key k (p ∷ rows) =
    let rest = count-removed_behind key k p rows in
    elim (Bool-cases (bytes_eq (row_key p) key)) [
      | inl hit ↦ ground (arith, hit)
      | inr miss ↦ rw miss rest
    ]

pub Fresh-removed :
    (key : List ℕ) (rows : List Row)
    → key_count key rows ≡ 1
    → Fresh key none rows (removed key rows)
Fresh-removed key rows once = record {
  hit = rw (find_row-removed key rows once) refl;
  miss = λ k ne. other-removed key k ne rows;
  count = λ k c. omega (arith, count-removed key k rows);
}

missing : (o : Option Row) → found_text o ≡ none → o ≡ none
missing none h = refl
missing (some r) h = cc

-- A record in front of a chain without its key.
pub Fresh-cons :
    (key : List ℕ) (old mid : List Row) (r : Row)
    → row_key r ≡ key
    → Fresh key none old mid
    → Fresh key (some r.text) old (r ∷ mid)
Fresh-cons key old mid r same f = record {
  hit = rw (same, bytes_eq_refl key) refl;
  miss = λ k ne. rw (same, ne) (f.miss k ne);
  count = λ k c. elim (Bool-cases (bytes_eq key k)) [
    | inl e ↦
        let k' : key ≡ k = bytes_eq_sound key k e in
        let gone = count-none key mid (missing (find_row key mid) f.hit) in
        let gone' : key_count k mid ≡ 0 = rw (← k') gone in rw (same, e) (omega (arith, gone'))
    | inr ne ↦ rw (same, ne) (f.count k c)
  ];
}

pub Fresh-absent :
    (key : List ℕ) (rows : List Row) → find_row key rows ≡ none → Fresh key none rows rows
Fresh-absent key rows h = record { hit = rw h refl; miss = λ k ne. refl; count = λ k c. c }

module _ (key text : List ℕ) where
  other-replaced :
      (k : List ℕ) (rows : List Row)
      → bytes_eq key k ≡ false
      → found_text (find_row k (replaced key text rows)) ≡ found_text (find_row k rows)
  other-replaced k [] ne = refl
  other-replaced k (q ∷ rows) ne = elim (Bool-cases (bytes_eq (row_key q) key)) [
    | inl hit ↦
        let skip : bytes_eq (row_key q) k ≡ false = rw (bytes_eq_sound (row_key q) key hit) ne in
        rw (hit, skip) refl
    | inr past ↦ elim (Bool-cases (bytes_eq (row_key q) k)) [
      | inl here ↦ rw (past, here) refl
      | inr on ↦ rw (past, on) (other-replaced k rows ne)
    ]
  ]

  count-replaced :
      (k : List ℕ) (rows : List Row) → key_count k (replaced key text rows) ≡ key_count k rows
  count-replaced k [] = refl
  count-replaced k (q ∷ rows) =
      let rest = count-replaced k rows in
      elim (Bool-cases (bytes_eq (row_key q) key)) [
        | inl hit ↦ rw hit refl
        | inr miss ↦ rw (miss, rest) refl
      ]

  pub Fresh-replaced :
      (rows : List Row) (r : Row)
      → find_row key rows ≡ some r
      → Fresh key (some text) rows (replaced key text rows)
  Fresh-replaced rows r h = record {
    hit = find_row-replaced key text rows r h;
    miss = λ k ne. other-replaced k rows ne;
    count = λ k c. rw (count-replaced k rows) c;
  }
