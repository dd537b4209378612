-- ===== src/Db/Search/Take.antt =====
-- The free list behind `_db_findfree`, which takes the first record of the sizes off it.
use my_file.Prelude.{
  ℕ, ◌+◌, ◌≤◌, ◌≡◌, inl, inr, ap, ◌∙◌, some, List, [], ◌∷◌, arith, if◌then◌else◌, Bool-cases,
  length, pos,
}
use mathlib.Core.Path.{subst}
use my_file.CLib.Numbers.{atol}
use my_file.CLib.Files.{write_at}
use my_file.Db.Pointers.{ptr_sz, ptr_max, ptr_text}
use my_file.Db.Pointers.RoundTrip.{
  ptr_at, length-ptr_text, ptr_at-write_at_self, read_at-write_at_ptr,
}
use my_file.Db.Search.Chain.{Row, IsRow, Chain}
use my_file.Db.Search.Frame.{Behind}
use my_file.Db.Search.Free.{sizes_fit, find_free}
use my_file.Db.Search.FindFree.{find_free-AllAt, find_free-IsRow}
use my_file.Db.Search.Unlink.{Separate, relink, IsRow-relink, IsRow-write_idx}
use my_file.Db.Search.Relink.{
  Clear, AllClear, AllClear-beside, AllClear-table, Clear-AllAt, within-AllAt, start-AllAt,
  row_within, ahead-Clear,
}

module _ (keylen datlen : ℕ) where
  -- the records behind `p`, which is passed, without the one that is taken
  abbrev pub taken_behind : Row → List Row → List Row
  taken_behind p [] = p ∷ []
  taken_behind p (r ∷ rows) =
      if sizes_fit keylen datlen r then relink r.entry.ptr p ∷ rows else p ∷ taken_behind r rows

  abbrev pub taken : List Row → List Row
  taken [] = []
  taken (r ∷ rows) = if sizes_fit keylen datlen r then rows else taken_behind r rows

  abbrev pub taken_first : ℕ → List Row → ℕ
  taken_first first [] = first
  taken_first first (r ∷ rows) = if sizes_fit keylen datlen r then r.entry.ptr else first

  module _ (idx dat : List ℕ) where
    pub IsRow-write_beside :
        (at n : ℕ) (q : Row)
        → n ≤ ptr_max
        → at + ptr_sz ≤ length idx
        → IsRow idx dat q
        → Clear at q
        → IsRow (write_at idx at (ptr_text n)) dat q
    IsRow-write_beside at n q small inside h k =
        IsRow-write_idx h at (ptr_text n) (omega arith) (elim k [
          | inl front ↦ inl front
          | inr behind ↦ inr (omega (arith, length-ptr_text n small))
        ])

    -- A pointer that is written beside the records changes none.
    pub Chain-write_beside :
        (at n : ℕ)
        → n ≤ ptr_max
        → at + ptr_sz ≤ length idx
        → (off : ℕ) (rows : List Row) → Chain idx dat off rows
        → AllClear at rows
        → Chain (write_at idx at (ptr_text n)) dat off rows
    Chain-write_beside at n small inside off [] c k = c
    Chain-write_beside at n small inside off (q ∷ rows) c k = (
      c.0,
      IsRow-write_beside at n q small inside c.1 k.0,
      Chain-write_beside at n small inside q.entry.ptr rows c.2 k.1,
    )

    taken_behind-Chain :
        (off : ℕ) (p : Row) (rows : List Row) (at : ℕ) (q : Row)
        → Chain idx dat off (p ∷ rows)
        → Separate (p ∷ rows)
        → find_free keylen datlen p.at rows ≡ some (at, q)
        → Chain (write_at idx at (ptr_text q.entry.ptr)) dat off (taken_behind p rows)
    taken_behind-Chain off p [] at q c a f = cc
    taken_behind-Chain off p (r ∷ rows) at q c a f = elim (Bool-cases (sizes_fit keylen datlen r)) [
      | inl hit ↦
          let same : r ≡ q = ground arith in
          let here : p.at ≡ at = ground arith in
          rw hit (
            subst
              (λ n.
                Chain (write_at idx n (ptr_text q.entry.ptr)) dat off (relink r.entry.ptr p ∷ rows))
              here
              (subst
                (λ e.
                  Chain (write_at idx p.at (ptr_text e.entry.ptr)) dat off
                    (relink r.entry.ptr p ∷ rows))
                same
                (
                  c.0,
                  IsRow-relink c.1 r.entry.ptr c.2.1.fits.ptr_le,
                  Chain-write_beside p.at r.entry.ptr c.2.1.fits.ptr_le (row_within c.1) r.entry.ptr
                      rows c.2.2 (AllClear-beside rows c.1 a.0.1),
                )))
      | inr miss ↦
          let f' : find_free keylen datlen r.at rows ≡ some (at, q) = rw miss at f in
          let inside : at + ptr_sz ≤ length idx =
            find_free-AllAt keylen datlen (λ n. n + ptr_sz ≤ length idx) r.at rows at q f'
              (row_within c.2.1) (within-AllAt idx dat r.entry.ptr rows c.2.2) in
          let clear : Clear at p =
            find_free-AllAt keylen datlen (λ n. Clear n p) r.at rows at q f'
              (ahead-Clear c.2.1 a.0.0) (Clear-AllAt idx dat p r.entry.ptr rows c.2.2 a.0.1) in
          let small =
            (find_free-IsRow keylen datlen idx dat r.entry.ptr r.at rows at q c.2.2
              f').fits.ptr_le in
          rw miss (
            c.0,
            IsRow-write_beside at q.entry.ptr p small inside c.1 clear,
            taken_behind-Chain p.entry.ptr r rows at q c.2 a.1 f',
          )
    ]

    pub taken-Chain :
        (start slot head : ℕ) (rows : List Row) (at : ℕ) (q : Row)
        → Chain idx dat head rows
        → Behind start rows
        → Separate rows
        → slot + ptr_sz ≤ start
        → start ≤ length idx
        → find_free keylen datlen slot rows ≡ some (at, q)
        → Chain (write_at idx at (ptr_text q.entry.ptr)) dat (taken_first head rows) (taken rows)
    taken-Chain start slot head [] at q c b a front size f = cc
    taken-Chain start slot head (r ∷ rows) at q c b a front size f =
        elim (Bool-cases (sizes_fit keylen datlen r)) [
          | inl hit ↦
              let same : r ≡ q = ground arith in
              let here : slot ≡ at = ground arith in
              rw hit (
                subst (λ n. Chain (write_at idx n (ptr_text q.entry.ptr)) dat r.entry.ptr rows) here
                  (subst
                    (λ e. Chain (write_at idx slot (ptr_text e.entry.ptr)) dat r.entry.ptr rows)
                    same
                    (Chain-write_beside slot r.entry.ptr c.1.fits.ptr_le (omega arith) r.entry.ptr
                      rows c.2 (AllClear-table slot start rows front b.1))))
          | inr miss ↦ rw miss (taken_behind-Chain head r rows at q c a (rw miss at f))
        ]

    pub ptr_at-taken :
        (start slot head : ℕ) (rows : List Row) (at : ℕ) (q : Row)
        → Chain idx dat head rows
        → Behind start rows
        → slot + ptr_sz ≤ start
        → ptr_at idx slot ≡ pos head
        → find_free keylen datlen slot rows ≡ some (at, q)
        → ptr_at (write_at idx at (ptr_text q.entry.ptr)) slot ≡ pos (taken_first head rows)
    ptr_at-taken start slot head [] at q c b front here f = cc
    ptr_at-taken start slot head (r ∷ rows) at q c b front here f =
        elim (Bool-cases (sizes_fit keylen datlen r)) [
          | inl hit ↦
              let same : r ≡ q = ground arith in
              let place : slot ≡ at = ground arith in
              rw hit (
                subst (λ n. ptr_at (write_at idx n (ptr_text q.entry.ptr)) slot ≡ pos r.entry.ptr)
                  place
                  (subst
                    (λ e. ptr_at (write_at idx slot (ptr_text e.entry.ptr)) slot ≡ pos r.entry.ptr)
                    same (ptr_at-write_at_self idx slot r.entry.ptr c.1.fits.ptr_le)))
          | inr miss ↦
              let f' : find_free keylen datlen r.at rows ≡ some (at, q) = rw miss at f in
              let inside : at + ptr_sz ≤ length idx =
                find_free-AllAt keylen datlen (λ n. n + ptr_sz ≤ length idx) r.at rows at q f'
                  (row_within c.1) (within-AllAt idx dat r.entry.ptr rows c.2) in
              let behind : start ≤ at =
                find_free-AllAt keylen datlen (λ n. start ≤ n) r.at rows at q f' b.0
                  (start-AllAt start rows b.1) in
              let small =
                (find_free-IsRow keylen datlen idx dat r.entry.ptr r.at rows at q c.2
                  f').fits.ptr_le in
              rw miss (
                ap atol (
                  read_at-write_at_ptr idx at q.entry.ptr slot ptr_sz small inside
                    (inl (omega arith)))
                ∙ here)
        ]

    pub taken_first_le :
        (head : ℕ) (rows : List Row)
        → Chain idx dat head rows
        → head ≤ ptr_max
        → taken_first head rows ≤ ptr_max
    taken_first_le head [] c h = h
    taken_first_le head (r ∷ rows) c h = elim (Bool-cases (sizes_fit keylen datlen r)) [
      | inl hit ↦ rw hit c.1.fits.ptr_le
      | inr miss ↦ rw miss h
    ]
