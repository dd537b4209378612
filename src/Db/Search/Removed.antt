-- ===== src/Db/Search/Removed.antt =====
-- The chain that the last pointer of `_db_dodelete` leaves.
use my_file.Prelude.{
  ℕ, ◌+◌, ◌≤◌, ◌≡◌, inl, inr, ap, ◌∙◌, some, List, [], ◌∷◌, arith, Bool-cases, length, bytes_eq,
  pos,
}
use my_file.CLib.Numbers.{atol}
use my_file.Db.Pointers.RoundTrip.{ptr_at, ptr_at-write_at_self, read_at-write_at_ptr}
use my_file.Db.Pointers.{ptr_sz, ptr_max}
use my_file.Db.Search.{free_off}
use my_file.Db.Search.Chain.{Row, row_key, IsRow, Chain, find_row}
use my_file.Db.Search.Frame.{Behind}
use my_file.Db.Search.Unlink.{
  RowsApart, Separate, relink, removed_behind, removed, new_first, place, IsRow-relink,
}
use my_file.Db.Search.Erase.{
  ptr_at-erased, erased_idx, erased_dat, unlinked_idx, erased-IsRow, unlinked-IsRow,
  length-erased_idx,
}
use my_file.Db.Search.Relink.{
  Cross, beside-Clear, Clear, AllClear, AllApartFrom, AllRowsApart-sym, AllRowsApart-find,
  place-AllAt, row_within, ahead-Clear, AllClear-beside, AllClear-table, Clear-AllAt, within-AllAt,
  start-AllAt,
}

module _ {idx dat : List ℕ} {start : ℕ} (head : ℕ) {r : Row} (row : IsRow idx dat r)
    (head_le : head ≤ ptr_max) (at_le : r.at ≤ ptr_max) (back : start ≤ r.at)
    (room : free_off + ptr_sz ≤ start) where
  -- A chain apart from the record and from the pointer that is rewritten.
  pub unlinked-Chain :
      (at : ℕ)
      → at + ptr_sz ≤ length idx
      → (off : ℕ) (rows : List Row) → Chain idx dat off rows
      → Behind start rows
      → AllApartFrom r rows
      → AllClear at rows
      → Chain (unlinked_idx idx head r at) (erased_dat dat head r) off rows
  unlinked-Chain at inside off [] c b a k = c
  unlinked-Chain at inside off (q ∷ rows) c b a k = (
    c.0,
    unlinked-IsRow head row head_le at_le back room at inside q c.1 a.0 b.0 k.0,
    unlinked-Chain at inside q.entry.ptr rows c.2 b.1 a.1 k.1,
  )

  relink-IsRow :
      (q : Row)
      → IsRow idx dat q
      → RowsApart q r
      → start ≤ q.at
      → IsRow (unlinked_idx idx head r q.at) (erased_dat dat head r) (relink r.entry.ptr q)
  relink-IsRow q h a b =
      IsRow-relink (erased-IsRow head row head_le at_le back room q h a b) r.entry.ptr
        row.fits.ptr_le

  module _ (key : List ℕ) where
    -- The records behind the passed record `q`.
    removed_behind-Chain :
        (off : ℕ) (q : Row) (rows : List Row)
        → Chain idx dat off (q ∷ rows)
        → Behind start (q ∷ rows)
        → Separate (q ∷ rows)
        → find_row key rows ≡ some r
        → Chain
            (unlinked_idx idx head r (place key q.at rows))
            (erased_dat dat head r)
            off
            (removed_behind key q rows)
    removed_behind-Chain off q [] c b a found = cc
    removed_behind-Chain off q (p ∷ rows) c b a found =
        elim (Bool-cases (bytes_eq (row_key p) key)) [
          | inl hit ↦
              let same : p ≡ r = ground arith in
              let a1 = AllRowsApart-sym p rows a.1.0 in
              rw (hit, same)
                (
                  c.0,
                  relink-IsRow q c.1 (AllRowsApart-find key q r (p ∷ rows) a.0 found) b.0,
                  unlinked-Chain q.at (row_within c.1) r.entry.ptr rows (rw same at c.2.2) b.1.1
                      (rw same at a1) (AllClear-beside rows c.1 a.0.1),
                )
          | inr miss ↦
              let at : ℕ = place key p.at rows in
              let inside : at + ptr_sz ≤ length idx =
                place-AllAt (λ n. n + ptr_sz ≤ length idx) key p.at rows (row_within c.2.1)
                  (within-AllAt idx dat p.entry.ptr rows c.2.2) in
              let clear : Clear at q =
                place-AllAt (λ n. Clear n q) key p.at rows (ahead-Clear c.2.1 a.0.0)
                  (Clear-AllAt idx dat q p.entry.ptr rows c.2.2 a.0.1) in
              rw miss (
                c.0,
                unlinked-IsRow head row head_le at_le back room at inside q c.1
                    (AllRowsApart-find key q r (p ∷ rows) a.0 found) b.0 clear,
                removed_behind-Chain q.entry.ptr p rows c.2 b.1 a.1 (rw miss at found),
              )
        ]

    pub removed-Chain :
        (slot first : ℕ) (rows : List Row)
        → Chain idx dat first rows
        → Behind start rows
        → Separate rows
        → find_row key rows ≡ some r
        → slot + ptr_sz ≤ start
        → start ≤ length idx
        → Chain
            (unlinked_idx idx head r (place key slot rows))
            (erased_dat dat head r)
            (new_first key first rows)
            (removed key rows)
    removed-Chain slot first [] c b a found front size = cc
    removed-Chain slot first (q ∷ rows) c b a found front size =
        elim (Bool-cases (bytes_eq (row_key q) key)) [
          | inl hit ↦
              let same : q ≡ r = ground arith in
              let a0 = AllRowsApart-sym q rows a.0 in
              rw (hit, same)
                (unlinked-Chain slot (omega arith) r.entry.ptr rows (rw same at c.2) b.1
                  (rw same at a0) (AllClear-table slot start rows front b.1))
          | inr miss ↦ rw miss (removed_behind-Chain first q rows c b a (rw miss at found))
        ]

    -- The pointer of the chain itself.
    pub ptr_at-removed :
        (slot first : ℕ) (rows : List Row)
        → Chain idx dat first rows
        → Behind start rows
        → find_row key rows ≡ some r
        → free_off + ptr_sz ≤ slot
        → slot + ptr_sz ≤ start
        → ptr_at idx slot ≡ pos first
        → ptr_at (unlinked_idx idx head r (place key slot rows)) slot
          ≡ pos (new_first key first rows)
    ptr_at-removed slot first [] c b found past front here = cc
    ptr_at-removed slot first (q ∷ rows) c b found past front here =
        elim (Bool-cases (bytes_eq (row_key q) key)) [
          | inl hit ↦
              let same : q ≡ r = ground arith in
              rw (hit, same)
                (ptr_at-write_at_self (erased_idx idx head r) slot r.entry.ptr row.fits.ptr_le)
          | inr miss ↦
              let at : ℕ = place key q.at rows in
              let inside : at + ptr_sz ≤ length idx =
                place-AllAt (λ n. n + ptr_sz ≤ length idx) key q.at rows (row_within c.1)
                  (within-AllAt idx dat q.entry.ptr rows c.2) in
              let behind : start ≤ at =
                place-AllAt (λ n. start ≤ n) key q.at rows b.0 (start-AllAt start rows b.1) in
              rw miss (
                ap atol (
                  read_at-write_at_ptr (erased_idx idx head r) at r.entry.ptr slot ptr_sz
                    row.fits.ptr_le
                    (omega (arith, length-erased_idx head row head_le at_le back room))
                    (inl (omega arith)))
                ∙ (ptr_at-erased head row head_le at_le back room slot past front ∙ here))
        ]

    -- The pointer that is rewritten is not in the record itself.
    pub place-Clear :
        (slot off : ℕ) (rows : List Row)
        → Chain idx dat off rows
        → Separate rows
        → find_row key rows ≡ some r
        → Clear slot r
        → Clear (place key slot rows) r
    place-Clear slot off [] c a found k = cc
    place-Clear slot off (q ∷ rows) c a found k = elim (Bool-cases (bytes_eq (row_key q) key)) [
      | inl hit ↦ rw hit k
      | inr miss ↦
          let found' : find_row key rows ≡ some r = rw miss at found in
          rw miss (
            place-Clear q.at q.entry.ptr rows c.2 a.1 found'
              (beside-Clear c.1 (AllRowsApart-find key q r rows a.0 found')))
    ]

    -- Another chain, of records apart from those of this one.
    pub Cross-Chain :
        (slot first : ℕ) (rows : List Row)
        → Chain idx dat first rows
        → find_row key rows ≡ some r
        → slot + ptr_sz ≤ start
        → start ≤ length idx
        → (off : ℕ) (qs : List Row) → Chain idx dat off qs
        → Behind start qs
        → Cross qs rows
        → Chain (unlinked_idx idx head r (place key slot rows)) (erased_dat dat head r) off qs
    Cross-Chain slot first rows c found front size off [] d b x = d
    Cross-Chain slot first rows c found front size off (q ∷ qs) d b x =
        let at : ℕ = place key slot rows in
        let inside : at + ptr_sz ≤ length idx =
          place-AllAt (λ n. n + ptr_sz ≤ length idx) key slot rows (omega arith)
            (within-AllAt idx dat first rows c) in
        let clear : Clear at q =
          place-AllAt (λ n. Clear n q) key slot rows (inr (omega arith))
            (Clear-AllAt idx dat q first rows c x.0) in
        (
          d.0,
          unlinked-IsRow head row head_le at_le back room at inside q d.1
              (AllRowsApart-find key q r rows x.0 found) b.0 clear,
          Cross-Chain slot first rows c found front size q.entry.ptr qs d.2 b.1 x.1,
        )
