-- ===== src/Db/Ops/Traverse/Grown.antt =====
-- The records of an index file to which one is appended.
use my_file.Prelude.{
  ℕ, ◌+◌, ◌≤◌, ◌≡◌, refl, ◌∙◌, inr, Bool, true, false, List, [], ◌∷◌, ◌++◌, arith, if◌then◌else◌,
  length, length-append, sym,
}
use mathlib.Core.Path.{subst}
use my_file.CLib.Files.{
  HasAt, write_at, read_at-write_at, HasAt-write_end, HasAt-write_apart, length-write_at,
  length-write_at_end,
}
use my_file.Db.Records.{newline}
use my_file.Db.Records.Parse.{Fits, entry_text, length-entry_text}
use my_file.Db.Search.Chain.{Row, data_text, row_key}
use my_file.Db.Ops.Traverse.{HasData, Scan, is_deleted, live_records}

HasData-write_end :
    (dat bs : List ℕ) (r : Row) → HasData dat r → HasData (write_at dat (length dat) bs) r
HasData-write_end dat bs r d = record {
  in_dat =
      HasAt-write_end dat bs r.entry.datoff (data_text r) d.in_dat
        (omega (arith, length-append r.text (newline ∷ [])));
  datlen = d.datlen;
  no_null = d.no_null;
}

-- An appended record comes behind the others.
pub Scan-write_end :
    (idx dat bs : List ℕ) (off : ℕ) (rows : List Row) (r : Row)
    → Scan idx dat off rows
    → r.at ≡ length idx
    → Fits r.entry
    → HasData (write_at dat (length dat) bs) r
    → Scan
        (write_at idx (length idx) (entry_text r.entry))
        (write_at dat (length dat) bs)
        off
        (rows ++ (r ∷ []))
Scan-write_end idx dat bs off [] r end here fits d =
    let at : off ≡ length idx = end in
    (
      at ∙ sym here,
      fits,
      subst (λ p. HasAt (write_at idx (length idx) (entry_text r.entry)) p (entry_text r.entry))
          (sym at) (read_at-write_at idx (length idx) (entry_text r.entry)),
      (λ live. d),
      omega (arith, length-write_at_end idx (entry_text r.entry)),
    )
Scan-write_end idx dat bs off (q ∷ rows) r (here', fits', at, kept, c) here fits d = (
  here',
  fits',
  HasAt-write_end idx (entry_text r.entry) off (entry_text q.entry) at
      (omega (arith, length-entry_text q.entry fits')),
  (λ live. HasData-write_end dat bs q (kept live)),
  Scan-write_end idx dat bs (off + length (entry_text q.entry)) rows r c here fits d,
)

-- A write in front of the records changes none.
pub Scan-write_front :
    (idx dat : List ℕ) (at : ℕ) (bs : List ℕ) (off : ℕ) (rows : List Row)
    → Scan idx dat off rows
    → at + length bs ≤ off
    → at + length bs ≤ length idx
    → Scan (write_at idx at bs) dat off rows
Scan-write_front idx dat at bs off [] end apart inside =
    let e : off ≡ length idx = end in e ∙ sym (length-write_at idx at bs inside)
Scan-write_front idx dat at bs off (q ∷ rows) (here, fits, has, kept, c) apart inside = (
  here,
  fits,
  HasAt-write_apart idx at bs off (entry_text q.entry) has (omega arith) (inr apart),
  kept,
  Scan-write_front idx dat at bs (off + length (entry_text q.entry)) rows c (omega arith) inside,
)

when_deleted :
    (b : Bool) (x : List ℕ × List ℕ) (xs : List (List ℕ × List ℕ)) (y : List ℕ × List ℕ)
    → (if b then xs ++ (y ∷ []) else x ∷ (xs ++ (y ∷ []))) ≡ (if b then xs else x ∷ xs) ++ (y ∷ [])
when_deleted true x xs y = refl
when_deleted false x xs y = refl

-- A new record that is not deleted comes last.
pub live_records-append :
    (rows : List Row) (r : Row)
    → is_deleted (row_key r) ≡ false
    → live_records (rows ++ (r ∷ [])) ≡ live_records rows ++ ((row_key r, r.text) ∷ [])
live_records-append [] r live = rw live refl
live_records-append (q ∷ rows) r live = rw (live_records-append rows r live) (
    when_deleted (is_deleted (row_key q)) (row_key q, q.text) (live_records rows)
      (row_key r, r.text))
