-- ===== src/Db/Ops/Traverse.antt =====
-- `db_nextrec` on an index file that is a list of records.
pub mod Walk
pub mod Grown
use my_file.Prelude.{
  ℕ, zero, suc, ◌+◌, ◌*◌, ◌≤◌, ◌<◌, ◌≡◌, refl, sym, ap, ◌∙◌, inl, inr, Bool, true, false, Option,
  none, some, List, [], ◌∷◌, arith, ◌==◌, ==-refl, if◌then◌else◌, Bool-cases, length, replicate,
  bytes_eq, ◌&&◌, take, drop, pos, negsuc,
}
use mathlib.Core.Path.{subst}
use my_file.CLib.Files.{read_at, HasAt, HasAt-append_left, HasAt-append_right}
use my_file.CLib.Strings.Laws.{Lacks}
use my_file.Db.State.{
  Db, M, ◌>>=◌, pure, gets, shared, unlocked, relock, relock-relock, and_then, ◌>>◌, lock_idx, ok,
  Run, Returns, returns,
}
use my_file.Db.Pointers.{ptr_sz}
use my_file.Db.Records.{idxlen_sz, head_text, readidx, readdat, newline, space, records_start}
use my_file.Db.Records.Parse.{
  Entry, Fits, entry_text, body_text, loaded, read_head-text, length-head, length-entry_text,
}
use my_file.Db.Records.Data.{readdat-text}
use my_file.Db.Search.{free_off}
use my_file.Db.Search.Chain.{Row, row_key, data_text}
use my_file.Db.Ops.{all_blank, nextrec_loop, nextrec, rewind}

-- The key of a deleted record is as many blanks as it was long.
abbrev pub is_deleted : List ℕ → Bool
is_deleted key = bytes_eq key (replicate (length key) space)

and_if : (b c : Bool) → (b && c) ≡ (if b then c else false)
and_if true c = refl
and_if false c = refl

all_blank-is_deleted : (key : List ℕ) → all_blank key ≡ is_deleted key
unfolding all_blank
all_blank-is_deleted [] = refl
all_blank-is_deleted (c ∷ cs) = rw (all_blank-is_deleted cs) (and_if (c == space) (is_deleted cs))

-- the data of a record that is not deleted
pub record HasData (dat : List ℕ) (r : Row) : Type 0 where
  pub in_dat : HasAt dat r.entry.datoff (data_text r)
  pub datlen : r.entry.datlen ≡ suc (length r.text)
  pub no_null : Lacks 0 r.text

-- From the offset on the index file has these records and no more.
abbrev pub Scan : List ℕ → List ℕ → ℕ → List Row → Type 0
Scan idx dat off [] = off ≡ length idx
Scan idx dat off (r ∷ rows) =
    (off ≡ r.at)
    × Fits r.entry
    × HasAt idx off (entry_text r.entry)
    × (is_deleted (row_key r) ≡ false → HasData dat r)
    × Scan idx dat (off + length (entry_text r.entry)) rows

-- key and data of the records that are not deleted
abbrev pub live_records : List Row → List (List ℕ × List ℕ)
live_records [] = []
live_records (r ∷ rows) =
    let others = live_records rows in
    if is_deleted (row_key r) then others else (row_key r, r.text) ∷ others

abbrev pub first_of : List (List ℕ × List ℕ) → Option (List ℕ × List ℕ)
first_of [] = none
first_of (x ∷ xs) = some x

abbrev pub rest_of : List (List ℕ × List ℕ) → List (List ℕ × List ℕ)
rest_of [] = []
rest_of (x ∷ xs) = xs

readidx-next :
    (e : Entry) (s : Db)
    → Fits e
    → HasAt s.idx s.idxpos (entry_text e)
    → readidx (pos 0) s ≡ ok (pos e.ptr) (loaded s s.idxpos e)
unfolding readidx
readidx-next e s h at =
    let head : read_at s.idx s.idxpos (ptr_sz + idxlen_sz)
        ≡ head_text e.ptr (length (body_text e)) =
      rw (length-head e h) at (HasAt-append_left s.idx s.idxpos _ (body_text e) at) in
    let body : HasAt s.idx (s.idxpos + (ptr_sz + idxlen_sz)) (body_text e) =
      rw (length-head e h) at (HasAt-append_right s.idx s.idxpos _ (body_text e) at) in
    rw (head, length-head e h)
      (read_head-text e h (record s { idxpos = s.idxpos + (ptr_sz + idxlen_sz); idxoff = s.idxpos })
        body)

drop-length : (f : List ℕ) → drop (length f) f ≡ []
drop-length [] = refl
drop-length (x ∷ f) = drop-length f

readidx-end :
    (s : Db)
    → s.idxpos ≡ length s.idx
    → readidx (pos 0) s ≡ ok (negsuc 0) (record s { idxoff = s.idxpos; idxpos = s.idxpos + 0 })
unfolding readidx read_at
readidx-end s h =
    let got : read_at s.idx s.idxpos (ptr_sz + idxlen_sz) ≡ [] =
      ap (take (ptr_sz + idxlen_sz)) (ap (λ n. drop n s.idx) h ∙ drop-length s.idx) in
    rw got refl

-- what a call answers, and the records that are left
pub record NextIs (s : Db) (rows : List Row) (out : Option (List ℕ × List ℕ)) (t : Db)
    : Type 0 where
  pub out_eq : out ≡ first_of (live_records rows)
  pub idx : t.idx ≡ s.idx
  pub dat : t.dat ≡ s.dat
  pub nhash : t.nhash ≡ s.nhash
  pub idxlock : t.idxlock ≡ s.idxlock
  pub datlock : t.datlock ≡ s.datlock
  pub left :
      (rest : List Row) × (Scan t.idx t.dat t.idxpos rest
        × (live_records rest ≡ rest_of (live_records rows)))

-- the records behind one that was read
Scan-behind :
    (s : Db) (r : Row) (rows : List Row)
    → Fits r.entry
    → Scan s.idx s.dat (s.idxpos + length (entry_text r.entry)) rows
    → Scan s.idx s.dat (s.idxpos + (ptr_sz + idxlen_sz) + length (body_text r.entry)) rows
Scan-behind s r rows fits c =
    let off : s.idxpos + length (entry_text r.entry)
        ≡ s.idxpos + (ptr_sz + idxlen_sz) + length (body_text r.entry) =
      omega (arith, length-entry_text r.entry fits) in
    subst (λ p. Scan s.idx s.dat p rows) off c

NextIs-blank :
    (s : Db) (r : Row) (rows : List Row) (run : Run (Option (List ℕ × List ℕ)))
    → is_deleted (row_key r) ≡ true
    → Returns (λ out t. NextIs (loaded s s.idxpos r.entry) rows out t) run
    → Returns (λ out t. NextIs s (r ∷ rows) out t) run
unfolding all_blank
NextIs-blank s r rows run blank (returns n) = returns (record {
  out_eq = rw blank n.out_eq;
  idx = n.idx;
  dat = n.dat;
  nhash = n.nhash;
  idxlock = n.idxlock;
  datlock = n.datlock;
  left = rw blank n.left;
})

nextrec_loop-Scan :
    (fuel : ℕ) (s : Db) (rows : List Row)
    → Scan s.idx s.dat s.idxpos rows
    → length rows < fuel
    → Returns (λ out t. NextIs s rows out t) (nextrec_loop fuel s)
unfolding nextrec_loop all_blank
nextrec_loop-Scan zero s rows c h = absurd (omega arith)
nextrec_loop-Scan (suc fuel) s [] c h = rw (readidx-end s c) (
    returns (record {
      out_eq = refl;
      idx = refl;
      dat = refl;
      nhash = refl;
      idxlock = refl;
      datlock = refl;
      left = ([], (omega arith, refl));
    }))
nextrec_loop-Scan (suc fuel) s (r ∷ rows) (here, fits, at, kept, c) h =
    rw (readidx-next r.entry s fits at) (elim (Bool-cases (is_deleted (row_key r))) [
      | inl blank ↦ rw (all_blank-is_deleted (row_key r) ∙ blank) (
          NextIs-blank s r rows (nextrec_loop fuel (loaded s s.idxpos r.entry)) blank (
            nextrec_loop-Scan fuel (loaded s s.idxpos r.entry) rows (Scan-behind s r rows fits c)
              (omega arith)))
      | inr live ↦ rw (all_blank-is_deleted (row_key r) ∙ live) (
          let d = kept live in
          rw (readdat-text (loaded s s.idxpos r.entry) r.text d.in_dat d.datlen d.no_null) (
            returns (record {
              out_eq = rw live refl;
              idx = refl;
              dat = refl;
              nhash = refl;
              idxlock = refl;
              datlock = refl;
              left = rw live (rows, (Scan-behind s r rows fits c, refl));
            })))
    ])

-- Every record takes a byte at least, so one round more than the file has bytes is enough.
Scan-short :
    (idx dat : List ℕ) (off : ℕ) (rows : List Row)
    → Scan idx dat off rows
    → off + length rows ≤ length idx
Scan-short idx dat off [] c = let end : off ≡ length idx = c in omega arith
Scan-short idx dat off (r ∷ rows) (here, fits, at, kept, c) =
    let rest = Scan-short idx dat (off + length (entry_text r.entry)) rows c in
    omega (arith, length-entry_text r.entry fits)

-- what db_nextrec answers, and what it leaves
pub record Answered (s : Db) (rows : List Row) (out : Option (List ℕ × List ℕ)) (t : Db)
    : Type 0 where
  pub out_eq : out ≡ first_of (live_records rows)
  pub idx : t.idx ≡ s.idx
  pub dat : t.dat ≡ s.dat
  pub locks : (p : ℕ) → t.idxlock p ≡ (if p == free_off then unlocked else s.idxlock p)
  pub datlock : t.datlock ≡ s.datlock
  pub left :
      (rest : List Row) × (Scan t.idx t.dat t.idxpos rest
        × (live_records rest ≡ rest_of (live_records rows)))

abbrev locked_free : Db → Db
unfolding relock
locked_free s = record s { idxlock = relock s.idxlock free_off 1 shared }

NextIs-Answered :
    (s : Db) (rows : List Row) (run : Run (Option (List ℕ × List ℕ)))
    → Returns (λ out t. NextIs (locked_free s) rows out t) run
    → Returns
        (λ out t. Answered s rows out t)
        (and_then run (λ r. lock_idx free_off 1 unlocked >> pure r))
unfolding relock
NextIs-Answered s rows run (returns n) = returns (record {
  out_eq = n.out_eq;
  idx = n.idx;
  dat = n.dat;
  locks = λ p. rw n.idxlock (relock-relock s.idxlock free_off shared unlocked p);
  datlock = n.datlock;
  left = n.left;
})

pub nextrec-Scan :
    (s : Db) (rows : List Row)
    → Scan s.idx s.dat s.idxpos rows
    → Returns (λ out t. Answered s rows out t) (nextrec s)
unfolding nextrec locked_free
nextrec-Scan s rows c = NextIs-Answered s rows (nextrec_loop (suc (length s.idx)) (locked_free s)) (
    nextrec_loop-Scan (suc (length s.idx)) (locked_free s) rows c
      (omega (arith, Scan-short s.idx s.dat s.idxpos rows c)))
