-- ===== src/Db/Search/Took.antt =====
-- `_db_findfree` where the free list has a record of the sizes.
use my_file.Prelude.{ℕ, suc, ◌≤◌, ◌≡◌, ap, ◌∙◌, true, some, List, arith, length, pos}
use my_file.CLib.Files.{write_at}
use my_file.Db.State.{Db, exclusive, unlocked, relock, ok, and_then, pure}
use my_file.Db.Pointers.{writeptr, ptr_max, ptr_text}
use my_file.Db.Pointers.RoundTrip.{readptr-inside, writeptr-in_range, with_ptr}
use my_file.Db.Search.{free_off, findfree, take_free}
use my_file.Db.Search.Chain.{Row}
use my_file.Db.Search.Frame.{Chained}
use my_file.Db.Search.Free.{
  find_free, free_walked, at_free, findfree_loop-Chain, free_walked-SameFiles,
}
use my_file.Db.Search.FindFree.{find_free-IsRow, free_walked-IsCurrent}

-- The record is off the free list, and the current one.
pub record Took (s : Db) (at : ℕ) (q : Row) (t : Db) : Type 0 where
  pub idx : t.idx ≡ write_at s.idx at (ptr_text q.entry.ptr)
  pub dat : t.dat ≡ s.dat
  pub chainoff : t.chainoff ≡ s.chainoff
  pub hashoff : t.hashoff ≡ s.hashoff
  pub nhash : t.nhash ≡ s.nhash
  pub idxoff : t.idxoff ≡ q.at
  pub datoff : t.datoff ≡ q.entry.datoff

take_free-run :
    (s : Db) (at n : ℕ)
    → n ≤ ptr_max
    → s.ptrval ≡ pos n
    → take_free (some at) s ≡ ok true (with_ptr s at n)
take_free-run s at n small e =
    ap (λ v. and_then (writeptr at v s) (λ _. pure true)) e ∙ rw (writeptr-in_range s at n small)

pub findfree-Took :
    (s : Db) (keylen datlen : ℕ) {start head : ℕ} {frees : List Row} (at : ℕ) (q : Row)
    → Chained s.idx s.dat start free_off head frees
    → find_free keylen datlen free_off frees ≡ some (at, q)
    → (t : Db) × (findfree keylen datlen s ≡ ok true t) × Took s at q t
unfolding findfree
findfree-Took s keylen datlen {head = head} {frees = frees} at q c found =
    let locked : Db = record s { idxlock = relock s.idxlock free_off 1 exclusive } in
    let end = free_walked keylen datlen (at_free s) frees in
    let same = free_walked-SameFiles keylen datlen (at_free s) frees in
    let cur = free_walked-IsCurrent keylen datlen (at_free s) free_off frees at q found in
    let row = find_free-IsRow keylen datlen s.idx s.dat head free_off frees at q c.chain found in
    let t = with_ptr end at q.entry.ptr in
    (
      record t { idxlock = relock t.idxlock free_off 1 unlocked },
      rw (
        readptr-inside locked free_off (let a = c.slot_in in let b = c.start_in in omega arith),
        c.slot_ptr,
        findfree_loop-Chain keylen datlen (suc (length s.idx)) free_off head (at_free s) frees
            c.chain (let n = c.short in omega arith),
        found,
        take_free-run end at q.entry.ptr row.fits.ptr_le cur.ptrval,
      ),
      record {
        idx = ap (λ i. write_at i at (ptr_text q.entry.ptr)) same.idx;
        dat = same.dat;
        chainoff = same.chainoff;
        hashoff = same.hashoff;
        nhash = same.nhash;
        idxoff = cur.idxoff;
        datoff = cur.datoff;
      },
    )
