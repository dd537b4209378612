-- ===== src/Db/Ops/Delete.antt =====
-- `db_delete` of a key that its hash chain has.
use my_file.Prelude.{
  ℕ, ◌+◌, ◌-◌, ◌≤◌, ◌<◌, ◌≡◌, inl, inr, refl, ap, ◌∙◌, true, some, List, [], ◌∷◌, arith, Bool-cases,
  length, replicate, bytes_eq, pos,
}
use my_file.CLib.Files.{write_at}
use my_file.Db.State.{modify, Db, exclusive, relock, Run, and_then, pure, ◌>>◌, Returns, returns}
use my_file.Db.Hash.{chain_offset, chain_offset_bounds}
use my_file.Db.Pointers.{ptr_text, ptr_sz, ptr_max}
use my_file.Db.Pointers.RoundTrip.{ptr_at, readptr-inside, writeptr-in_range, with_ptr, after_ptr}
use my_file.Db.Records.{space}
use my_file.Db.Records.Parse.{loaded, entry_text}
use my_file.Db.Records.Write.{with_data, with_entry, entry_of, writedat-set, writeidx-set}
use my_file.Db.Search.{free_off}
use my_file.Db.Search.Chain.{
  Row, row_key, IsRow, IsCurrent, find_row, walked, walked-SameStore, walked-IsCurrent,
}
use my_file.Db.Search.Frame.{Chained}
use my_file.Db.Search.Unlink.{Separate, place, blanked, blanked-Fits, blanked-datlen}
use my_file.Db.Search.Relink.{Cross}
use my_file.Db.Search.Erase.{erased_dat, unlinked_idx}
use my_file.Db.Search.Deleted.{found-IsRow, found_le}
use my_file.Db.Ops.{dodelete, delete, unlock_chain}
use my_file.Db.Ops.Fetch.{HashChain, at_slot, find_and_lock-HashChain}

-- the walk leaves `ptroff` at the pointer to the first record of the key
pub walked-place :
    (s : Db) (rows : List Row) (key : List ℕ) (r : Row)
    → find_row key rows ≡ some r
    → (walked s rows key).ptroff ≡ place key s.ptroff rows
walked-place s [] key r found = refl
walked-place s (q ∷ rows) key r found = elim (Bool-cases (bytes_eq (row_key q) key)) [
  | inl hit ↦ rw hit refl
  | inr miss ↦ rw miss (
      walked-place (record (loaded s q.at q.entry) { ptroff = q.at }) rows key r (rw miss at found))
]

-- What a deletion leaves of the two files.
pub record Erased (s : Db) (head : ℕ) (r : Row) (at : ℕ) (t : Db) : Type 0 where
  pub idx : t.idx ≡ unlinked_idx s.idx head r at
  pub dat : t.dat ≡ erased_dat s.dat head r
  pub nhash : t.nhash ≡ s.nhash
  pub hashoff : t.hashoff ≡ s.hashoff

module _ (s : Db) (head : ℕ) (r : Row) (row : IsRow s.idx s.dat r) (head_le : head ≤ ptr_max)
    (at_le : r.at ≤ ptr_max) (inside : free_off + ptr_sz ≤ length s.idx)
    (link : ptr_at s.idx free_off ≡ pos head) where
  pub dodelete-Erased :
      (u : Db) (at : ℕ)
      → u.idx ≡ s.idx
      → u.dat ≡ s.dat
      → u.nhash ≡ s.nhash
      → u.hashoff ≡ s.hashoff
      → IsCurrent u r
      → u.ptroff ≡ at
      → Returns (λ _ t. Erased s head r at t × (t.chainoff ≡ u.chainoff)) (dodelete u)
  unfolding dodelete
  dodelete-Erased u at i d n o cur p =
      let blanks : List ℕ = replicate (u.datlen - 1) space in
      let key : List ℕ = replicate (length u.idxbuf) space in
      let u1 : Db = record u {
        idxlock = relock u.idxlock free_off 1 exclusive;
        idxbuf = key;
        datbuf = blanks;
      } in
      let u2 : Db = with_data u1 u.datoff blanks in
      let u3 : Db = after_ptr u2 free_off in
      let e : entry_of u3 key head ≡ (blanked head r).entry =
        rw (cur.idxbuf, cur.datoff, cur.datlen)
          (ap
            (λ l. record {
              ptr = head;
              key = replicate (length (row_key r)) space;
              datoff = r.entry.datoff;
              datlen = l;
            })
            (omega (arith, blanked-datlen head head_le row))) in
      let u4 : Db = with_entry u3 u.idxoff (entry_of u3 key head) in
      let u5 : Db = with_ptr u4 free_off u.idxoff in
      let value : ptr_at u.idx free_off ≡ pos head = rw i link in
      rw
        (
          writedat-set u1 blanks u.datoff,
          readptr-inside u2 free_off (rw i inside),
          value,
          writeidx-set u3 key head (rw e (blanked-Fits head head_le row)) u.idxoff,
          writeptr-in_range u4 free_off u.idxoff (rw cur.idxoff at_le),
          cur.ptrval,
          writeptr-in_range u5 u.ptroff r.entry.ptr row.fits.ptr_le,
        )
        (returns (
          record {
            idx =
                ap
                  (λ n.
                    write_at
                      (write_at (write_at u.idx u.idxoff (entry_text n)) free_off
                        (ptr_text u.idxoff))
                      u.ptroff (ptr_text r.entry.ptr))
                  e
                ∙ rw (i, cur.idxoff, p) refl;
            dat = rw (d, cur.datoff, cur.datlen) refl;
            nhash = n;
            hashoff = o;
          },
          refl,
        ))

-- the record's chain, the free list, and what the two files must be like
pub record Deletable (s : Db) (start : ℕ) (key : List ℕ) (first head : ℕ) (rows frees : List Row)
    (r : Row) : Type 0 where
  pub chain : HashChain s start key first rows
  pub free : Chained s.idx s.dat start free_off head frees
  pub past : free_off + ptr_sz ≤ s.hashoff
  pub slots : 0 < s.nhash
  pub found : find_row key rows ≡ some r
  pub separate : Separate rows
  pub cross : Cross frees rows
  pub fewer : length frees < length s.idx

pub slot_past :
    (s : Db) (other : List ℕ)
    → free_off + ptr_sz ≤ s.hashoff
    → 0 < s.nhash
    → free_off + ptr_sz ≤ chain_offset s.nhash s.hashoff other
slot_past s other past slots = omega (arith, (chain_offset_bounds s.nhash s.hashoff other slots).0)

module _ (s : Db) {start first head : ℕ} (key : List ℕ) {rows frees : List Row} {r : Row}
    (d : Deletable s start key first head rows frees r) where
  abbrev slot : ℕ
  slot = chain_offset s.nhash s.hashoff key

  abbrev Gone : Db → Type 0
  Gone t = Erased s head r (place key slot rows) t

  finish :
      {m : Run (Unit {0})} (off : ℕ)
      → Returns (λ _ t. Gone t × (t.chainoff ≡ off)) m
      → Returns
          (λ rc t. (rc ≡ true) × Gone t)
          (and_then m (λ _.
            modify (λ t. record t { cnt_delok = t.cnt_delok + 1 }) >> (unlock_chain >> pure true)))
  finish off (returns (h, same)) =
      returns (refl, record { idx = h.idx; dat = h.dat; nhash = h.nhash; hashoff = h.hashoff })

  pub delete-Erased :
      Returns (λ rc t. (rc ≡ true) × Erased s head r (place key slot rows) t) (delete key s)
  unfolding delete
  delete-Erased =
      let past = slot_past s key d.past d.slots in
      let w = walked-SameStore (at_slot s key exclusive) rows key in
      let cur = walked-IsCurrent key (at_slot s key exclusive) rows r d.found in
      let row = found-IsRow key d.chain d.free past d.found d.separate d.cross d.fewer in
      let le = found_le key d.chain d.free past d.found d.separate d.cross d.fewer in
      let f = d.free in
      rw (find_and_lock-HashChain s key d.chain true, d.found)
        (finish (walked (at_slot s key exclusive) rows key).chainoff (
          dodelete-Erased s head r row f.first_le le (omega arith) f.slot_ptr _
            (place key slot rows) w.idx w.dat w.nhash w.hashoff cur
            (walked-place (at_slot s key exclusive) rows key r d.found)))
