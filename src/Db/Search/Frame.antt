-- ===== src/Db/Search/Frame.antt =====
-- Chains hung on a slot of the table, and the writes that leave them as they are.
use my_file.Prelude.{
  ℕ, suc, ◌+◌, ◌≤◌, ◌<◌, ◌≡◌, ◌⊎◌, inr, refl, ap, ◌∙◌, List, [], ◌∷◌, arith, length, length-append,
  pos,
}
use my_file.CLib.Files.{
  write_at, read_at-before, HasAt-write_apart, HasAt-write_end, HasAt-within, length-write_at,
  length-write_at_end,
}
use my_file.Db.Pointers.{ptr_sz, ptr_max, ptr_text}
use my_file.Db.Pointers.RoundTrip.{
  ptr_at, length-ptr_text, ptr_at-write_at_self, read_at-write_at_ptr,
}
use my_file.CLib.Numbers.{atol}
use my_file.Db.Records.{newline}
use my_file.Db.Records.Parse.{entry_text, length-entry_text}
use my_file.Db.Search.Chain.{Row, data_text, IsRow, Chain}

-- The records stand at `start` or behind it.
abbrev pub Behind : ℕ → List Row → Type 0
Behind start [] = Unit
Behind start (r ∷ rows) = (start ≤ r.at) × Behind start rows

-- A slot in front of `start` holds the pointer `first` to a chain of records behind `start`, and the index
-- file has room for them all.
pub record Chained (idx dat : List ℕ) (start slot first : ℕ) (rows : List Row) : Type 0 where
  pub first_le : first ≤ ptr_max
  pub slot_in : slot + ptr_sz ≤ start
  pub start_in : start ≤ length idx
  pub slot_ptr : ptr_at idx slot ≡ pos first
  pub chain : Chain idx dat first rows
  pub behind : Behind start rows
  pub short : length rows ≤ length idx

pub Chain-map :
    {idx dat idx' dat' : List ℕ} (start : ℕ)
    (keep : (r : Row) → IsRow idx dat r → start ≤ r.at → IsRow idx' dat' r) (off : ℕ)
    (rows : List Row)
    → Chain idx dat off rows
    → Behind start rows
    → Chain idx' dat' off rows
Chain-map start keep off [] c b = c
Chain-map start keep off (r ∷ rows) c b =
    (c.0, keep r c.1 b.0, Chain-map start keep r.entry.ptr rows c.2 b.1)

module _ {idx dat : List ℕ} {r : Row} (h : IsRow idx dat r) where
  entry_pos : 0 < length (entry_text r.entry)
  entry_pos = omega (arith, length-entry_text r.entry h.fits)

  data_pos : 0 < length (data_text r)
  data_pos = omega (arith, length-append r.text (newline ∷ []))

  -- A pointer in the table is rewritten.
  pub IsRow-write_ptr :
      (slot n : ℕ)
      → n ≤ ptr_max
      → slot + ptr_sz ≤ r.at
      → IsRow (write_at idx slot (ptr_text n)) dat r
  IsRow-write_ptr slot n small front = record {
    at_pos = h.at_pos;
    fits = h.fits;
    in_idx =
        HasAt-write_apart idx slot (ptr_text n) r.at (entry_text r.entry) h.in_idx
          (omega (arith, HasAt-within idx r.at (entry_text r.entry) h.in_idx entry_pos))
          (inr (omega (arith, length-ptr_text n small)));
    in_dat = h.in_dat;
    datlen = h.datlen;
    no_null = h.no_null;
  }

  -- Both files grow at their ends.
  pub IsRow-write_end :
      (a b : List ℕ) → IsRow (write_at idx (length idx) a) (write_at dat (length dat) b) r
  IsRow-write_end a b = record {
    at_pos = h.at_pos;
    fits = h.fits;
    in_idx = HasAt-write_end idx a r.at _ h.in_idx entry_pos;
    in_dat = HasAt-write_end dat b r.entry.datoff _ h.in_dat data_pos;
    datlen = h.datlen;
    no_null = h.no_null;
  }

module _ {idx dat : List ℕ} {start slot first : ℕ} {rows : List Row}
    (c : Chained idx dat start slot first rows) where
  -- Another slot of the table is rewritten.
  pub Chained-write_ptr :
      (at n : ℕ)
      → n ≤ ptr_max
      → at + ptr_sz ≤ start
      → (slot + ptr_sz ≤ at) ⊎ (at + ptr_sz ≤ slot)
      → Chained (write_at idx at (ptr_text n)) dat start slot first rows
  Chained-write_ptr at n small front apart =
      let within : at + ptr_sz ≤ length idx = let b = c.start_in in omega arith in
      let size : length (write_at idx at (ptr_text n)) ≡ length idx =
        length-write_at idx at (ptr_text n) (omega (arith, length-ptr_text n small)) in
      record {
        first_le = c.first_le;
        slot_in = c.slot_in;
        start_in = let b = c.start_in in omega (arith, size);
        slot_ptr =
            ap atol (read_at-write_at_ptr idx at n slot ptr_sz small within apart) ∙ c.slot_ptr;
        chain =
            Chain-map start (λ r h b. IsRow-write_ptr h at n small (omega arith)) first rows c.chain
              c.behind;
        behind = c.behind;
        short = let b = c.short in omega (arith, size);
      }

  -- Both files grow at their ends.
  pub Chained-write_end :
      (a b : List ℕ)
      → Chained (write_at idx (length idx) a) (write_at dat (length dat) b) start slot first rows
  Chained-write_end a b =
      let k = c.start_in in
      let m = c.slot_in in
      let n = c.short in
      record {
        first_le = c.first_le;
        slot_in = c.slot_in;
        start_in = omega (arith, length-write_at_end idx a);
        slot_ptr =
            ap atol (read_at-before idx (length idx) a slot ptr_sz (omega arith) (omega arith))
            ∙ c.slot_ptr;
        chain = Chain-map start (λ r h b'. IsRow-write_end h a b) first rows c.chain c.behind;
        behind = c.behind;
        short = omega (arith, length-write_at_end idx a);
      }

  -- The slot itself is pointed at a record in front of the chain.
  pub Chained-cons :
      (r : Row)
      → r.at ≤ ptr_max
      → start ≤ r.at
      → r.entry.ptr ≡ first
      → IsRow idx dat r
      → suc (length rows) ≤ length idx
      → Chained (write_at idx slot (ptr_text r.at)) dat start slot r.at (r ∷ rows)
  Chained-cons r small back link row room =
      let m = c.slot_in in
      let k = c.start_in in
      let size : length (write_at idx slot (ptr_text r.at)) ≡ length idx =
        length-write_at idx slot (ptr_text r.at) (omega (arith, length-ptr_text r.at small)) in
      let tail : Chain (write_at idx slot (ptr_text r.at)) dat r.entry.ptr rows = rw link (
        Chain-map start (λ q h b. IsRow-write_ptr h slot r.at small (omega arith)) first rows
          c.chain c.behind) in
      record {
        first_le = small;
        slot_in = c.slot_in;
        start_in = omega (arith, size);
        slot_ptr = ptr_at-write_at_self idx slot r.at small;
        chain = (refl, IsRow-write_ptr row slot r.at small (omega arith), tail);
        behind = (back, c.behind);
        short = omega (arith, size);
      }
