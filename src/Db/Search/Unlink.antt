-- ===== src/Db/Search/Unlink.antt =====
-- Records that do not overlap, and what `_db_dodelete` makes of a hash chain and of a record.
use my_file.Prelude.{
  ℕ, suc, sym, ◌+◌, ◌-◌, ◌≤◌, ◌≡◌, ◌⊎◌, refl, ◌∙◌, List, [], ◌∷◌, ◌++◌, arith, if◌then◌else◌,
  length, length-append, length-replicate, replicate, bytes_eq,
}
use mathlib.Core.List.{append_assoc}
use my_file.CLib.Numbers.{pad, dec}
use my_file.CLib.Strings.Laws.{Lacks-replicate}
use my_file.CLib.Files.{write_at, read_at-write_at, HasAt, HasAt-within, HasAt-write_apart}
use my_file.CLib.Files.Patch.{HasAt-patch}
use my_file.Db.Pointers.{ptr_max, ptr_text}
use my_file.Db.Pointers.RoundTrip.{length-ptr_text}
use my_file.Db.Records.{space, newline, sep, idxlen_sz}
use my_file.Db.Records.Parse.{Entry, Fits, body_text, entry_text, length-entry_text}
use my_file.Db.Search.Chain.{Row, row_key, data_text, IsRow}

abbrev pub entry_end : Row → ℕ
entry_end r = r.at + length (entry_text r.entry)

-- The two records overlap neither in the index file nor in the data file.
pub record RowsApart (r q : Row) : Type 0 where
  pub in_idx : (entry_end r ≤ q.at) ⊎ (entry_end q ≤ r.at)
  pub in_dat :
      (r.entry.datoff + r.entry.datlen ≤ q.entry.datoff)
      ⊎ (q.entry.datoff + q.entry.datlen ≤ r.entry.datoff)

abbrev pub AllRowsApart : Row → List Row → Type 0
AllRowsApart r [] = Unit
AllRowsApart r (q ∷ rows) = RowsApart r q × AllRowsApart r rows

-- No two of the records overlap.
abbrev pub Separate : List Row → Type 0
Separate [] = Unit
Separate (r ∷ rows) = AllRowsApart r rows × Separate rows

-- the entry with another chain pointer
abbrev relinked : ℕ → Entry → Entry
relinked ptr e = record { ptr = ptr; key = e.key; datoff = e.datoff; datlen = e.datlen }

abbrev pub relink : ℕ → Row → Row
relink ptr r = record { at = r.at; entry = relinked ptr r.entry; text = r.text }

-- the records behind the passed record `q`, without the first one of the key
abbrev pub removed_behind : List ℕ → Row → List Row → List Row
removed_behind key q [] = q ∷ []
removed_behind key q (r ∷ rows) =
    if bytes_eq (row_key r) key then relink r.entry.ptr q ∷ rows else q ∷ removed_behind key r rows

-- the records of a chain without the first one of the key
abbrev pub removed : List ℕ → List Row → List Row
removed key [] = []
removed key (r ∷ rows) = if bytes_eq (row_key r) key then rows else removed_behind key r rows

-- where the chain then begins
abbrev pub new_first : List ℕ → ℕ → List Row → ℕ
new_first key first [] = first
new_first key first (r ∷ rows) = if bytes_eq (row_key r) key then r.entry.ptr else first

-- `ptroff`: where the pointer to the first record of the key stands
abbrev pub place : List ℕ → ℕ → List Row → ℕ
place key slot [] = slot
place key slot (r ∷ rows) = if bytes_eq (row_key r) key then slot else place key r.at rows

-- the record on the free list: blanks for the key and for the data
abbrev pub blanked : ℕ → Row → Row
blanked ptr r = record {
  at = r.at;
  entry = record {
    ptr = ptr;
    key = replicate (length (row_key r)) space;
    datoff = r.entry.datoff;
    datlen = r.entry.datlen;
  };
  text = replicate (r.entry.datlen - 1) space;
}

pub length-data :
    {idx dat : List ℕ} {r : Row} → IsRow idx dat r → length (data_text r) ≡ r.entry.datlen
length-data {r = r} h = omega (arith, h.datlen, length-append r.text (newline ∷ []))

module _ {idx dat : List ℕ} {r : Row} (h : IsRow idx dat r) where
  pub at_within : r.at ≤ length idx
  at_within =
      let s = length-entry_text r.entry h.fits in
      omega (arith, HasAt-within idx r.at (entry_text r.entry) h.in_idx (omega arith))

  -- A write to the index file that is apart from the record.
  pub IsRow-write_idx :
      (at : ℕ) (bs : List ℕ)
      → at ≤ length idx
      → (entry_end r ≤ at) ⊎ (at + length bs ≤ r.at)
      → IsRow (write_at idx at bs) dat r
  IsRow-write_idx at bs l apart = record {
    at_pos = h.at_pos;
    fits = h.fits;
    in_idx = HasAt-write_apart idx at bs r.at (entry_text r.entry) h.in_idx l apart;
    in_dat = h.in_dat;
    datlen = h.datlen;
    no_null = h.no_null;
  }

  pub IsRow-write_dat :
      (at : ℕ) (bs : List ℕ)
      → at ≤ length dat
      → (r.entry.datoff + r.entry.datlen ≤ at) ⊎ (at + length bs ≤ r.entry.datoff)
      → IsRow idx (write_at dat at bs) r
  IsRow-write_dat at bs l apart = record {
    at_pos = h.at_pos;
    fits = h.fits;
    in_idx = h.in_idx;
    in_dat =
        HasAt-write_apart dat at bs r.entry.datoff (data_text r) h.in_dat l
          (rw (length-data h) apart);
    datlen = h.datlen;
    no_null = h.no_null;
  }

  relinked-Fits : (ptr : ℕ) → ptr ≤ ptr_max → Fits (relinked ptr r.entry)
  relinked-Fits ptr le =
      let f = h.fits in
      record {
        key_pos = f.key_pos;
        no_null = f.no_null;
        no_sep = f.no_sep;
        ptr_le = le;
        datlen_pos = f.datlen_pos;
        datlen_le = f.datlen_le;
        length_le = f.length_le;
      }

  -- The pointer in front of the record is rewritten.
  pub IsRow-relink :
      (ptr : ℕ) → ptr ≤ ptr_max → IsRow (write_at idx r.at (ptr_text ptr)) dat (relink ptr r)
  IsRow-relink ptr le =
      let rest : List ℕ = pad idxlen_sz (dec (length (body_text r.entry))) ++ body_text r.entry in
      let split : (n : ℕ) → entry_text (relinked n r.entry) ≡ ptr_text n ++ rest = λ n.
        append_assoc (ptr_text n) (pad idxlen_sz (dec (length (body_text r.entry))))
          (body_text r.entry) in
      let there : HasAt idx r.at (ptr_text r.entry.ptr ++ rest) =
        rw (← split r.entry.ptr) h.in_idx in
      record {
        at_pos = h.at_pos;
        fits = relinked-Fits ptr le;
        in_idx = rw (split ptr) (
            HasAt-patch idx r.at (ptr_text r.entry.ptr) (ptr_text ptr) rest there
              (length-ptr_text ptr le ∙ sym (length-ptr_text r.entry.ptr h.fits.ptr_le)) at_within);
        in_dat = h.in_dat;
        datlen = h.datlen;
        no_null = h.no_null;
      }

module _ (ptr : ℕ) {idx dat : List ℕ} {r : Row} (le : ptr ≤ ptr_max) (h : IsRow idx dat r) where
  abbrev tail_text : List ℕ
  tail_text = sep ∷ (dec r.entry.datoff ++ (sep ∷ (dec r.entry.datlen ++ newline ∷ [])))

  length-blanked_body : length (body_text (blanked ptr r).entry) ≡ length (body_text r.entry)
  length-blanked_body = omega (
    arith,
    length-append (replicate (length (row_key r)) space) tail_text,
    length-append (row_key r) tail_text,
    length-replicate (length (row_key r)) space,
  )

  pub blanked-Fits : Fits (blanked ptr r).entry
  blanked-Fits =
      let f = h.fits in
      record {
        key_pos = let k = f.key_pos in omega (arith, length-replicate (length (row_key r)) space);
        no_null = Lacks-replicate 0 space (length (row_key r)) refl;
        no_sep = Lacks-replicate sep space (length (row_key r)) refl;
        ptr_le = le;
        datlen_pos = f.datlen_pos;
        datlen_le = f.datlen_le;
        length_le = let l = f.length_le in omega (arith, length-blanked_body);
      }

  pub length-blanked_entry : length (entry_text (blanked ptr r).entry) ≡ length (entry_text r.entry)
  length-blanked_entry = omega (
    arith,
    length-entry_text (blanked ptr r).entry blanked-Fits,
    length-entry_text r.entry h.fits,
    length-blanked_body,
  )

  pub blanked-datlen : r.entry.datlen ≡ suc (length (blanked ptr r).text)
  blanked-datlen =
      let p = h.fits.datlen_pos in omega (arith, length-replicate (r.entry.datlen - 1) space)

  pub length-blanked_data : length (data_text (blanked ptr r)) ≡ r.entry.datlen
  length-blanked_data =
      omega (arith, length-append (blanked ptr r).text (newline ∷ []), blanked-datlen)

  -- The blanked record, where it and its data are written.
  pub blanked-IsRow :
      IsRow
        (write_at idx r.at (entry_text (blanked ptr r).entry))
        (write_at dat r.entry.datoff (data_text (blanked ptr r)))
        (blanked ptr r)
  blanked-IsRow = record {
    at_pos = h.at_pos;
    fits = blanked-Fits;
    in_idx = read_at-write_at idx r.at (entry_text (blanked ptr r).entry);
    in_dat = read_at-write_at dat r.entry.datoff (data_text (blanked ptr r));
    datlen = blanked-datlen;
    no_null = Lacks-replicate 0 space (r.entry.datlen - 1) refl;
  }
