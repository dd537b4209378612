-- ===== src/Db/Map/Reuse.antt =====
-- `db_store` over a free record, on a database that stands for a map.
use my_file.Prelude.{
  ℕ, ◌+◌, ◌<◌, ◌≡◌, ◌≢◌, inr, refl, ap, ◌∙◌, sym, none, some, List, ◌∷◌, arith, length,
}
use my_file.CLib.Strings.Laws.{Lacks}
use my_file.Db.State.{Db}
use my_file.Db.Hash.{chain_offset}
use my_file.Db.Records.Parse.{Fits, entry_text, body_text, length-entry_text}
use my_file.Db.Search.{free_off}
use my_file.Db.Search.Chain.{Row, row_key, IsRow, find_row}
use my_file.Db.Search.Free.{find_free}
use my_file.Db.Search.FindFree.{find_free-IsRow, find_free-sizes}
use my_file.Db.Search.Take.{taken, taken_first}
use my_file.Db.Ops.Delete.{slot_past}
use my_file.Db.Ops.Insert.{new_entry}
use my_file.Db.Ops.Reuse.{Reusable, Reused, reused_row, reused_entry, length-reused_body}
use my_file.Db.Map.Extents.{Extent, Extract, Disjoint, Disjoint-add, Disjoint-drop, put, put_other}
use my_file.Db.Map.Places.{ext, exts, Separate-exts, Cross-exts, taken-Extract}
use my_file.Db.Map.State.{
  Contents, with_key, Holds, head_apart, head_past, free_chain, key_chain, chain_fewer,
}
use my_file.Db.Map.Views.{Fresh-cons, Fresh-absent}
use my_file.Db.Map.Change.{Disjoint-free_slot, Holds-changed, changed}

module _ (s : Db) (start : ℕ) (m : Contents) (h : Holds s start m) (key text : List ℕ) (at : ℕ)
    (q : Row)
    (found : find_free (length key) (length text + 1) free_off (h.rows free_off) ≡ some (at, q))
    (absent : find_row key (h.rows (chain_offset s.nhash s.hashoff key)) ≡ none)
    (fits : Fits (new_entry s key text 0)) (clean : Lacks 0 text) (filled : 0 < length text) where
  abbrev slot : ℕ
  slot = chain_offset s.nhash s.hashoff key

  abbrev first : ℕ
  first = (key_chain h.is_db key).0

  abbrev head : ℕ
  head = (free_chain h.is_db).0

  free-IsRow : IsRow s.idx s.dat q
  free-IsRow =
      find_free-IsRow (length key) (length text + 1) s.idx s.dat head free_off (h.rows free_off) at
        q (free_chain h.is_db).1.chain found

  same_sizes : (length (row_key q) ≡ length key) × (q.entry.datlen ≡ length text + 1)
  same_sizes =
      let fit =
        find_free-sizes (length key) (length text + 1) free_off (h.rows free_off) at q found in
      (ground arith, ground arith)

  body_size : length (body_text (reused_entry key text first q)) ≡ length (body_text q.entry)
  body_size = length-reused_body key text first q same_sizes.0 same_sizes.1

  reused-Fits : Fits (reused_entry key text first q)
  reused-Fits = record {
    key_pos = fits.key_pos;
    no_null = fits.no_null;
    no_sep = fits.no_sep;
    ptr_le = (key_chain h.is_db key).1.first_le;
    datlen_pos = fits.datlen_pos;
    datlen_le = fits.datlen_le;
    length_le = let b = free-IsRow.fits.length_le in omega (arith, body_size);
  }

  pub reusable : Reusable s start key text first head (h.rows slot) (h.rows free_off) at q
  reusable =
      let d = h.is_db in
      let past = slot_past s key d.past d.slots in
      record {
        chain = (key_chain d key).1;
        free = (free_chain d).1;
        past = d.past;
        slots = d.slots;
        absent = absent;
        found = found;
        separate = Separate-exts (h.rows free_off) (d.apart.spread free_off);
        cross =
            Cross-exts (h.rows slot) (h.rows free_off)
              (d.apart.across slot free_off (λ e. omega (arith, e, past)));
        fits = reused-Fits;
        clean = clean;
        filled = filled;
        fewer = chain_fewer d slot (inr (key, refl));
      }

  -- The new record stands where the free one did.
  ext-reused : ext (reused_row key text first q) ≡ ext q
  ext-reused =
      let ends : q.at + length (entry_text (reused_entry key text first q))
          ≡ q.at + length (entry_text q.entry) =
        omega (
          arith,
          body_size,
          length-entry_text (reused_entry key text first q) reused-Fits,
          length-entry_text q.entry free-IsRow.fits,
        ) in
      ap
        (λ t. record {
          from = q.at;
          till = t;
          dat_from = q.entry.datoff;
          dat_till = q.entry.datoff + (length text + 1);
        })
        ends
      ∙ ap
          (λ n. record {
            from = q.at;
            till = q.at + length (entry_text q.entry);
            dat_from = q.entry.datoff;
            dat_till = q.entry.datoff + n;
          })
          (sym same_sizes.1)

  abbrev frees_after : List Row
  frees_after = taken (length key) (length text + 1) (h.rows free_off)

  abbrev rows_after : List Row
  rows_after = reused_row key text first q ∷ h.rows slot

  reused-Disjoint : Disjoint (λ o. exts (changed s h.is_db key rows_after frees_after o))
  reused-Disjoint =
      let d = h.is_db in
      let ne : slot ≢ free_off = λ e. omega (arith, e, slot_past s key d.past d.slots) in
      let F : ℕ → List Extent = λ o. exts (h.rows o) in
      let y = exts frees_after in
      let x : Extract (ext q) (F free_off) y =
        taken-Extract s.idx s.dat (length key) (length text + 1) head free_off (h.rows free_off) at
          q (free_chain d).1.chain found in
      let drop = Disjoint-drop F d.apart free_off (ext q) y x in
      Disjoint-free_slot s d key rows_after frees_after (ext q ∷ put F free_off y slot) y
        (ap (λ l. ext q ∷ l) (put_other F free_off y slot ne)
          ∙ ap (λ e. e ∷ exts (h.rows slot)) (sym ext-reused))
        refl (Disjoint-add (put F free_off y) drop.0 slot (ext q) drop.1)

  pub Holds-Reused :
      (t : Db) → Reused s key text reusable t → Holds t start (with_key key (some text) m)
  Holds-Reused t i =
      let d = h.is_db in
      Holds-changed s d key rows_after frees_after t i.nhash i.hashoff
        (q.at, rw (i.nhash, i.hashoff) at i.chain)
        (taken_first (length key) (length text + 1) head (h.rows free_off), i.free)
        (λ o j ne nf.
          let (head', c) = d.chains o j in
          (
            head',
            i.others o head' (h.rows o) c
                (Cross-exts (h.rows o) (h.rows free_off) (d.apart.across o free_off nf))
                (head_past s o d.past d.slots j nf) (head_apart s key o d.past d.slots j ne),
          ))
        reused-Disjoint (some text)
        (Fresh-cons key (h.rows slot) (h.rows slot) (reused_row key text first q) refl
          (Fresh-absent key (h.rows slot) absent))
        m h.agrees
