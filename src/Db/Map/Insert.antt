-- ===== src/Db/Map/Insert.antt =====
-- `db_store` that appends, on a database that stands for a map.
use my_file.Prelude.{ℕ, ◌≤◌, ◌≡◌, inl, inr, refl, sym, none, some, List, ◌∷◌, arith, length}
use mathlib.Core.Path.{subst}
use my_file.Db.State.{Db}
use my_file.Db.Hash.{chain_offset}
use my_file.Db.Pointers.{ptr_max}
use my_file.Db.Records.Parse.{Fits}
use my_file.Db.Search.{free_off}
use my_file.Db.Search.Chain.{find_row}
use my_file.Db.Ops.Delete.{slot_past}
use my_file.Db.Ops.Insert.{new_entry, new_row, Inserted}
use my_file.Db.Map.Extents.{AllApart, Disjoint, Disjoint-add}
use my_file.Db.Map.Places.{ext, exts, AllApart-end}
use my_file.Db.Map.State.{Contents, with_key, Holds, head_apart, free_chain}
use my_file.Db.Map.Views.{Fresh-cons, Fresh-absent}
use my_file.Db.Map.Change.{Disjoint-slot, Holds-changed, changed}

-- What the format can hold at one pointer it can hold at another.
pub Fits-ptr :
    (s : Db) (key text : List ℕ) (ptr : ℕ)
    → ptr ≤ ptr_max
    → Fits (new_entry s key text 0)
    → Fits (new_entry s key text ptr)
Fits-ptr s key text ptr le f = record {
  key_pos = f.key_pos;
  no_null = f.no_null;
  no_sep = f.no_sep;
  ptr_le = le;
  datlen_pos = f.datlen_pos;
  datlen_le = f.datlen_le;
  length_le = f.length_le;
}

module _ (s : Db) (start : ℕ) (m : Contents) (h : Holds s start m) (key text : List ℕ) where
  abbrev slot : ℕ
  slot = chain_offset s.nhash s.hashoff key

  -- A record at the ends of the files is apart from all.
  pub new-AllApart : (ptr : ℕ) (o : ℕ) → AllApart (ext (new_row s key text ptr)) (exts (h.rows o))
  new-AllApart ptr o = elim (h.is_db.elsewhere o) [
    | inl i ↦
        let (first, c) = h.is_db.chains o i in
        AllApart-end s.idx s.dat (ext (new_row s key text ptr)) first (h.rows o) c.chain
          (omega arith) (omega arith)
    | inr e ↦ subst (λ x. AllApart (ext (new_row s key text ptr)) (exts x)) (sym e) tt
  ]

  inserted-Disjoint :
      (ptr : ℕ)
      → Disjoint (λ o.
        exts (changed s h.is_db key (new_row s key text ptr ∷ h.rows slot) (h.rows free_off) o))
  inserted-Disjoint ptr =
      Disjoint-slot s h.is_db key (new_row s key text ptr ∷ h.rows slot) (h.rows free_off)
        (ext (new_row s key text ptr) ∷ exts (h.rows slot)) refl refl
        (Disjoint-add (λ o. exts (h.rows o)) h.is_db.apart slot (ext (new_row s key text ptr))
          (new-AllApart ptr))

  pub Holds-Inserted :
      (first : ℕ) (t : Db)
      → find_row key (h.rows slot) ≡ none
      → Inserted s start key text first (h.rows slot) t
      → Holds t start (with_key key (some text) m)
  Holds-Inserted first t absent i =
      let d = h.is_db in
      let (head, f) = free_chain d in
      Holds-changed s d key (new_row s key text first ∷ h.rows slot) (h.rows free_off) t i.nhash
        i.hashoff (length s.idx, rw (i.nhash, i.hashoff) at i.chain)
        (head, i.others free_off head (h.rows free_off) f (inl (slot_past s key d.past d.slots)))
        (λ o j ne nf.
          let (head', c) = d.chains o j in
          (head', i.others o head' (h.rows o) c (head_apart s key o d.past d.slots j ne)))
        (inserted-Disjoint first) (some text)
        (Fresh-cons key (h.rows slot) (h.rows slot) (new_row s key text first) refl
          (Fresh-absent key (h.rows slot) absent))
        m h.agrees
