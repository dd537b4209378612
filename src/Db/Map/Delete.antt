-- ===== src/Db/Map/Delete.antt =====
-- `db_delete` on a database that stands for a map.
use my_file.Prelude.{
  length, ℕ, ◌≡◌, ◌≢◌, inl, inr, refl, ap, ◌∙◌, sym, Bool, true, false, none, some, List, ◌∷◌,
  arith, Option-cases,
}
use my_file.Db.State.{Db, Run, Returns, returns, weaken}
use my_file.Db.Hash.{chain_offset}
use my_file.Db.Search.{free_off}
use my_file.Db.Search.Chain.{Row, find_row}
use my_file.Db.Search.Frame.{Chained}
use my_file.Db.Search.Unlink.{removed, new_first, blanked, place}
use my_file.Db.Search.Deleted.{
  removed-Chained, freed-Chained, others-Chained, found-IsRow, length-unlinked, length-cleared,
}
use my_file.Db.Ops.{delete}
use my_file.Db.Ops.Fetch.{HashChain, found_text}
use my_file.Db.Ops.Refusals.{Untouched, delete-missing}
use my_file.Db.Ops.DeleteFetch.{key_count}
use my_file.Db.Ops.Delete.{Deletable, Erased, delete-Erased, slot_past}
use my_file.Db.Map.Extents.{Extent, Disjoint, Disjoint-add, Disjoint-drop, put, put_other}
use my_file.Db.Map.Places.{ext, exts, Separate-exts, Cross-exts, removed-Extract, ext-blanked}
use my_file.Db.Map.State.{
  Contents, with_key, has, Holds, Grown, Holds-same, Holds-missing, head_apart, head_past,
  free_chain, key_chain, chain_fewer,
}
use my_file.Db.Map.Views.{Fresh-removed, count-some}
use my_file.Db.Map.Change.{Disjoint-slot_free, changed, Holds-changed}

module _ (s : Db) (start : ℕ) (m : Contents) (h : Holds s start m) (key : List ℕ) where
  abbrev slot : ℕ
  slot = chain_offset s.nhash s.hashoff key

  abbrev rows : List Row
  rows = h.rows slot

  pub slot_chain : (first : ℕ) × HashChain s start key first rows
  slot_chain = key_chain h.is_db key

  pub free_list : (head : ℕ) × Chained s.idx s.dat start free_off head (h.rows free_off)
  free_list = free_chain h.is_db

  module _ (r : Row) (found : find_row key rows ≡ some r) where
    pub deletable : Deletable s start key slot_chain.0 free_list.0 rows (h.rows free_off) r
    deletable =
        let d = h.is_db in
        let past = slot_past s key d.past d.slots in
        record {
          chain = slot_chain.1;
          free = free_list.1;
          past = d.past;
          slots = d.slots;
          found = found;
          separate = Separate-exts rows (d.apart.spread slot);
          cross =
              Cross-exts (h.rows free_off) rows
                (d.apart.across free_off slot (λ e. omega (arith, e, past)));
          fewer = chain_fewer d free_off (inl refl);
        }

    abbrev pub frees_after : List Row
    frees_after = blanked free_list.0 r ∷ h.rows free_off

    abbrev pub rows_after : List Row
    rows_after = removed key rows

    pub deleted-Disjoint : Disjoint (λ o. exts (changed s h.is_db key rows_after frees_after o))
    deleted-Disjoint =
        let d = h.is_db in
        let slot_ne : slot ≢ free_off = λ e. omega (arith, e, slot_past s key d.past d.slots) in
        let F : ℕ → List Extent = λ o. exts (h.rows o) in
        let c = slot_chain.1 in
        let f = free_list.1 in
        let x = removed-Extract s.idx s.dat key slot_chain.0 rows r c.chain found in
        let drop = Disjoint-drop F d.apart slot (ext r) (exts rows_after) x in
        let add = Disjoint-add (put F slot (exts rows_after)) drop.0 free_off (ext r) drop.1 in
        let row =
          found-IsRow key c f (slot_past s key d.past d.slots) found deletable.separate
            deletable.cross deletable.fewer in
        Disjoint-slot_free s d key rows_after frees_after (exts rows_after)
          (ext r ∷ put F slot (exts rows_after) free_off) refl
          (ap (λ x. ext r ∷ x) (put_other F slot (exts rows_after) free_off (λ e. slot_ne (sym e)))
            ∙ ap (λ e. e ∷ exts (h.rows free_off))
                (sym (ext-blanked s.idx s.dat r free_list.0 row f.first_le)))
          add

    pub once_before : key_count key rows ≡ 1
    once_before = count-some key rows r found (h.is_db.once key)

    Holds-Erased :
        (t : Db)
        → Erased s free_list.0 r (place key slot rows) t
        → Holds t start (with_key key none m)
    Holds-Erased t e =
        let d = h.is_db in
        let past = slot_past s key d.past d.slots in
        let p = deletable in
        Holds-changed s d key rows_after frees_after t e.nhash e.hashoff
          (
            new_first key slot_chain.0 rows,
            rw (e.idx, e.dat)
                (removed-Chained key p.chain p.free past p.found p.separate p.cross p.fewer),
          )
          (
            r.at,
            rw (e.idx, e.dat)
                (freed-Chained key p.chain p.free past p.found p.separate p.cross p.fewer),
          )
          (λ o i ne nf.
            let (first, c) = d.chains o i in
            (
              first,
              rw (e.idx, e.dat)
                  (others-Chained key p.chain p.free past p.found p.separate p.cross p.fewer o first
                    (h.rows o) c (Cross-exts (h.rows o) rows (d.apart.across o slot ne))
                    (head_past s o d.past d.slots i nf) (head_apart s key o d.past d.slots i ne)),
            ))
          deleted-Disjoint none (Fresh-removed key rows once_before) m h.agrees

    deleted :
        {q : Run Bool}
        → Returns (λ rc t. (rc ≡ true) × Erased s free_list.0 r (place key slot rows) t) q
        → Returns (λ rc t. (rc ≡ true) × Holds t start (with_key key none m) × Grown s t 0 0) q
    deleted (returns {s = t} (rc, e)) =
        let p = deletable in
        let past = slot_past s key p.past p.slots in
        returns (
          rc,
          Holds-Erased t e,
          record {
            idx = omega (
              arith,
              ap (length {0}) e.idx,
              length-unlinked key p.chain p.free past p.found p.separate p.cross p.fewer,
            );
            dat = omega (
              arith,
              ap (length {0}) e.dat,
              length-cleared key p.chain p.free past p.found p.separate p.cross p.fewer,
            );
          },
        )

  kept :
      {q : Run Bool}
      → find_row key rows ≡ none
      → Returns (λ rc t. (rc ≡ false) × Untouched s key t) q
      → Returns (λ rc t. (rc ≡ false) × Holds t start (with_key key none m) × Grown s t 0 0) q
  kept missing (returns (rc, u)) =
      let none_there : m key ≡ none = sym (h.agrees key) ∙ ap found_text missing in
      returns (
        rc,
        Holds-missing (Holds-same _ u.idx u.dat u.nhash u.hashoff h) none_there,
        record {
          idx = omega (arith, ap (length {0}) u.idx);
          dat = omega (arith, ap (length {0}) u.dat);
        },
      )

  pub delete_within :
      Returns
        (λ rc t. (rc ≡ has (m key)) × Holds t start (with_key key none m) × Grown s t 0 0)
        (delete key s)
  delete_within = elim (Option-cases (find_row key rows)) [
    | inl missing ↦
        rw (← h.agrees key, missing) (kept missing (delete-missing s key slot_chain.1 missing))
    | inr (r, found) ↦
        rw (← h.agrees key, found) (deleted r found (delete-Erased s key (deletable r found)))
  ]

  -- On a well-formed database db_delete returns 0 if the database has data for the key and fails if
  -- not, and the database is well-formed then, has nothing for the key, and has for every other key
  -- what it had.
  pub delete-Holds :
      Returns (λ rc t. (rc ≡ has (m key)) × Holds t start (with_key key none m)) (delete key s)
  delete-Holds = weaken (λ rc t p. (p.0, p.1)) delete_within
