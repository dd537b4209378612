-- ===== src/Db/Map/Replace.antt =====
-- `db_store` over a record of the key, on a database that stands for a map.
use my_file.Prelude.{
  ℕ, suc, ◌<◌, ◌≡◌, ◌≢◌, inl, inr, refl, ap, ◌∙◌, sym, some, List, [], ◌∷◌, arith, length,
  Bool-cases, bytes_eq,
}
use mathlib.Core.Path.{subst}
use my_file.CLib.Strings.Laws.{Lacks}
use my_file.Db.State.{Db}
use my_file.Db.Hash.{chain_offset}
use my_file.Db.Search.{free_off}
use my_file.Db.Search.Chain.{Row, row_key, Chain, find_row, find_row-IsRow}
use my_file.Db.Search.Frame.{Chained}
use my_file.Db.Search.Unlink.{removed, new_first}
use my_file.Db.Ops.Delete.{slot_past}
use my_file.Db.Ops.Insert.{new_row}
use my_file.Db.Ops.Replace.{replaced, OthersApart, beside-Chain}
use my_file.Db.Ops.Replace.Store.{Rewritten, kept}
use my_file.Db.Ops.Replace
use my_file.Db.Ops.ReplaceLonger.{Exchanged}
use my_file.Db.Map.Extents.{
  Extent, Apart, AllApart, Spread, AllApart-Extract, Across-Extract, Disjoint, Disjoint-add, put,
  put_same, put_other,
}
use my_file.Db.Map.Places.{ext, exts, removed-Extract, ext-blanked, exts-replaced, Cross-exts}
use my_file.Db.Map.State.{Contents, with_key, Holds, head_apart, head_past}
use my_file.Db.Map.Views.{Fresh-cons, Fresh-removed, Fresh-replaced}
use my_file.Db.Map.Change.{
  Disjoint-ext, Holds-changed, changed, changed_cases, changed_here, changed_free, changed_other,
}
use my_file.Db.Map.Delete.{
  deletable, slot_chain, free_list, frees_after, rows_after, deleted-Disjoint, once_before,
}
use my_file.Db.Map.Insert.{new-AllApart}

beside_all : (r : Row) (rows : List Row) → AllApart (ext r) (exts rows) → Replace.AllApart r rows
beside_all r [] a = tt
beside_all r (q ∷ rows) a =
    ((elim a.0.in_dat [ inl f ↦ inr f | inr f ↦ inl f ]), beside_all r rows a.1)

module _ (idx dat : List ℕ) (key : List ℕ) where
  beside_others :
      (off : ℕ) (rows : List Row) (r : Row)
      → Chain idx dat off rows
      → find_row key rows ≡ some r
      → Spread (exts rows)
      → OthersApart key r rows
  beside_others off [] r c f s = tt
  beside_others off (q ∷ rows) r c f s = elim (Bool-cases (bytes_eq (row_key q) key)) [
    | inl hit ↦ let same : q ≡ r = ground arith in rw hit (beside_all r rows (rw (← same) s.0))
    | inr miss ↦
        let f' = rw miss at f in
        let a = (AllApart-Extract (removed-Extract idx dat key q.entry.ptr rows r c.2 f') s.0).0 in
        rw miss (a.in_dat, beside_others q.entry.ptr rows r c.2 f' s.1)
  ]

module _ (s : Db) (start : ℕ) (m : Contents) (h : Holds s start m) (key text : List ℕ) (r : Row)
    (found : find_row key (h.rows (chain_offset s.nhash s.hashoff key)) ≡ some r) where
  abbrev slot : ℕ
  slot = chain_offset s.nhash s.hashoff key

  abbrev rows : List Row
  rows = h.rows slot

  module _ (same : suc (length text) ≡ r.entry.datlen) (clean : Lacks 0 text)
      (filled : 0 < length text) where
    replaced-Disjoint :
        Disjoint (λ o. exts (changed s h.is_db key (replaced key text rows) (h.rows free_off) o))
    replaced-Disjoint =
        Disjoint-ext
          (changed_cases s h.is_db key (replaced key text rows) (h.rows free_off)
            (λ o x. exts (h.rows o) ≡ exts x) (sym (exts-replaced key text rows)) refl
            (λ o ne nf. refl))
          h.is_db.apart

    beside_chain :
        (o first : ℕ) (t : Db)
        → Rewritten s text r t
        → o ≢ slot
        → Chained s.idx s.dat start o first (h.rows o)
        → Chained t.idx t.dat start o first (h.rows o)
    beside_chain o first t e ne c =
        let k = slot_chain s start m h key in
        let row = find_row-IsRow key s.idx s.dat k.0 rows r k.1.chain found in
        let x = removed-Extract s.idx s.dat key k.0 rows r k.1.chain found in
        let a =
          (Across-Extract (exts (h.rows o)) x (h.is_db.apart.across slot o (λ i. ne (sym i)))).0 in
        rw (e.idx, e.dat)
          (record {
            first_le = c.first_le;
            slot_in = c.slot_in;
            start_in = c.start_in;
            slot_ptr = c.slot_ptr;
            chain =
                beside-Chain s.idx s.dat r text row same clean first (h.rows o) c.chain
                  (beside_all r (h.rows o) a);
            behind = c.behind;
            short = c.short;
          })

    pub Holds-Rewritten :
        (t : Db) → Rewritten s text r t → Holds t start (with_key key (some text) m)
    Holds-Rewritten t e =
        let d = h.is_db in
        let (first, c) = slot_chain s start m h key in
        let (head, f) = free_list s start m h key in
        let past = slot_past s key d.past d.slots in
        let own = beside_others s.idx s.dat key first rows r c.chain found (d.apart.spread slot) in
        Holds-changed s d key (replaced key text rows) (h.rows free_off) t e.nhash e.hashoff
          (first, rw (e.nhash, e.hashoff) at (kept s key text c r found same clean filled t e own))
          (head, beside_chain free_off head t e (λ i. omega (arith, i, past)) f)
          (λ o j ne nf. let (head', c') = d.chains o j in (head', beside_chain o head' t e ne c'))
          replaced-Disjoint (some text) (Fresh-replaced key text rows r found) m h.agrees

  abbrev new : Row
  new = new_row s key text (new_first key (slot_chain s start m h key).0 rows)

  abbrev gone : ℕ → List Row
  gone =
      changed s h.is_db key (rows_after s start m h key r found)
        (frees_after s start m h key r found)

  -- A record at the ends of the files is apart from all that a deletion leaves.
  after-AllApart : (o : ℕ) → AllApart (ext new) (exts (gone o))
  after-AllApart =
      let (first, c) = slot_chain s start m h key in
      let (head, f) = free_list s start m h key in
      let all = new-AllApart s start m h key text (new_first key first rows) in
      let row = find_row-IsRow key s.idx s.dat first rows r c.chain found in
      let own =
        AllApart-Extract (removed-Extract s.idx s.dat key first rows r c.chain found) (all slot) in
      changed_cases s h.is_db key (rows_after s start m h key r found)
        (frees_after s start m h key r found) (λ o x. AllApart (ext new) (exts x)) own.1
        (
          subst (λ e. Apart (ext new) e) (sym (ext-blanked s.idx s.dat r head row f.first_le))
              own.0,
          all free_off,
        )
        (λ o ne nf. all o)

  exchanged-Disjoint : Disjoint (λ o. exts (
      changed s h.is_db key
        (new ∷ rows_after s start m h key r found)
        (frees_after s start m h key r found)
        o))
  exchanged-Disjoint =
      let l = rows_after s start m h key r found in
      let fs = frees_after s start m h key r found in
      let G : ℕ → List Extent = λ o. exts (gone o) in
      let x : List Extent = ext new ∷ G slot in
      let past = slot_past s key h.is_db.past h.is_db.slots in
      Disjoint-ext
        (changed_cases s h.is_db key (new ∷ l) fs (λ o z. put G slot x o ≡ exts z)
          (put_same G slot x ∙ ap (λ y. ext new ∷ exts y) (changed_here s h.is_db key l fs))
          (put_other G slot x free_off (λ i. omega (arith, i, past))
            ∙ ap exts (changed_free s h.is_db key l fs))
          (λ o ne nf. put_other G slot x o ne ∙ ap exts (changed_other s h.is_db key l fs o ne nf)))
        (Disjoint-add G (deleted-Disjoint s start m h key r found) slot (ext new) after-AllApart)

  pub Holds-Exchanged :
      (t : Db)
      → Exchanged s key text (deletable s start m h key r found) t
      → Holds t start (with_key key (some text) m)
  Holds-Exchanged t i =
      let d = h.is_db in
      let once = once_before s start m h key r found in
      Holds-changed s d key (new ∷ rows_after s start m h key r found)
        (frees_after s start m h key r found) t i.nhash i.hashoff
        (length s.idx, rw (i.nhash, i.hashoff) at i.chain) (r.at, i.free)
        (λ o j ne nf.
          let (first, c) = d.chains o j in
          (
            first,
            i.others o first (h.rows o) c (Cross-exts (h.rows o) rows (d.apart.across o slot ne))
                (head_past s o d.past d.slots j nf) (head_apart s key o d.past d.slots j ne),
          ))
        exchanged-Disjoint (some text)
        (Fresh-cons key rows (removed key rows) new refl (Fresh-removed key rows once)) m h.agrees
