-- ===== src/Db/Records/Parse.antt =====
-- The text of an index record, and `_db_readidx` at it.
use mathlib.Core.List.{append_assoc}
use my_file.Prelude.{
  ℕ, ◌+◌, ◌^◌, ◌≤◌, ◌<◌, ◌≡◌, ◌≢◌, inl, inr, refl, ap, ◌∙◌, List, [], ◌∷◌, ◌++◌, arith, ◌==◌,
  ==-refl, length, length-append, take-append, drop-append, pos, some, false,
}
use my_file.CLib.Numbers.{pad, dec}
use my_file.CLib.Numbers.RoundTrip.{atol-pad, atol-dec, length-pad}
use my_file.CLib.Numbers.Digits.{Lacks-dec, dec_pos}
use my_file.CLib.Strings.{cstr, last_or, init}
use my_file.CLib.Strings.Laws.{
  Lacks, Lacks-append, cstr-Lacks, cut_at-append, cut_at-Lacks, init-append, last_or-append,
}
use my_file.CLib.Files.{read_at, HasAt, HasAt-append_left, HasAt-append_right}
use my_file.Db.State.{Db, ok}
use my_file.Db.Pointers.{ptr_sz, ptr_max}
use my_file.Db.Records.{
  length_field, split_record, read_body, read_head, readidx, or_stop, third_field, record_text,
  head_text, sep, newline, idxlen_sz, idxlen_min, idxlen_max, datlen_max,
}

-- an index record: its chain pointer, and what it says of the data record
pub record Entry : Type 0 where
  pub ptr : ℕ
  pub key : List ℕ
  pub datoff : ℕ
  pub datlen : ℕ

abbrev pub body_text : Entry → List ℕ
body_text e = record_text e.key e.datoff e.datlen

abbrev pub entry_text : Entry → List ℕ
entry_text e = head_text e.ptr (length (body_text e)) ++ body_text e

-- what the format can hold
pub record Fits (e : Entry) : Type 0 where
  pub key_pos : 0 < length e.key
  pub no_null : Lacks 0 e.key
  pub no_sep : Lacks sep e.key
  pub ptr_le : e.ptr ≤ ptr_max
  pub datlen_pos : 0 < e.datlen
  pub datlen_le : e.datlen ≤ datlen_max
  pub length_le : length (body_text e) ≤ idxlen_max

-- the state behind a read of the record at `off`
abbrev pub loaded : Db → ℕ → Entry → Db
loaded s off e = record s {
  idxpos = off + (ptr_sz + idxlen_sz) + length (body_text e);
  idxoff = off;
  idxlen = length (body_text e);
  ptrval = pos e.ptr;
  idxbuf = e.key;
  datoff = e.datoff;
  datlen = e.datlen;
}

pub length_field-in_range : (n lo hi : ℕ) → lo ≤ n → n ≤ hi → length_field (pos n) lo hi ≡ some n
unfolding length_field
length_field-in_range n lo hi h k = ground arith

-- the record less its newline
abbrev line : Entry → List ℕ
line e = e.key ++ (sep ∷ (dec e.datoff ++ (sep ∷ dec e.datlen)))

body_text-line : (e : Entry) → body_text e ≡ line e ++ newline ∷ []
body_text-line e = simp append_assoc

Lacks-line : (e : Entry) → Fits e → Lacks 0 (line e)
Lacks-line e h = Lacks-append 0 e.key _ h.no_null (
  refl,
  Lacks-append 0 (dec e.datoff) _ (Lacks-dec 0 (inl (omega arith)) e.datoff)
      (refl, Lacks-dec 0 (inl (omega arith)) e.datlen),
)

module _ (e : Entry) (h : Fits e) where
  split_record-line :
      (s : Db)
      → split_record (line e) s
        ≡ ok s.ptrval (record s { idxbuf = e.key; datoff = e.datoff; datlen = e.datlen })
  unfolding split_record
  split_record-line s = rw (
    or_stop,
    third_field,
    cut_at-append sep e.key (dec e.datoff ++ (sep ∷ dec e.datlen)) h.no_sep,
    cut_at-append sep (dec e.datoff) (dec e.datlen) (Lacks-dec sep (inr (omega arith)) e.datoff),
    cut_at-Lacks sep (dec e.datlen) (Lacks-dec sep (inr (omega arith)) e.datlen),
    atol-dec e.datoff,
    atol-dec e.datlen,
    length_field-in_range e.datlen 1 datlen_max h.datlen_pos h.datlen_le,
  )

  read_body-text :
      (s : Db)
      → HasAt s.idx s.idxpos (body_text e)
      → read_body (length (body_text e)) s
        ≡ ok s.ptrval (record s {
          idxpos = s.idxpos + length (body_text e);
          idxbuf = e.key;
          datoff = e.datoff;
          datlen = e.datlen;
        })
  unfolding read_body
  read_body-text s at =
      let last : last_or 0 (body_text e) ≡ newline =
        ap (last_or 0) (body_text-line e) ∙ last_or-append 0 (line e) newline in
      let text : cstr (init (body_text e)) ≡ line e =
        ap (λ t. cstr (init t)) (body_text-line e)
        ∙ (ap cstr (init-append (line e) newline) ∙ cstr-Lacks (line e) (Lacks-line e h)) in
      rw (at, ==-refl (length (body_text e)), last, text) (split_record-line _)

  pub length_body_bounds : (6 ≤ length (body_text e)) × (length (body_text e) < 10 ^ 4)
  length_body_bounds =
      let size : length (body_text e)
          ≡ length e.key + (1 + (length (dec e.datoff) + (1 + (length (dec e.datlen) + 1)))) =
        omega (
          arith,
          length-append e.key (sep ∷ (dec e.datoff ++ (sep ∷ (dec e.datlen ++ newline ∷ [])))),
          length-append (dec e.datoff) (sep ∷ (dec e.datlen ++ newline ∷ [])),
          length-append (dec e.datlen) (newline ∷ []),
        ) in
      let k = h.key_pos in
      let m = h.length_le in (omega (arith, size, dec_pos e.datoff, dec_pos e.datlen), omega arith)

  pub length-head : length (head_text e.ptr (length (body_text e))) ≡ ptr_sz + idxlen_sz
  length-head = omega (
    arith,
    length-append (pad ptr_sz (dec e.ptr)) (pad idxlen_sz (dec (length (body_text e)))),
    length-pad 5 e.ptr (let p = h.ptr_le in omega arith),
    length-pad 3 (length (body_text e)) length_body_bounds.1,
  )

  pub read_head-text :
      (s : Db)
      → HasAt s.idx s.idxpos (body_text e)
      → read_head (head_text e.ptr (length (body_text e))) s
        ≡ ok (pos e.ptr) (record s {
          idxpos = s.idxpos + length (body_text e);
          idxlen = length (body_text e);
          ptrval = pos e.ptr;
          idxbuf = e.key;
          datoff = e.datoff;
          datlen = e.datlen;
        })
  unfolding read_head
  read_head-text s at =
      let p = pad ptr_sz (dec e.ptr) in
      let q = pad idxlen_sz (dec (length (body_text e))) in
      let width : length p ≡ ptr_sz = length-pad 5 e.ptr (let b = h.ptr_le in omega arith) in
      rw
        (
          or_stop,
          drop-append ptr_sz p q width,
          take-append ptr_sz p q width,
          atol-pad idxlen_sz (length (body_text e)),
          atol-pad ptr_sz e.ptr,
          length_field-in_range (length (body_text e)) idxlen_min idxlen_max length_body_bounds.0
              h.length_le,
        )
        (read_body-text _ at)

  -- Reading where the file holds a record gives its pointer and sets the fields of the structure.
  pub readidx-entry :
      (s : Db) (off : ℕ)
      → off ≢ 0
      → HasAt s.idx off (entry_text e)
      → readidx (pos off) s ≡ ok (pos e.ptr) (loaded s off e)
  unfolding readidx
  readidx-entry s off ne at =
      let set : (off == 0) ≡ false = ground arith in
      let head : read_at s.idx off (ptr_sz + idxlen_sz) ≡ head_text e.ptr (length (body_text e)) =
        rw length-head at (HasAt-append_left s.idx off _ (body_text e) at) in
      let body : HasAt s.idx (off + (ptr_sz + idxlen_sz)) (body_text e) =
        rw length-head at (HasAt-append_right s.idx off _ (body_text e) at) in
      rw (set, head, length-head)
        (read_head-text (record s { idxpos = off + (ptr_sz + idxlen_sz); idxoff = off }) body)

  pub length-entry_text : length (entry_text e) ≡ ptr_sz + idxlen_sz + length (body_text e)
  length-entry_text =
      omega
        (arith, length-append (head_text e.ptr (length (body_text e))) (body_text e), length-head)
