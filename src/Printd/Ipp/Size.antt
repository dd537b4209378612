-- ===== src/Printd/Ipp/Size.antt =====
-- The length of the IPP header, which `printer_thread` puts in a buffer of IBUFSZ bytes.
use my_file.Prelude.{
  ℕ, ◌+◌, ◌%◌, ◌≡◌, refl, ap, ◌∙◌, inl, inr, List, [], ◌∷◌, ◌++◌, arith, ◌==◌, Bool-cases, ltb, ◌<◌,
  ◌≤◌, le→ltb_false, if◌then◌else◌, length, length-append,
}
use my_file.Printd.Queue.{Job}
use my_file.Printd.Heap.{ok, invalid}
use my_file.Printd.Ipp.{document_type, tag_end_of_attr, ipp_bytes, ipp_header, be16, uri_of}
use my_file.Printd.Ipp.Texts.{port_suffix}
use my_file.Printd.Ipp.Encode.{Attribute, encode, encodes, job_attributes, ipp_bytes-encodes}

-- the bytes of some attributes: five each, and their names and values
abbrev sizes : List Attribute → ℕ
sizes [] = 0
sizes (a ∷ attrs) = 5 + length a.name + length a.value + sizes attrs

length-encodes : (attrs : List Attribute) → length (encodes attrs) ≡ sizes attrs
length-encodes [] = refl
length-encodes (a ∷ attrs) = omega (
  arith,
  length-append (encode a) (encodes attrs),
  length-append a.name (be16 (length a.value) ++ a.value),
  length-encodes attrs,
)

length-document_type :
    (flags : ℕ) → length (document_type flags) ≡ (if flags % 2 == 1 then 10 else 22)
length-document_type flags = elim (Bool-cases (flags % 2 == 1)) [
  | inl text ↦ rw text refl
  | inr other ↦ rw other refl
]

pub length-ipp_bytes :
    (printer_name : List ℕ) (jp : Job)
    → length (ipp_bytes printer_name jp)
      ≡ (if jp.req.flags % 2 == 1 then 10 else 22)
        + (160 + length printer_name + length jp.req.usernm + length jp.req.jobnm)
length-ipp_bytes printer_name jp =
    let attrs = job_attributes printer_name jp in
    rw (← length-document_type jp.req.flags) (
      ap (length {0}) (ipp_bytes-encodes printer_name jp)
      ∙ omega (
        arith,
        length-append (encodes attrs) (tag_end_of_attr ∷ []),
        length-encodes attrs,
        length-append printer_name port_suffix,
      ))

pub length-uri_of :
    (printer_name : List ℕ) → length (uri_of printer_name) ≡ length printer_name + 11
length-uri_of printer_name = omega (arith, length-append printer_name port_suffix)

uri_test : (n : ℕ) → ltb 64 (n + 11 + 1) ≡ ltb 52 n
uri_test n = ground arith

-- The IPP header that printer_thread writes to its buffer has 170 bytes for a text and 182 for
-- another document, and those of the names of the printer, the user and the job. It is written to
-- its end exactly where the name of the printer has at most 52 bytes and the header at most 512;
-- else printer_thread writes behind str or behind ibuf.
pub length-ipp_header :
    (printer_name : List ℕ) (jp : Job)
    → (length (ipp_bytes printer_name jp)
        ≡ (if jp.req.flags % 2 == 1 then 10 else 22)
          + (160 + length printer_name + length jp.req.usernm + length jp.req.jobnm))
      × (ipp_header printer_name jp ≡ (
          if ltb 52 (length printer_name)
          then invalid
          else if ltb 512 (
              (if jp.req.flags % 2 == 1 then 10 else 22)
              + (160 + length printer_name + length jp.req.usernm + length jp.req.jobnm))
          then invalid
          else ok (ipp_bytes printer_name jp)))
unfolding ipp_header
length-ipp_header printer_name jp = (
  length-ipp_bytes printer_name jp,
  rw (length-uri_of printer_name, uri_test (length printer_name), length-ipp_bytes printer_name jp)
      refl,
)

-- The header of a job where it fits, with the bounds on the names that follow.
pub record Fits (printer_name : List ℕ) (jp : Job) : Type 0 where
  pub written : ipp_header printer_name jp ≡ ok (ipp_bytes printer_name jp)
  pub short_user : length jp.req.usernm < 512
  pub short_job : length jp.req.jobnm < 512

pub ipp_header-Fits :
    (printer_name : List ℕ) (jp : Job)
    → length printer_name ≤ 52
    → (if jp.req.flags % 2 == 1 then 10 else 22)
        + (160 + length printer_name + length jp.req.usernm + length jp.req.jobnm)
      ≤ 512
    → Fits printer_name jp
ipp_header-Fits printer_name jp p h = record {
  written =
      (length-ipp_header printer_name jp).1
      ∙ rw
          (
            le→ltb_false 52 (length printer_name) p,
            le→ltb_false 512
                ((if jp.req.flags % 2 == 1 then 10 else 22)
                  + (160 + length printer_name + length jp.req.usernm + length jp.req.jobnm))
                h,
          )
          refl;
  short_user = omega arith;
  short_job = omega arith;
}
