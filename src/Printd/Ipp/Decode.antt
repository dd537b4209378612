-- ===== src/Printd/Ipp/Decode.antt =====
-- The IPP header read as RFC 2910 describes it.
use mathlib.Core.List.{append_assoc}
use my_file.Prelude.{
  ℕ, zero, suc, ◌+◌, ◌*◌, ◌/◌, ◌%◌, ◌^◌, ◌≤◌, ◌<◌, ◌≡◌, refl, ap, ◌∙◌, false, inl, inr, Option,
  none, some, List, [], ◌∷◌, ◌++◌, arith, ◌==◌, ltb, le→ltb_false, Bool-cases, if◌then◌else◌,
  length, length-append, take, drop, take-length_append, drop-length_append, pos,
}
use my_file.Printd.Heap.{ok}
use my_file.Printd.Queue.{Job}
use my_file.Printd.Ipp.{be16, be32, low32, tag_end_of_attr, ipp_bytes, ipp_header}
use my_file.Printd.Ipp.Texts.{http_scheme, port_suffix, text_plain, application_postscript}
use my_file.Printd.Ipp.Encode.{Attribute, encodes, job_attributes, ipp_bytes-encodes}
use my_file.Printd.Ipp.Size.{ipp_header-Fits}

module _ {A B : Type 0} where
  infixl 5 ◌>>=◌
  abbrev ◌>>=◌ : Option A → (A → Option B) → Option B
  none >>= k = none
  some a >>= k = k a

-- `n` bytes, and those behind them
abbrev pub cut : ℕ → List ℕ → Option (List ℕ × List ℕ)
cut n bs = if ltb (length bs) n then none else some (take n bs, drop n bs)

-- a length of two bytes and attrs many bytes
abbrev pub counted : List ℕ → Option (List ℕ × List ℕ)
counted (h ∷ (l ∷ bs)) = cut (h * 256 + l) bs
counted _ = none

-- The attributes up to the tag that ends them, each read with one unit of fuel.
unfoldable pub attributes : ℕ → List ℕ → Option (List Attribute)
attributes zero bs = none
attributes (suc fuel) [] = none
attributes (suc fuel) (tag ∷ bs) = if tag == tag_end_of_attr then some [] else do
  (name, bs) ← counted bs
  (value, bs) ← counted bs
  attrs ← attributes fuel bs
  some (record { tag = tag; name = name; value = value } ∷ attrs)

-- The lengths of the attributes fit in two bytes, and no tag ends the attributes.
abbrev Encodable : List Attribute → Type 0
Encodable [] = Unit
Encodable (a ∷ attrs) =
    ((a.tag == tag_end_of_attr) ≡ false)
    × (length a.name < 2 ^ 16)
    × (length a.value < 2 ^ 16)
    × Encodable attrs

counted-be16 :
    (xs rest : List ℕ)
    → length xs < 2 ^ 16
    → counted (be16 (length xs) ++ (xs ++ rest)) ≡ some (xs, rest)
counted-be16 xs rest h =
    let n : length xs / 256 % 256 * 256 + length xs % 256 ≡ length xs = omega arith in
    rw
      (
        n,
        le→ltb_false (length (xs ++ rest)) (length xs) (omega (arith, length-append xs rest)),
        take-length_append xs rest,
        drop-length_append xs rest,
      )
      refl

attributes-encodes :
    (attrs : List Attribute) (rest : List ℕ)
    → Encodable attrs
    → attributes (suc (length attrs)) (encodes attrs ++ (tag_end_of_attr ∷ rest)) ≡ some attrs
unfolding attributes
attributes-encodes [] rest h = refl
attributes-encodes (a ∷ attrs) rest h =
    let tail : List ℕ = encodes attrs ++ (tag_end_of_attr ∷ rest) in
    let split : encodes (a ∷ attrs) ++ (tag_end_of_attr ∷ rest)
        ≡ a.tag
          ∷ (be16 (length a.name) ++ (a.name ++ (be16 (length a.value) ++ (a.value ++ tail)))) =
      simp append_assoc in
    ap (attributes (suc (suc (length attrs)))) split
    ∙ rw
        (
          h.0,
          counted-be16 a.name (be16 (length a.value) ++ (a.value ++ tail)) h.1,
          counted-be16 a.value tail h.2,
          attributes-encodes attrs rest h.3,
        )
        refl

-- a number, the most significant byte first
abbrev pub big_endian : List ℕ → ℕ → ℕ
big_endian [] n = n
big_endian (b ∷ bs) n = big_endian bs (n * 256 + b)

-- a request as RFC 2910 describes it, with a group of attributes
pub record IppRequest : Type 0 where
  pub version : ℕ × ℕ
  pub operation : ℕ
  pub request_id : ℕ
  pub group : ℕ
  pub attrs : List Attribute

-- The request of some bytes, with a bound on its attributes.
unfoldable pub ipp_request : ℕ → List ℕ → Option IppRequest
unfolding attributes
ipp_request fuel (major ∷ (minor ∷ (o1 ∷ (o2 ∷ (r1 ∷ (r2 ∷ (r3 ∷ (r4 ∷ (group ∷ bs))))))))) = do
  attrs ← attributes fuel bs
  some (record {
    version = (major, minor);
    operation = big_endian (o1 ∷ (o2 ∷ [])) 0;
    request_id = big_endian (r1 ∷ (r2 ∷ (r3 ∷ (r4 ∷ [])))) 0;
    group = group;
    attrs = attrs;
  })
ipp_request fuel _ = none

short_type :
    (flags : ℕ) → length (if flags % 2 == 1 then text_plain else application_postscript) < 2 ^ 16
short_type flags = elim (Bool-cases (flags % 2 == 1)) [
  | inl text ↦ rw text (omega arith)
  | inr other ↦ rw other (omega arith)
]

big_endian-be32 : (n : ℕ) → big_endian (be32 (low32 (pos n))) 0 ≡ n % 2 ^ 32
big_endian-be32 n = omega arith

job_attributes-Encodable :
    (printer_name : List ℕ) (jp : Job)
    → length printer_name ≤ 52
    → length jp.req.usernm < 512
    → length jp.req.jobnm < 512
    → Encodable (job_attributes printer_name jp)
job_attributes-Encodable printer_name jp p u j =
    let types = short_type jp.req.flags in
    let uri : length (http_scheme ++ (printer_name ++ port_suffix)) < 2 ^ 16 =
      omega (arith, length-append printer_name port_suffix) in
    (
      refl,
      omega arith,
      omega arith,
      (
        refl,
        omega arith,
        omega arith,
        (
          refl,
          omega arith,
          uri,
          (
            refl,
            omega arith,
            omega arith,
            (refl, omega arith, omega arith, (refl, omega arith, types, tt)),
          ),
        ),
      ),
    )

-- For a job of a number that is not negative, the name of a printer of at most 52 bytes, and a
-- header of at most 512 bytes: printer_thread writes the IPP header within its buffers, and reading
-- it as RFC 2910 describes it gives version 1.1, the operation Print-Job, the low 32 bits of the
-- number as request id, and the operation attributes: charset, language, URI of the printer, user,
-- name of the job, and text/plain or application/postscript by the flag of the job.
pub attributes-ipp_header :
    (printer_name : List ℕ) (jp : Job) (n : ℕ)
    → jp.jobid ≡ pos n
    → length printer_name ≤ 52
    → (if jp.req.flags % 2 == 1 then 10 else 22)
        + (160 + length printer_name + length jp.req.usernm + length jp.req.jobnm)
      ≤ 512
    → (bytes : List ℕ) × ((ipp_header printer_name jp ≡ ok bytes)
        × (ipp_request 7 bytes
            ≡ some (record {
              version = (1, 1);
              operation = 2;
              request_id = n % 2 ^ 32;
              group = 1;
              attrs = job_attributes printer_name jp;
            })))
unfolding ipp_request
attributes-ipp_header printer_name jp n number p h =
    let f = ipp_header-Fits printer_name jp p h in
    (
      ipp_bytes printer_name jp,
      (
        f.written,
        rw
            (
              ipp_bytes-encodes printer_name jp,
              number,
              big_endian-be32 n,
              attributes-encodes (job_attributes printer_name jp) []
                  (job_attributes-Encodable printer_name jp p f.short_user f.short_job),
            )
            refl,
      ),
    )
