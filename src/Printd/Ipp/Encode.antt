-- ===== src/Printd/Ipp/Encode.antt =====
-- The IPP header as a fixed part and encoded attributes.
use mathlib.Core.List.{append_assoc}
use my_file.Prelude.{ℕ, ◌%◌, ◌≡◌, List, [], ◌∷◌, ◌++◌, ◌==◌, if◌then◌else◌, length}
use my_file.Printd.Queue.{Job}
use my_file.Printd.Ipp.{be16, tag_end_of_attr, fixed_header, tag_operation_attr, ipp_bytes}
use my_file.Printd.Ipp.Texts.{
  attributes_charset, utf_8, attributes_natural_language, en_us, printer_uri, requesting_user_name,
  job_name, document_format, port_suffix, http_scheme, text_plain, application_postscript,
}

pub record Attribute : Type 0 where
  pub tag : ℕ
  pub name : List ℕ
  pub value : List ℕ

-- the bytes of an attribute, and of several
abbrev pub encode : Attribute → List ℕ
encode a = a.tag ∷ (be16 (length a.name) ++ (a.name ++ (be16 (length a.value) ++ a.value)))

abbrev pub encodes : List Attribute → List ℕ
encodes [] = []
encodes (a ∷ attrs) = encode a ++ encodes attrs

-- The attributes of a job, by the tags of RFC 2910.
abbrev pub job_attributes : List ℕ → Job → List Attribute
job_attributes printer_name jp =
    record { tag = 0x47; name = attributes_charset; value = utf_8 }
    ∷ (record { tag = 0x48; name = attributes_natural_language; value = en_us }
        ∷ (record {
          tag = 0x45;
          name = printer_uri;
          value = http_scheme ++ (printer_name ++ port_suffix);
        }
            ∷ (record { tag = 0x42; name = requesting_user_name; value = jp.req.usernm }
                ∷ (record { tag = 0x42; name = job_name; value = jp.req.jobnm }
                    ∷ (record {
                      tag = 0x49;
                      name = document_format;
                      value = if jp.req.flags % 2 == 1 then text_plain else application_postscript;
                    }
                        ∷ [])))))

pub ipp_bytes-encodes :
    (printer_name : List ℕ) (jp : Job)
    → ipp_bytes printer_name jp
      ≡ fixed_header jp.jobid
        ++ (tag_operation_attr ∷ (encodes (job_attributes printer_name jp) ++ tag_end_of_attr ∷ []))
unfolding ipp_bytes
ipp_bytes-encodes printer_name jp = simp append_assoc
