-- ===== src/Printd/Ipp.antt =====
-- The headers of a request to the printer: `add_option`, and what `printer_thread` puts in `ibuf`
-- and `hbuf`. A buffer stands as the bytes that are sent of it.
pub mod Texts
pub mod Encode
pub mod Size
pub mod Decode
use my_file.Prelude.{
  ℕ, ◌+◌, ◌-◌, ◌*◌, ◌/◌, ◌%◌, ◌^◌, List, [], ◌∷◌, ◌++◌, ◌==◌, ltb, if◌then◌else◌, length, ℤ, pos,
  negsuc,
}
use my_file.CLib.Numbers.{dec}
use my_file.Printd.Heap.{Run, ok, invalid}
use my_file.Printd.Queue.{Job, Printreq}
use my_file.Printd.Ipp.Texts.{
  attributes_charset, utf_8, attributes_natural_language, en_us, printer_uri, requesting_user_name,
  job_name, document_format, text_plain, application_postscript, http_scheme, port_suffix, post,
  ipp_version, content_length, content_type, host, crlf,
}

-- the two bytes of `htons(n)`, an `int16_t`
abbrev pub be16 : ℕ → List ℕ
be16 n = n / 256 % 256 ∷ (n % 256 ∷ [])

-- the four bytes of `htonl` of a `long`, an `int32_t`
abbrev pub low32 : ℤ → ℕ
low32 (pos n) = n % 2 ^ 32
low32 (negsuc n) = 2 ^ 32 - 1 - n % 2 ^ 32

abbrev pub be32 : ℕ → List ℕ
be32 n = n / 2 ^ 24 % 256 ∷ (n / 2 ^ 16 % 256 ∷ (n / 256 % 256 ∷ (n % 256 ∷ [])))

-- what is written behind `cp`
unfoldable pub add_option : List ℕ → ℕ → List ℕ → List ℕ → List ℕ
add_option cp tag optname optval =
    cp ++ (tag ∷ (be16 (length optname) ++ (optname ++ (be16 (length optval) ++ optval))))

abbrev pub op_print_job : ℕ
op_print_job = 2

abbrev pub tag_operation_attr : ℕ
tag_operation_attr = 1

abbrev pub tag_end_of_attr : ℕ
tag_end_of_attr = 3

abbrev pub tag_namewolang : ℕ
tag_namewolang = 0x42

abbrev pub tag_uri : ℕ
tag_uri = 0x45

abbrev pub tag_charset : ℕ
tag_charset = 0x47

abbrev pub tag_natulang : ℕ
tag_natulang = 0x48

abbrev pub tag_mimetype : ℕ
tag_mimetype = 0x49

-- `req.flags & PR_TEXT`
abbrev pub document_type : ℕ → List ℕ
document_type flags = if flags % 2 == 1 then text_plain else application_postscript

abbrev pub uri_of : List ℕ → List ℕ
uri_of printer_name = http_scheme ++ (printer_name ++ port_suffix)

-- `struct ipp_hdr` up to its attributes: versions, operation and request id
abbrev pub fixed_header : ℤ → List ℕ
fixed_header jobid = 1 ∷ (1 ∷ (be16 op_print_job ++ be32 (low32 jobid)))

-- The sizes of `str`, `ibuf` and `hbuf`.
abbrev pub str_size : ℕ
str_size = 64

abbrev pub ibufsz : ℕ
ibufsz = 512

abbrev pub hbufsz : ℕ
hbufsz = 512

-- The bytes that are put in a buffer of a size, if they do not go on behind it.
abbrev pub fitting : ℕ → List ℕ → Run (List ℕ)
fitting size bytes = if ltb size (length bytes) then invalid else ok bytes

-- the bytes of the IPP header
unfoldable pub ipp_bytes : List ℕ → Job → List ℕ
unfolding add_option
ipp_bytes printer_name jp =
    let icp = fixed_header jp.jobid ++ tag_operation_attr ∷ [] in
    let icp = add_option icp tag_charset attributes_charset utf_8 in
    let icp = add_option icp tag_natulang attributes_natural_language en_us in
    let icp = add_option icp tag_uri printer_uri (uri_of printer_name) in
    let icp = add_option icp tag_namewolang requesting_user_name jp.req.usernm in
    let icp = add_option icp tag_namewolang job_name jp.req.jobnm in
    let icp = add_option icp tag_mimetype document_format (document_type jp.req.flags) in
    icp ++ tag_end_of_attr ∷ []

-- "Set up the IPP header.", with the URI and its null byte in `str`
unfoldable pub ipp_header : List ℕ → Job → Run (List ℕ)
ipp_header printer_name jp =
    if ltb str_size (length (uri_of printer_name) + 1)
    then invalid
    else fitting ibufsz (ipp_bytes printer_name jp)

-- the bytes of the HTTP header
unfoldable pub http_bytes : List ℕ → ℕ → ℕ → List ℕ
http_bytes printer_name st_size ilen =
    post
    ++ (printer_name
        ++ (ipp_version
            ++ (crlf
                ++ (content_length
                    ++ (dec (st_size + ilen)
                        ++ (crlf
                            ++ (content_type
                                ++ (crlf
                                    ++ (host
                                        ++ (printer_name
                                            ++ (port_suffix ++ (crlf ++ crlf))))))))))))

-- "Set up the HTTP header."
unfoldable pub http_header : List ℕ → ℕ → ℕ → Run (List ℕ)
http_header printer_name st_size ilen = fitting hbufsz (http_bytes printer_name st_size ilen)
