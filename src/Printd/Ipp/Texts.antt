-- ===== src/Printd/Ipp/Texts.antt =====
-- The constant texts of the headers that go to the printer.
use my_file.Prelude.{ℕ, List, [], ◌∷◌}

abbrev pub attributes_charset : List ℕ
attributes_charset =
    b'a' ∷ b't' ∷ b't' ∷ b'r' ∷ b'i' ∷ b'b' ∷ b'u' ∷ b't' ∷ b'e' ∷ b's' ∷ b'-' ∷ b'c' ∷ b'h' ∷ b'a'
    ∷ b'r' ∷ b's' ∷ b'e' ∷ b't' ∷ []

abbrev pub utf_8 : List ℕ
utf_8 = b'u' ∷ b't' ∷ b'f' ∷ b'-' ∷ b'8' ∷ []

abbrev pub attributes_natural_language : List ℕ
attributes_natural_language =
    b'a' ∷ b't' ∷ b't' ∷ b'r' ∷ b'i' ∷ b'b' ∷ b'u' ∷ b't' ∷ b'e' ∷ b's' ∷ b'-' ∷ b'n' ∷ b'a' ∷ b't'
    ∷ b'u' ∷ b'r' ∷ b'a' ∷ b'l' ∷ b'-' ∷ b'l' ∷ b'a' ∷ b'n' ∷ b'g' ∷ b'u' ∷ b'a' ∷ b'g' ∷ b'e' ∷ []

abbrev pub en_us : List ℕ
en_us = b'e' ∷ b'n' ∷ b'-' ∷ b'u' ∷ b's' ∷ []

abbrev pub printer_uri : List ℕ
printer_uri = b'p' ∷ b'r' ∷ b'i' ∷ b'n' ∷ b't' ∷ b'e' ∷ b'r' ∷ b'-' ∷ b'u' ∷ b'r' ∷ b'i' ∷ []

abbrev pub requesting_user_name : List ℕ
requesting_user_name =
    b'r' ∷ b'e' ∷ b'q' ∷ b'u' ∷ b'e' ∷ b's' ∷ b't' ∷ b'i' ∷ b'n' ∷ b'g' ∷ b'-' ∷ b'u' ∷ b's' ∷ b'e'
    ∷ b'r' ∷ b'-' ∷ b'n' ∷ b'a' ∷ b'm' ∷ b'e' ∷ []

abbrev pub job_name : List ℕ
job_name = b'j' ∷ b'o' ∷ b'b' ∷ b'-' ∷ b'n' ∷ b'a' ∷ b'm' ∷ b'e' ∷ []

abbrev pub document_format : List ℕ
document_format =
    b'd' ∷ b'o' ∷ b'c' ∷ b'u' ∷ b'm' ∷ b'e' ∷ b'n' ∷ b't' ∷ b'-' ∷ b'f' ∷ b'o' ∷ b'r' ∷ b'm' ∷ b'a'
    ∷ b't' ∷ []

abbrev pub text_plain : List ℕ
text_plain = b't' ∷ b'e' ∷ b'x' ∷ b't' ∷ b'/' ∷ b'p' ∷ b'l' ∷ b'a' ∷ b'i' ∷ b'n' ∷ []

abbrev pub application_postscript : List ℕ
application_postscript =
    b'a' ∷ b'p' ∷ b'p' ∷ b'l' ∷ b'i' ∷ b'c' ∷ b'a' ∷ b't' ∷ b'i' ∷ b'o' ∷ b'n' ∷ b'/' ∷ b'p' ∷ b'o'
    ∷ b's' ∷ b't' ∷ b's' ∷ b'c' ∷ b'r' ∷ b'i' ∷ b'p' ∷ b't' ∷ []

abbrev pub http_scheme : List ℕ
http_scheme = b'h' ∷ b't' ∷ b't' ∷ b'p' ∷ b':' ∷ b'/' ∷ b'/' ∷ []

abbrev pub port_suffix : List ℕ
port_suffix = b':' ∷ b'6' ∷ b'3' ∷ b'1' ∷ []

abbrev pub post : List ℕ
post = b'P' ∷ b'O' ∷ b'S' ∷ b'T' ∷ b' ' ∷ b'/' ∷ []

abbrev pub ipp_version : List ℕ
ipp_version =
    b'/' ∷ b'i' ∷ b'p' ∷ b'p' ∷ b' ' ∷ b'H' ∷ b'T' ∷ b'T' ∷ b'P' ∷ b'/' ∷ b'1' ∷ b'.' ∷ b'1' ∷ []

abbrev pub content_length : List ℕ
content_length =
    b'C' ∷ b'o' ∷ b'n' ∷ b't' ∷ b'e' ∷ b'n' ∷ b't' ∷ b'-' ∷ b'L' ∷ b'e' ∷ b'n' ∷ b'g' ∷ b't' ∷ b'h'
    ∷ b':' ∷ b' ' ∷ []

abbrev pub content_type : List ℕ
content_type =
    b'C' ∷ b'o' ∷ b'n' ∷ b't' ∷ b'e' ∷ b'n' ∷ b't' ∷ b'-' ∷ b'T' ∷ b'y' ∷ b'p' ∷ b'e' ∷ b':' ∷ b' '
    ∷ b'a' ∷ b'p' ∷ b'p' ∷ b'l' ∷ b'i' ∷ b'c' ∷ b'a' ∷ b't' ∷ b'i' ∷ b'o' ∷ b'n' ∷ b'/' ∷ b'i'
    ∷ b'p' ∷ b'p' ∷ []

abbrev pub host : List ℕ
host = b'H' ∷ b'o' ∷ b's' ∷ b't' ∷ b':' ∷ b' ' ∷ []

abbrev pub crlf : List ℕ
crlf = 13 ∷ 10 ∷ []
