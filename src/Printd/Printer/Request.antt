-- ===== src/Printd/Printer/Request.antt =====
-- What `printer_thread` sends to the printer: the headers within their buffers, and the document.
use my_file.Prelude.{
  ℕ, ◌+◌, ◌^◌, ◌≤◌, ◌<◌, ◌≡◌, refl, ap, ◌∙◌, Bool, true, false, ◌&&◌, inl, inr, Bool-cases, List,
  [], ◌∷◌, ◌++◌, arith, ◌==◌, ◌%◌, if◌then◌else◌, le→ltb_false, length, length-append,
}
use my_file.CLib.Numbers.{dec}
use my_file.CLib.Numbers.RoundTrip.{length-dec}
use my_file.Printd.Heap.{ok}
use my_file.Printd.Queue.{Job}
use my_file.Printd.Ipp.{ipp_bytes, http_bytes, http_header}
use my_file.Printd.Ipp.Texts.{ipp_version, crlf, content_length, content_type, host, port_suffix}
use my_file.Printd.Ipp.Size.{length-ipp_bytes, ipp_header-Fits}
use my_file.Printd.Chunks.{Wrote, wrote_all, write_error, wrote_less, documents, all_written}
use my_file.Printd.Printer.{Sending, send_document, headers, send_job}

-- The names of a job and the printer whose headers stay in the buffers.
pub record Short (name : List ℕ) (x : Job) : Type 0 where
  pub printer : length name ≤ 52
  pub header :
      (if x.req.flags % 2 == 1 then 10 else 22)
        + (160 + length name + length x.req.usernm + length x.req.jobnm)
      ≤ 512

-- the bytes of both headers
abbrev pub both_headers : List ℕ → Job → ℕ → List ℕ
both_headers name x st_size =
    http_bytes name st_size (length (ipp_bytes name x)) ++ ipp_bytes name x

length-http_bytes :
    (name : List ℕ) (st_size ilen : ℕ)
    → length (http_bytes name st_size ilen)
      ≡ 84 + length name + length name + length (dec (st_size + ilen))
unfolding http_bytes
length-http_bytes name st_size ilen =
    let digits = dec (st_size + ilen) in
    let tail =
      crlf ++ (content_type ++ (crlf ++ (host ++ (name ++ (port_suffix ++ (crlf ++ crlf)))))) in
    omega (
      arith,
      length-append name (ipp_version ++ (crlf ++ (content_length ++ (digits ++ tail)))),
      length-append digits tail,
      length-append name (port_suffix ++ (crlf ++ crlf)),
    )

headers-Short :
    (name : List ℕ) (x : Job) (st_size : ℕ)
    → Short name x
    → st_size < 2 ^ 63
    → headers name x st_size ≡ ok (both_headers name x st_size)
unfolding headers http_header
headers-Short name x st_size s h =
    let ilen = length (ipp_bytes name x) in
    let size : ilen ≤ 512 = omega (arith, length-ipp_bytes name x, s.header) in
    let digits : length (dec (st_size + ilen)) ≤ 19 =
      length-dec 18 (st_size + ilen) (omega (arith, h, size)) in
    rw
      (
        (ipp_header-Fits name x s.printer s.header).written,
        le→ltb_false 512 (length (http_bytes name st_size ilen))
            (omega (arith, length-http_bytes name st_size ilen, digits, s.printer)),
      )
      refl

-- The headers and all reads are written whole, and no read fails.
abbrev pub request_whole : Sending → Bool
request_whole sending =
    sending.headers_sent && (if sending.read_fails then false else all_written sending.reads)

send_document-all_written :
    (reads : List (List ℕ × Wrote)) (fails : Bool)
    → (send_document reads fails).1 ≡ (if fails then false else all_written reads)
unfolding send_document
send_document-all_written [] true = refl
send_document-all_written [] false = refl
send_document-all_written ((chunk, wrote_all) ∷ reads) fails = send_document-all_written reads fails
send_document-all_written ((chunk, write_error errno) ∷ reads) true = refl
send_document-all_written ((chunk, write_error errno) ∷ reads) false = refl
send_document-all_written ((chunk, wrote_less) ∷ reads) true = refl
send_document-all_written ((chunk, wrote_less) ∷ reads) false = refl

send_document-whole :
    (reads : List (List ℕ × Wrote)) (fails : Bool)
    → (send_document reads fails).1 ≡ true
    → (send_document reads fails).0 ≡ documents reads
unfolding send_document
send_document-whole [] true h = cc
send_document-whole [] false h = refl
send_document-whole ((chunk, wrote_all) ∷ reads) fails h =
    ap (λ t. chunk ++ t) (send_document-whole reads fails h)
send_document-whole ((chunk, write_error errno) ∷ reads) fails h = cc
send_document-whole ((chunk, wrote_less) ∷ reads) fails h = cc

-- What is sent, and whether it is the whole request.
pub record Sends (name : List ℕ) (x : Job) (sending : Sending) : Type 0 where
  pub sent : List ℕ
  pub runs : send_job name x sending ≡ ok (sent, request_whole sending)
  pub bytes :
      request_whole sending ≡ true
      → sent ≡ both_headers name x sending.st_size ++ documents sending.reads

pub send_job-Sends :
    (name : List ℕ) (x : Job) (sending : Sending)
    → Short name x
    → sending.st_size < 2 ^ 63
    → Sends name x sending
unfolding send_job
send_job-Sends name x sending s h =
    let fits = headers-Short name x sending.st_size s h in
    let whole = send_document-all_written sending.reads sending.read_fails in
    elim (Bool-cases sending.headers_sent) [
      | inl all ↦ record {
        sent =
            both_headers name x sending.st_size
            ++ (send_document sending.reads sending.read_fails).0;
        runs =
            rw (fits, all)
              (ap
                (λ b. ok (
                  both_headers name x sending.st_size
                      ++ (send_document sending.reads sending.read_fails).0,
                  b,
                ))
                whole);
        bytes = λ k.
            ap (λ t. both_headers name x sending.st_size ++ t)
              (send_document-whole sending.reads sending.read_fails (whole ∙ (rw all at k)));
      }
      | inr part ↦ record {
        sent = [];
        runs = rw (fits, part) refl;
        bytes = λ k. let j = rw part at k in cc;
      }
    ]
