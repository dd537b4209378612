-- ===== src/Printd/Status.antt =====
-- `printer_status` and `readmore`: the response of the printer. Bytes beyond those that were read
-- are what the memory held; a scan that leaves the buffer is an invalid access.
pub mod HeaderEnd
use my_file.Prelude.{
  ℕ, zero, suc, ◌+◌, ◌-◌, ◌*◌, ◌^◌, Bool, true, false, ◌&&◌, ◌||◌, not, Option, none, some, List,
  [], ◌∷◌, ◌++◌, ltb, leb, ◌==◌, if◌then◌else◌, take, drop, length, ℤ, pos, negsuc,
}
use my_file.CLib.Numbers.{is_space, is_digit, atol_digits}
use my_file.CLib.Files.{write_at}
use my_file.Printd.Heap.{Run, ok, invalid, out_of_fuel, ◌>>=◌}

-- what a call of `tread` brings: bytes, or nothing at the end, an error or a time-out
pub data Read : Type 0 where
  got : List ℕ → Read
  nothing : Read

-- the buffer with all its bytes, the end of the data in it, and the reads to come
pub record Reply : Type 0 where
  pub buf : List ℕ
  pub nr : ℕ
  pub reads : List Read

abbrev pub iobufsz : ℕ
iobufsz = 8192

-- the byte at an offset of the buffer
unfoldable pub byte_at : List ℕ → ℕ → Option ℕ
byte_at [] k = none
byte_at (b ∷ bs) zero = some b
byte_at (b ∷ bs) (suc k) = byte_at bs k

abbrev pub is_byte : Option ℕ → ℕ → Bool
is_byte none c = false
is_byte (some b) c = b == c

abbrev keep_read : List ℕ → ℕ → List ℕ → List Read → Option Reply
keep_read buf off [] reads = none
keep_read buf off (b ∷ bs) reads =
    some (record { buf = write_at buf off (b ∷ bs); nr = off + length (b ∷ bs); reads = reads })

abbrev pub next_read : List ℕ → ℕ → ℕ → List Read → Option Reply
next_read buf off n [] = none
next_read buf off n (nothing ∷ reads) = none
next_read buf off n (got bs ∷ reads) = keep_read buf off (take n bs) reads

-- `fresh` is what the memory holds that `realloc` adds.
unfoldable pub readmore : List ℕ → ℕ → Reply → Option Reply
readmore fresh off st =
    let buf = if ltb off (length st.buf) then st.buf else st.buf ++ fresh in
    next_read buf off (length buf - off) st.reads

-- "get more header": only where all that was read has been passed
unfoldable pub refill : List ℕ → ℕ → Reply → Option Reply
unfolding readmore
refill fresh i st = if leb st.nr i then readmore fresh i st else some st

-- how many bytes from here on satisfy the test; an invalid access where all of them do
unfoldable pub run_of : (ℕ → Bool) → List ℕ → Run ℕ
run_of p [] = invalid
run_of p (b ∷ bs) = if p b then (run_of p bs >>= λ n. ok (suc n)) else ok 0

abbrev pub line_feed : ℕ
line_feed = 10

abbrev pub carriage_return : ℕ
carriage_return = 13

-- the end of the header: a line end and an empty line
unfoldable pub ends_at : List ℕ → ℕ → Bool
unfolding byte_at
ends_at buf i =
    is_byte (byte_at buf i) line_feed
    && (is_byte (byte_at buf (i + 1)) carriage_return && is_byte (byte_at buf (i + 2)) line_feed)

-- `while (i < nr - 2)`, for the rounds that are left
unfoldable pub scan_end : ℕ → List ℕ → ℕ → Bool × ℕ
unfolding ends_at
scan_end zero buf i = (false, i)
scan_end (suc n) buf i =
    let rest = scan_end n buf (i + 1) in if ends_at buf i then (true, i + 3) else rest

abbrev pub end_next :
    Bool → ℕ → Option Reply → (Reply → Run (Option (Reply × ℕ))) → Run (Option (Reply × ℕ))
end_next found j none more = ok none
end_next true j (some st) more = ok (some (st, j))
end_next false j (some st) more = more st

-- "look for end of HTTP header"
unfoldable pub end_loop : List ℕ → ℕ → Reply → ℕ → Run (Option (Reply × ℕ))
unfolding scan_end refill
end_loop fresh zero st i = out_of_fuel
end_loop fresh (suc fuel) st i =
    let scan = scan_end (st.nr - 2 - i) st.buf i in
    end_next scan.0 scan.1 (refill fresh scan.1 st) (λ st'. end_loop fresh fuel st' scan.1)

abbrev pub is_c : ℕ → Bool
is_c b = (b == b'C') || (b == b'c')

abbrev pub stop_at : Option ℕ → ℕ → Run ℕ → Run ℕ
stop_at none i more = invalid
stop_at (some b) i more = if is_c b then ok i else more

-- `while (*cp != 'C' && *cp != 'c' && i < nr)`, for the rounds that are left
unfoldable pub seek_c : ℕ → List ℕ → ℕ → Run ℕ
unfolding byte_at
seek_c zero buf i = stop_at (byte_at buf i) i (ok i)
seek_c (suc n) buf i = let more = seek_c n buf (i + 1) in stop_at (byte_at buf i) i more

abbrev pub lower : ℕ → ℕ
lower c = if leb b'A' c && leb c b'Z' then c + 32 else c

-- `strncasecmp` with a lower-case text, in memory that may end
unfoldable pub same_text : List ℕ → List ℕ → Run Bool
same_text [] bs = ok true
same_text (p ∷ ps) [] = invalid
same_text (p ∷ ps) (b ∷ bs) = if lower b == p then same_text ps bs else ok false

-- `content-length:`
abbrev pub length_name : List ℕ
length_name =
    b'c' ∷ b'o' ∷ b'n' ∷ b't' ∷ b'e' ∷ b'n' ∷ b't' ∷ b'-' ∷ b'l' ∷ b'e' ∷ b'n' ∷ b'g' ∷ b't' ∷ b'h'
    ∷ b':' ∷ []

-- The number behind the name at `i`, which is cut off by a null byte, and the offset behind that.
unfoldable pub length_value : Reply → ℕ → Run (Reply × (ℕ × ℕ))
unfolding run_of
length_value st i = do
  spaces ← run_of is_space (drop (i + 15) st.buf)
  let start = i + 15 + spaces
  digits ← run_of is_digit (drop start st.buf)
  let end = start + digits
  ok (
    record st { buf = write_at st.buf end (0 ∷ []) },
    (end + 1, atol_digits 0 (drop start st.buf)),
  )

-- "search for the Content-Length specifier"
unfoldable pub length_loop : List ℕ → ℕ → Reply → ℕ → Run (Option (Reply × (ℕ × ℕ)))
unfolding seek_c same_text length_value refill
length_loop fresh zero st i = out_of_fuel
length_loop fresh (suc fuel) st i = do
  j ← seek_c (st.nr - i) st.buf i
  elim (refill fresh j st) [
    | none ↦ ok none
    | some st' ↦ do
      here ← same_text length_name (drop j st'.buf)
      elim here [
        | true ↦ length_value st' j >>= λ r. ok (some r)
        | false ↦ length_loop fresh fuel st' (j + 1)
      ]
  ]

-- the status line: the code, or nothing for a bad format, and the end of the line
unfoldable pub status_line : Reply → Run (Reply × (Option ℕ × ℕ))
unfolding run_of
status_line st = do
  spaces ← run_of is_space (drop 8 st.buf)
  let start = 8 + spaces
  digits ← run_of is_digit (drop start st.buf)
  elim (digits == 0) [
    | true ↦ ok (st, (none, start))
    | false ↦ do
      let reason = start + digits + 1
      let buf = write_at st.buf (start + digits) (0 ∷ [])
      rest ← run_of (λ b. not ((b == carriage_return) || (b == line_feed))) (drop reason buf)
      ok (
        record st { buf = write_at buf (reason + rest) (0 ∷ []) },
        (some (atol_digits 0 (drop start st.buf)), reason + rest),
      )
  ]

-- a number of two or four bytes, highest first
abbrev pub big_endian : ℕ → List ℕ → Option ℕ
big_endian acc [] = some acc
big_endian acc (b ∷ bs) = big_endian (acc * 256 + b) bs

abbrev pub number_at : List ℕ → ℕ → ℕ → Run ℕ
number_at buf off n =
    let bs = take n (drop off buf) in
    if length bs == n then (elim (big_endian 0 bs) [ none ↦ invalid | some k ↦ ok k ]) else invalid

unfoldable pub same_number : ℤ → ℤ → Bool
same_number (pos m) (pos n) = m == n
same_number (negsuc m) (negsuc n) = m == n
same_number (pos m) (negsuc n) = false
same_number (negsuc m) (pos n) = false

-- the IPP header at `i`: whether it is of this job and its status is one of success
unfoldable pub ipp_status : List ℕ → ℕ → ℤ → Run Bool
unfolding same_number
ipp_status buf i jobid = do
  status ← number_at buf (i + 2) 2
  request_id ← number_at buf (i + 4) 4
  ok (same_number (pos request_id) jobid && leb status 0xff)

-- "The HTTP request was okay, but we still need to check the IPP status."
unfoldable pub check_ipp : List ℕ → ℕ → Reply → ℕ → ℤ → Run Bool
unfolding length_loop end_loop ipp_status refill readmore
check_ipp fresh fuel st cp jobid = do
  sized ← length_loop fresh fuel st cp
  elim sized [
    | none ↦ ok false
    | some (st1, (i, len)) ↦ elim (refill fresh i st1) [
      | none ↦ ok false
      | some st2 ↦ do
        ended ← end_loop fresh fuel st2 i
        elim ended [
          | none ↦ ok false
          | some (st3, j) ↦ elim (if ltb st3.nr (j + len) then readmore fresh j st3 else some st3) [
            | none ↦ ok false
            | some st4 ↦ ipp_status st4.buf j jobid
          ]
        ]
    ]
  ]

-- what becomes of a code: read on for an informational one, or an error, or the IPP status
unfoldable pub printer_status : List ℕ → ℕ → List ℕ → List Read → ℤ → Run Bool
unfolding status_line check_ipp
printer_status fresh zero buf reads jobid = out_of_fuel
printer_status fresh (suc fuel) buf reads jobid =
    let more : Reply → Run Bool = λ st. printer_status fresh fuel st.buf st.reads jobid in
    elim (next_read buf 0 iobufsz reads) [
      | none ↦ ok false
      | some st ↦ do
        (st1, (code, cp)) ← status_line st
        elim code [
          | none ↦ more st1
          | some c ↦
              if leb 100 c && leb c 199
              then more st1
              else if leb 200 c && leb c 299
              then check_ipp fresh (suc fuel) st1 cp jobid
              else ok false
        ]
    ]
