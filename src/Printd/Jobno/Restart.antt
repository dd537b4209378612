-- ===== src/Printd/Jobno/Restart.antt =====
-- The job counter across a restart of the daemon.
use my_file.Prelude.{
  ℕ, Bool, not, ◌&&◌, ◌||◌, zero, suc, ◌+◌, ◌/◌, ◌%◌, ◌≤◌, ◌<◌, ◌≡◌, refl, ap, ◌∙◌, true, false,
  inl, inr, some, List, [], ◌∷◌, ◌++◌, arith, ltb, lt→ltb, Bool-cases, ◌==◌, take, length, pos,
}
use my_file.CLib.Numbers.{dec_loop, dec, atol, atol_digits, is_digit}
use my_file.CLib.Numbers.Digits.{Lacks-dec, dec_pos}
use my_file.CLib.Numbers.RoundTrip.{atol-dec_loop, atol_digits-dec_loop, length-dec}
use my_file.CLib.Strings.{cstr}
use my_file.CLib.Strings.Laws.{Lacks}
use my_file.CLib.Files.{overlay, write_at}
use my_file.Printd.Heap.{ok, ◌>>=◌}
use my_file.Printd.Jobno.{
  first_job, filenmsz, increment, at_least_one, get_newjobno, long_max, spooldir, jobfile,
  print_long, counter_buffer, init_request, update_jobno,
}

dec_loop-append : (f n : ℕ) (xs ys : List ℕ) → dec_loop f n (xs ++ ys) ≡ dec_loop f n xs ++ ys
unfolding dec_loop
dec_loop-append zero n xs ys = refl
dec_loop-append (suc f) n xs ys = elim (Bool-cases (ltb n 10)) [
  | inl small ↦ rw small refl
  | inr big ↦ rw big (dec_loop-append f (n / 10) ((48 + n % 10) ∷ xs) ys)
]

cstr-append : (xs ys : List ℕ) → Lacks 0 xs → cstr (xs ++ ys) ≡ xs ++ cstr ys
unfolding cstr
cstr-append [] ys h = refl
cstr-append (x ∷ xs) ys h = rw (h.0, cstr-append xs ys h.1) refl

cstr-cons : (c : ℕ) (cs : List ℕ) → (c == 0) ≡ false → cstr (c ∷ cs) ≡ c ∷ cstr cs
unfolding cstr
cstr-cons c cs h = rw h refl

-- `atol` stops at a byte that is no digit.
atol-stop : (n c : ℕ) (rest : List ℕ) → is_digit c ≡ false → atol (dec n ++ (c ∷ rest)) ≡ pos n
unfolding dec atol_digits
atol-stop n c rest h = rw (← dec_loop-append n n [] (c ∷ rest)) (
    atol-dec_loop n n (c ∷ rest)
    ∙ (ap pos (atol_digits-dec_loop n n (c ∷ rest) (omega arith)) ∙ rw h refl))

-- Every byte is neither a digit nor the end of the string.
abbrev NoDigits : List ℕ → Type 0
NoDigits [] = Unit
NoDigits (c ∷ cs) = (is_digit c ≡ false) × ((c == 0) ≡ false) × NoDigits cs

-- What is laid over the front of a longer text without digits stands in front of a byte that ends
-- a number.
record Stopped (xs bs : List ℕ) : Type 0 where
  stop : ℕ
  rest : List ℕ
  bytes : bs ≡ xs ++ (stop ∷ rest)
  no_digit : is_digit stop ≡ false
  no_end : (stop == 0) ≡ false

overlay-Stopped :
    (xs text rest : List ℕ)
    → NoDigits text
    → length xs < length text
    → Stopped xs (overlay xs (text ++ rest))
unfolding overlay
overlay-Stopped [] [] rest h l = absurd (omega arith)
overlay-Stopped [] (c ∷ text) rest h l = record {
  stop = c;
  rest = text ++ rest;
  bytes = refl;
  no_digit = h.0;
  no_end = h.1;
}
overlay-Stopped (x ∷ xs) [] rest h l = absurd (omega arith)
overlay-Stopped (x ∷ xs) (c ∷ text) rest h l =
    let r = overlay-Stopped xs text rest h.2 (omega arith) in
    record {
      stop = r.stop;
      rest = r.rest;
      bytes = ap (λ t. x ∷ t) r.bytes;
      no_digit = r.no_digit;
      no_end = r.no_end;
    }

cstr-Stopped : (n : ℕ) (bs : List ℕ) → Stopped (dec n) bs → atol (cstr bs) ≡ pos n
cstr-Stopped n bs r =
    let kept : cstr bs ≡ dec n ++ (r.stop ∷ cstr r.rest) =
      ap cstr r.bytes
      ∙ (cstr-append (dec n) (r.stop ∷ r.rest) (Lacks-dec 0 (inl (omega arith)) n)
          ∙ ap (λ t. dec n ++ t) (cstr-cons r.stop r.rest r.no_end)) in
    ap atol kept ∙ atol-stop n r.stop (cstr r.rest) r.no_digit

overlay-short : (bs f : List ℕ) → length f ≤ length bs → overlay bs f ≡ bs
unfolding overlay
overlay-short [] [] h = refl
overlay-short [] (x ∷ f) h = absurd (omega arith)
overlay-short (b ∷ bs) [] h = ap (λ l. b ∷ l) (overlay-short bs [] (omega arith))
overlay-short (b ∷ bs) (x ∷ f) h = ap (λ l. b ∷ l) (overlay-short bs f (omega arith))

take-all : (n : ℕ) (xs : List ℕ) → length xs ≤ n → take n xs ≡ xs
take-all zero [] h = refl
take-all zero (x ∷ xs) h = absurd (omega arith)
take-all (suc n) [] h = refl
take-all (suc n) (x ∷ xs) h = ap (λ l. x ∷ l) (take-all n xs (omega arith))

abbrev path : List ℕ
path = spooldir ++ (b'/' ∷ jobfile)

-- whether there is neither a digit nor the end of the string
unfoldable no_digits : List ℕ → Bool
no_digits [] = true
no_digits (c ∷ cs) = not (is_digit c || (c == 0)) && no_digits cs

no_digits-NoDigits : (cs : List ℕ) → no_digits cs ≡ true → NoDigits cs
unfolding no_digits
no_digits-NoDigits [] h = tt
no_digits-NoDigits (c ∷ cs) h = (ground arith, ground arith, no_digits-NoDigits cs (ground arith))

path-NoDigits : NoDigits path
unfolding is_digit no_digits
path-NoDigits = no_digits-NoDigits path refl

first_job-filled :
    (stack bs : List ℕ)
    → 0 < length bs
    → first_job stack bs ≡ ok (atol (cstr (counter_buffer stack bs)))
first_job-filled stack [] h = absurd (omega arith)
first_job-filled stack (b ∷ bs) h = refl

next_number : (n : ℕ) → n < long_max → at_least_one (increment (pos n)) ≡ pos (suc n)
unfolding increment at_least_one
next_number n l =
    let e : n + 1 ≡ suc n = omega arith in
    rw (lt→ltb n long_max l, e, lt→ltb 0 (suc n) (omega arith)) refl

-- For a counter from 1 to below LONG_MAX and a counter file that is not longer than the digits of
-- the next number: get_newjobno hands the counter out, and after update_jobno has written the next
-- number, init_request reads that number again, whatever is on the stack.
pub init_request-update_jobno :
    (n : ℕ) (file stack : List ℕ)
    → 0 < n
    → n < long_max
    → length file ≤ length (dec (suc n))
    → (get_newjobno (pos n)).0 ≡ pos n
      × (update_jobno true (get_newjobno (pos n)).1 file >>= λ file'.
          init_request true (some file') stack)
        ≡ ok (pos (suc n))
unfolding get_newjobno update_jobno print_long init_request write_at
init_request-update_jobno n file stack p l short =
    let next : at_least_one (increment (pos n)) ≡ pos (suc n) = next_number n l in
    let digits : length (dec (suc n)) ≤ 19 = length-dec 18 (suc n) (omega arith) in
    let read : take filenmsz (overlay (dec (suc n)) file) ≡ dec (suc n) =
      ap (take filenmsz) (overlay-short (dec (suc n)) file short)
      ∙ take-all filenmsz (dec (suc n)) (omega arith) in
    let stopped : Stopped (dec (suc n)) (counter_buffer stack (dec (suc n))) =
      overlay-Stopped (dec (suc n)) path (0 ∷ stack) path-NoDigits (omega arith) in
    (
      refl,
      rw
          (
            next,
            read,
            first_job-filled stack (dec (suc n)) (dec_pos (suc n)),
            cstr-Stopped (suc n) (counter_buffer stack (dec (suc n))) stopped,
          )
          refl,
    )
