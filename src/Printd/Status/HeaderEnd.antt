-- ===== src/Printd/Status/HeaderEnd.antt =====
-- The search of `printer_status` for the end of the HTTP header.
use my_file.Prelude.{
  ℕ, zero, suc, ◌+◌, ◌-◌, ◌<◌, ◌≡◌, refl, ap, ◌∙◌, true, false, inl, inr, Option, none, some, List,
  arith, leb, Bool-cases, Option-cases, if◌then◌else◌,
}
use my_file.Printd.Heap.{Run, ok, out_of_fuel}
use my_file.Printd.Status.{Reply, ends_at, scan_end, refill, end_loop}

-- where the header ends, among `n` offsets
abbrev pub first_end : ℕ → List ℕ → ℕ → Option ℕ
first_end zero buf i = none
first_end (suc n) buf i = if ends_at buf i then some i else first_end n buf (i + 1)

scan_end-none :
    (n : ℕ) (buf : List ℕ) (i : ℕ) → first_end n buf i ≡ none → scan_end n buf i ≡ (false, i + n)
unfolding scan_end
scan_end-none zero buf i h = let e : i ≡ i + 0 = omega arith in ap (λ k. (false, k)) e
scan_end-none (suc n) buf i h = elim (Bool-cases (ends_at buf i)) [
  | inl here ↦ let k = rw here at h in cc
  | inr past ↦
      let e : i + 1 + n ≡ i + suc n = omega arith in
      rw past (scan_end-none n buf (i + 1) (rw past at h) ∙ ap (λ k. (false, k)) e)
]

scan_end-some :
    (n : ℕ) (buf : List ℕ) (i k : ℕ) → first_end n buf i ≡ some k → scan_end n buf i ≡ (true, k + 3)
unfolding scan_end
scan_end-some zero buf i k h = cc
scan_end-some (suc n) buf i k h = elim (Bool-cases (ends_at buf i)) [
  | inl here ↦ let e : i ≡ k = ground arith in rw (here, e) refl
  | inr past ↦ rw past (scan_end-some n buf (i + 1) k (rw past at h))
]

inside : (fresh : List ℕ) (i : ℕ) (st : Reply) → i < st.nr → refill fresh i st ≡ some st
unfolding refill
inside fresh i st h = let e : leb st.nr i ≡ false = ground arith in rw e refl

module _ (fresh : List ℕ) (st : Reply) where
  -- Without an end in what was read, no round reads more.
  end_loop_spins :
      (fuel i : ℕ)
      → i < st.nr
      → first_end (st.nr - 2 - i) st.buf i ≡ none
      → end_loop fresh fuel st i ≡ out_of_fuel
  unfolding end_loop
  end_loop_spins zero i l h = refl
  end_loop_spins (suc fuel) i l h =
      let j : ℕ = i + (st.nr - 2 - i) in
      let in' : j < st.nr = omega arith in
      let z : st.nr - 2 - j ≡ 0 = omega arith in
      rw (scan_end-none (st.nr - 2 - i) st.buf i h, inside fresh j st in')
        (end_loop_spins fuel j in' (ap (λ n. first_end n st.buf j) z))

  -- what becomes of the search
  abbrev pub search_result : Option ℕ → Run (Option (Reply × ℕ))
  search_result none = out_of_fuel
  search_result (some k) = ok (some (st, k + 3))

  -- More was read than the end of the header, if it is there.
  abbrev pub MoreBehind : Option ℕ → Type 0
  MoreBehind none = Unit
  MoreBehind (some k) = k + 3 < st.nr

  -- Where not all bytes that were read have been passed: the search of printer_status for the end
  -- of the HTTP header ends behind the first end among them, if more bytes were read than it, and
  -- goes on for ever if there is none, whatever the fuel and whatever reads are to come.
  pub end_loop-first_end :
      (fuel i : ℕ)
      → i < st.nr
      → MoreBehind (first_end (st.nr - 2 - i) st.buf i)
      → end_loop fresh (suc fuel) st i ≡ search_result (first_end (st.nr - 2 - i) st.buf i)
  unfolding end_loop
  end_loop-first_end fuel i l m = elim (Option-cases (first_end (st.nr - 2 - i) st.buf i)) [
    | inl missing ↦ rw missing (end_loop_spins (suc fuel) i l missing)
    | inr (k, found) ↦
        let b : k + 3 < st.nr = rw found at m in
        rw (found, scan_end-some (st.nr - 2 - i) st.buf i k found, inside fresh (k + 3) st b) refl
  ]
