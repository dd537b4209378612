-- ===== src/CLib/Files.antt =====
-- Reads and writes of a regular file at an offset.
pub mod Patch
use my_file.Prelude.{
  ℕ, zero, suc, ◌+◌, ◌-◌, ◌≤◌, ◌<◌, ◌≡◌, ◌⊎◌, inl, inr, refl, sym, ap, ◌∙◌, List, [], ◌∷◌, ◌++◌,
  arith, length, length-append, take, drop,
}

-- what `read` returns of `n` bytes at `off`: fewer where the file ends
unfoldable pub read_at : List ℕ → ℕ → ℕ → List ℕ
read_at f off n = take n (drop off f)

-- bytes laid over the front of a file
unfoldable pub overlay : List ℕ → List ℕ → List ℕ
overlay [] f = f
overlay (b ∷ bs) [] = b ∷ overlay bs []
overlay (b ∷ bs) (_ ∷ f) = b ∷ overlay bs f

-- `write` of `bs` at `off`; a gap past the end is filled with zeros
unfoldable pub write_at : List ℕ → ℕ → List ℕ → List ℕ
unfolding overlay
write_at f zero bs = overlay bs f
write_at [] (suc off) bs = 0 ∷ write_at [] off bs
write_at (x ∷ f) (suc off) bs = x ∷ write_at f off bs

take-overlay : (bs f : List ℕ) → take (length bs) (overlay bs f) ≡ bs
unfolding overlay
take-overlay [] f = refl
take-overlay (b ∷ bs) [] = ap (λ l. b ∷ l) (take-overlay bs [])
take-overlay (b ∷ bs) (_ ∷ f) = ap (λ l. b ∷ l) (take-overlay bs f)

-- What was written is what is read there.
pub read_at-write_at :
    (f : List ℕ) (off : ℕ) (bs : List ℕ) → read_at (write_at f off bs) off (length bs) ≡ bs
unfolding read_at write_at
read_at-write_at f zero bs = take-overlay bs f
read_at-write_at [] (suc off) bs = read_at-write_at [] off bs
read_at-write_at (x ∷ f) (suc off) bs = read_at-write_at f off bs

take-overlay_short : (n : ℕ) (bs f : List ℕ) → n ≤ length bs → take n (overlay bs f) ≡ take n bs
unfolding overlay
take-overlay_short zero bs f h = refl
take-overlay_short (suc n) [] f h = absurd (omega arith)
take-overlay_short (suc n) (b ∷ bs) [] h =
    ap (λ l. b ∷ l) (take-overlay_short n bs [] (omega arith))
take-overlay_short (suc n) (b ∷ bs) (_ ∷ f) h =
    ap (λ l. b ∷ l) (take-overlay_short n bs f (omega arith))

drop-nil : (m : ℕ) → drop {A = ℕ} m [] ≡ []
drop-nil zero = refl
drop-nil (suc m) = refl

drop-overlay : (m : ℕ) (bs f : List ℕ) → length bs ≤ m → drop m (overlay bs f) ≡ drop m f
unfolding overlay
drop-overlay m [] f h = refl
drop-overlay zero (b ∷ bs) f h = absurd (omega arith)
drop-overlay (suc m) (b ∷ bs) [] h = drop-overlay m bs [] (omega arith) ∙ drop-nil m
drop-overlay (suc m) (b ∷ bs) (_ ∷ f) h = drop-overlay m bs f (omega arith)

-- A read before what was written is as before.
pub read_at-before :
    (f : List ℕ) (off : ℕ) (bs : List ℕ) (at n : ℕ)
    → at + n ≤ off
    → off ≤ length f
    → read_at (write_at f off bs) at n ≡ read_at f at n
unfolding read_at write_at
read_at-before f off bs at zero h l = refl
read_at-before f zero bs at (suc n) h l = absurd (omega arith)
read_at-before [] (suc off) bs at (suc n) h l = absurd (omega arith)
read_at-before (x ∷ f) (suc off) bs zero (suc n) h l =
    ap (λ r. x ∷ r) (read_at-before f off bs zero n (omega arith) (omega arith))
read_at-before (x ∷ f) (suc off) bs (suc at) (suc n) h l =
    read_at-before f off bs at (suc n) (omega arith) (omega arith)

-- A read behind what was written is as before.
pub read_at-after :
    (f : List ℕ) (off : ℕ) (bs : List ℕ) (at n : ℕ)
    → off + length bs ≤ at
    → read_at (write_at f off bs) at n ≡ read_at f at n
unfolding read_at write_at
read_at-after f zero bs at n h = ap (take n) (drop-overlay at bs f (omega arith))
read_at-after f (suc off) bs zero n h = absurd (omega arith)
read_at-after [] (suc off) bs (suc at) n h =
    read_at-after [] off bs at n (omega arith) ∙ ap (take n) (drop-nil at)
read_at-after (x ∷ f) (suc off) bs (suc at) n h = read_at-after f off bs at n (omega arith)

length-overlay : (bs f : List ℕ) → length bs ≤ length f → length (overlay bs f) ≡ length f
unfolding overlay
length-overlay [] f h = refl
length-overlay (b ∷ bs) [] h = absurd (omega arith)
length-overlay (b ∷ bs) (_ ∷ f) h = ap suc (length-overlay bs f (omega arith))

-- A write inside the file keeps its length.
pub length-write_at :
    (f : List ℕ) (off : ℕ) (bs : List ℕ)
    → off + length bs ≤ length f
    → length (write_at f off bs) ≡ length f
unfolding write_at
length-write_at f zero bs h = length-overlay bs f (omega arith)
length-write_at [] (suc off) bs h = absurd (omega arith)
length-write_at (x ∷ f) (suc off) bs h = ap suc (length-write_at f off bs (omega arith))

overlay-nil : (bs : List ℕ) → overlay bs [] ≡ bs
unfolding overlay
overlay-nil [] = refl
overlay-nil (b ∷ bs) = ap (λ l. b ∷ l) (overlay-nil bs)

-- A write at the end appends.
pub write_at-end : (f bs : List ℕ) → write_at f (length f) bs ≡ f ++ bs
unfolding write_at
write_at-end [] bs = overlay-nil bs
write_at-end (x ∷ f) bs = ap (λ l. x ∷ l) (write_at-end f bs)

-- A read inside the file is not short.
pub length-read_at : (f : List ℕ) (off n : ℕ) → off + n ≤ length f → length (read_at f off n) ≡ n
unfolding read_at
length-read_at f off zero h = refl
length-read_at [] off (suc n) h = absurd (omega arith)
length-read_at (x ∷ f) zero (suc n) h = ap suc (length-read_at f zero n (omega arith))
length-read_at (x ∷ f) (suc off) (suc n) h = length-read_at f off (suc n) (omega arith)

-- The file holds these bytes at the offset.
abbrev pub HasAt : List ℕ → ℕ → List ℕ → Type 0
HasAt f off bs = read_at f off (length bs) ≡ bs

take-append_left :
    (g xs ys : List ℕ) → take (length (xs ++ ys)) g ≡ xs ++ ys → take (length xs) g ≡ xs
take-append_left g [] ys h = refl
take-append_left [] (x ∷ xs) ys h = cc
take-append_left (y ∷ g) (x ∷ xs) ys h = cc (take-append_left g xs ys (ground arith))

take-append_right :
    (g xs ys : List ℕ)
    → take (length (xs ++ ys)) g ≡ xs ++ ys
    → take (length ys) (drop (length xs) g) ≡ ys
take-append_right g [] ys h = h
take-append_right [] (x ∷ xs) ys h = cc
take-append_right (y ∷ g) (x ∷ xs) ys h = take-append_right g xs ys (ground arith)

pub drop-drop : (off k : ℕ) (f : List ℕ) → drop (off + k) f ≡ drop k (drop off f)
drop-drop zero k f = ap (λ m. drop m f) (omega arith)
drop-drop (suc off) k [] = drop-nil (suc off + k) ∙ sym (drop-nil k)
drop-drop (suc off) k (x ∷ f) =
    let e : suc off + k ≡ suc (off + k) = omega arith in rw e (drop-drop off k f)

pub HasAt-append_left :
    (f : List ℕ) (off : ℕ) (xs ys : List ℕ) → HasAt f off (xs ++ ys) → HasAt f off xs
unfolding read_at
HasAt-append_left f off xs ys h = take-append_left (drop off f) xs ys h

pub HasAt-append_right :
    (f : List ℕ) (off : ℕ) (xs ys : List ℕ) → HasAt f off (xs ++ ys) → HasAt f (off + length xs) ys
unfolding read_at
HasAt-append_right f off xs ys h =
    rw (drop-drop off (length xs) f) (take-append_right (drop off f) xs ys h)

length-take_le : (n : ℕ) (g : List ℕ) → length (take n g) ≤ length g
length-take_le zero g = omega arith
length-take_le (suc n) [] = omega arith
length-take_le (suc n) (x ∷ g) = omega (arith, length-take_le n g)

length-drop : (off : ℕ) (f : List ℕ) → length (drop off f) ≡ length f - off
length-drop zero f = omega arith
length-drop (suc off) [] = omega arith
length-drop (suc off) (x ∷ f) = omega (arith, length-drop off f)

-- A file that holds bytes at an offset reaches to their end.
pub HasAt-within :
    (f : List ℕ) (off : ℕ) (bs : List ℕ)
    → HasAt f off bs
    → 0 < length bs
    → off + length bs ≤ length f
unfolding read_at
HasAt-within f off bs h p =
    omega (arith, length-take_le (length bs) (drop off f), length-drop off f, ap (length {0}) h)

-- Bytes apart from what is written stay where they are.
pub HasAt-write_apart :
    (f : List ℕ) (off : ℕ) (bs : List ℕ) (at : ℕ) (xs : List ℕ)
    → HasAt f at xs
    → off ≤ length f
    → (at + length xs ≤ off) ⊎ (off + length bs ≤ at)
    → HasAt (write_at f off bs) at xs
HasAt-write_apart f off bs at xs h l (inl before) =
    read_at-before f off bs at (length xs) before l ∙ h
HasAt-write_apart f off bs at xs h l (inr behind) = read_at-after f off bs at (length xs) behind ∙ h

-- A write at the end leaves all that the file held.
pub HasAt-write_end :
    (f bs : List ℕ) (at : ℕ) (xs : List ℕ)
    → HasAt f at xs
    → 0 < length xs
    → HasAt (write_at f (length f) bs) at xs
HasAt-write_end f bs at xs h p =
    HasAt-write_apart f (length f) bs at xs h (omega arith) (inl (HasAt-within f at xs h p))

pub length-write_at_end : (f bs : List ℕ) → length (write_at f (length f) bs) ≡ length f + length bs
length-write_at_end f bs = ap (length {0}) (write_at-end f bs) ∙ length-append f bs

write_at-overlay :
    (bs f cs : List ℕ) → write_at (overlay bs f) (length bs) cs ≡ overlay (bs ++ cs) f
unfolding write_at
write_at-overlay [] f cs = refl
write_at-overlay (b ∷ bs) [] cs = ap (λ l. b ∷ l) (write_at-overlay bs [] cs)
write_at-overlay (b ∷ bs) (_ ∷ f) cs = ap (λ l. b ∷ l) (write_at-overlay bs f cs)

-- Two writes, one behind the other, are one write.
pub write_at-append :
    (f : List ℕ) (off : ℕ) (bs cs : List ℕ)
    → write_at (write_at f off bs) (off + length bs) cs ≡ write_at f off (bs ++ cs)
unfolding write_at
write_at-append f zero bs cs =
    let e : 0 + length bs ≡ length bs = omega arith in rw e (write_at-overlay bs f cs)
write_at-append [] (suc off) bs cs =
    let e : suc off + length bs ≡ suc (off + length bs) = omega arith in
    rw e (ap (λ l. 0 ∷ l) (write_at-append [] off bs cs))
write_at-append (x ∷ f) (suc off) bs cs =
    let e : suc off + length bs ≡ suc (off + length bs) = omega arith in
    rw e (ap (λ l. x ∷ l) (write_at-append f off bs cs))

-- A write of nothing inside the file changes nothing.
pub write_at-nil : (f : List ℕ) (off : ℕ) → off ≤ length f → write_at f off [] ≡ f
unfolding write_at
write_at-nil f zero h = refl
write_at-nil [] (suc off) h = absurd (omega arith)
write_at-nil (x ∷ f) (suc off) h = ap (λ l. x ∷ l) (write_at-nil f off (omega arith))
