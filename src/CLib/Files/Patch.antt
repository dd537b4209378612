-- ===== src/CLib/Files/Patch.antt =====
-- A write over the front of bytes that a file holds.
use my_file.Prelude.{inr, ℕ, ◌+◌, ◌≤◌, ◌≡◌, List, [], ◌∷◌, ◌++◌, arith, length, take, drop}
use my_file.CLib.Files.{
  read_at, write_at, read_at-write_at, HasAt, HasAt-append_right, HasAt-write_apart, drop-drop,
}

take-join :
    (g xs ys : List ℕ)
    → take (length xs) g ≡ xs
    → take (length ys) (drop (length xs) g) ≡ ys
    → take (length (xs ++ ys)) g ≡ xs ++ ys
take-join g [] ys h k = k
take-join [] (x ∷ xs) ys h k = cc
take-join (y ∷ g) (x ∷ xs) ys h k =
    let e : take (length xs) g ≡ xs = cc in let d : y ≡ x = cc in cc (take-join g xs ys e k)

HasAt-join :
    (f : List ℕ) (off : ℕ) (xs ys : List ℕ)
    → HasAt f off xs
    → HasAt f (off + length xs) ys
    → HasAt f off (xs ++ ys)
unfolding read_at
HasAt-join f off xs ys h k = take-join (drop off f) xs ys h (rw (← drop-drop off (length xs) f) k)

-- Bytes of the length of those in front are laid over them; the bytes behind stay.
pub HasAt-patch :
    (f : List ℕ) (off : ℕ) (xs xs' ys : List ℕ)
    → HasAt f off (xs ++ ys)
    → length xs' ≡ length xs
    → off ≤ length f
    → HasAt (write_at f off xs') off (xs' ++ ys)
HasAt-patch f off xs xs' ys h same l =
    let behind : HasAt f (off + length xs') ys = rw same (HasAt-append_right f off xs ys h) in
    HasAt-join (write_at f off xs') off xs' ys (read_at-write_at f off xs')
      (HasAt-write_apart f off xs' (off + length xs') ys behind l (inr (omega arith)))
