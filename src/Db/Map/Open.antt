-- ===== src/Db/Map/Open.antt =====
-- `db_open` that makes a new database: the empty map.
use my_file.Prelude.{
  ℕ, zero, suc, ◌+◌, ◌*◌, ◌<◌, ◌≡◌, inl, inr, refl, ap, ◌∙◌, none, some, true, List, [], ◌∷◌, ◌++◌,
  arith, length, length-append, take-append, pos,
}
use my_file.CLib.Numbers.{atol}
use my_file.CLib.Numbers.RoundTrip.{atol-pad}
use my_file.CLib.Files.{read_at, write_at, overlay}
use my_file.Db.State.{Db, Returns, returns, weaken}
use my_file.Db.Hash.{chain_offset, chain_offset_bounds, db_hash}
use my_file.Db.Pointers.{ptr_sz, ptr_text}
use my_file.Db.Pointers.RoundTrip.{ptr_at, length-ptr_text}
use my_file.Db.Search.Frame.{Chained}
use my_file.Db.Ops.{pointers, empty_index, nhash_def, alloc, open_db, initialize, rewind}
use my_file.Db.Map.State.{IsHead, IsDb, Holds}

read_at-skip : (xs ys : List ℕ) (k n : ℕ) → read_at (xs ++ ys) (length xs + k) n ≡ read_at ys k n
unfolding read_at
read_at-skip [] ys k n = ap (λ i. read_at ys i n) (omega arith)
read_at-skip (x ∷ xs) ys k n =
    ap (λ i. read_at (x ∷ (xs ++ ys)) i n)
      (let e : length (x ∷ xs) + k ≡ suc (length xs + k) = omega arith in e)
    ∙ read_at-skip xs ys k n

write_at-empty : (bs : List ℕ) → write_at [] 0 bs ≡ bs
unfolding write_at overlay
write_at-empty [] = refl
write_at-empty (b ∷ bs) = ap (λ l. b ∷ l) (write_at-empty bs)

ptr_size : length (ptr_text 0) ≡ 6
ptr_size = length-ptr_text 0 (omega arith)

read_at-first : (ys : List ℕ) → read_at (ptr_text 0 ++ ys) 0 ptr_sz ≡ ptr_text 0
unfolding read_at
read_at-first ys = take-append ptr_sz (ptr_text 0) ys ptr_size

pub length-pointers : (n : ℕ) → length (pointers n) ≡ n * 6 + 1
unfolding pointers
length-pointers zero = refl
length-pointers (suc n) =
    omega (arith, length-append (ptr_text 0) (pointers n), ptr_size, length-pointers n)

-- Every pointer of the new table is 0.
ptr_at-pointers : (n i : ℕ) → i < n → ptr_at (pointers n) (i * 6) ≡ pos 0
unfolding pointers
ptr_at-pointers zero i h = absurd (omega arith)
ptr_at-pointers (suc n) zero h = ap atol (read_at-first (pointers n)) ∙ atol-pad ptr_sz 0
ptr_at-pointers (suc n) (suc i) h =
    ap (ptr_at (ptr_text 0 ++ pointers n))
      (let e : suc i * 6 ≡ length (ptr_text 0) + i * 6 = omega (arith, ptr_size) in e)
    ∙ (ap atol (read_at-skip (ptr_text 0) (pointers n) (i * 6) ptr_sz)
        ∙ ptr_at-pointers n i (omega arith))

-- a head is one of the pointers
head_index : (o : ℕ) → IsHead nhash_def ptr_sz o → (i : ℕ) × (o ≡ i * 6) × (i < nhash_def + 1)
unfolding chain_offset
head_index o (inl e) = (0, omega (arith, e), omega arith)
head_index o (inr (key, e)) = (
  db_hash nhash_def key + 1,
  omega (arith, e),
  omega (arith, (chain_offset_bounds nhash_def ptr_sz key (omega arith)).1),
)

abbrev pub start : ℕ
start = ptr_sz + nhash_def * ptr_sz + 1

length-empty_index : length empty_index ≡ start
unfolding empty_index
length-empty_index = length-pointers (nhash_def + 1)

module _ (s : Db) (i : s.idx ≡ empty_index) (n : s.nhash ≡ nhash_def) (h : s.hashoff ≡ ptr_sz) where
  empty-Chained : (o : ℕ) → IsHead nhash_def ptr_sz o → Chained s.idx s.dat start o 0 []
  unfolding empty_index
  empty-Chained o head =
      let (k, e, lt) = head_index o head in
      record {
        first_le = omega arith;
        slot_in = omega (arith, e, lt);
        start_in = omega (arith, ap length i, length-empty_index);
        slot_ptr =
            rw i (ap (ptr_at (pointers (nhash_def + 1))) e ∙ ptr_at-pointers (nhash_def + 1) k lt);
        chain = refl;
        behind = tt;
        short = omega arith;
      }

  pub empty-IsDb : IsDb s start (λ _. [])
  empty-IsDb = record {
    past = omega (arith, h);
    slots = omega (arith, n);
    chains = rw (n, h) (λ o head. (0, empty-Chained o head));
    elsewhere = λ o. inr refl;
    apart = record { spread = λ o. tt; across = λ o p ne. tt };
    once = λ key. omega arith;
  }

  pub Holds-empty : Holds s start (λ _. none)
  Holds-empty = record { rows = λ _. []; is_db = empty-IsDb; agrees = λ key. refl }

pub open_within :
    (s : Db)
    → Returns
        (λ r t.
          (r ≡ some tt) × Holds t start (λ _. none) × (length t.idx ≡ start) × (length t.dat ≡ 0))
        (open_db true (some []) (some []) s)
unfolding open_db initialize rewind alloc
open_within s =
    let whole = write_at-empty empty_index in
    returns (refl, Holds-empty _ whole refl refl, ap length whole ∙ length-empty_index, refl)

-- Where both files can be created and are empty, db_open with O_CREAT and O_TRUNC returns a
-- well-formed database that has no data for any key.
pub open_db-Holds :
    (s : Db)
    → Returns
        (λ r t. (r ≡ some tt) × Holds t start (λ _. none))
        (open_db true (some []) (some []) s)
open_db-Holds s = weaken (λ r t p. (p.0, p.1)) (open_within s)
