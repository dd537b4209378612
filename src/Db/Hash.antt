-- ===== src/Db/Hash.antt =====
-- `_db_hash`, and the offset of the hash chain of a key.
use my_file.Prelude.{
  ℕ, ◌+◌, ◌-◌, ◌*◌, ◌%◌, ◌^◌, ◌<◌, ◌≤◌, ◌≢◌, ◌⊎◌, arith, List, [], ◌∷◌, ltb, if◌then◌else◌,
}

-- `c * i` as an unsigned long, `char` being signed; `int` holds the product of keys below 2^24 bytes.
unfoldable pub char_times : ℕ → ℕ → ℕ
char_times c i = if ltb c 128 then c * i else (2 ^ 64 - (256 - c) * i) % 2 ^ 64

unfoldable pub hash_loop : ℕ → ℕ → List ℕ → ℕ
unfolding char_times
hash_loop hval i [] = hval
hash_loop hval i (c ∷ cs) = hash_loop ((hval + char_times c i) % 2 ^ 64) (i + 1) cs

unfoldable pub db_hash : ℕ → List ℕ → ℕ
unfolding hash_loop
db_hash nhash key = hash_loop 0 1 key % nhash

-- `db->chainoff`
unfoldable pub chain_offset : ℕ → ℕ → List ℕ → ℕ
unfolding db_hash
chain_offset nhash hashoff key = db_hash nhash key * 6 + hashoff

-- The chain pointer of any key lies whole in a hash table that is not empty.
pub chain_offset_bounds :
    (nhash hashoff : ℕ) (key : List ℕ)
    → 0 < nhash
    → (hashoff ≤ chain_offset nhash hashoff key)
      × (chain_offset nhash hashoff key + 6 ≤ hashoff + nhash * 6)
unfolding chain_offset
chain_offset_bounds nhash hashoff key h = omega arith

multiples_apart :
    (a b c : ℕ) → a * 6 + c ≢ b * 6 + c → (a * 6 + c + 6 ≤ b * 6 + c) ⊎ (b * 6 + c + 6 ≤ a * 6 + c)
multiples_apart a b c ne = ground arith

-- Chain pointers of the hash table at different offsets do not overlap.
pub chain_offset_apart :
    (nhash hashoff : ℕ) (k j : List ℕ)
    → chain_offset nhash hashoff k ≢ chain_offset nhash hashoff j
    → (chain_offset nhash hashoff k + 6 ≤ chain_offset nhash hashoff j)
      ⊎ (chain_offset nhash hashoff j + 6 ≤ chain_offset nhash hashoff k)
unfolding chain_offset
chain_offset_apart nhash hashoff k j ne =
    multiples_apart (db_hash nhash k) (db_hash nhash j) hashoff ne
