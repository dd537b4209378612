-- ===== src/Db/Map/State.antt =====
-- A whole database: the records of every chain, and the map that they stand for.
use my_file.Prelude.{
  ℕ, ◌+◌, ◌≤◌, ◌<◌, ◌≡◌, ◌⊎◌, inl, inr, refl, ◌∙◌, sym, ◌≢◌, Bool, true, false, Option, none, some,
  Bool-cases, bytes_eq_sound, List, [], arith, if◌then◌else◌, length, bytes_eq,
}
use mathlib.Core.Path.{subst}
use my_file.Db.State.{Db}
use my_file.Db.Hash.{chain_offset, chain_offset_apart}
use my_file.Db.Pointers.{ptr_sz}
use my_file.Db.Search.{free_off}
use my_file.Db.Search.Chain.{Row, find_row}
use my_file.Db.Search.Frame.{Chained}
use my_file.Db.Ops.Fetch.{HashChain, found_text}
use my_file.Db.Ops.Delete.{slot_past}
use my_file.Db.Ops.DeleteFetch.{key_count}
use my_file.Db.Map.Extents.{Disjoint}
use my_file.Db.Map.Places.{exts}
use my_file.Db.Map.Count.{Spread-fewer}

-- the map of keys to data, and the change of one key
abbrev pub Contents : Type 0
Contents = List ℕ → Option (List ℕ)

abbrev pub has : Option (List ℕ) → Bool
has none = false
has (some _) = true

abbrev pub with_key : List ℕ → Option (List ℕ) → Contents → Contents
with_key key v m k = if bytes_eq key k then v else m k

-- the place of a chain's first pointer: the head of the free list or the slot of a key
abbrev pub IsHead : ℕ → ℕ → ℕ → Type 0
IsHead nhash hashoff o = (o ≡ free_off) ⊎ ((key : List ℕ) × (o ≡ chain_offset nhash hashoff key))

-- The chain at every head, in files whose table stands in front of `start`: no two records overlap,
-- and a key has one record at most.
pub record IsDb (s : Db) (start : ℕ) (rows : ℕ → List Row) : Type 0 where
  pub past : free_off + ptr_sz ≤ s.hashoff
  pub slots : 0 < s.nhash
  pub chains :
      (o : ℕ)
      → IsHead s.nhash s.hashoff o
      → (first : ℕ) × Chained s.idx s.dat start o first (rows o)
  pub elsewhere : (o : ℕ) → IsHead s.nhash s.hashoff o ⊎ (rows o ≡ [])
  pub apart : Disjoint (λ o. exts (rows o))
  pub once : (key : List ℕ) → key_count key (rows (chain_offset s.nhash s.hashoff key)) ≤ 1

abbrev pub view : Db → (ℕ → List Row) → Contents
view s rows key = found_text (find_row key (rows (chain_offset s.nhash s.hashoff key)))

-- The files are a database that stands for the map.
pub record Holds (s : Db) (start : ℕ) (m : Contents) : Type 0 where
  pub rows : ℕ → List Row
  pub is_db : IsDb s start rows
  pub agrees : (key : List ℕ) → view s rows key ≡ m key

-- The two files have become longer by so many bytes at most.
pub record Grown (s t : Db) (i d : ℕ) : Type 0 where
  pub idx : length t.idx ≤ length s.idx + i
  pub dat : length t.dat ≤ length s.dat + d

module _ {s : Db} {start : ℕ} {rows : ℕ → List Row} (d : IsDb s start rows) where
  pub free_chain : (head : ℕ) × Chained s.idx s.dat start free_off head (rows free_off)
  free_chain = d.chains free_off (inl refl)

  pub key_chain :
      (key : List ℕ)
      → (first : ℕ) × HashChain s start key first (rows (chain_offset s.nhash s.hashoff key))
  key_chain key = d.chains (chain_offset s.nhash s.hashoff key) (inr (key, refl))

  -- The records of a chain are fewer than the index file has bytes.
  pub chain_fewer : (o : ℕ) → IsHead s.nhash s.hashoff o → length (rows o) < length s.idx
  chain_fewer o h =
      let (first, c) = d.chains o h in
      let a = c.slot_in in
      let b = c.start_in in
      Spread-fewer s.idx s.dat first start (rows o) c.chain c.behind (d.apart.spread o)
        (omega arith) (omega arith)

-- The same files are the same database.
pub IsDb-same :
    {s : Db} {start : ℕ} {rows : ℕ → List Row} (t : Db)
    → t.idx ≡ s.idx
    → t.dat ≡ s.dat
    → t.nhash ≡ s.nhash
    → t.hashoff ≡ s.hashoff
    → IsDb s start rows
    → IsDb t start rows
IsDb-same t i a n o d = record {
  past = rw o d.past;
  slots = rw n d.slots;
  chains = rw (i, a, n, o) d.chains;
  elsewhere = rw (n, o) d.elsewhere;
  apart = d.apart;
  once = rw (n, o) d.once;
}

pub Holds-same :
    {s : Db} {start : ℕ} {m : Contents} (t : Db)
    → t.idx ≡ s.idx
    → t.dat ≡ s.dat
    → t.nhash ≡ s.nhash
    → t.hashoff ≡ s.hashoff
    → Holds s start m
    → Holds t start m
Holds-same t i a n o h = record {
  rows = h.rows;
  is_db = IsDb-same t i a n o h.is_db;
  agrees = rw (n, o) h.agrees;
}

-- A key that is missing is as good as deleted.
pub Holds-missing :
    {s : Db} {start : ℕ} {m : Contents} {key : List ℕ}
    → Holds s start m
    → m key ≡ none
    → Holds s start (with_key key none m)
Holds-missing {m = m} {key = key} h e = record {
  rows = h.rows;
  is_db = h.is_db;
  agrees = λ k.
      h.agrees k ∙ elim (Bool-cases (bytes_eq key k)) as (λ _. m k ≡ with_key key none m k) [
        | inl same ↦ rw (same, ← bytes_eq_sound key k same) e
        | inr other ↦ rw other refl
      ];
}

-- The slots of two heads other than each other are apart.
pub head_apart :
    (s : Db) (key : List ℕ) (o : ℕ)
    → free_off + ptr_sz ≤ s.hashoff
    → 0 < s.nhash
    → IsHead s.nhash s.hashoff o
    → o ≢ chain_offset s.nhash s.hashoff key
    → (o + ptr_sz ≤ chain_offset s.nhash s.hashoff key)
      ⊎ (chain_offset s.nhash s.hashoff key + ptr_sz ≤ o)
head_apart s key o past slots (inl e) ne = inl (omega (arith, e, slot_past s key past slots))
head_apart s key o past slots (inr (k, e)) ne =
    subst
      (λ i.
        (i + ptr_sz ≤ chain_offset s.nhash s.hashoff key)
        ⊎ (chain_offset s.nhash s.hashoff key + ptr_sz ≤ i))
      (sym e) (chain_offset_apart s.nhash s.hashoff k key (λ j. ne (e ∙ j)))

pub head_past :
    (s : Db) (o : ℕ)
    → free_off + ptr_sz ≤ s.hashoff
    → 0 < s.nhash
    → IsHead s.nhash s.hashoff o
    → o ≢ free_off
    → free_off + ptr_sz ≤ o
head_past s o past slots (inl e) ne = absurd (ne e)
head_past s o past slots (inr (k, e)) ne = omega (arith, e, slot_past s k past slots)
