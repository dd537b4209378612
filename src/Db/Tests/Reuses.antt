-- ===== src/Db/Tests/Reuses.antt =====
-- A record that is stored over a free one, and one that is replaced by a longer one.
use my_file.Prelude.{◌≤◌, ◌≡◌, refl, some, [], ◌∷◌, arith, length}
use my_file.CLib.Numbers.{atol, pad, dec}
use my_file.CLib.Files.{read_at, write_at}
use my_file.Db.State.{Db, Returns}
use my_file.Db.Hash.{chain_offset}
use my_file.Db.Records.Parse.{Fits}
use my_file.Db.Search.Chain.{Row}
use my_file.Db.Search.Frame.{Chained}
use my_file.Db.Search.Unlink.{blanked}
use my_file.Db.Search.Erase.{erased_dat, unlinked_idx}
use my_file.Db.Ops.{alloc, empty_index, store, done, db_insert, db_store}
use my_file.Db.Ops.Fetch.{HashChain}
use my_file.Db.Ops.Insert.{new_entry}
use my_file.Db.Ops.Delete.{Deletable}
use my_file.Db.Ops.StoreFetch.{Answers}
use my_file.Db.Ops.ReplaceLonger.{Exchanged, store-Exchanged}
use my_file.Db.Ops.Reuse.{Reusable, Reused, reused_entry}
use my_file.Db.Ops.Reuse.Store.{store-Reused}
use my_file.Db.Tests.{k1, k2, vx, vyz, row, one}
use my_file.Db.Tests.Removals.{
  two, front_row, two-chain, two-free, two-Separate, table_past, table_filled, some_bytes,
}

-- the database from which the record of `k1` has been deleted
abbrev freed : Row
freed = blanked 0 row

abbrev emptied : Db
emptied = record one {
  idx = unlinked_idx one.idx 0 row (chain_offset 137 6 k1);
  dat = erased_dat one.dat 0 row;
}

freed-Fits : Fits freed.entry
unfolding dec alloc
freed-Fits = record {
  key_pos = omega arith;
  no_null = (refl, (refl, tt));
  no_sep = (refl, (refl, tt));
  ptr_le = omega arith;
  datlen_pos = omega arith;
  datlen_le = omega arith;
  length_le = omega arith;
}

reused-Fits : Fits (reused_entry k2 vx 0 freed)
unfolding dec alloc
reused-Fits = record {
  key_pos = omega arith;
  no_null = (refl, (refl, tt));
  no_sep = (refl, (refl, tt));
  ptr_le = omega arith;
  datlen_pos = omega arith;
  datlen_le = omega arith;
  length_le = omega arith;
}

emptied-chain : HashChain emptied 829 k2 0 []
unfolding chain_offset alloc empty_index read_at write_at atol pad dec
emptied-chain = record {
  first_le = omega arith;
  slot_in = omega arith;
  start_in = omega arith;
  slot_ptr = refl;
  chain = refl;
  behind = tt;
  short = omega arith;
}

emptied-free : Chained emptied.idx emptied.dat 829 0 829 (freed ∷ [])
unfolding chain_offset alloc empty_index read_at write_at atol pad dec
emptied-free = record {
  first_le = omega arith;
  slot_in = omega arith;
  start_in = omega arith;
  slot_ptr = refl;
  chain = (
    refl,
    record {
      at_pos = omega arith;
      fits = freed-Fits;
      in_idx = refl;
      in_dat = refl;
      datlen = refl;
      no_null = (refl, (refl, tt));
    },
    refl,
  );
  behind = (omega arith, tt);
  short = omega arith;
}

reusable : Reusable emptied 829 k2 vx 0 829 [] (freed ∷ []) 0 freed
unfolding chain_offset alloc empty_index read_at write_at atol pad dec
reusable = record {
  chain = emptied-chain;
  free = emptied-free;
  past = omega arith;
  slots = omega arith;
  absent = refl;
  found = refl;
  separate = (tt, tt);
  cross = tt;
  fits = reused-Fits;
  clean = (refl, (refl, tt));
  filled = omega arith;
  fewer = omega arith;
}

store-Reused_example :
    Returns
      (λ rc t. (rc ≡ done) × Reused emptied k2 vx reusable t × Answers k2 (some vx) t)
      (store k2 vx db_insert emptied)
store-Reused_example = store-Reused emptied k2 vx reusable db_insert tt

deletable : Deletable two 829 k1 front_row.at 0 (front_row ∷ (row ∷ [])) [] row
deletable = record {
  chain = two-chain;
  free = two-free;
  past = table_past;
  slots = table_filled;
  found = refl;
  separate = two-Separate;
  cross = tt;
  fewer = some_bytes;
}

longer-Fits : Fits (new_entry two k1 vyz front_row.at)
unfolding chain_offset alloc empty_index read_at write_at atol pad dec
longer-Fits = record {
  key_pos = omega arith;
  no_null = (refl, (refl, tt));
  no_sep = (refl, (refl, tt));
  ptr_le = omega arith;
  datlen_pos = omega arith;
  datlen_le = omega arith;
  length_le = omega arith;
}

two-small : length two.idx ≤ 999999
unfolding chain_offset alloc empty_index read_at write_at atol pad dec
two-small = omega arith

store-Exchanged_example :
    Returns
      (λ rc t. (rc ≡ done) × Exchanged two k1 vyz deletable t × Answers k1 (some vyz) t)
      (store k1 vyz db_store two)
store-Exchanged_example =
    store-Exchanged two k1 vyz deletable longer-Fits (refl, (refl, (refl, tt))) two-small
      (omega arith) (omega arith) db_store tt
