-- ===== src/Db/Tests/Removals.antt =====
-- Deletions from a chain of two records.
use my_file.Prelude.{◌+◌, ◌≤◌, ◌<◌, ◌≡◌, inr, refl, true, [], ◌∷◌, arith, length}
use my_file.CLib.Numbers.{atol, pad, dec}
use my_file.CLib.Files.{read_at, write_at}
use my_file.Db.State.{Db, Returns}
use my_file.Db.Hash.{chain_offset}
use my_file.Db.Pointers.{ptr_text}
use my_file.Db.Records.Parse.{Fits}
use my_file.Db.Search.Chain.{Row}
use my_file.Db.Search.Frame.{Chained}
use my_file.Db.Search.Unlink.{Separate, removed, new_first, blanked}
use my_file.Db.Ops.{alloc, empty_index, delete}
use my_file.Db.Ops.Fetch.{HashChain}
use my_file.Db.Ops.Insert.{new_row, grown_idx, grown_dat}
use my_file.Db.Ops.DeleteFetch.{delete-HashChain}
use my_file.Db.Tests.{k1, i2, vx, row, one, new-Fits}

-- `i2` inserted in front of `k1`, on one chain
abbrev pub front_row : Row
front_row = new_row one i2 vx 829

abbrev pub two : Db
two = record one {
  idx = write_at (grown_idx one i2 vx 829) (chain_offset 137 6 i2) (ptr_text front_row.at);
  dat = grown_dat one vx;
}

pub front-Fits : Fits front_row.entry
unfolding dec alloc empty_index read_at write_at atol pad chain_offset
front-Fits = record {
  key_pos = omega arith;
  no_null = (refl, (refl, tt));
  no_sep = (refl, (refl, tt));
  ptr_le = omega arith;
  datlen_pos = omega arith;
  datlen_le = omega arith;
  length_le = omega arith;
}

pub two-chain : HashChain two 829 k1 front_row.at (front_row ∷ (row ∷ []))
unfolding chain_offset alloc empty_index read_at write_at atol pad dec
two-chain = record {
  first_le = omega arith;
  slot_in = omega arith;
  start_in = omega arith;
  slot_ptr = refl;
  chain = (
    refl,
    record {
      at_pos = omega arith;
      fits = front-Fits;
      in_idx = refl;
      in_dat = refl;
      datlen = refl;
      no_null = (refl, (refl, tt));
    },
    (
      refl,
      record {
        at_pos = omega arith;
        fits = new-Fits;
        in_idx = refl;
        in_dat = refl;
        datlen = refl;
        no_null = (refl, (refl, tt));
      },
      refl,
    ),
  );
  behind = (omega arith, (omega arith, tt));
  short = omega arith;
}

pub two-free : Chained two.idx two.dat 829 0 0 []
unfolding chain_offset alloc empty_index read_at write_at atol pad dec
two-free = record {
  first_le = omega arith;
  slot_in = omega arith;
  start_in = omega arith;
  slot_ptr = refl;
  chain = refl;
  behind = tt;
  short = omega arith;
}

pub two-Separate : Separate (front_row ∷ (row ∷ []))
unfolding chain_offset alloc empty_index read_at write_at atol pad dec
two-Separate = ((record { in_idx = inr (omega arith); in_dat = inr (omega arith) }, tt), (tt, tt))

pub table_past : 0 + 6 ≤ two.hashoff
unfolding alloc
table_past = omega arith

pub table_filled : 0 < two.nhash
unfolding alloc
table_filled = omega arith

pub some_bytes : 0 < length two.idx
unfolding chain_offset alloc empty_index read_at write_at atol pad dec
some_bytes = omega arith

delete-HashChain_example :
    Returns
      (λ rc t.
        (rc ≡ true)
        × HashChain t 829 k1
            (new_first k1 front_row.at (front_row ∷ (row ∷ [])))
            (removed k1 (front_row ∷ (row ∷ [])))
        × Chained t.idx t.dat 829 0 row.at (blanked 0 row ∷ []))
      (delete k1 two)
delete-HashChain_example =
    delete-HashChain two k1 two-chain two-free table_past table_filled refl two-Separate tt
      some_bytes
