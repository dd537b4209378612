-- ===== src/Db/Tests/Walks.antt =====
-- A walk through an index file of a deleted record and one that is not.
use my_file.Prelude.{◌≡◌, refl, [], ◌∷◌, arith}
use my_file.CLib.Numbers.{atol, pad, dec}
use my_file.CLib.Files.{read_at, write_at}
use my_file.Db.State.{Db, Returns, ◌>>◌}
use my_file.Db.Hash.{chain_offset}
use my_file.Db.Records.Parse.{Fits, entry_text}
use my_file.Db.Search.Chain.{Row}
use my_file.Db.Search.Unlink.{blanked}
use my_file.Db.Ops.{alloc, empty_index, rewind, store, done, db_insert}
use my_file.Db.Ops.StoreWalk.{Walks, store-Walks}
use my_file.Db.Ops.Traverse.{Scan}
use my_file.Db.Ops.Traverse.Walk.{Gives, walk, rewind-walk}
use my_file.Db.Tests.{vx, k1, i2, row, fresh, fresh-chain, fresh-free, new-Fits, small}
use my_file.Db.Tests.Removals.{two, front_row, front-Fits}

-- the record of `k1` with blanks for its key
abbrev deleted : Row
deleted = blanked 0 row

abbrev half : Db
half = record two { idx = write_at two.idx 829 (entry_text deleted.entry) }

deleted-Fits : Fits deleted.entry
unfolding dec alloc
deleted-Fits = record {
  key_pos = omega arith;
  no_null = (refl, (refl, tt));
  no_sep = (refl, (refl, tt));
  ptr_le = omega arith;
  datlen_pos = omega arith;
  datlen_le = omega arith;
  length_le = omega arith;
}

half-Scan : Scan half.idx half.dat 829 (deleted ∷ (front_row ∷ []))
unfolding chain_offset alloc empty_index read_at write_at atol pad dec
half-Scan = (
  refl,
  deleted-Fits,
  refl,
  (λ live. cc),
  (
    refl,
    front-Fits,
    refl,
    (λ live. record { in_dat = refl; datlen = refl; no_null = (refl, (refl, tt)) }),
    refl,
  ),
)

rewind-walk_example : Returns (λ got t. Gives half ((i2, vx) ∷ []) got t) ((rewind >> walk 2) half)
unfolding alloc
rewind-walk_example = rewind-walk half (deleted ∷ (front_row ∷ [])) 2 half-Scan (omega arith)

store-Walks_example :
    Returns (λ rc t. (rc ≡ done) × Walks 2 ((k1, vx) ∷ []) t) (store k1 vx db_insert fresh)
unfolding alloc empty_index pad dec
store-Walks_example =
    store-Walks fresh k1 vx fresh-chain fresh-free new-Fits (refl, (refl, tt)) small (omega arith)
      refl refl db_insert tt [] 2 refl refl (omega arith)
