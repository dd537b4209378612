-- ===== src/Db/Tests/Refusals.antt =====
-- A call that is refused, on a small database.
use my_file.Prelude.{◌≡◌, refl, arith}
use my_file.Db.State.{Returns}
use my_file.Db.Ops.{store, db_insert, exists}
use my_file.Db.Ops.Refusals.{Untouched, store-exists}
use my_file.Db.Tests.{k1, vx, row, one, one-chain}

store-exists_example :
    Returns (λ rc t. (rc ≡ exists) × Untouched one k1 t) (store k1 vx db_insert one)
store-exists_example = store-exists one k1 one-chain vx (omega arith) (omega arith) row refl
