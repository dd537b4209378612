-- ===== src/Db/Tests/Layers.antt =====
-- The theorems on the parts of the library, at small databases.
use my_file.Prelude.{◌≡◌, ◌≢◌, refl, [], ◌∷◌, arith}
use my_file.CLib.Files.{read_at, write_at}
use my_file.Db.State.{Db}
use my_file.Db.Hash.{chain_offset}
use my_file.Db.Ops.{alloc}
use my_file.Db.Tests.{k1, k2, fresh, one}

abbrev before_write : Db
before_write = record fresh { datlen = 3 }

abbrev at_data : Db
at_data = record one { datlen = 3 }

data_there : read_at at_data.dat at_data.datoff 3 ≡ b'v' ∷ b'x' ∷ b'\n' ∷ []
unfolding alloc read_at write_at
data_there = refl

slots_apart : chain_offset 137 6 k2 ≢ chain_offset 137 6 k1
unfolding chain_offset
slots_apart = omega arith
