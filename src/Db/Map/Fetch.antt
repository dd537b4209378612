-- ===== src/Db/Map/Fetch.antt =====
-- `db_fetch` on a database that stands for a map.
use my_file.Prelude.{ℕ, ap, arith, length, ◌≡◌, ◌∙◌, Option, List}
use my_file.Db.State.{Db, Run, Returns, returns, weaken}
use my_file.Db.Ops.{fetch}
use my_file.Db.Ops.Fetch.{Fetched, fetch-find_row}
use my_file.Db.Map.State.{Contents, Holds, Grown, Holds-same, key_chain}

module _ (s : Db) (start : ℕ) (m : Contents) (h : Holds s start m) (key : List ℕ) where
  kept_by_fetch :
      {answer : Option (List ℕ)} {r : Run (Option (List ℕ))}
      → answer ≡ m key
      → Returns (λ out t. Fetched s key answer out t) r
      → Returns (λ out t. (out ≡ m key) × Holds t start m × Grown s t 0 0) r
  kept_by_fetch e (returns f) = returns (
    f.out_eq ∙ e,
    Holds-same _ f.idx f.dat f.nhash f.hashoff h,
    record {
      idx = omega (arith, ap (length {0}) f.idx);
      dat = omega (arith, ap (length {0}) f.dat);
    },
  )

  pub fetch_within :
      Returns (λ out t. (out ≡ m key) × Holds t start m × Grown s t 0 0) (fetch key s)
  fetch_within =
      let (first, c) = key_chain h.is_db key in
      kept_by_fetch (h.agrees key) (fetch-find_row s key c)

  -- On a well-formed database db_fetch returns the data that the database has for the key, NULL if
  -- it has none, and leaves the database as it is.
  pub fetch-Holds : Returns (λ out t. (out ≡ m key) × Holds t start m) (fetch key s)
  fetch-Holds = weaken (λ out t p. (p.0, p.1)) fetch_within
