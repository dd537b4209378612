-- ===== src/Db/Ops/Traverse/Walk.antt =====
-- `db_rewind` and the calls of `db_nextrec` that follow it, along all records of the index file.
use my_file.Prelude.{
  ℕ, zero, suc, ◌<◌, ◌≡◌, refl, ap, ◌∙◌, Option, none, some, List, [], ◌∷◌, arith, length,
}
use my_file.Db.State.{Db, M, ◌>>=◌, ◌>>◌, and_then, pure, Run, Returns, returns}
use my_file.Db.Records.{records_start}
use my_file.Db.Search.Chain.{Row}
use my_file.Db.Ops.{nextrec, rewind}
use my_file.Db.Ops.Traverse.{Scan, live_records, first_of, rest_of, Answered, nextrec-Scan}

-- calls of db_nextrec until one returns NULL, `n` at most
abbrev pub collect :
    Option (List ℕ × List ℕ) → M (List (List ℕ × List ℕ)) → M (List (List ℕ × List ℕ))
collect none others = pure []
collect (some x) others = do xs ← others; pure (x ∷ xs)

abbrev pub walk : ℕ → M (List (List ℕ × List ℕ))
unfolding nextrec
walk zero = pure []
walk (suc n) = do r ← nextrec; collect r (walk n)

-- what the calls give, with the files of before
abbrev pub Gives : Db → List (List ℕ × List ℕ) → List (List ℕ × List ℕ) → Db → Type 0
Gives s xs got t = (got ≡ xs) × ((t.idx ≡ s.idx) × (t.dat ≡ s.dat))

prepended :
    (s : Db) (x : List ℕ × List ℕ) (xs : List (List ℕ × List ℕ))
    (run : Run (List (List ℕ × List ℕ)))
    → Returns (λ got t. Gives s xs got t) run
    → Returns (λ got t. Gives s (x ∷ xs) got t) (and_then run (λ ys. pure (x ∷ ys)))
prepended s x xs run (returns g) = returns (ap (λ l. x ∷ l) g.0, g.1)

collect-Gives :
    (s t : Db) (out : Option (List ℕ × List ℕ)) (xs : List (List ℕ × List ℕ))
    (others : M (List (List ℕ × List ℕ)))
    → out ≡ first_of xs
    → (t.idx ≡ s.idx) × (t.dat ≡ s.dat)
    → (0 < length xs → Returns (λ got u. Gives s (rest_of xs) got u) (others t))
    → Returns (λ got u. Gives s xs got u) (collect out others t)
collect-Gives s t out [] others o same ih = rw o (returns (refl, same))
collect-Gives s t out (x ∷ xs) others o same ih =
    rw o (prepended s x xs (others t) (ih (omega arith)))

Gives-from :
    (s t : Db) (xs : List (List ℕ × List ℕ)) (run : Run (List (List ℕ × List ℕ)))
    → (t.idx ≡ s.idx) × (t.dat ≡ s.dat)
    → Returns (λ got u. Gives t xs got u) run
    → Returns (λ got u. Gives s xs got u) run
Gives-from s t xs run same (returns g) = returns (g.0, (g.1.0 ∙ same.0, g.1.1 ∙ same.1))

length-rest_of :
    (xs : List (List ℕ × List ℕ)) (n : ℕ)
    → length xs < suc n
    → 0 < length xs
    → length (rest_of xs) < n
length-rest_of [] n h k = absurd (omega arith)
length-rest_of (x ∷ xs) n h k = omega arith

and_then-Answered :
    (s : Db) (rows : List Row) (n : ℕ) (run : Run (Option (List ℕ × List ℕ)))
    → length (live_records rows) < suc n
    → ((t : Db) (rest : List Row)
        → Scan t.idx t.dat t.idxpos rest
        → length (live_records rest) < n
        → Returns (λ got u. Gives t (live_records rest) got u) (walk n t))
    → Returns (λ out t. Answered s rows out t) run
    → Returns (λ got u. Gives s (live_records rows) got u) (and_then run (λ r. collect r (walk n)))
and_then-Answered s rows n run few ih (returns {a = a} {s = t} r) =
    collect-Gives s t a (live_records rows) (walk n) r.out_eq (r.idx, r.dat)
      (λ some_left.
        let rest = r.left in
        Gives-from s t (rest_of (live_records rows)) (walk n t) (r.idx, r.dat)
          (rw (← rest.1.1) (
            ih t rest.0 rest.1.0
              (rw rest.1.1 (length-rest_of (live_records rows) n few some_left)))))

walk-Scan :
    (n : ℕ) (s : Db) (rows : List Row)
    → Scan s.idx s.dat s.idxpos rows
    → length (live_records rows) < n
    → Returns (λ got u. Gives s (live_records rows) got u) (walk n s)
unfolding walk nextrec
walk-Scan zero s rows c h = absurd (omega arith)
walk-Scan (suc n) s rows c h =
    and_then-Answered s rows n (nextrec s) h (λ t rest c' h'. walk-Scan n t rest c' h')
      (nextrec-Scan s rows c)

-- Where the index file has just well-formed records behind the hash table, with their data in the
-- data file where they are not deleted: after db_rewind, calls of db_nextrec until one returns
-- NULL, of which more than there are such records are allowed, give key and data of the records
-- whose key is not all blanks, each once and in the order of the file; no call stops or goes on for
-- ever, and both files are as they were.
pub rewind-walk :
    (s : Db) (rows : List Row) (n : ℕ)
    → Scan s.idx s.dat (records_start s) rows
    → length (live_records rows) < n
    → Returns (λ got t. Gives s (live_records rows) got t) ((rewind >> walk n) s)
unfolding rewind
rewind-walk s rows n c h =
    walk-Scan n (record s { idxoff = records_start s; idxpos = records_start s }) rows c h
