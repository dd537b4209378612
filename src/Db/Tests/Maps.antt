-- ===== src/Db/Tests/Maps.antt =====
-- The theorems on the database as a map, at a new database and at one with a record.
use my_file.Prelude.{false, List, ◌∷◌, ◌≡◌, refl, true, none, some, [], arith, length}
use my_file.Db.State.{Db, Returns}
use my_file.Db.Pointers.RoundTrip.{with_ptr}
use my_file.Db.Search.Chain.{SameFiles}
use my_file.Db.Ops.{
  db_replace, db_store, exists, alloc, empty_index, fetch, store, delete, done, db_insert,
}
use my_file.Db.Ops.Insert.{Inserted-final, on_chain, appended}
use my_file.Db.Map.State.{Contents, with_key, Holds}
use my_file.Db.Map.Open.{empty-IsDb}
use my_file.Db.Map.Session.{
  Call, fetching, deleting, storing, fetched, deleted, answered, session, Storable,
}
use my_file.Db.Map.Session.Replies.{session-map_replies}
use my_file.Db.Map.Fetch.{fetch-Holds}
use my_file.Db.Map.Delete.{delete-Holds}
use my_file.Db.Map.Insert.{Holds-Inserted}
use my_file.Db.Map.Store.{store-Holds}
use my_file.Db.Tests.{k2, vyz, k1, vx, fresh, fresh-chain, fresh-free, new-Fits, small}

abbrev nothing : Contents
nothing _ = none

abbrev vx_at_k1 : Contents
vx_at_k1 = with_key k1 (some vx) nothing

new_idx : fresh.idx ≡ empty_index
unfolding alloc
new_idx = refl

new_nhash : fresh.nhash ≡ 137
unfolding alloc
new_nhash = refl

new_hashoff : fresh.hashoff ≡ 6
unfolding alloc
new_hashoff = refl

abbrev fresh_map : Holds fresh 829 nothing
fresh_map = record {
  rows = λ _. [];
  is_db = empty-IsDb fresh new_idx new_nhash new_hashoff;
  agrees = λ key. refl;
}

-- the database behind the first insertion
abbrev filled : Db
filled = let t = on_chain fresh k1 in with_ptr (appended t k1 vx 0) t.chainoff (length t.idx)

unchanged : SameFiles (on_chain fresh k1) (on_chain fresh k1)
unchanged = record { idx = refl; dat = refl; chainoff = refl; hashoff = refl; nhash = refl }

filled_map : Holds filled 829 vx_at_k1
filled_map = Holds-Inserted fresh 829 nothing fresh_map k1 vx 0 filled refl (
    Inserted-final fresh k1 vx fresh-chain fresh-free new-Fits (refl, (refl, tt)) small
      (on_chain fresh k1) unchanged)

fetch-Holds_example : Returns (λ out t. (out ≡ some vx) × Holds t 829 vx_at_k1) (fetch k1 filled)
fetch-Holds_example = fetch-Holds filled 829 vx_at_k1 filled_map k1

delete-Holds_example :
    Returns (λ rc t. (rc ≡ true) × Holds t 829 (with_key k1 none vx_at_k1)) (delete k1 filled)
delete-Holds_example = delete-Holds filled 829 vx_at_k1 filled_map k1

store-Holds_example :
    Returns (λ rc t. (rc ≡ done) × Holds t 829 vx_at_k1) (store k1 vx db_insert fresh)
store-Holds_example =
    store-Holds fresh 829 nothing fresh_map k1 vx new-Fits (refl, (refl, tt)) (omega arith) small
      db_insert

abbrev calls : List Call
calls =
    storing k1 vx db_insert
    ∷ (storing k2 vx db_insert
        ∷ (storing k1 vyz db_replace
            ∷ (storing k2 vx db_insert
                ∷ (fetching k1
                    ∷ (deleting k1
                        ∷ (deleting k1
                            ∷ (fetching k1 ∷ (storing k1 vx db_store ∷ (fetching k1 ∷ [])))))))))

k1-vx : Storable k1 vx
k1-vx = record {
  key_pos = omega arith;
  key_le = omega arith;
  no_null = (refl, (refl, tt));
  no_sep = (refl, (refl, tt));
  filled = omega arith;
  text_le = omega arith;
  clean = (refl, (refl, tt));
}

k2-vx : Storable k2 vx
k2-vx = record {
  key_pos = omega arith;
  key_le = omega arith;
  no_null = (refl, (refl, tt));
  no_sep = (refl, (refl, tt));
  filled = omega arith;
  text_le = omega arith;
  clean = (refl, (refl, tt));
}

k1-vyz : Storable k1 vyz
k1-vyz = record {
  key_pos = omega arith;
  key_le = omega arith;
  no_null = (refl, (refl, tt));
  no_sep = (refl, (refl, tt));
  filled = omega arith;
  text_le = omega arith;
  clean = (refl, (refl, (refl, tt)));
}

session-map_replies_example :
    Returns
      (λ rs t.
        rs
        ≡ answered done
          ∷ (answered done
              ∷ (answered done
                  ∷ (answered exists
                      ∷ (fetched (some vyz)
                          ∷ (deleted true
                              ∷ (deleted false
                                  ∷ (fetched none
                                      ∷ (answered done ∷ (fetched (some vx) ∷ []))))))))))
      (session calls (alloc [] []))
session-map_replies_example =
    session-map_replies calls (k1-vx, (k2-vx, (k1-vyz, (k2-vx, (k1-vx, tt))))) (omega arith)
      (omega arith) (alloc [] [])
