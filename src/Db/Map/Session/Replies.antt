-- ===== src/Db/Map/Session/Replies.antt =====
-- The replies of a session of the database library.
use my_file.Prelude.{
  ℕ, ◌+◌, ◌≤◌, ◌≡◌, refl, ap, ◌∙◌, none, List, [], ◌∷◌, ◌++◌, arith, length, length-append,
}
use my_file.CLib.Numbers.{dec}
use my_file.CLib.Numbers.RoundTrip.{length-dec}
use my_file.Db.State.{Db, Run, M, and_then, Returns, returns}
use my_file.Db.Pointers.{ptr_max}
use my_file.Db.Records.{sep, newline, datlen_max}
use my_file.Db.Records.Parse.{Fits, entry_text, body_text, length-entry_text}
use my_file.Db.Ops.Insert.{new_entry}
use my_file.Db.Map.State.{Contents, Holds, Grown}
use my_file.Db.Map.Open.{start, open_within}
use my_file.Db.Map.Fetch.{fetch_within}
use my_file.Db.Map.Delete.{delete_within}
use my_file.Db.Map.Store.{store_within}
use my_file.Db.Map.Session.{
  Call, fetching, deleting, storing, Reply, fetched, deleted, answered, call, run_calls, session,
  map_call, map_replies, fields_max, idx_need, dat_need, total, Storable, Allowed,
}

body_le :
    (s : Db) (key text : List ℕ)
    → length s.dat ≤ ptr_max
    → length text + 1 ≤ datlen_max
    → length (body_text (new_entry s key text 0)) ≤ length key + fields_max
body_le s key text at size = omega (
  arith,
  length-append key (sep ∷ (dec (length s.dat) ++ (sep ∷ (dec (length text + 1) ++ newline ∷ [])))),
  length-append (dec (length s.dat)) (sep ∷ (dec (length text + 1) ++ newline ∷ [])),
  length-append (dec (length text + 1)) (newline ∷ []),
  length-dec 5 (length s.dat) (omega arith),
  length-dec 3 (length text + 1) (omega arith),
)

Storable-Fits :
    (s : Db) (key text : List ℕ)
    → length s.dat ≤ ptr_max
    → Storable key text
    → Fits (new_entry s key text 0)
Storable-Fits s key text at h = record {
  key_pos = h.key_pos;
  no_null = h.no_null;
  no_sep = h.no_sep;
  ptr_le = omega arith;
  datlen_pos = omega arith;
  datlen_le = h.text_le;
  length_le = let k = h.key_le in omega (arith, body_le s key text at h.text_le);
}

bind :
    {A B : Type 0} {P : A → Db → Type 0} {Q : B → Db → Type 0} {m : Run A} {k : A → M B}
    → Returns P m
    → ((a : A) (t : Db) → P a t → Returns Q (k a t))
    → Returns Q (and_then m k)
bind (returns p) f = f _ _ p

-- the length of the files and the room that the calls may still need
record Roomy (s : Db) (cs : List Call) : Type 0 where
  idx : length s.idx + total idx_need cs ≤ ptr_max
  dat : length s.dat + total dat_need cs ≤ ptr_max

abbrev Answer : Contents → Call → Db → Reply → Db → Type 0
Answer m c s r t =
    (r ≡ (map_call c m).0) × Holds t start (map_call c m).1 × Grown s t (idx_need c) (dat_need c)

call_within :
    (s : Db) (m : Contents) (c : Call) (cs : List Call)
    → Holds s start m
    → Allowed (c ∷ cs)
    → Roomy s (c ∷ cs)
    → Returns (Answer m c s) (call c s)
call_within s m (fetching key) cs h a room =
    bind (fetch_within s start m h key) (λ out t p. returns (ap fetched p.0, p.1, p.2))
call_within s m (deleting key) cs h a room =
    bind (delete_within s start m h key) (λ rc t p. returns (ap deleted p.0, p.1, p.2))
call_within s m (storing key text flag) cs h a room =
    let i = room.idx in
    let d = room.dat in
    let k = a.0 in
    let small : length s.dat ≤ ptr_max = omega arith in
    let fits = Storable-Fits s key text small k in
    let size : length (entry_text (new_entry s key text 0)) ≤ idx_need (storing key text flag) =
      omega (
        arith,
        length-entry_text (new_entry s key text 0) fits,
        body_le s key text small k.text_le,
      ) in
    bind (store_within s start m h key text fits k.clean k.filled (omega arith) flag) (λ rc t p.
      returns (
        ap answered p.0,
        p.1,
        record { idx = let g = p.2.idx in omega (arith, size); dat = p.2.dat },
      ))

Roomy-after :
    (s t : Db) (c : Call) (cs : List Call)
    → Roomy s (c ∷ cs)
    → Grown s t (idx_need c) (dat_need c)
    → Roomy t cs
Roomy-after s t c cs room g = record {
  idx = let i = room.idx in let j = g.idx in omega arith;
  dat = let i = room.dat in let j = g.dat in omega arith;
}

Allowed-after : (c : Call) (cs : List Call) → Allowed (c ∷ cs) → Allowed cs
Allowed-after (fetching key) cs a = a
Allowed-after (deleting key) cs a = a
Allowed-after (storing key text flag) cs a = a.1

run_calls-map_replies :
    (s : Db) (m : Contents) (cs : List Call)
    → Holds s start m
    → Allowed cs
    → Roomy s cs
    → Returns (λ rs t. rs ≡ map_replies cs m) (run_calls cs s)
run_calls-map_replies s m [] h a room = returns refl
run_calls-map_replies s m (c ∷ cs) h a room = bind (call_within s m c cs h a room) (λ r t p.
    bind
      (run_calls-map_replies t (map_call c m).1 cs p.1 (Allowed-after c cs a)
        (Roomy-after s t c cs room p.2))
      (λ rs u e. returns (ap (λ x. x ∷ rs) p.0 ∙ ap (λ x. (map_call c m).0 ∷ x) e)))

-- Where both files can be created and are empty, and calls of db_fetch, db_delete and db_store with
-- any flags follow db_open with O_CREAT and O_TRUNC, where each key that is stored has from 1 to
-- 1011 bytes, none of them null or a colon, and its data from 1 to 1023 bytes, none of them null,
-- and the table with 23 bytes beside the key for each store, and the data of all stores with their
-- newlines, make at most PTR_MAX bytes: every call returns, and the replies are those of a map,
-- which is empty at first, looks keys up, removes them, and sets them as the flags say.
pub session-map_replies :
    (cs : List Call)
    → Allowed cs
    → start + total idx_need cs ≤ ptr_max
    → total dat_need cs ≤ ptr_max
    → (s : Db) → Returns (λ rs t. rs ≡ map_replies cs (λ _. none)) (session cs s)
session-map_replies cs a i d s = bind (open_within s) (λ r t p.
    run_calls-map_replies t (λ _. none) cs p.1 a
      (record { idx = omega (arith, p.2); dat = omega (arith, p.3) }))
