-- ===== src/Db/Map/Session.antt =====
-- Calls of the database library in a row, beginning with the `db_open` that makes a new database.
pub mod Replies
use my_file.Prelude.{
  ℕ, ◌+◌, ◌≤◌, ◌<◌, ◌≡◌, refl, ap, ◌∙◌, Bool, Option, none, some, true, List, [], ◌∷◌, ◌++◌, arith,
  length, length-append,
}
use my_file.CLib.Numbers.{dec}
use my_file.CLib.Numbers.RoundTrip.{length-dec}
use my_file.CLib.Strings.Laws.{Lacks}
use my_file.Db.State.{Db, Run, M, ◌>>=◌, ◌>>◌, pure, and_then, Returns, returns, weaken}
use my_file.Db.Pointers.{ptr_sz, ptr_max}
use my_file.Db.Records.{sep, newline, idxlen_sz, idxlen_max, datlen_max}
use my_file.Db.Records.Parse.{Fits, entry_text, body_text, length-entry_text}
use my_file.Db.Ops.{open_db, fetch, store, delete, Flag, Stored}
use my_file.Db.Ops.Insert.{new_entry}
use my_file.Db.Map.State.{Contents, has, with_key, Holds, Grown}
use my_file.Db.Map.Open.{start, open_within}
use my_file.Db.Map.Fetch.{fetch_within}
use my_file.Db.Map.Delete.{delete_within}
use my_file.Db.Map.Store.{stored, store_within}

pub data Call : Type 0 where
  fetching : List ℕ → Call
  deleting : List ℕ → Call
  storing : List ℕ → List ℕ → Flag → Call

pub data Reply : Type 0 where
  fetched : Option (List ℕ) → Reply
  deleted : Bool → Reply
  answered : Stored → Reply

abbrev pub call : Call → M Reply
call (fetching key) = do out ← fetch key; pure (fetched out)
call (deleting key) = do rc ← delete key; pure (deleted rc)
call (storing key text flag) = do rc ← store key text flag; pure (answered rc)

abbrev pub run_calls : List Call → M (List Reply)
run_calls [] = pure []
run_calls (c ∷ cs) = do r ← call c; rs ← run_calls cs; pure (r ∷ rs)

-- the same calls on a map
abbrev pub map_call : Call → Contents → Reply × Contents
map_call (fetching key) m = (fetched (m key), m)
map_call (deleting key) m = (deleted (has (m key)), with_key key none m)
map_call (storing key text flag) m =
    (answered (stored flag key text m).0, (stored flag key text m).1)

abbrev pub map_replies : List Call → Contents → List Reply
map_replies [] m = []
map_replies (c ∷ cs) m = (map_call c m).0 ∷ map_replies cs (map_call c m).1

-- the digits of an offset and of a length, with the separators and the newline
abbrev pub fields_max : ℕ
fields_max = 13

-- how much longer a call makes the two files at most
abbrev pub idx_need : Call → ℕ
idx_need (storing key text flag) = ptr_sz + idxlen_sz + (length key + fields_max)
idx_need _ = 0

abbrev pub dat_need : Call → ℕ
dat_need (storing key text flag) = length text + 1
dat_need _ = 0

abbrev pub total : (Call → ℕ) → List Call → ℕ
total need [] = 0
total need (c ∷ cs) = need c + total need cs

-- A key and data that the format can hold.
pub record Storable (key text : List ℕ) : Type 0 where
  pub key_pos : 0 < length key
  pub key_le : length key + fields_max ≤ idxlen_max
  pub no_null : Lacks 0 key
  pub no_sep : Lacks sep key
  pub filled : 0 < length text
  pub text_le : length text + 1 ≤ datlen_max
  pub clean : Lacks 0 text

abbrev pub Allowed : List Call → Type 0
Allowed [] = Unit
Allowed (storing key text flag ∷ cs) = Storable key text × Allowed cs
Allowed (fetching key ∷ cs) = Allowed cs
Allowed (deleting key ∷ cs) = Allowed cs

-- db_open with O_CREAT and O_TRUNC, and the calls behind it
abbrev pub session : List Call → M (List Reply)
session cs = do open_db true (some []) (some []); run_calls cs
