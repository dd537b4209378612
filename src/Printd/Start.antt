-- ===== src/Printd/Start.antt =====
-- `build_qonstart`: the requests in the spool are queued when the daemon starts.
pub mod Requeue
use my_file.Prelude.{ℕ, Bool, true, false, ◌||◌, Option, none, some, List, [], ◌∷◌, bytes_eq}
use my_file.CLib.Numbers.{atol}
use my_file.Printd.Heap.{Run, ok, ◌>>=◌}
use my_file.Printd.Queue.{Printreq, add_job}
use my_file.Printd.Client.{
  SpoolFile, document, request, partial, Server, data_dir, req_dir, put_file,
}

-- an entry that `readdir` gives: its name, whether `open` and `read` work, and the memory of `malloc`
pub record Dirent : Type 0 where
  pub d_name : List ℕ
  pub opens : Bool
  pub reads : Bool
  pub memory : Option ℕ

abbrev pub dot : List ℕ
dot = b'.' ∷ []

abbrev pub dot_dot : List ℕ
dot_dot = b'.' ∷ b'.' ∷ []

-- A file of requests that is too short is unlinked with the document of the same name.
abbrev pub unlink_both : List ℕ → Server → Server
unlink_both name s = put_file data_dir name none (put_file req_dir name none s)

abbrev pub queue_request : Dirent → Option SpoolFile → Server → Run Server
queue_request entp none s = ok s
queue_request entp (some (request req)) s = do
  jobs ← add_job entp.memory req (atol entp.d_name) s.jobs
  ok (record s { jobs = jobs })
queue_request entp (some partial) s = ok (unlink_both entp.d_name s)
queue_request entp (some (document bs)) s = ok (unlink_both entp.d_name s)

abbrev pub read_entry : Dirent → Bool → Server → Run Server
read_entry entp true s = queue_request entp (s.spool req_dir entp.d_name) s
read_entry entp false s = ok (unlink_both entp.d_name s)

abbrev pub open_entry : Dirent → Bool → Option SpoolFile → Server → Run Server
open_entry entp false file s = ok s
open_entry entp true none s = ok s
open_entry entp true (some file) s = read_entry entp entp.reads s

abbrev pub visit : Dirent → Bool → Server → Run Server
visit entp true s = ok s
visit entp false s = open_entry entp entp.opens (s.spool req_dir entp.d_name) s

-- the loop over the directory, or nothing where it cannot be opened
unfoldable pub build_loop : List Dirent → Server → Run Server
build_loop [] s = ok s
build_loop (entp ∷ entries) s =
    visit entp (bytes_eq entp.d_name dot || bytes_eq entp.d_name dot_dot) s >>= build_loop entries

unfoldable pub build_qonstart : Option (List Dirent) → Server → Run Server
unfolding build_loop
build_qonstart none s = ok s
build_qonstart (some entries) s = build_loop entries s
