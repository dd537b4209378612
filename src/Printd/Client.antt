-- ===== src/Printd/Client.antt =====
-- `client_thread`: a request is read, spooled in two files and queued. What the calls of the
-- system bring to one run of the thread is an argument.
pub mod Spec
pub mod Files
pub mod Spooled
use my_file.Prelude.{
  ℕ, ◌+◌, ◌*◌, ◌/◌, ◌%◌, ◌^◌, Bool, true, false, Option, none, some, List, [], ◌∷◌, ◌++◌, ◌==◌,
  ◌&&◌, if◌then◌else◌, take, bytes_eq, ℤ, pos, negsuc,
}
use my_file.CLib.Files.{overlay}
use my_file.Printd.Chunks.{Wrote, wrote_all, write_error, wrote_less}
use my_file.Printd.Heap.{Run, ok, exited, ◌>>=◌}
use my_file.Printd.Queue.{Printreq, Job, Jobs, add_job}
use my_file.Printd.Jobno.{get_newjobno, print_long}
use my_file.Printd.Ipp.{low32}
use my_file.Printd.Workers.{Workers, add_worker, client_cleanup}

-- the directories DATADIR and REQDIR of the spool
pub data Dir : Type 0 where
  data_dir req_dir : Dir

pub data SpoolFile : Type 0 where
  document : List ℕ → SpoolFile
  request : Printreq → SpoolFile
  partial : SpoolFile

-- `struct printresp`
pub record Printresp : Type 0 where
  pub retcode : ℕ
  pub jobid : ℤ
  pub msg : List ℕ

-- the queue, the counter, the files of the spool by directory and name, and the responses sent
pub record Server : Type 0 where
  pub jobs : Jobs
  pub nextjob : ℤ
  pub spool : Dir → List ℕ → Option SpoolFile
  pub responses : List Printresp

-- what `treadn` brings: an error, too few bytes, or a request in the order of the network
pub data Header : Type 0 where
  unread : ℕ → Header
  short_header : Header
  whole_header : Printreq → Header

-- What the calls bring: `chunks` are the reads from the socket up to its end, an error or a timeout,
-- each with what becomes of its write; `stack` is in `buf` before them, and `unset` in `res.jobid`.
pub record ClientCalls : Type 0 where
  pub header : Header
  pub data_created : Bool
  pub chunks : List (List ℕ × Wrote)
  pub req_created : Bool
  pub req_wrote : Wrote
  pub memory : Option ℕ
  pub stack : List ℕ
  pub unset : ℤ
  pub strerror : ℕ → List ℕ

abbrev pub eio : ℕ
eio = 5

abbrev pub msglen_max : ℕ
msglen_max = 512

-- `htonl` and `ntohl`: four bytes in the other order
unfoldable pub ntohl : ℕ → ℕ
ntohl n = n % 256 * 2 ^ 24 + n / 256 % 256 * 2 ^ 16 + n / 2 ^ 16 % 256 * 256 + n / 2 ^ 24 % 256

-- a file in its place, or none
unfoldable pub same_file : Dir → Dir → Bool
same_file data_dir data_dir = true
same_file req_dir req_dir = true
same_file data_dir req_dir = false
same_file req_dir data_dir = false

abbrev pub put_file : Dir → List ℕ → Option SpoolFile → Server → Server
put_file d n file s = record s {
  spool = λ d' n'. if same_file d' d && bytes_eq n' n then file else s.spool d' n';
}

abbrev pub respond : Printresp → Server → Server
respond res s = record s { responses = s.responses ++ res ∷ [] }

-- The message of an error is looked up by the code in the order of the network.
abbrev pub error_response : (ℕ → List ℕ) → ℤ → ℕ → Printresp
error_response strerror jobid errno = record {
  retcode = ntohl errno;
  jobid = jobid;
  msg = take msglen_max (strerror (ntohl errno));
}

-- `%!PS`
abbrev pub ps_magic : List ℕ
ps_magic = b'%' ∷ b'!' ∷ b'P' ∷ b'S' ∷ []

-- `req.flags |= PR_TEXT`
unfoldable pub with_text_flag : ℕ → ℕ
with_text_flag flags = if flags % 2 == 1 then flags else flags + 1

unfoldable pub first_flags : List ℕ → List ℕ → ℕ → ℕ
unfolding with_text_flag
first_flags stack chunk flags =
    if bytes_eq (take 4 (overlay chunk stack)) ps_magic then flags else with_text_flag flags

-- The bytes that were written, or the error of a write.
pub data Copied : Type 0 where
  copied : List ℕ → Copied
  not_copied : ℕ → Copied

abbrev pub put_chunk : List ℕ → Copied → Copied
put_chunk chunk (copied bs) = copied (chunk ++ bs)
put_chunk chunk (not_copied errno) = not_copied errno

-- "Read the file and store it in the spool directory."
unfoldable pub copy_data : List (List ℕ × Wrote) → Copied
copy_data [] = copied []
copy_data ((chunk, wrote_all) ∷ chunks) = put_chunk chunk (copy_data chunks)
copy_data ((chunk, write_error errno) ∷ chunks) = not_copied errno
copy_data ((chunk, wrote_less) ∷ chunks) = not_copied eio

abbrev pub flags_of : ClientCalls → List (List ℕ × Wrote) → ℕ → ℕ
flags_of calls [] flags = flags
flags_of calls ((chunk, w) ∷ chunks) flags = first_flags calls.stack chunk flags

-- the exit value of the thread, and what it leaves
abbrev pub give_up : ClientCalls → ℤ → ℕ → Server → Run (ℕ × Server)
give_up calls jobid errno s = ok (1, respond (error_response calls.strerror jobid errno) s)

-- `request ID %ld`
abbrev pub request_id : List ℕ
request_id = b'r' ∷ b'e' ∷ b'q' ∷ b'u' ∷ b'e' ∷ b's' ∷ b't' ∷ b' ' ∷ b'I' ∷ b'D' ∷ b' ' ∷ []

-- "Send response to client", and "Notify the printer thread"
unfoldable pub accept_job : ClientCalls → Printreq → ℤ → Server → Run (ℕ × Server)
accept_job calls req jobid s = do
  let res : Printresp = record {
    retcode = 0;
    jobid = pos (ntohl (low32 jobid));
    msg = request_id ++ print_long jobid;
  }
  jobs ← add_job calls.memory req jobid s.jobs
  ok (0, record (respond res s) { jobs = jobs })

abbrev drop_both : ℤ → Server → Server
drop_both jobid s =
    put_file data_dir (print_long jobid) none (put_file req_dir (print_long jobid) none s)

abbrev write_request : ClientCalls → Printreq → ℤ → Wrote → Server → Run (ℕ × Server)
write_request calls req jobid wrote_all s =
    accept_job calls req jobid (put_file req_dir (print_long jobid) (some (request req)) s)
write_request calls req jobid (write_error errno) s =
    give_up calls (pos 0) errno (drop_both jobid s)
write_request calls req jobid wrote_less s = give_up calls (pos 0) eio (drop_both jobid s)

-- "Create the control file."; `n` is still the size of the request
unfoldable pub spool_request : ClientCalls → Printreq → ℤ → Bool → Server → Run (ℕ × Server)
unfolding accept_job
spool_request calls req jobid false s =
    give_up calls (pos 0) eio (put_file data_dir (print_long jobid) none s)
spool_request calls req jobid true s =
    write_request calls req jobid calls.req_wrote
      (put_file req_dir (print_long jobid) (some partial) s)

unfoldable pub spool_data : ClientCalls → Printreq → ℤ → Copied → Server → Run (ℕ × Server)
unfolding spool_request
spool_data calls req jobid (not_copied errno) s =
    give_up calls calls.unset errno (put_file data_dir (print_long jobid) none s)
spool_data calls req jobid (copied bs) s =
    spool_request calls (record req { flags = flags_of calls calls.chunks req.flags }) jobid
      calls.req_created (put_file data_dir (print_long jobid) (some (document bs)) s)

-- "Create the data file."
unfoldable pub create_data : ClientCalls → Printreq → ℤ → Bool → Server → Run (ℕ × Server)
unfolding spool_data copy_data
create_data calls req jobid false s = give_up calls (pos 0) eio s
create_data calls req jobid true s =
    spool_data calls req jobid (copy_data calls.chunks)
      (put_file data_dir (print_long jobid) (some (document [])) s)

-- `ntohl` of the two numbers of the request
unfoldable pub host_order : Printreq → Printreq
host_order req = record req { size = pos (ntohl (low32 req.size)); flags = ntohl req.flags }

unfoldable pub read_request : ClientCalls → Header → Server → Run (ℕ × Server)
unfolding create_data host_order get_newjobno
read_request calls (unread errno) s = give_up calls (pos 0) errno s
read_request calls short_header s = give_up calls (pos 0) eio s
read_request calls (whole_header req) s =
    let (jobid, next) = get_newjobno s.nextjob in
    create_data calls (host_order req) jobid calls.data_created (record s { nextjob = next })

-- the thread behind `add_worker` and in front of its cleanup
unfoldable pub serve_client : ClientCalls → Server → Run (ℕ × Server)
unfolding read_request
serve_client calls s = read_request calls calls.header s

-- `client_thread` with its `add_worker` and, at its end or exit, its cleanup
unfoldable pub client_thread :
    ℕ → ℕ → ℕ → Option ℕ → ClientCalls → Workers → Server → Run (ℕ × (Workers × Server))
unfolding serve_client
client_thread fuel tid sockfd wtp calls ws s = do
  (goes_on, ws) ← add_worker wtp tid sockfd ws
  (code, s) ← elim goes_on [ true ↦ serve_client calls s | false ↦ ok (1, s) ]
  (closed, ws) ← client_cleanup fuel tid ws
  ok (code, (ws, s))
