-- ===== src/Printd/Printer.antt =====
-- `printer_thread`: one round of its loop, from a job that is waiting to its end or its deferral.
-- What the calls of the system bring to the round is an argument.
pub mod Request
pub mod Ended
pub mod Round
use my_file.Prelude.{
  ℕ, ◌+◌, Bool, true, false, ◌&&◌, Option, none, some, List, [], ◌∷◌, ◌++◌, if◌then◌else◌, length,
  ℤ,
}
use my_file.Printd.Chunks.{Wrote, wrote_all, write_error, wrote_less}
use my_file.Printd.Heap.{Node, Run, ok, exited, ◌>>=◌, deref, release}
use my_file.Printd.Queue.{Job, Jobs, remove_job, replace_job}
use my_file.Printd.Jobno.{update_jobno, print_long}
use my_file.Printd.Status.{Read, printer_status}
use my_file.Printd.Ipp.{ipp_header, http_header}
use my_file.Printd.Workers.{Workers, kill_workers}
use my_file.Printd.Client.{Dir, data_dir, req_dir, Server, put_file}

-- the server with the name of the printer, the flag of the configuration, and the counter file
pub record Daemon : Type 0 where
  pub server : Server
  pub printer_name : List ℕ
  pub reread : Bool
  pub counter : List ℕ

-- The reads of the document with what becomes of their writes to the printer, whether the last
-- read fails, and what `printer_status` reads: `fresh` and `buffer` are in its memory before.
pub record Sending : Type 0 where
  pub st_size : ℕ
  pub headers_sent : Bool
  pub reads : List (List ℕ × Wrote)
  pub read_fails : Bool
  pub fresh : List ℕ
  pub buffer : List ℕ
  pub replies : List Read

-- how far the calls in front of the headers come
pub data Delivery : Type 0 where
  no_document no_stat no_socket no_connection : Delivery
  connected : Sending → Delivery

-- `address` is what `get_printaddr` brings: no printer, or one with its canonical name or without.
pub record PrinterCalls : Type 0 where
  pub counter_written : Bool
  pub address : Option (Option (List ℕ))
  pub delivery : Delivery

-- the job is lost, completed, or back in the queue
pub data Outcome : Type 0 where
  canceled completed deferred : Outcome

-- `printer`
abbrev pub default_name : List ℕ
default_name = b'p' ∷ b'r' ∷ b'i' ∷ b'n' ∷ b't' ∷ b'e' ∷ b'r' ∷ []

unfoldable pub init_printer : Option (Option (List ℕ)) → Run (List ℕ)
init_printer none = exited
init_printer (some none) = ok default_name
init_printer (some (some name)) = ok name

-- "Check for a change in the config file."
unfoldable pub check_config : PrinterCalls → Bool → List ℕ → Run (List ℕ)
unfolding init_printer
check_config calls false name = ok name
check_config calls true name = init_printer calls.address

abbrev put_bytes : List ℕ → List ℕ × Bool → List ℕ × Bool
put_bytes chunk (bs, whole) = (chunk ++ bs, whole)

-- the bytes of the document that the printer gets by whole writes, and whether that is all of it
unfoldable pub send_document : List (List ℕ × Wrote) → Bool → List ℕ × Bool
send_document [] true = ([], false)
send_document [] false = ([], true)
send_document ((chunk, wrote_all) ∷ reads) fails = put_bytes chunk (send_document reads fails)
send_document ((chunk, write_error errno) ∷ reads) fails = ([], false)
send_document ((chunk, wrote_less) ∷ reads) fails = ([], false)

-- both headers, in one `writev`
unfoldable pub headers : List ℕ → Job → ℕ → Run (List ℕ)
headers name jp st_size = do
  ibuf ← ipp_header name jp
  hbuf ← http_header name st_size (length ibuf)
  ok (hbuf ++ ibuf)

-- what the printer gets, and whether the request is whole
unfoldable pub send_job : List ℕ → Job → Sending → Run (List ℕ × Bool)
unfolding send_document headers
send_job name jp sending = do
  iov ← headers name jp sending.st_size
  ok (
      if sending.headers_sent
      then put_bytes iov (send_document sending.reads sending.read_fails)
      else ([], false))

abbrev judge : Bool → Outcome
judge true = completed
judge false = deferred

abbrev pub response : ℕ → Sending → ℤ → Run Bool
response fuel sending jobid = printer_status sending.fresh fuel sending.buffer sending.replies jobid

-- The response is read only where the request is whole.
abbrev pub answer_to : ℕ → Bool → Sending → ℤ → Run Bool
answer_to fuel true sending jobid = response fuel sending jobid
answer_to fuel false sending jobid = ok false

unfoldable pub deliver : ℕ → List ℕ → Job → Delivery → Run (List ℕ × Outcome)
unfolding send_job
deliver fuel name jp no_document = ok ([], canceled)
deliver fuel name jp no_stat = ok ([], canceled)
deliver fuel name jp no_socket = ok ([], deferred)
deliver fuel name jp no_connection = ok ([], deferred)
deliver fuel name jp (connected sending) = do
  sent ← send_job name jp sending
  status ← answer_to fuel sent.1 sending jp.jobid
  ok (sent.0, judge status)

abbrev pub with_jobs : Server → Jobs → Server
with_jobs s jobs = record s { jobs = jobs }

abbrev free_job : ℕ → Server → Server
free_job a s = with_jobs s (record s.jobs { heap = release s.jobs.heap a })

-- `free(jp)`, the unlinking of both files, or `replace_job`
unfoldable pub settle_job : ℕ → ℤ → Outcome → Server → Run Server
settle_job a jobid canceled s = ok (free_job a s)
settle_job a jobid completed s = ok (
    free_job a
      (put_file req_dir (print_long jobid) none (put_file data_dir (print_long jobid) none s)))
settle_job a jobid deferred s = do jobs ← replace_job (some a) s.jobs; ok (with_jobs s jobs)

-- Nothing while no job is waiting; else what the printer got, the outcome, and the daemon behind it.
abbrev pub Step : Type 0
Step = Option (List ℕ × Outcome × Daemon)

unfoldable pub print_job : ℕ → PrinterCalls → ℕ → Daemon → Run Step
unfolding check_config deliver settle_job
print_job fuel calls a d = do
  n ← deref d.server.jobs.heap (some a)
  let jp = n.item
  jobs ← remove_job (some a) d.server.jobs
  counter ← update_jobno calls.counter_written d.server.nextjob d.counter
  name ← check_config calls d.reread d.printer_name
  (sent, outcome) ← deliver fuel name jp calls.delivery
  server ← settle_job a jp.jobid outcome (with_jobs d.server jobs)
  ok (
      some (
        sent,
        outcome,
        record { server = server; printer_name = name; reread = false; counter = counter },
      ))

abbrev round_at : ℕ → PrinterCalls → Option ℕ → Daemon → Run Step
round_at fuel calls none d = ok none
round_at fuel calls (some a) d = print_job fuel calls a d

unfoldable pub printer_round : ℕ → PrinterCalls → Daemon → Run Step
unfolding print_job
printer_round fuel calls d = round_at fuel calls d.server.jobs.jobhead d

-- the signals that `signal_thread` waits for
pub data Signal : Type 0 where
  sighup sigterm unexpected : Signal

-- the re-reading of the configuration is scheduled, or the workers are canceled and the process ends
unfoldable pub handle_signal : ℕ → Signal → Workers → Daemon → Run Daemon
handle_signal fuel sighup ws d = ok (record d { reread = true })
handle_signal fuel sigterm ws d = kill_workers fuel ws >>= λ tids. exited
handle_signal fuel unexpected ws d = kill_workers fuel ws >>= λ tids. exited
