-- ===== src/Printd/Tests.antt =====
-- The theorems on the print spooler, at small states.
mod Responses
mod Restarted
use my_file.Prelude.{
  ℕ, ◌+◌, ◌≤◌, ◌≡◌, refl, true, false, Option, none, some, List, [], ◌∷◌, arith, length, take, ℤ,
  pos,
}
use my_file.CLib.Numbers.{dec}
use my_file.Printd.Chunks.{wrote_all}
use my_file.Printd.Heap.{Heap, ok, invalid, ◌>>=◌, set_node}
use my_file.Printd.Queue.{Printreq, Job, Jobs, remove_job, replace_job}
use my_file.Printd.Queue.Order.{IsQueue}
use my_file.Printd.Queue.Defer.{add_jobs, remove_job-replace_job}
use my_file.Printd.Workers.{Worker, Workers, add_worker, kill_workers, client_cleanup}
use my_file.Printd.Workers.Lost.{IsWorkers, client_cleanup-dangling}
use my_file.Printd.Jobno.{get_newjobno, init_request, update_jobno}
use my_file.Printd.Jobno.Restart.{init_request-update_jobno}
use my_file.Printd.Ipp.{ipp_header, ipp_bytes}
use my_file.Printd.Ipp.Encode.{job_attributes}
use my_file.Printd.Ipp.Decode.{ipp_request, attributes-ipp_header}
use my_file.Printd.Ipp.Size.{length-ipp_header}
use my_file.Printd.Client.{ClientCalls, Dir, SpoolFile, Server, serve_client, whole_header}
use my_file.Printd.Client.Spooled.{Serves, serve_client-Served}
use my_file.Printd.Printer.{PrinterCalls, Daemon, connected, printer_round, check_config}
use my_file.Printd.Printer.Round.{Rounds, printer_round-Ended}

abbrev pub request_of_lp : Printreq
request_of_lp = record { size = pos 3; flags = 1; usernm = b'l' ∷ b'p' ∷ []; jobnm = b'a' ∷ [] }

abbrev pub job7 : Job
job7 = record { jobid = pos 7; req = request_of_lp }

abbrev pub job8 : Job
job8 = record { jobid = pos 8; req = request_of_lp }

abbrev job9 : Job
job9 = record { jobid = pos 9; req = request_of_lp }

abbrev no_jobs : Heap Job
no_jobs a = none

-- two jobs that wait
abbrev pub two_jobs : Jobs
two_jobs = record {
  heap =
      set_node (set_node no_jobs 1 (record { next = some 2; prev = none; item = job7 })) 2
        (record { next = none; prev = some 1; item = job8 });
  jobhead = some 1;
  jobtail = some 2;
}

pub two_jobs-IsQueue : IsQueue two_jobs ((1, job7) ∷ ((2, job8) ∷ []))
unfolding set_node
two_jobs-IsQueue = record {
  span = (refl, (refl, tt));
  head = refl;
  tail = refl;
  distinct = ((refl, tt), (tt, tt));
}

remove_job-replace_job_example :
    (t : Jobs) × ((remove_job (some 1) two_jobs
        >>= add_jobs ((3, job9) ∷ [])
        >>= replace_job (some 1))
      ≡ ok t)
    × IsQueue t ((1, job7) ∷ ((2, job8) ∷ ((3, job9) ∷ [])))
remove_job-replace_job_example =
    remove_job-replace_job two_jobs 1 job7 ((2, job8) ∷ []) ((3, job9) ∷ []) two_jobs-IsQueue
      ((refl, (refl, tt)), tt)

abbrev worker5 : Worker
worker5 = record { tid = 5; sockfd = 40 }

abbrev no_workers : Heap Worker
no_workers a = none

abbrev one_worker : Workers
one_worker = record {
  heap = set_node no_workers 1 (record { next = none; prev = none; item = worker5 });
  workers = some 1;
}

one_worker-IsWorkers : IsWorkers one_worker ((1, worker5) ∷ [])
unfolding set_node
one_worker-IsWorkers = record { span = (refl, tt); head = refl; distinct = (tt, tt) }

client_cleanup-dangling_example :
    (add_worker (some 2) 6 41 one_worker >>= λ r.
    (client_cleanup 9 5 r.1 >>= λ t. kill_workers 9 t.1))
    ≡ invalid
client_cleanup-dangling_example =
    client_cleanup-dangling one_worker 2 6 41 1 worker5 [] one_worker-IsWorkers (refl, tt) 9 9
      (omega arith) (omega arith)

abbrev counter8 : List ℕ
counter8 = b'8' ∷ []

two_digits : length counter8 ≤ length (dec 10)
unfolding dec
two_digits = omega arith

-- the counter at 9 with the file of 8
init_request-update_jobno_example :
    ((get_newjobno (pos 9)).0 ≡ pos 9)
    × ((update_jobno true (get_newjobno (pos 9)).1 counter8 >>= λ file.
          init_request true (some file) [])
        ≡ ok (pos 10))
init_request-update_jobno_example =
    init_request-update_jobno 9 counter8 [] (omega arith) (omega arith) two_digits

abbrev pub hp : List ℕ
hp = b'h' ∷ b'p' ∷ []

attributes-ipp_header_example :
    (bytes : List ℕ) × ((ipp_header hp job7 ≡ ok bytes)
      × (ipp_request 7 bytes
          ≡ some (record {
            version = (1, 1);
            operation = 2;
            request_id = 7;
            group = 1;
            attrs = job_attributes hp job7;
          })))
attributes-ipp_header_example = attributes-ipp_header hp job7 7 refl (omega arith) (omega arith)

length-ipp_header_example :
    (length (ipp_bytes hp job7) ≡ 10 + (160 + 2 + 2 + 1))
    × (ipp_header hp job7 ≡ ok (ipp_bytes hp job7))
length-ipp_header_example = length-ipp_header hp job7

abbrev no_files : Dir → List ℕ → Option SpoolFile
no_files d n = none

abbrev pub server : Server
server = record { jobs = two_jobs; nextjob = pos 9; spool = no_files; responses = [] }

abbrev client_calls : ClientCalls
client_calls = record {
  header = whole_header request_of_lp;
  data_created = true;
  chunks = (b'%' ∷ b'!' ∷ b'P' ∷ b'S' ∷ [], wrote_all) ∷ [];
  req_created = true;
  req_wrote = wrote_all;
  memory = some 3;
  stack = [];
  unset = pos 0;
  strerror = λ n. [];
}

serve_client-Served_example :
    Serves (serve_client client_calls server) server client_calls ((1, job7) ∷ ((2, job8) ∷ [])) 3
serve_client-Served_example =
    serve_client-Served client_calls server ((1, job7) ∷ ((2, job8) ∷ [])) 3 two_jobs-IsQueue
      (refl, (refl, tt)) refl (λ d. refl)
