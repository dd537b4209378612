-- ===== src/Printd/Tests/Restarted.antt =====
-- A start of the daemon with requests in the spool.
use my_file.Prelude.{refl, ◌∷◌, [], List, some, none, false, pos}
use my_file.CLib.Numbers.{dec}
use my_file.Printd.Queue.{Jobs}
use my_file.Printd.Jobno.{print_long}
use my_file.Printd.Client.{Server, request, req_dir, put_file, same_file}
use my_file.Printd.Start.{Dirent, build_qonstart}
use my_file.Printd.Start.Requeue.{
  Entry, here, up, closed, spooled, dirents, jobs_of, InSpool, Requeued, build_qonstart-Requeued,
}
use my_file.Printd.Tests.{job7, job8, server, request_of_lp}

abbrev no_jobs : Jobs
no_jobs = record { heap = λ a. none; jobhead = none; jobtail = none }

abbrev spooling : Server
spooling = put_file req_dir (print_long (pos 7)) (some (request request_of_lp)) (
    put_file req_dir (print_long (pos 8)) (some (request request_of_lp))
      (record server { jobs = no_jobs }))

abbrev lost : Dirent
lost = record { d_name = b'x' ∷ []; opens = false; reads = false; memory = none }

abbrev entries : List Entry
entries = up lost ∷ (spooled 5 job8 ∷ (closed lost ∷ (here lost ∷ (spooled 6 job7 ∷ []))))

in_spool : InSpool (spooling.spool) (jobs_of entries)
unfolding same_file dec print_long
in_spool = (refl, (8, refl), (refl, (7, refl), tt))

build_qonstart-Requeued_example :
    Requeued
      (build_qonstart (some (dirents entries)) spooling)
      spooling
      ((5, job8) ∷ ((6, job7) ∷ []))
build_qonstart-Requeued_example =
    build_qonstart-Requeued spooling entries
      (record { span = tt; head = refl; tail = refl; distinct = tt }) (tt, ((refl, tt), tt))
      in_spool
