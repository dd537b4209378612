-- ===== src/Printd/Printer/Round.antt =====
-- What a round of `printer_thread` makes of the first job.
use my_file.Prelude.{
  ℕ, ◌≡◌, ◌⊎◌, refl, ap, ◌∙◌, Bool, true, false, inl, inr, Bool-cases, none, some, List, [], ◌∷◌,
  ◌==◌,
}
use my_file.CLib.Files.{write_at}
use my_file.Printd.Heap.{Heap, Run, ok, deref, release}
use my_file.Printd.Heap.Span.{first_or, NotIn, Span-same}
use my_file.Printd.Heap.Distinct.{Disjoint-cell, flip}
use my_file.Printd.Queue.{Job, Jobs}
use my_file.Printd.Queue.Order.{IsQueue, replace_job-IsQueue}
use my_file.Printd.Queue.Remove.{remove_job-IsQueue}
use my_file.Printd.Jobno.{update_jobno, print_long}
use my_file.Printd.Client.{data_dir, req_dir, Server, put_file}
use my_file.Printd.Client.Files.{put_file-Others, put_self, put_beside, both}
use my_file.Printd.Printer.Request.{Short, request_whole, send_job-Sends}
use my_file.Printd.Printer.{
  Step, round_at, Daemon, PrinterCalls, Delivery, no_document, no_stat, no_socket, no_connection,
  connected, Outcome, canceled, completed, deferred, judge, check_config, deliver, with_jobs,
  settle_job, print_job, printer_round, free_job,
}
use my_file.Printd.Printer.Ended.{
  Delivered, Undelivered, without_socket, without_connection, cut_short, unsuccessful, Ended,
  ends_completed, ends_canceled, ends_deferred, Answering, LongSize,
}

release_other : (h : Heap Job) (a b : ℕ) → (a == b) ≡ false → release h a b ≡ h b
unfolding release
release_other h a b n = rw (flip a b n) refl

-- A freed node that is not in the queue.
free_job-IsQueue :
    (a : ℕ) (x : Job) (s : Jobs) (xs : List (ℕ × Job))
    → IsQueue s xs
    → NotIn a xs
    → IsQueue (record s { heap = release s.heap a }) xs
free_job-IsQueue a x s xs q i = record {
  span =
      Span-same s.heap (release s.heap a) ((a, x) ∷ []) (λ b j. release_other s.heap a b j.0) none
        xs none (Disjoint-cell a x xs i) q.span;
  head = q.head;
  tail = q.tail;
  distinct = q.distinct;
}

module _ (fuel : ℕ) (s : Server) (name : List ℕ) (a : ℕ) (x : Job) (xs : List (ℕ × Job))
    (jobs : Jobs) (q : IsQueue jobs xs) (apart : NotIn a xs)
    (there : jobs.heap a ≡ some (record { next = first_or none xs; prev = none; item = x })) where
  -- What `settle_job` is to leave.
  record Settles (delivery : Delivery) (sent : List ℕ) (outcome : Outcome) : Type 0 where
    server : Server
    runs : settle_job a x.jobid outcome (with_jobs s jobs) ≡ ok server
    ended : Ended fuel s name delivery a x xs sent outcome server

  settle_job-canceled :
      (delivery : Delivery)
      → (delivery ≡ no_document) ⊎ (delivery ≡ no_stat)
      → Settles delivery [] canceled
  unfolding settle_job
  settle_job-canceled delivery why = record {
    server = free_job a (with_jobs s jobs);
    runs = refl;
    ended = ends_canceled why (free_job-IsQueue a x jobs xs q apart) (λ d m. refl);
  }

  settle_job-deferred :
      (delivery : Delivery) (sent : List ℕ)
      → Undelivered fuel x delivery
      → Settles delivery sent deferred
  unfolding settle_job
  settle_job-deferred delivery sent why =
      let p = replace_job-IsQueue jobs a x (first_or none xs) none there xs q apart in
      record {
        server = with_jobs s p.state;
        runs = rw p.runs refl;
        ended = ends_deferred why p.queue (λ d m. refl);
      }

  settle_job-completed :
      (delivery : Delivery) (sent : List ℕ)
      → Delivered fuel name x delivery sent
      → Settles delivery sent completed
  unfolding settle_job
  settle_job-completed delivery sent d =
      let t1 : Server = put_file data_dir (print_long x.jobid) none (with_jobs s jobs) in
      let t2 : Server = put_file req_dir (print_long x.jobid) none t1 in
      record {
        server = free_job a t2;
        runs = refl;
        ended =
            ends_completed d (free_job-IsQueue a x jobs xs q apart)
              (both t2 (print_long x.jobid)
                (put_beside (print_long x.jobid) none t1
                  ∙ put_self data_dir (print_long x.jobid) none (with_jobs s jobs))
                (put_self req_dir (print_long x.jobid) none t1))
              (put_file-Others req_dir (print_long x.jobid) none s t1 (
                put_file-Others data_dir (print_long x.jobid) none s (with_jobs s jobs)
                  (λ d' m h. refl)));
      }

  judged :
      (delivery : Delivery) (sent : List ℕ) (well : Bool)
      → (well ≡ true → Delivered fuel name x delivery sent)
      → (well ≡ false → Undelivered fuel x delivery)
      → Settles delivery sent (judge well)
  judged delivery sent true d u = settle_job-completed delivery sent (d refl)
  judged delivery sent false d u = settle_job-deferred delivery sent (u refl)

  -- What the printer gets, and what becomes of the job then.
  record Handles (delivery : Delivery) : Type 0 where
    sent : List ℕ
    outcome : Outcome
    delivers : deliver fuel name x delivery ≡ ok (sent, outcome)
    settled : Settles delivery sent outcome

  deliver-Handles :
      (delivery : Delivery)
      → Short name x
      → LongSize delivery
      → Answering fuel x delivery
      → Handles delivery
  unfolding deliver
  deliver-Handles no_document short size k = record {
    sent = [];
    outcome = canceled;
    delivers = refl;
    settled = settle_job-canceled no_document (inl refl);
  }
  deliver-Handles no_stat short size k = record {
    sent = [];
    outcome = canceled;
    delivers = refl;
    settled = settle_job-canceled no_stat (inr refl);
  }
  deliver-Handles no_socket short size k = record {
    sent = [];
    outcome = deferred;
    delivers = refl;
    settled = settle_job-deferred no_socket [] without_socket;
  }
  deliver-Handles no_connection short size k = record {
    sent = [];
    outcome = deferred;
    delivers = refl;
    settled = settle_job-deferred no_connection [] without_connection;
  }
  deliver-Handles (connected sending) short size (b, answers) =
      let s = send_job-Sends name x sending short size in
      elim (Bool-cases (request_whole sending)) [
        | inr part ↦ record {
          sent = s.sent;
          outcome = deferred;
          delivers = rw (s.runs, part) refl;
          settled = settle_job-deferred (connected sending) s.sent (cut_short part);
        }
        | inl whole ↦ record {
          sent = s.sent;
          outcome = judge b;
          delivers = rw (s.runs, whole, answers) refl;
          settled =
              judged (connected sending) s.sent b
                (λ e. record {
                  sending = sending;
                  reached = refl;
                  whole = whole;
                  bytes = s.bytes whole;
                  status = answers ∙ ap ok e;
                })
                (λ e. unsuccessful (answers ∙ ap ok e));
        }
      ]

-- What a round ends in.
pub record Rounds (fuel : ℕ) (run : Run Step) (d : Daemon) (calls : PrinterCalls) (name : List ℕ)
    (a : ℕ) (x : Job) (xs : List (ℕ × Job)) : Type 0 where
  pub sent : List ℕ
  pub outcome : Outcome
  pub daemon : Daemon
  pub runs : run ≡ ok (some (sent, outcome, daemon))
  pub ended : Ended fuel d.server name calls.delivery a x xs sent outcome daemon.server

module _ (fuel : ℕ) (calls : PrinterCalls) (d : Daemon) (a : ℕ) (x : Job) (xs : List (ℕ × Job))
    (name : List ℕ) (q : IsQueue d.server.jobs ((a, x) ∷ xs))
    (written : calls.counter_written ≡ true)
    (named : check_config calls d.reread d.printer_name ≡ ok name) (short : Short name x)
    (size : LongSize calls.delivery) (answers : Answering fuel x calls.delivery) where
  -- On a job list that holds jobs in an order, where the counter is written, the printer has a name
  -- of at most 52 bytes, the IPP header of the first job has at most 512, the size of its document
  -- is a long, and printer_status, should it be called, returns: a round of printer_thread goes on
  -- and ends in one of three ways. The printer got the headers and the whole document, by writes
  -- that were all whole, and printer_status found success: the first job has left the list and has
  -- no file, and the files of other names are as before. Or the document could not be opened or
  -- examined: the first job has left the list and all files are as before. Or there was no socket
  -- or no connection, or a part of the request was not read or not written, or printer_status found
  -- no success: the first job is on the head of the list again and all files are as before.
  pub printer_round-Ended : Rounds fuel (printer_round fuel calls d) d calls name a x xs
  unfolding printer_round print_job update_jobno deref
  printer_round-Ended =
      let r = remove_job-IsQueue d.server.jobs [] xs a x q in
      let there = r.same a q.distinct.0 ∙ q.span.0 in
      let h =
        deliver-Handles fuel d.server name a x xs r.state r.queue q.distinct.0 there calls.delivery
          short size answers in
      let f = h.settled in
      record {
        sent = h.sent;
        outcome = h.outcome;
        daemon = record {
          server = f.server;
          printer_name = name;
          reread = false;
          counter = write_at d.counter 0 (print_long d.server.nextjob);
        };
        runs =
            ap (λ o. round_at fuel calls o d) q.head
            ∙ rw (q.span.0, r.runs, written, named, h.delivers, f.runs) refl;
        ended = f.ended;
      }
