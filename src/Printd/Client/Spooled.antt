-- ===== src/Printd/Client/Spooled.antt =====
-- What `client_thread` leaves of a request.
use mathlib.Core.Path.{subst}
use my_file.Prelude.{
  ◌%◌, ◌^◌, take, ℕ, ◌≡◌, refl, sym, ap, ◌∙◌, Bool, true, false, none, some, List, [], ◌∷◌, ◌++◌, ℤ,
  pos,
}
use my_file.Printd.Heap.{Run, ok}
use my_file.Printd.Heap.Span.{NotIn}
use my_file.Printd.Queue.{Printreq, Job}
use my_file.Printd.Queue.Order.{IsQueue, add_job-IsQueue}
use my_file.Printd.Jobno.{print_long, get_newjobno, increment, at_least_one}
use my_file.Printd.Ipp.{low32}
use my_file.Printd.Chunks.{Wrote, wrote_all, write_error, wrote_less, documents}
use my_file.Printd.Client.Spec.{
  Swapped, ntohl-Swapped, LowSwapped, ntohl-LowSwapped, Requested, host_order-Requested, Copies,
  copy_data-Copies, FailedWrite, fails_with, falls_short, Trouble, request_unread, request_short,
  no_data_file, data_cut, no_control_file, control_cut, Smooth,
}
use my_file.Printd.Client.{
  Dir, data_dir, req_dir, document, request, partial, Printresp, Server, Header, unread,
  short_header, whole_header, ClientCalls, put_file, Copied, copied, not_copied, copy_data,
  flags_of, error_response, eio, ntohl, request_id, drop_both, respond, give_up, accept_job,
  write_request, spool_request, spool_data, create_data, host_order, read_request, serve_client,
}
use my_file.Printd.Client.Files.{
  Others, Unspooled, put_file-Others, put_self, put_beside, put_beside', unchanged, both,
}

-- The response that a request is refused with.
pub record Refusal (calls : ClientCalls) (res : Printresp) : Type 0 where
  pub errno : ℕ
  pub trouble : Trouble calls errno
  pub code : Swapped (errno % 2 ^ 32) res.retcode
  pub message : res.msg ≡ take 512 (calls.strerror res.retcode)

-- The response that a request is accepted with.
pub record Acceptance (number : ℤ) (res : Printresp) : Type 0 where
  pub code : res.retcode ≡ 0
  pub job : LowSwapped number res.jobid
  pub message : res.msg ≡ request_id ++ print_long number

-- A request is refused for a cause with one response, which leaves files and queue as they were, or
-- accepted: its two files are spooled, its job is the last of the queue, and the response has its
-- number.
pub data Served (s : Server) (calls : ClientCalls) (xs : List (ℕ × Job)) (a : ℕ)
    : ℕ → Server → Type 0 where
  refused :
      {t : Server} (res : Printresp)
      → Refusal calls res
      → ((d : Dir) (m : List ℕ) → t.spool d m ≡ s.spool d m)
      → t.jobs ≡ s.jobs
      → t.responses ≡ s.responses ++ res ∷ []
      → Served s calls xs a 1 t
  accepted :
      {t : Server} (res : Printresp) (req : Printreq)
      → Smooth calls
      → Requested calls req
      → t.spool data_dir (print_long s.nextjob) ≡ some (document (documents calls.chunks))
      → t.spool req_dir (print_long s.nextjob) ≡ some (request req)
      → Others (print_long s.nextjob) s t
      → IsQueue t.jobs (xs ++ (a, record { jobid = s.nextjob; req = req }) ∷ [])
      → t.responses ≡ s.responses ++ res ∷ []
      → Acceptance s.nextjob res
      → Served s calls xs a 0 t

pub record Serves (run : Run (ℕ × Server)) (s : Server) (calls : ClientCalls) (xs : List (ℕ × Job))
    (a : ℕ) : Type 0 where
  pub code : ℕ
  pub state : Server
  pub runs : run ≡ ok (code, state)
  pub served : Served s calls xs a code state

module _ (calls : ClientCalls) (s : Server) (xs : List (ℕ × Job)) (a : ℕ) (q : IsQueue s.jobs xs)
    (fresh : NotIn a xs) (memory : calls.memory ≡ some a)
    (free : Unspooled (print_long s.nextjob) s) where
  -- A thread gives up in a state with the queue of before and no file of the number.
  give_up-Serves :
      (t : Server) (jobid : ℤ) (errno : ℕ)
      → Trouble calls errno
      → t.jobs ≡ s.jobs
      → t.responses ≡ s.responses
      → Others (print_long s.nextjob) s t
      → Unspooled (print_long s.nextjob) t
      → Serves (give_up calls jobid errno t) s calls xs a
  give_up-Serves t jobid errno why j r o e =
      let res : Printresp = error_response calls.strerror jobid errno in
      record {
        code = 1;
        state = respond res t;
        runs = refl;
        served =
            refused res
              (record { errno = errno; trouble = why; code = ntohl-Swapped errno; message = refl })
              (unchanged (print_long s.nextjob) s t o free e) j (ap (λ l. l ++ res ∷ []) r);
      }

  -- It gives up with the data file unlinked, and with both files unlinked.
  data_dropped :
      (t : Server) (jobid : ℤ) (errno : ℕ)
      → Trouble calls errno
      → t.jobs ≡ s.jobs
      → t.responses ≡ s.responses
      → Others (print_long s.nextjob) s t
      → t.spool req_dir (print_long s.nextjob) ≡ none
      → Serves
          (give_up calls jobid errno (put_file data_dir (print_long s.nextjob) none t))
          s
          calls
          xs
          a
  data_dropped t jobid errno why j r o e =
      give_up-Serves (put_file data_dir (print_long s.nextjob) none t) jobid errno why j r
        (put_file-Others data_dir (print_long s.nextjob) none s t o)
        (both (put_file data_dir (print_long s.nextjob) none t) (print_long s.nextjob)
          (put_self data_dir (print_long s.nextjob) none t)
          (put_beside' (print_long s.nextjob) none t ∙ e))

  dropped :
      (t : Server) (jobid : ℤ) (errno : ℕ)
      → Trouble calls errno
      → t.jobs ≡ s.jobs
      → t.responses ≡ s.responses
      → Others (print_long s.nextjob) s t
      → Serves (give_up calls jobid errno (drop_both s.nextjob t)) s calls xs a
  dropped t jobid errno why j r o =
      data_dropped (put_file req_dir (print_long s.nextjob) none t) jobid errno why j r
        (put_file-Others req_dir (print_long s.nextjob) none s t o)
        (put_self req_dir (print_long s.nextjob) none t)

  accept_job-Serves :
      (t : Server) (req : Printreq)
      → Smooth calls
      → Requested calls req
      → t.jobs ≡ s.jobs
      → t.responses ≡ s.responses
      → Others (print_long s.nextjob) s t
      → t.spool data_dir (print_long s.nextjob) ≡ some (document (documents calls.chunks))
      → t.spool req_dir (print_long s.nextjob) ≡ some (request req)
      → Serves (accept_job calls req s.nextjob t) s calls xs a
  unfolding accept_job
  accept_job-Serves t req smooth asked j r o d e =
      let b = add_job-IsQueue s.jobs a req s.nextjob xs q fresh in
      let res : Printresp = record {
        retcode = 0;
        jobid = pos (ntohl (low32 s.nextjob));
        msg = request_id ++ print_long s.nextjob;
      } in
      record {
        code = 0;
        state = record (respond res t) { jobs = b.state };
        runs = rw (memory, j, b.runs) refl;
        served =
            accepted res req smooth asked d e o b.queue (ap (λ l. l ++ res ∷ []) r)
              (record { code = refl; job = ntohl-LowSwapped s.nextjob; message = refl });
      }

  write_request-Serves :
      (w : Wrote) (t : Server) (req : Printreq)
      → calls.req_wrote ≡ w
      → (calls.req_wrote ≡ wrote_all → Smooth calls)
      → Requested calls req
      → t.jobs ≡ s.jobs
      → t.responses ≡ s.responses
      → Others (print_long s.nextjob) s t
      → t.spool data_dir (print_long s.nextjob) ≡ some (document (documents calls.chunks))
      → Serves (write_request calls req s.nextjob w t) s calls xs a
  write_request-Serves wrote_all t req wrote smooth asked j r o d =
      accept_job-Serves (put_file req_dir (print_long s.nextjob) (some (request req)) t) req
        (smooth wrote) asked j r
        (put_file-Others req_dir (print_long s.nextjob) (some (request req)) s t o)
        (put_beside (print_long s.nextjob) (some (request req)) t ∙ d)
        (put_self req_dir (print_long s.nextjob) (some (request req)) t)
  write_request-Serves (write_error errno) t req wrote smooth asked j r o d =
      dropped t (pos 0) errno
        (control_cut (subst (λ w. FailedWrite w errno) (sym wrote) fails_with)) j r o
  write_request-Serves wrote_less t req wrote smooth asked j r o d =
      dropped t (pos 0) eio (control_cut (subst (λ w. FailedWrite w eio) (sym wrote) falls_short)) j
        r o

  spool_request-Serves :
      (b : Bool) (t : Server) (req : Printreq)
      → calls.req_created ≡ b
      → (calls.req_created ≡ true → calls.req_wrote ≡ wrote_all → Smooth calls)
      → Requested calls req
      → t.jobs ≡ s.jobs
      → t.responses ≡ s.responses
      → Others (print_long s.nextjob) s t
      → t.spool data_dir (print_long s.nextjob) ≡ some (document (documents calls.chunks))
      → t.spool req_dir (print_long s.nextjob) ≡ none
      → Serves (spool_request calls req s.nextjob b t) s calls xs a
  unfolding spool_request
  spool_request-Serves false t req made smooth asked j r o d e =
      data_dropped t (pos 0) eio (no_control_file made) j r o e
  spool_request-Serves true t req made smooth asked j r o d e =
      write_request-Serves calls.req_wrote
        (put_file req_dir (print_long s.nextjob) (some partial) t) req refl (smooth made) asked j r
        (put_file-Others req_dir (print_long s.nextjob) (some partial) s t o)
        (put_beside (print_long s.nextjob) (some partial) t ∙ d)

  spool_data-Serves :
      (c : Copied) (t : Server) (req : Printreq)
      → calls.data_created ≡ true
      → Copies calls.chunks c
      → Requested calls (record req { flags = flags_of calls calls.chunks req.flags })
      → t.jobs ≡ s.jobs
      → t.responses ≡ s.responses
      → Others (print_long s.nextjob) s t
      → t.spool req_dir (print_long s.nextjob) ≡ none
      → Serves (spool_data calls req s.nextjob c t) s calls xs a
  unfolding spool_data
  spool_data-Serves (not_copied errno) t req made cut asked j r o e =
      data_dropped t calls.unset errno (data_cut cut) j r o e
  spool_data-Serves (copied bs) t req made (written, bytes) asked j r o e =
      spool_request-Serves calls.req_created
        (put_file data_dir (print_long s.nextjob) (some (document bs)) t)
        (record req { flags = flags_of calls calls.chunks req.flags }) refl
        (λ k w. record {
          data_file = made;
          data_whole = written;
          control_file = k;
          control_whole = w;
        })
        asked j r (put_file-Others data_dir (print_long s.nextjob) (some (document bs)) s t o)
        (put_self data_dir (print_long s.nextjob) (some (document bs)) t
          ∙ ap (λ l. some (document l)) bytes)
        (put_beside' (print_long s.nextjob) (some (document bs)) t ∙ e)

module _ (calls : ClientCalls) (s : Server) (xs : List (ℕ × Job)) (a : ℕ) (q : IsQueue s.jobs xs)
    (fresh : NotIn a xs) (memory : calls.memory ≡ some a)
    (free : Unspooled (print_long s.nextjob) s) where
  create_data-Serves :
      (b : Bool) (req : Printreq) (next : ℤ)
      → calls.data_created ≡ b
      → Requested calls (record req { flags = flags_of calls calls.chunks req.flags })
      → Serves (create_data calls req s.nextjob b (record s { nextjob = next })) s calls xs a
  unfolding create_data
  create_data-Serves false req next made asked =
      give_up-Serves calls s xs a q fresh memory free (record s { nextjob = next }) (pos 0) eio
        (no_data_file made) refl refl (λ d m h. refl) free
  create_data-Serves true req next made asked =
      let t : Server = record s { nextjob = next } in
      let t1 = put_file data_dir (print_long s.nextjob) (some (document [])) t in
      spool_data-Serves calls s xs a q fresh memory free (copy_data calls.chunks) t1 req made
        (copy_data-Copies calls.chunks) asked refl refl
        (put_file-Others data_dir (print_long s.nextjob) (some (document [])) s t (λ d m h. refl))
        (put_beside' (print_long s.nextjob) (some (document [])) t ∙ free req_dir)

  by_header : (h : Header) → calls.header ≡ h → Serves (read_request calls h s) s calls xs a
  unfolding read_request get_newjobno
  by_header (unread errno) e =
      give_up-Serves calls s xs a q fresh memory free s (pos 0) errno (request_unread e) refl refl
        (λ d m h. refl) free
  by_header short_header e =
      give_up-Serves calls s xs a q fresh memory free s (pos 0) eio (request_short e) refl refl
        (λ d m h. refl) free
  by_header (whole_header net) e =
      create_data-Serves calls.data_created (host_order net) (at_least_one (increment s.nextjob))
        refl (host_order-Requested calls net e)

  -- On a job list that holds jobs in an order, with memory for a job that is not in use and no
  -- files of the next number, client_thread in front of its cleanup goes on, whatever the calls of
  -- the system bring. It gives up for a cause, which is that the request does not come whole, a
  -- file is not created, or a write fails: the files and the job list are as they were, and the one
  -- response has the error of the cause in the order of the network. Or it returns where the whole
  -- request came, both files were created and all writes were whole: the data file has all bytes of
  -- the reads, the control file has the request with its numbers in the order of the host and the
  -- flag of a text set where the first read does not begin with %!PS, the job with this request is
  -- the last of the list, the files of other names are as before, and the one response has success
  -- and the number of the job.
  pub serve_client-Served : Serves (serve_client calls s) s calls xs a
  unfolding serve_client
  serve_client-Served = by_header calls.header refl
