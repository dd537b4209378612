-- ===== src/Printd/Printer/Ended.antt =====
-- What becomes of a job in a round of `printer_thread`.
use my_file.Prelude.{ℕ, ◌^◌, ◌<◌, ◌≡◌, ◌⊎◌, Bool, true, false, List, [], ◌∷◌, ◌++◌}
use my_file.Printd.Chunks.{documents}
use my_file.Printd.Heap.{ok}
use my_file.Printd.Queue.{Job}
use my_file.Printd.Queue.Order.{IsQueue}
use my_file.Printd.Jobno.{print_long}
use my_file.Printd.Client.{Dir, Server}
use my_file.Printd.Client.Files.{Others, Unspooled}
use my_file.Printd.Printer.Request.{both_headers, request_whole}
use my_file.Printd.Printer.{
  response, Sending, Delivery, no_document, no_stat, no_socket, no_connection, connected, Outcome,
  canceled, completed, deferred,
}

-- The printer got the headers and the whole document, and answered that all is well.
pub record Delivered (fuel : ℕ) (name : List ℕ) (x : Job) (delivery : Delivery) (sent : List ℕ)
    : Type 0 where
  pub sending : Sending
  pub reached : delivery ≡ connected sending
  pub whole : request_whole sending ≡ true
  pub bytes : sent ≡ both_headers name x sending.st_size ++ documents sending.reads
  pub status : response fuel sending x.jobid ≡ ok true

-- The document can be opened, and no success comes of the delivery.
pub data Undelivered (fuel : ℕ) (x : Job) : Delivery → Type 0 where
  without_socket : Undelivered fuel x no_socket
  without_connection : Undelivered fuel x no_connection
  cut_short :
      {sending : Sending} → request_whole sending ≡ false → Undelivered fuel x (connected sending)
  unsuccessful :
      {sending : Sending}
      → response fuel sending x.jobid ≡ ok false
      → Undelivered fuel x (connected sending)

-- The first job leaves the queue with its files where it is completed, leaves it with its files kept
-- where its document cannot be opened, and is the first again where the delivery has no success.
pub data Ended (fuel : ℕ) (s : Server) (name : List ℕ) (delivery : Delivery) (a : ℕ) (x : Job)
    (xs : List (ℕ × Job)) : List ℕ → Outcome → Server → Type 0 where
  ends_completed :
      {sent : List ℕ} {t : Server}
      → Delivered fuel name x delivery sent
      → IsQueue t.jobs xs
      → Unspooled (print_long x.jobid) t
      → Others (print_long x.jobid) s t
      → Ended fuel s name delivery a x xs sent completed t
  ends_canceled :
      {t : Server}
      → (delivery ≡ no_document) ⊎ (delivery ≡ no_stat)
      → IsQueue t.jobs xs
      → ((d : Dir) (m : List ℕ) → t.spool d m ≡ s.spool d m)
      → Ended fuel s name delivery a x xs [] canceled t
  ends_deferred :
      {sent : List ℕ} {t : Server}
      → Undelivered fuel x delivery
      → IsQueue t.jobs ((a, x) ∷ xs)
      → ((d : Dir) (m : List ℕ) → t.spool d m ≡ s.spool d m)
      → Ended fuel s name delivery a x xs sent deferred t

-- The printer answers a whole request, be it well or not.
abbrev pub Answering : ℕ → Job → Delivery → Type 0
Answering fuel x (connected sending) = (b : Bool) × (response fuel sending x.jobid ≡ ok b)
Answering fuel x delivery = Unit

-- The size of the document is a `long`.
abbrev pub LongSize : Delivery → Type 0
LongSize (connected sending) = sending.st_size < 2 ^ 63
LongSize delivery = Unit
