-- ===== src/Printd/Workers.antt =====
-- The list of worker threads: `add_worker`, `kill_workers` and `client_cleanup`.
pub mod Lost
use my_file.Prelude.{ℕ, zero, suc, ◌≡◌, Bool, true, false, Option, none, some, List, [], ◌∷◌, ◌==◌}
use my_file.Printd.Heap.{
  Node, Heap, Run, ok, out_of_fuel, ◌>>=◌, set_node, release, deref, set_next, set_prev,
}

-- the members of `struct worker_thread` behind the links
pub record Worker : Type 0 where
  pub tid : ℕ
  pub sockfd : ℕ

pub record Workers : Type 0 where
  pub heap : Heap Worker
  pub workers : Option ℕ

abbrev link_worker : Heap Worker → ℕ → Option ℕ → Run Workers
link_worker h wtp none = ok (record { heap = h; workers = some wtp })
link_worker h wtp (some a) = do
  h' ← set_prev h (some a) (some wtp)
  ok (record { heap = h'; workers = some a })

-- Whether the thread goes on; without memory it exits.
unfoldable pub add_worker : Option ℕ → ℕ → ℕ → Workers → Run (Bool × Workers)
add_worker none tid sockfd s = ok (false, s)
add_worker (some wtp) tid sockfd s = do
  let n : Node Worker = record {
    next = s.workers;
    prev = none;
    item = record { tid = tid; sockfd = sockfd };
  }
  s' ← link_worker (set_node s.heap wtp n) wtp s.workers
  ok (true, s')

-- the threads that are canceled, in order
unfoldable pub kill_loop : ℕ → Heap Worker → Option ℕ → Run (List ℕ)
kill_loop zero h wtp = out_of_fuel
kill_loop (suc fuel) h none = ok []
kill_loop (suc fuel) h (some a) = do
  n ← deref h (some a)
  tids ← kill_loop fuel h n.next
  ok (n.item.tid ∷ tids)

unfoldable pub kill_workers : ℕ → Workers → Run (List ℕ)
unfolding kill_loop
kill_workers fuel s = kill_loop fuel s.heap s.workers

abbrev found_at : ℕ → Bool → Run (Option ℕ) → Run (Option ℕ)
found_at a true more = ok (some a)
found_at a false more = more

-- the node of the thread
unfoldable pub find_worker : ℕ → Heap Worker → ℕ → Option ℕ → Run (Option ℕ)
find_worker zero h tid wtp = out_of_fuel
find_worker (suc fuel) h tid none = ok none
find_worker (suc fuel) h tid (some a) = do
  n ← deref h (some a)
  found_at a (n.item.tid == tid) (find_worker fuel h tid n.next)

abbrev unlink_back : Heap Worker → Option ℕ → Option ℕ → Run (Heap Worker)
unlink_back h prev none = ok h
unlink_back h prev (some a) = set_prev h (some a) prev

abbrev unlink_forward : Workers → Option ℕ → Option ℕ → Run Workers
unlink_forward s next none = ok (record s { workers = next })
unlink_forward s next (some a) = do h ← set_next s.heap (some a) next; ok (record s { heap = h })

-- The node is taken off the list and freed; the socket of its thread is closed.
abbrev drop_worker : Workers → Option ℕ → Run (Option ℕ × Workers)
drop_worker s none = ok (none, s)
drop_worker s (some a) = do
  n ← deref s.heap (some a)
  h ← unlink_back s.heap n.prev n.next
  n' ← deref h (some a)
  s' ← unlink_forward (record s { heap = h }) n'.next n'.prev
  ok (some n'.item.sockfd, record s' { heap = release s'.heap a })

-- the socket that was closed, if any
unfoldable pub client_cleanup : ℕ → ℕ → Workers → Run (Option ℕ × Workers)
unfolding find_worker
client_cleanup fuel tid s = do wtp ← find_worker fuel s.heap tid s.workers; drop_worker s wtp
