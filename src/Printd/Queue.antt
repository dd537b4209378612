-- ===== src/Printd/Queue.antt =====
-- The list of pending jobs: `add_job`, `replace_job`, `remove_job`, and the job numbers.
pub mod Order
pub mod Remove
pub mod Defer
use my_file.Prelude.{ℕ, ◌+◌, ◌-◌, ◌^◌, Option, none, some, List, ltb, if◌then◌else◌, ℤ, pos, negsuc}
use my_file.Printd.Heap.{
  Node, Heap, Run, ok, exited, invalid, ◌>>=◌, set_node, deref, set_next, set_prev,
}

-- `struct printreq`; the names stand as the C strings that they hold
pub record Printreq : Type 0 where
  pub size : ℤ
  pub flags : ℕ
  pub usernm : List ℕ
  pub jobnm : List ℕ

pub record Job : Type 0 where
  pub jobid : ℤ
  pub req : Printreq

-- the queue of printd.c
pub record Jobs : Type 0 where
  pub heap : Heap Job
  pub jobhead : Option ℕ
  pub jobtail : Option ℕ

-- the forward link to the new node, or the head of the list if there is no node in front
abbrev pub link_tail : Heap Job → Jobs → ℕ → Option ℕ → Run Jobs
link_tail h s a none = ok (record { heap = h; jobhead = some a; jobtail = some a })
link_tail h s a (some t) = do
  h' ← set_next h (some t) (some a)
  ok (record { heap = h'; jobhead = s.jobhead; jobtail = some a })

-- `malloc` gives an address or NULL.
unfoldable pub add_job : Option ℕ → Printreq → ℤ → Jobs → Run Jobs
add_job none reqp jobid s = exited
add_job (some jp) reqp jobid s =
    let n : Node Job = record {
      next = none;
      prev = s.jobtail;
      item = record { jobid = jobid; req = reqp };
    } in
    link_tail (set_node s.heap jp n) s jp s.jobtail

abbrev pub link_head : Heap Job → Jobs → Option ℕ → Option ℕ → Run Jobs
link_head h s jp none = ok (record { heap = h; jobhead = jp; jobtail = jp })
link_head h s jp (some a) = do
  h' ← set_prev h (some a) jp
  ok (record { heap = h'; jobhead = jp; jobtail = s.jobtail })

unfoldable pub replace_job : Option ℕ → Jobs → Run Jobs
replace_job jp s = do
  h ← set_prev s.heap jp none
  h' ← set_next h jp s.jobhead
  link_head h' s jp s.jobhead

-- the back link of the next node, or the tail of the list, given `target->prev`
abbrev pub unlink_next : Jobs → Option ℕ → Option ℕ → Run Jobs
unlink_next s prev none = ok (record s { jobtail = prev })
unlink_next s prev (some a) = do h ← set_prev s.heap (some a) prev; ok (record s { heap = h })

-- the forward link of the node in front, or the head of the list
abbrev pub unlink_prev : Jobs → Option ℕ → Option ℕ → Run Jobs
unlink_prev s next none = ok (record s { jobhead = next })
unlink_prev s next (some a) = do h ← set_next s.heap (some a) next; ok (record s { heap = h })

unfoldable pub remove_job : Option ℕ → Jobs → Run Jobs
remove_job target s = do
  n ← deref s.heap target
  s' ← unlink_next s n.prev n.next
  n' ← deref s'.heap target
  unlink_prev s' n'.next n'.prev
