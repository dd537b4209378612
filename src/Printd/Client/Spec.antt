-- ===== src/Printd/Client/Spec.antt =====
-- What a request, its document and the calls of the system promise of a run of `client_thread`.
use my_file.Prelude.{
  ℕ, ◌+◌, ◌*◌, ◌/◌, ◌%◌, ◌^◌, ◌<◌, ◌≡◌, ◌⊎◌, refl, ap, true, false, inl, inr, Bool-cases, List, [],
  ◌∷◌, ◌++◌, arith, take, bytes_eq, bytes_eq_refl, bytes_eq_sound, ℤ, pos, negsuc,
}
use mathlib.Core.Path.{subst}
use my_file.CLib.Files.{overlay}
use my_file.Printd.Chunks.{Wrote, wrote_all, write_error, wrote_less, documents, all_written}
use my_file.Printd.Ipp.{low32}
use my_file.Printd.Queue.{Printreq}
use my_file.Printd.Client.{
  ClientCalls, unread, short_header, whole_header, ntohl, ps_magic, with_text_flag, first_flags,
  flags_of, host_order, Copied, copied, not_copied, put_chunk, copy_data,
}

-- The same four bytes in the other order, the least significant one first and last.
pub record Swapped (m n : ℕ) : Type 0 where
  pub b0 : ℕ
  pub b1 : ℕ
  pub b2 : ℕ
  pub b3 : ℕ
  pub bytes : (b0 < 256) × (b1 < 256) × (b2 < 256) × (b3 < 256)
  pub here : m ≡ b0 + b1 * 256 + b2 * 2 ^ 16 + b3 * 2 ^ 24
  pub there : n ≡ b3 + b2 * 256 + b1 * 2 ^ 16 + b0 * 2 ^ 24

pub ntohl-Swapped : (n : ℕ) → Swapped (n % 2 ^ 32) (ntohl n)
unfolding ntohl
ntohl-Swapped n = record {
  b0 = n % 256;
  b1 = n / 256 % 256;
  b2 = n / 2 ^ 16 % 256;
  b3 = n / 2 ^ 24 % 256;
  bytes = (omega arith, omega arith, omega arith, omega arith);
  here = omega arith;
  there = omega arith;
}

-- The low four bytes of a `long` in two's complement.
abbrev pub Low : ℤ → ℕ → Type 0
Low (pos n) m = m ≡ n % 2 ^ 32
Low (negsuc n) m = (m < 2 ^ 32) × ((k : ℕ) × (m + (n + 1) ≡ k * 2 ^ 32))

low32-Low : (z : ℤ) → Low z (low32 z)
low32-Low (pos n) = refl
low32-Low (negsuc n) = (omega arith, (n / 2 ^ 32 + 1, omega arith))

low32_small : (z : ℤ) → low32 z % 2 ^ 32 ≡ low32 z
low32_small (pos n) = omega arith
low32_small (negsuc n) = omega arith

-- `w` has the low four bytes of the long `z` in the other order.
pub record LowSwapped (z w : ℤ) : Type 0 where
  pub low : ℕ
  pub turned : ℕ
  pub is_low : Low z low
  pub swapped : Swapped low turned
  pub value : w ≡ pos turned

pub ntohl-LowSwapped : (z : ℤ) → LowSwapped z (pos (ntohl (low32 z)))
ntohl-LowSwapped z = record {
  low = low32 z;
  turned = ntohl (low32 z);
  is_low = low32-Low z;
  swapped = subst (λ m. Swapped m (ntohl (low32 z))) (low32_small z) (ntohl-Swapped (low32 z));
  value = refl;
}

-- The flag of a text is set where the first read, over what is on the stack, does not begin with
-- `%!PS`.
abbrev pub Flagged : List ℕ → List (List ℕ × Wrote) → ℕ → ℕ → Type 0
Flagged stack [] f g = g ≡ f
Flagged stack ((chunk, w) ∷ chunks) f g =
    ((take 4 (overlay chunk stack) ≡ b'%' ∷ b'!' ∷ b'P' ∷ b'S' ∷ []) × (g ≡ f))
    ⊎ (¬ (take 4 (overlay chunk stack) ≡ b'%' ∷ b'!' ∷ b'P' ∷ b'S' ∷ []) × (g ≡ f / 2 * 2 + 1))

text_flag : (f : ℕ) → with_text_flag f ≡ f / 2 * 2 + 1
unfolding with_text_flag
text_flag f = ground arith

differs : (xs ys : List ℕ) → bytes_eq xs ys ≡ false → ¬ (xs ≡ ys)
differs xs ys h e = let same : bytes_eq xs ys ≡ true = rw e (bytes_eq_refl ys) in cc

flags_of-Flagged :
    (calls : ClientCalls) (chunks : List (List ℕ × Wrote)) (f : ℕ)
    → Flagged calls.stack chunks f (flags_of calls chunks f)
unfolding first_flags
flags_of-Flagged calls [] f = refl
flags_of-Flagged calls ((chunk, w) ∷ chunks) f =
    elim (Bool-cases (bytes_eq (take 4 (overlay chunk calls.stack)) ps_magic)) [
      | inl same ↦
          inl (bytes_eq_sound (take 4 (overlay chunk calls.stack)) ps_magic same, rw same refl)
      | inr other ↦
          inr (differs (take 4 (overlay chunk calls.stack)) ps_magic other, rw other (text_flag f))
    ]

-- The request that came from the client, in the order of the host and with the flag of a text.
pub record Requested (calls : ClientCalls) (req : Printreq) : Type 0 where
  pub net : Printreq
  pub header : calls.header ≡ whole_header net
  pub user : req.usernm ≡ net.usernm
  pub job : req.jobnm ≡ net.jobnm
  pub size : LowSwapped net.size req.size
  pub flags :
      (f : ℕ) × (Swapped (net.flags % 2 ^ 32) f × Flagged calls.stack calls.chunks f req.flags)

pub host_order-Requested :
    (calls : ClientCalls) (net : Printreq)
    → calls.header ≡ whole_header net
    → Requested calls
        (record (host_order net) { flags = flags_of calls calls.chunks (host_order net).flags })
unfolding host_order
host_order-Requested calls net h = record {
  net = net;
  header = h;
  user = refl;
  job = refl;
  size = ntohl-LowSwapped net.size;
  flags = (
    ntohl net.flags,
    (ntohl-Swapped net.flags, flags_of-Flagged calls calls.chunks (ntohl net.flags)),
  );
}

-- A write fails with the error, which is EIO where it writes too few bytes.
pub data FailedWrite : Wrote → ℕ → Type 0 where
  fails_with : {errno : ℕ} → FailedWrite (write_error errno) errno
  falls_short : FailedWrite wrote_less 5

-- All reads in front of one are written whole, and the write of that one fails.
pub record CutAt (chunks : List (List ℕ × Wrote)) (errno : ℕ) : Type 0 where
  pub front : List (List ℕ × Wrote)
  pub chunk : List ℕ
  pub write : Wrote
  pub back : List (List ℕ × Wrote)
  pub whole : chunks ≡ front ++ ((chunk, write) ∷ back)
  pub written : all_written front ≡ true
  pub fails : FailedWrite write errno

-- All reads are copied, or a write fails.
abbrev pub Copies : List (List ℕ × Wrote) → Copied → Type 0
Copies chunks (copied bs) = (all_written chunks ≡ true) × (bs ≡ documents chunks)
Copies chunks (not_copied errno) = CutAt chunks errno

put_chunk-Copies :
    (chunk : List ℕ) (chunks : List (List ℕ × Wrote)) (c : Copied)
    → Copies chunks c
    → Copies ((chunk, wrote_all) ∷ chunks) (put_chunk chunk c)
put_chunk-Copies chunk chunks (copied bs) (w, b) = (w, ap (λ t. chunk ++ t) b)
put_chunk-Copies chunk chunks (not_copied errno) h = record {
  front = (chunk, wrote_all) ∷ h.front;
  chunk = h.chunk;
  write = h.write;
  back = h.back;
  whole = ap (λ t. (chunk, wrote_all) ∷ t) h.whole;
  written = h.written;
  fails = h.fails;
}

pub copy_data-Copies : (chunks : List (List ℕ × Wrote)) → Copies chunks (copy_data chunks)
unfolding copy_data
copy_data-Copies [] = (refl, refl)
copy_data-Copies ((chunk, wrote_all) ∷ chunks) =
    put_chunk-Copies chunk chunks (copy_data chunks) (copy_data-Copies chunks)
copy_data-Copies ((chunk, write_error errno) ∷ chunks) = record {
  front = [];
  chunk = chunk;
  write = write_error errno;
  back = chunks;
  whole = refl;
  written = refl;
  fails = fails_with;
}
copy_data-Copies ((chunk, wrote_less) ∷ chunks) = record {
  front = [];
  chunk = chunk;
  write = wrote_less;
  back = chunks;
  whole = refl;
  written = refl;
  fails = falls_short;
}

-- The causes for which a request is refused, each with its error.
pub data Trouble (calls : ClientCalls) : ℕ → Type 0 where
  request_unread : {errno : ℕ} → calls.header ≡ unread errno → Trouble calls errno
  request_short : calls.header ≡ short_header → Trouble calls 5
  no_data_file : calls.data_created ≡ false → Trouble calls 5
  data_cut : {errno : ℕ} → CutAt calls.chunks errno → Trouble calls errno
  no_control_file : calls.req_created ≡ false → Trouble calls 5
  control_cut : {errno : ℕ} → FailedWrite calls.req_wrote errno → Trouble calls errno

-- All calls bring what the request needs.
pub record Smooth (calls : ClientCalls) : Type 0 where
  pub data_file : calls.data_created ≡ true
  pub data_whole : all_written calls.chunks ≡ true
  pub control_file : calls.req_created ≡ true
  pub control_whole : calls.req_wrote ≡ wrote_all
