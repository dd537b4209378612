-- ===== src/Io/Plan/Cover.antt =====
-- The mapping that `main` asks for, against the access that is made in it.
use my_file.Prelude.{ℕ, ◌+◌, ◌-◌, ◌%◌, ◌^◌, ◌≤◌, ◌<◌, ◌≡◌, arith, true, false}
use my_file.Io.Options.{Result, ok, exit, addr_alignment, size_alignment, top_page, above_top}
use my_file.Io.Plan.{Plan, plan, sign_extend, page_of, misaligned}

-- The pages hold the bytes from the address on, and do not pass the end of the address space.
pub record Covers (w req_addr req_len : ℕ) (p : Plan) : Type 0 where
  pub page_start : p.real_addr % 4096 ≡ 0
  pub page_count : p.real_len % 4096 ≡ 0
  pub starts : p.real_addr + p.offset ≡ req_addr
  pub covers : p.offset + req_len ≤ p.real_len
  pub tight : p.real_len < p.offset + req_len + 4096
  pub no_wrap : p.real_addr + p.real_len < 2 ^ w

-- what each outcome means for an access of `req_len` bytes, with 32 bit longs
abbrev pub Explained : ℕ → ℕ → ℕ → Result Plan → Type 0
Explained iosize req_addr req_len (ok p) =
    Covers 32 req_addr req_len p
    × (misaligned iosize req_addr ≡ false)
    × (misaligned iosize req_len ≡ false)
Explained iosize req_addr req_len (exit addr_alignment) = misaligned iosize req_addr ≡ true
Explained iosize req_addr req_len (exit size_alignment) = misaligned iosize req_len ≡ true
Explained iosize req_addr req_len (exit top_page) = 0xfffff000 ≤ req_addr
Explained iosize req_addr req_len (exit above_top) = 2 ^ 32 < req_addr + req_len + 4096
Explained iosize req_addr req_len (exit _) = ⊥

-- With 32-bit longs, an address of 32 bits and a length that is a positive int, main goes on with a
-- mapping of whole pages that holds the aligned access and does not wrap, or exits for a fault of
-- the request.
pub plan-Explained :
    (iosize req_addr req_len : ℕ)
    → req_addr < 2 ^ 32
    → req_len < 2 ^ 31
    → 0 < req_len
    → Explained iosize req_addr req_len (plan 32 iosize req_addr req_len)
unfolding plan sign_extend
plan-Explained iosize req_addr req_len ha hl pos = ground arith

-- With 32-bit longs, a byte access in front of the top page whose length, as a 32-bit pattern,
-- together with the offset in the page reaches 2^32 is let through with a mapping that is smaller
-- than its length.
pub plan_too_small :
    (req_addr req_len : ℕ)
    → req_addr < 0xfffff000
    → req_len < 2 ^ 32
    → 2 ^ 32 ≤ req_addr % 4096 + req_len
    → (p : Plan) × (plan 32 1 req_addr req_len ≡ ok p) × (p.real_len < req_len)
unfolding plan sign_extend
plan_too_small req_addr req_len ha hl over = (
  record {
    real_addr = page_of req_addr;
    offset = req_addr - page_of req_addr;
    real_len = page_of (((req_len + (req_addr - page_of req_addr)) % 2 ^ 32 + 4095) % 2 ^ 32);
  },
  ground arith,
  ground arith,
)
