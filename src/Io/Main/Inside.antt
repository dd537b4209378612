-- ===== src/Io/Main/Inside.antt =====
-- The accesses of `main` of io.c, against the mapping.
use my_file.Prelude.{
  ℕ, ◌+◌, ◌*◌, ◌/◌, ◌^◌, ◌≤◌, ◌<◌, ◌≡◌, refl, ap, sym, ◌∙◌, arith, true, false, not, ◌&&◌, Option,
  none, some, List, [], ◌∷◌, ◌==◌, length, Bool-cases, Option-cases, inl, inr, le→ltb_false,
}
use my_file.CLib.Strtoul.{strtoul}
use my_file.CLib.Strtoul.Bound.{strtoul_bound}
use my_file.Io.Options.{
  Opt, size_of, option, options, number, arguments, value_argument, default_args, Args, Request,
  has_file, Result, usage, mem_open, aborted, exit_if,
}
use my_file.Io.Plan.{FileCalls, Plan, open_file, plan, misaligned, file_length, sign_extend}
use my_file.Io.Plan.Cover.{Covers}
use my_file.Io.Access.{is_size, memread_memory, write_memory as store_values}
use my_file.Io.Access.Fill.{write_memory-copies}
use my_file.Io.Access.Dump.{memread_memory-Dumped}
use my_file.Io.Main.Runs.{is_outside, Runs, bind-inside, exit_if-Runs, Runs-map, bind-Runs}
use my_file.Io.Main.{
  System, Outcome, in_mapping, save, load, show_lines, store_all, access, with_plan, perform, main,
  is_yes,
}

-- the length is a positive int, if the one given is none or positive
open_file-Runs :
    (f : FileCalls) (a : Args)
    → is_size a.iosize ≡ true
    → a.req_len < 2 ^ 31
    → Runs (open_file f a) (λ n. (0 < n) × (n < 2 ^ 31))
unfolding open_file file_length
open_file-Runs f a size small = ground arith

Planned : Request → ℕ → Plan → Type 0
Planned r len p = Covers 32 r.req_addr len p × (misaligned r.args.iosize len ≡ false)

plan-Runs :
    (r : Request) (len : ℕ)
    → r.req_addr < 2 ^ 32
    → len < 2 ^ 31
    → 0 < len
    → Runs (plan 32 r.args.iosize r.req_addr len) (Planned r len)
unfolding Planned plan sign_extend
plan-Runs r len low small pos = ground arith

whole_accesses :
    (iosize len : ℕ)
    → is_size iosize ≡ true
    → misaligned iosize len ≡ false
    → len / iosize * iosize ≡ len
whole_accesses iosize len size aligned = ground arith

in_mapping-inside :
    (offset len : ℕ) (mem : List ℕ) (r : Result Outcome)
    → offset + len ≤ length mem
    → is_outside r ≡ false
    → is_outside (in_mapping offset len mem r) ≡ false
in_mapping-inside offset len mem r room h = rw (le→ltb_false (length mem) (offset + len) room) h

save-inside :
    (n : Option ℕ) (offset len : ℕ) (mem : List ℕ)
    → offset + len ≤ length mem
    → is_outside (save n offset len mem) ≡ false
save-inside none offset len mem room = in_mapping-inside offset len mem _ room refl
save-inside (some n) offset len mem room =
    in_mapping-inside offset len mem _ room
      (elim (Bool-cases (n == len)) [ inl y ↦ rw y refl | inr y ↦ rw y refl ])

load-inside :
    (bs : Option (List ℕ)) (offset len : ℕ) (mem : List ℕ)
    → offset + len ≤ length mem
    → is_outside (load bs offset len mem) ≡ false
load-inside none offset len mem room = in_mapping-inside offset len mem _ room refl
load-inside (some bs) offset len mem room =
    in_mapping-inside offset len mem _ room
      (elim (Bool-cases (length bs == len)) [ inl y ↦ rw y refl | inr y ↦ rw y refl ])

module _ (iosize offset len : ℕ) (mem : List ℕ) (size : is_size iosize ≡ true)
    (aligned : misaligned iosize len ≡ false) (small : len < 2 ^ 32)
    (room : offset + len ≤ length mem) where
  show-inside :
      (addr : ℕ) → is_outside (show_lines (memread_memory 4 iosize addr offset len mem)) ≡ false
  show-inside addr =
      let whole = whole_accesses iosize len size aligned in
      let d =
        memread_memory-Dumped iosize (len / iosize) addr offset mem size (omega (arith, whole))
          (omega (arith, whole)) in
      sym (ap (λ l. is_outside (show_lines (memread_memory 4 iosize addr offset l mem))) whole)
      ∙ ap (λ o. is_outside (show_lines o)) d.printed

  store-inside :
      (value : ℕ) → is_outside (store_all (store_values 4 iosize value offset len mem)) ≡ false
  store-inside value =
      let whole = whole_accesses iosize len size aligned in
      let e =
        write_memory-copies iosize value (len / iosize) offset mem size (omega (arith, whole))
          (omega (arith, whole)) in
      sym (ap (λ l. is_outside (store_all (store_values 4 iosize value offset l mem))) whole)
      ∙ ap (λ o. is_outside (store_all o)) e

module _ (s : System) (r : Request) (size : is_size r.args.iosize ≡ true)
    (low : r.req_addr < 2 ^ 32)
    (shows : (a n : ℕ) (mem : List ℕ) → s.map a n ≡ some mem → length mem ≡ n) where
  access-inside :
      (offset len : ℕ) (mem : List ℕ)
      → misaligned r.args.iosize len ≡ false
      → len < 2 ^ 32
      → offset + len ≤ length mem
      → is_outside (access 32 s r offset len mem) ≡ false
  unfolding access
  access-inside offset len mem aligned small room = elim (Bool-cases (has_file r.args)) [
    | inl file ↦ elim (Bool-cases r.args.memread) [
      | inl get ↦ rw (file, get) (save-inside s.wrote offset len mem room)
      | inr put ↦ rw (file, put) (load-inside s.input offset len mem room)
    ]
    | inr no_file ↦ elim (Bool-cases r.args.memread) [
      | inl get ↦
          rw (no_file, get)
            (show-inside r.args.iosize offset len mem size aligned small room r.req_addr)
      | inr put ↦
          rw (no_file, put)
            (store-inside r.args.iosize offset len mem size aligned small room r.req_value)
    ]
  ]

  with_plan-inside :
      (len : ℕ) (p : Plan)
      → len < 2 ^ 31
      → Covers 32 r.req_addr len p
      → misaligned r.args.iosize len ≡ false
      → is_outside (with_plan 32 s r len p) ≡ false
  unfolding with_plan
  with_plan-inside len p small c aligned = bind-inside (exit_if (not s.mem_ok) mem_open) _ (
      exit_if-Runs (not s.mem_ok) mem_open _ refl
        (elim (Option-cases (s.map p.real_addr p.real_len)) [
          | inl failed ↦ rw failed refl
          | inr (mem, there) ↦ rw there (
              bind-inside (exit_if (r.args.verbose && not (is_yes s.answer)) aborted) _ (
                exit_if-Runs (r.args.verbose && not (is_yes s.answer)) aborted _ refl (
                  let long = shows p.real_addr p.real_len mem there in
                  access-inside p.offset len mem aligned (omega arith)
                    (omega (arith, long, c.covers)))))
        ]))

  perform-inside : r.args.req_len < 2 ^ 31 → is_outside (perform 32 s r) ≡ false
  unfolding perform Planned
  perform-inside small = bind-inside (open_file s.file r.args) _ (
      Runs-map (open_file s.file r.args) _ _ (open_file-Runs s.file r.args size small)
        (λ len (pos, short). bind-inside (plan 32 r.args.iosize r.req_addr len) _ (
          Runs-map (plan 32 r.args.iosize r.req_addr len) _ _ (plan-Runs r len low short pos)
            (λ p (covers, aligned). with_plan-inside len p short covers aligned))))

-- A length that an option gives is below 2 ^ 31.
abbrev pub Short : List Opt → Type 0
Short [] = Unit
Short (size_of text ∷ opts) = ((strtoul 32 text).0 < 2 ^ 31) × Short opts
Short (_ ∷ opts) = Short opts

Sized : Args → Type 0
Sized a = (is_size a.iosize ≡ true) × (a.req_len < 2 ^ 31)

option-Runs : (o : Opt) (a : Args) → Short (o ∷ []) → Sized a → Runs (option 32 o a) Sized
unfolding Sized option number
option-Runs o a short sized = ground arith

first_Short : (o : Opt) (opts : List Opt) → Short (o ∷ opts) → Short (o ∷ [])
first_Short o opts short = ground arith

rest_Short : (o : Opt) (opts : List Opt) → Short (o ∷ opts) → Short opts
rest_Short o opts short = ground arith

options-Runs : (opts : List Opt) (a : Args) → Short opts → Sized a → Runs (options 32 opts a) Sized
unfolding options
options-Runs [] a short sized = sized
options-Runs (o ∷ opts) a short sized =
    bind-Runs (option 32 o a) (options 32 opts) Sized Sized
      (option-Runs o a (first_Short o opts short) sized)
      (λ a' h. options-Runs opts a' (rest_Short o opts short) h)

arguments-Runs :
    (a : Args) (args : List (List ℕ))
    → Sized a
    → Runs (arguments 32 a args) (λ r. Sized r.args × (r.req_addr < 2 ^ 32))
unfolding arguments Sized number value_argument
arguments-Runs a [] sized = refl
arguments-Runs a (text ∷ rest) (size, short) = let low = strtoul_bound text in ground arith

-- With longs of 4 bytes, if the bytes that mmap shows are as many as it was asked for and every
-- length given by an option is below 2^31, no run of main accesses a byte behind its mapping.
pub main-inside :
    (s : System)
    → ((a n : ℕ) (mem : List ℕ) → s.map a n ≡ some mem → length mem ≡ n)
    → (argc : ℕ) (opts : List Opt) (args : List (List ℕ)) → Short opts
    → is_outside (main 32 s argc opts args) ≡ false
unfolding main Sized
main-inside s shows argc opts args short = bind-inside (exit_if (argc == 1) usage) _ (
    exit_if-Runs (argc == 1) usage _ refl (
      bind-inside (options 32 opts default_args) _ (
        Runs-map (options 32 opts default_args) _ _
          (options-Runs opts default_args short (refl, omega arith))
          (λ a sized. bind-inside (arguments 32 a args) _ (
            Runs-map (arguments 32 a args) _ _ (arguments-Runs a args sized)
              (λ r ((size, small), low). perform-inside s r size low shows small))))))
