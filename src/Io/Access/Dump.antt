-- ===== src/Io/Access/Dump.antt =====
-- The lines that `memread_memory` of io.c prints, against the values of the region.
use Prim.Native.Nat.{min}
use my_file.Prelude.{
  ℕ, zero, suc, ◌+◌, ◌-◌, ◌*◌, ◌/◌, ◌%◌, ◌^◌, ◌≤◌, ◌<◌, ◌≡◌, refl, ap, ◌∙◌, sym, arith, true, false,
  Option, some, List, [], ◌∷◌, ◌++◌, leb, ltb, ◌==◌, length,
}
use my_file.CLib.Files.{read_at}
use my_file.Io.Access.{
  value_of, access_width, less, line_loop, read_loop, memread_memory, Line, with_line, is_size,
}

-- `n` values of `w` bytes from an address on
unfoldable pub cells : ℕ → ℕ → ℕ → List ℕ → List ℕ
cells w zero addr mem = []
cells w (suc n) addr mem = value_of (read_at mem addr w) ∷ cells w n (addr + w) mem

module _ (w : ℕ) (pos : 0 < w) (same : access_width 4 w ≡ w) where
  -- With room for `m` more values in the line
  line_loop-cells :
      (m n fuel addr : ℕ) (mem : List ℕ)
      → m * w ≤ 16
      → m < fuel
      → addr + n * w ≤ length mem
      → n * w < 2 ^ 32
      → line_loop fuel 4 w (16 - m * w) addr (n * w) mem
        ≡ some (cells w (min m n) addr mem, addr + min m n * w, (n - min m n) * w)
  unfolding line_loop cells
  line_loop-cells m n zero addr mem inside h room small = absurd (omega arith)
  line_loop-cells zero n (suc fuel) addr mem inside h room small =
      let full : ltb (16 - 0 * w) 16 ≡ false = ground arith in
      let none_more : min 0 n ≡ 0 = omega arith in
      let here : addr + 0 * w ≡ addr = omega arith in
      let all : n - 0 ≡ n = omega arith in rw (full, none_more, here, all)
  line_loop-cells (suc m) zero (suc fuel) addr mem inside h room small =
      let short : ltb (16 - suc m * w) 16 ≡ true = ground arith in
      let ended : (0 * w == 0) ≡ true = ground arith in
      let none_more : min (suc m) 0 ≡ 0 = omega arith in
      let here : addr + 0 * w ≡ addr = omega arith in rw (short, ended, none_more, here)
  line_loop-cells (suc m) (suc n) (suc fuel) addr mem inside h room small =
      let more : (suc n * w == 0) ≡ false =
        let k : 0 < suc n * w = omega arith in ground (arith, k) in
      let fits : leb (addr + w) (length mem) ≡ true = ground arith in
      let left : less (suc n * w) w ≡ n * w = omega arith in
      let next : 16 - suc m * w + w ≡ 16 - m * w = omega arith in
      let short : ltb (16 - suc m * w) 16 ≡ true = ground arith in
      rw
        (
          short,
          more,
          same,
          fits,
          left,
          next,
          line_loop-cells m n fuel (addr + w) mem (omega arith) (omega arith) (omega arith)
              (omega arith),
        )
        (let one_more : min (suc m) (suc n) ≡ suc (min m n) = omega arith in
          let there : addr + w + min m n * w ≡ addr + suc (min m n) * w = omega arith in
          let rest : suc n - suc (min m n) ≡ n - min m n = omega arith in
          rw (one_more, there, rest))

-- the values of all lines
abbrev pub all_values : List Line → List ℕ
all_values [] = []
all_values (l ∷ lines) = l.values ++ all_values lines

-- Lines of `per` values of `n` in all, the last one with the rest, 16 bytes of address apart.
abbrev pub Rows : ℕ → ℕ → ℕ → List Line → Type 0
Rows per phys n [] = n ≡ 0
Rows per phys n (l ∷ lines) =
    (l.phys_addr ≡ phys)
    × (0 < n)
    × (length l.values ≡ min per n)
    × Rows per ((phys + 16) % 2 ^ 32) (n - min per n) lines

length-cells : (w n addr : ℕ) (mem : List ℕ) → length (cells w n addr mem) ≡ n
unfolding cells
length-cells w zero addr mem = refl
length-cells w (suc n) addr mem = ap suc (length-cells w n (addr + w) mem)

cells-append :
    (w k n addr : ℕ) (mem : List ℕ)
    → cells w k addr mem ++ cells w n (addr + k * w) mem ≡ cells w (k + n) addr mem
unfolding cells
cells-append w zero n addr mem =
    let e : addr + 0 * w ≡ addr = omega arith in let f : 0 + n ≡ n = omega arith in rw (e, f)
cells-append w (suc k) n addr mem =
    let e : addr + suc k * w ≡ addr + w + k * w = omega arith in
    let f : suc k + n ≡ suc (k + n) = omega arith in
    rw (e, f) (ap (λ l. value_of (read_at mem addr w) ∷ l) (cells-append w k n (addr + w) mem))

-- what is printed of `n` values
pub record Dumped (w per phys n addr : ℕ) (mem : List ℕ) (out : Option (List Line)) : Type 0 where
  pub lines : List Line
  pub printed : out ≡ some lines
  pub values : all_values lines ≡ cells w n addr mem
  pub rows : Rows per phys n lines

split_product : (k n w : ℕ) → k ≤ n → k * w + (n - k) * w ≡ n * w
split_product k n w h =
    let d : (k + (n - k)) * w ≡ k * w + (n - k) * w = omega arith in
    let total : k + (n - k) ≡ n = omega arith in sym d ∙ ap (λ m. m * w) total

module _ (w per : ℕ) (pos : 0 < w) (same : access_width 4 w ≡ w) (line : per * w ≡ 16)
    (few : per ≤ 16) (some_fit : 0 < per) where
  -- the lines that follow a first one
  after_line :
      (n phys addr : ℕ) (mem : List ℕ) (out : Option (List Line))
      → Dumped w per
          ((phys + 16) % 2 ^ 32)
          (suc n - min per (suc n))
          (addr + min per (suc n) * w)
          mem
          out
      → Dumped w per phys (suc n) addr mem (with_line phys (cells w (min per (suc n)) addr mem) out)
  after_line n phys addr mem out d =
      let total : min per (suc n) + (suc n - min per (suc n)) ≡ suc n = omega arith in
      record {
        lines = record { phys_addr = phys; values = cells w (min per (suc n)) addr mem } ∷ d.lines;
        printed = ap (with_line phys (cells w (min per (suc n)) addr mem)) d.printed;
        values =
            ap (λ vs. cells w (min per (suc n)) addr mem ++ vs) d.values
            ∙ cells-append w (min per (suc n)) (suc n - min per (suc n)) addr mem
            ∙ ap (λ k. cells w k addr mem) total;
        rows = (refl, omega arith, length-cells w (min per (suc n)) addr mem, d.rows);
      }

  nothing : (phys addr : ℕ) (mem : List ℕ) → Dumped w per phys 0 addr mem (some [])
  unfolding cells
  nothing phys addr mem = record { lines = []; printed = refl; values = refl; rows = refl }

  read_loop-Dumped :
      (fuel n phys addr : ℕ) (mem : List ℕ)
      → n < fuel
      → addr + n * w ≤ length mem
      → n * w < 2 ^ 32
      → Dumped w per phys n addr mem (read_loop fuel 4 w phys addr (n * w) mem)
  unfolding read_loop
  read_loop-Dumped zero n phys addr mem h room small = absurd (omega arith)
  read_loop-Dumped (suc fuel) zero phys addr mem h room small =
      let ended : (0 * w == 0) ≡ true = ground arith in rw ended (nothing phys addr mem)
  read_loop-Dumped (suc fuel) (suc n) phys addr mem h room small =
      let more : (suc n * w == 0) ≡ false =
        let k : 0 < suc n * w = omega arith in ground (arith, k) in
      let full : 16 - per * w ≡ 0 = omega arith in
      let parts : min per (suc n) * w + (suc n - min per (suc n)) * w ≡ suc n * w =
        split_product (min per (suc n)) (suc n) w (omega arith) in
      let first =
        ap (λ i. line_loop 17 4 w i addr (suc n * w) mem) (sym full)
        ∙ line_loop-cells w pos same per (suc n) 17 addr mem (omega arith) (omega arith) room
            small in
      rw (more, first)
        (after_line n phys addr mem
          (read_loop fuel 4 w ((phys + 16) % 2 ^ 32) (addr + min per (suc n) * w)
            ((suc n - min per (suc n)) * w) mem)
          (read_loop-Dumped fuel (suc n - min per (suc n)) ((phys + 16) % 2 ^ 32)
            (addr + min per (suc n) * w) mem (omega arith) (omega arith) (omega arith)))

-- values in a line of 16 bytes
abbrev pub per_line : ℕ → ℕ
per_line iosize = 16 / iosize

-- what a size means for a line
per_line-bounds :
    (w : ℕ)
    → is_size w ≡ true
    → (0 < w)
      × (access_width 4 w ≡ w)
      × (per_line w * w ≡ 16)
      × (per_line w ≤ 16)
      × (0 < per_line w)
per_line-bounds w h = ground arith

-- With longs of 4 bytes, an access of 1, 2 or 4 bytes inside the mapping ends, and its lines hold
-- the values of the aligned region in order, full lines of 16 bytes first, 16 addresses apart.
pub memread_memory-Dumped :
    (iosize n phys addr : ℕ) (mem : List ℕ)
    → is_size iosize ≡ true
    → addr + n * iosize ≤ length mem
    → n * iosize < 2 ^ 32
    → Dumped iosize
        (per_line iosize)
        phys
        n
        addr
        mem
        (memread_memory 4 iosize phys addr (n * iosize) mem)
unfolding memread_memory
memread_memory-Dumped iosize n phys addr mem size room small =
    let (pos, same, line, few, some_fit) = per_line-bounds iosize size in
    let enough : n < suc (length mem) = grind arith in
    read_loop-Dumped iosize (per_line iosize) pos same line few some_fit (suc (length mem)) n phys
      addr mem enough room small
