-- ===== src/Kalloc/Mapped.antt =====
-- Blocks in mapped pages, and what an allocation makes of them.
use abel_os.Base.{
  ℕ, ◌+◌, ◌-◌, ◌/◌, ◌≤◌, ◌≡◌, refl, [], ◌∷◌, ◌++◌, ltb, arith, inl, inr, Bool-cases, u32, sub32,
  false,
}
use abel_os.PmmInit.{KernelImage}
use abel_os.Vmm.{AddrSpace}
use abel_os.Vmm.Frames.{IsEntry, window}
use abel_os.Kalloc.{Block, Blocks, Allocation, block, carve}
use abel_os.Kalloc.Blocks.{IsBlock}
use abel_os.Kalloc.Fresh.{IsMapped, AllMapped}

pub AllMapped-drop :
    (k : KernelImage) (a : AddrSpace) (xs : Blocks) (b : Block) (ys : Blocks)
    → AllMapped k a (xs ++ (b ∷ ys))
    → IsMapped k a b × AllMapped k a (xs ++ ys)
AllMapped-drop k a [] b ys m = m
AllMapped-drop k a (x ∷ xs) b ys m =
    let (here, rest) = AllMapped-drop k a xs b ys m.1 in (here, (m.0, rest))

pub AllMapped-insert :
    (k : KernelImage) (a : AddrSpace) (xs : Blocks) (b : Block) (ys : Blocks)
    → IsMapped k a b
    → AllMapped k a (xs ++ ys)
    → AllMapped k a (xs ++ (b ∷ ys))
AllMapped-insert k a [] b ys h m = (h, m)
AllMapped-insert k a (x ∷ xs) b ys h m = (m.0, AllMapped-insert k a xs b ys h m.1)

-- Another block of the same page.
pub IsMapped-page :
    (k : KernelImage) (a : AddrSpace) (b c : Block)
    → k.virt_start ≡ window
    → IsMapped k a b
    → c.addr / 4096 ≡ b.addr / 4096
    → IsMapped k a c
IsMapped-page k a b c at m same =
    let above = m.above in
    let index : (c.addr - k.virt_start) / 4096 ≡ (b.addr - k.virt_start) / 4096 = omega arith in
    let below = m.below in
    record { above = omega arith; below = omega arith; entry = rw index m.entry }

-- Entries that stay keep their blocks mapped.
pub AllMapped-entries :
    (k : KernelImage) (a a' : AddrSpace) (bs : Blocks)
    → ((j : ℕ) → IsEntry a j → IsEntry a' j)
    → AllMapped k a bs
    → AllMapped k a' bs
AllMapped-entries k a a' [] stay m = tt
AllMapped-entries k a a' (b ∷ bs) stay m =
    let old = m.0 in
    (
      record {
        above = old.above;
        below = old.below;
        entry = stay ((b.addr - k.virt_start) / 4096) old.entry;
      },
      AllMapped-entries k a a' bs stay m.1,
    )

-- The blocks of the heap that an allocation leaves.
abbrev pub LeavesMapped : KernelImage → AddrSpace → Allocation → Type 0
LeavesMapped k a (block p h) = AllMapped k a h.free × AllMapped k a h.used
LeavesMapped k a other = Unit {0}

pub carve-LeavesMapped :
    (k : KernelImage) (a : AddrSpace) (n : ℕ) (before : Blocks) (b : Block) (after used : Blocks)
    → k.virt_start ≡ window
    → IsBlock b
    → n + 8 ≤ 4096
    → AllMapped k a (before ++ (b ∷ after))
    → AllMapped k a used
    → LeavesMapped k a (carve n (n + 8) before b after used)
unfolding carve
carve-LeavesMapped k a n before b after used at v small free taken =
    let low = v.low in
    let in_page = v.in_page in
    let (here, rest) = AllMapped-drop k a before b after free in
    let plain : u32 (n + 8 + 16) ≡ n + 24 = omega arith in
    elim (Bool-cases (ltb b.size (n + 24))) [
      | inl whole ↦
          let same = IsMapped-page k a b (record { addr = b.addr; size = b.size }) at here refl in
          rw (plain, whole) (rest, (same, taken))
      | inr split ↦
          let room : n + 24 ≤ b.size = ground arith in
          let fine : ltb (n + 8) 8 ≡ false = ground arith in
          let end : u32 (b.addr + (n + 8)) ≡ b.addr + (n + 8) = omega arith in
          let t : Block = record { addr = b.addr + (n + 8); size = sub32 b.size (n + 8) } in
          let u : Block = record { addr = b.addr; size = n } in
          rw (plain, split, fine, end)
            (
              AllMapped-insert k a before t after (IsMapped-page k a b t at here (omega arith))
                  rest,
              (IsMapped-page k a b u at here refl, taken),
            )
    ]
