-- ===== src/Kalloc/Carve.antt =====
-- The block that `kalloc` has found, handed out whole or split.
use abel_os.Base.{
  ◌-◌, ℕ, ◌+◌, ◌≤◌, ◌<◌, ◌%◌, ◌^◌, ◌≡◌, refl, sym, ap, false, [], ◌∷◌, ◌++◌, ltb, arith, inl, inr,
  Bool-cases, u32, sub32,
}
use abel_os.Kalloc.{Block, Blocks, Heap, Allocation, block, carve}
use abel_os.Kalloc.Blocks.{
  IsBlock, Apart, Inside, Apart-sym, AreBlocks, AllApart, AllApart-Inside, Separate, IsHeap,
  Coarser, Coarser-append, Coarser-drop, Coarser-Inside, Ordered-AllApart,
}
use abel_os.Kalloc.Place.{AllApart-insert}

abbrev pub heap : Blocks → Blocks → Heap
heap free used = record { free = free; used = used }

-- What a client of `kalloc` is given for `n` bytes out of `h`: a heap again, in which nothing has
-- changed for the owners of the other blocks, and a block of its own.
abbrev pub Grants : ℕ → Heap → Allocation → Type 0
Grants n h (block p h') =
    IsHeap h'
    × ((b : Block) × (h'.used ≡ b ∷ h.used) × (p ≡ b.addr + 8) × (n ≤ b.size) × (b.size < n + 40))
Grants n h other = ⊥

pub AreBlocks-middle :
    (before : Blocks) (b : Block) (after : Blocks) → AreBlocks (before ++ (b ∷ after)) → IsBlock b
AreBlocks-middle [] b after w = w.0
AreBlocks-middle (x ∷ xs) b after w = AreBlocks-middle xs b after w.1

pub AllApart-middle :
    (x : Block) (before : Blocks) (b : Block) (after : Blocks)
    → AllApart x (before ++ (b ∷ after))
    → Apart x b
AllApart-middle x [] b after h = h.0
AllApart-middle x (c ∷ cs) b after h = AllApart-middle x cs b after h.1

Separate-middle :
    (us before : Blocks) (b : Block) (after : Blocks)
    → Separate us (before ++ (b ∷ after))
    → AllApart b us
Separate-middle [] before b after s = tt
Separate-middle (u ∷ us) before b after s =
    (Apart-sym u b (AllApart-middle u before b after s.0), Separate-middle us before b after s.1)

pub Separate-Coarser :
    (us xs ys : Blocks) → Coarser xs ys → AreBlocks xs → Separate us xs → Separate us ys
Separate-Coarser [] xs ys c w s = tt
Separate-Coarser (u ∷ us) xs ys c w s = (c.apart u w s.0, Separate-Coarser us xs ys c w s.1)

-- One block of the list becomes a used block that lies in it, and the rest of the list coarser.
hand_out :
    (before : Blocks) (b : Block) (after ys used : Blocks) (u : Block)
    → IsHeap (heap (before ++ (b ∷ after)) used)
    → Coarser (b ∷ after) ys
    → IsBlock u
    → Inside u b
    → AllApart u (before ++ ys)
    → IsHeap (heap (before ++ ys) (u ∷ used))
hand_out before b after ys used u h c v i apart =
    let whole = Coarser-append before (b ∷ after) ys c in
    record {
      ordered = whole.ordered 0 h.free_blocks h.ordered;
      free_blocks = whole.blocks h.free_blocks;
      used_blocks = (v, h.used_blocks);
      used_apart = (
        AllApart-Inside b u used i (Separate-middle used before b after h.separate),
        h.used_apart,
      );
      separate = (
        apart,
        Separate-Coarser used (before ++ (b ∷ after)) (before ++ ys) whole h.free_blocks h.separate,
      );
    }

-- The block is given whole, or split with an even remainder behind a new header.
pub carve-Grants :
    (asked n : ℕ) (before : Blocks) (b : Block) (after used : Blocks) (h0 : Heap)
    → IsHeap (heap (before ++ (b ∷ after)) used)
    → h0.used ≡ used
    → n % 2 ≡ 0
    → n ≤ b.size
    → n + 8 ≤ 4096
    → 0 < n
    → asked ≤ n
    → n ≤ asked + 16
    → Grants asked h0 (carve n (n + 8) before b after used)
unfolding carve
carve-Grants asked n before b after used h0 h same even fits small pos lo hi =
    let v = AreBlocks-middle before b after h.free_blocks in
    let apart = Ordered-AllApart 0 before b after h.ordered in
    let low = v.low in
    let in_page = v.in_page in
    let not_null = v.not_null in
    let even_addr = v.even_addr in
    let even_size = v.even_size in
    let big : b.addr + 8 < 2 ^ 32 = omega arith in
    let ptr : u32 (b.addr + 8) ≡ b.addr + 8 = omega arith in
    let plain : u32 (n + 8 + 16) ≡ n + 24 = omega arith in
    elim (Bool-cases (ltb b.size (n + 24))) [
      | inl whole ↦
          rw (plain, whole, ptr)
            (
              hand_out before b after after used b h (Coarser-drop b after) v
                  (omega arith, omega arith) apart,
              (b, ap (λ l. b ∷ l) (sym same), refl, omega arith, ground arith),
            )
      | inr split ↦
          let room : n + 24 ≤ b.size = ground arith in
          let fine : ltb (n + 8) 8 ≡ false = ground arith in
          let end : u32 (b.addr + (n + 8)) ≡ b.addr + (n + 8) = omega arith in
          let rest : sub32 b.size (n + 8) ≡ b.size - (n + 8) = omega arith in
          let t : Block = record { addr = b.addr + (n + 8); size = b.size - (n + 8) } in
          let u : Block = record { addr = b.addr; size = n } in
          let t_lem : IsBlock t = record {
            in_page = omega arith;
            low = omega arith;
            not_null = omega arith;
            even_addr = omega arith;
            even_size = omega arith;
          } in
          let u_lem : IsBlock u = record {
            in_page = omega arith;
            low = low;
            not_null = not_null;
            even_addr = even_addr;
            even_size = even;
          } in
          rw (plain, split, fine, ptr, end, rest)
            (
              hand_out before b after (t ∷ after) used u h
                  (Coarser-Inside b t after t_lem (omega arith, omega arith)) u_lem
                  (omega arith, omega arith)
                  (AllApart-insert before u t after (inl (omega arith))
                    (AllApart-Inside b u (before ++ after) (omega arith, omega arith) apart)),
              (u, ap (λ l. u ∷ l) (sym same), refl, omega arith, omega arith),
            )
    ]
