-- ===== src/Kalloc/Fresh.antt =====
-- The pages of the virtual memory that the heap asks for.
use abel_os.Base.{
  ℕ, ◌+◌, ◌-◌, ◌*◌, ◌/◌, ◌%◌, ◌^◌, ◌≤◌, ◌<◌, ◌≡◌, ◌≢◌, [], ◌∷◌, ◌⊎◌, inl, inr, arith, ◌==◌,
  Bool-cases, ltb,
}
use abel_os.Pmm.{PhysicalMemoryMap}
use abel_os.PmmInit.{KernelImage}
use abel_os.Vmm.{n_entries, kernel_page_idx, AddrSpace, read_pte, vmm_alloc_page}
use abel_os.Vmm.Search.{find_unused_page_kernel-first}
use abel_os.Kalloc.{Block, Blocks, Heap, page_block}
use abel_os.Kalloc.Blocks.{IsBlock, Apart, AreBlocks, AllApart, IsHeap, IsNewPage}

-- The block lies in the kernel's pages, and its page has an entry.
pub record IsMapped (k : KernelImage) (a : AddrSpace) (b : Block) : Type 0 where
  pub above : k.virt_start ≤ b.addr
  pub below : b.addr < k.virt_start + n_entries * 4096
  pub entry : read_pte a kernel_page_idx ((b.addr - k.virt_start) / 4096) ≢ 0

abbrev pub AllMapped : KernelImage → AddrSpace → Blocks → Type 0
AllMapped k a [] = Unit {0}
AllMapped k a (b ∷ bs) = IsMapped k a b × AllMapped k a bs

module _ (k : KernelImage) (a : AddrSpace) (i : ℕ) (aligned : k.virt_start % 4096 ≡ 0)
    (unused : read_pte a kernel_page_idx i ≡ 0) where
  -- A block in another page than the one with the null entry.
  Apart-unused :
      (b : Block) → IsBlock b → IsMapped k a b → Apart (page_block (k.virt_start + i * 4096)) b
  Apart-unused b v m =
      let in_page = v.in_page in
      let above = m.above in
      let j = (b.addr - k.virt_start) / 4096 in
      elim (Bool-cases (j == i)) [
        | inl same ↦ let e : j ≡ i = ground arith in absurd (m.entry (rw e unused))
        | inr other ↦ elim (Bool-cases (ltb j i)) [
          | inl low ↦ let lt : j < i = ground arith in inr (omega arith)
          | inr high ↦ let gt : i < j = ground arith in inl (omega arith)
        ]
      ]

  AllApart-unused :
      (bs : Blocks)
      → AreBlocks bs
      → AllMapped k a bs
      → AllApart (page_block (k.virt_start + i * 4096)) bs
  AllApart-unused [] w m = tt
  AllApart-unused (b ∷ bs) w m = (Apart-unused b w.0 m.0, AllApart-unused bs w.1 m.1)

-- For a kernel at a page's start whose table ends below 4 GiB, and a heap that satisfies the invariant
-- and lies in pages with an entry: the address that `vmm_alloc_page` returns is 0, or that of a new
-- page, with which `kalloc` can go on.
pub vmm_alloc_page-IsNewPage :
    (k : KernelImage) (m : PhysicalMemoryMap) (a : AddrSpace) (h : Heap)
    → 0 < k.virt_start
    → k.virt_start % 4096 ≡ 0
    → k.virt_start + n_entries * 4096 ≤ 2 ^ 32
    → IsHeap h
    → AllMapped k a h.free
    → AllMapped k a h.used
    → ((vmm_alloc_page k m a).0 ≡ 0) ⊎ IsNewPage (vmm_alloc_page k m a).0 h
unfolding vmm_alloc_page
vmm_alloc_page-IsNewPage k m a h pos aligned fits v free used =
    elim (find_unused_page_kernel-first k a pos fits) [
      | inl (null, full) ↦ inl null
      | inr (i, lt, addr, ne, unused, before) ↦ inr (
          rw addr (record {
            page_lem = record {
              in_page = omega arith;
              low = omega arith;
              not_null = omega arith;
              even_addr = omega arith;
              even_size = omega arith;
            };
            not_free = AllApart-unused k a i aligned unused h.free v.free_blocks free;
            not_used = AllApart-unused k a i aligned unused h.used v.used_blocks used;
          }))
    ]
