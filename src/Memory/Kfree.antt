-- ===== src/Memory/Kfree.antt =====
-- `kfree` over the page that it gives back.
use abel_os.Base.{
  ℕ, ◌+◌, ◌-◌, ◌*◌, ◌/◌, ◌≤◌, ◌<◌, ◌≡◌, ◌≢◌, refl, sym, ap, ◌∙◌, [], ◌∷◌, ◌++◌, ltb, leb, arith,
  ◌⊎◌, inl, inr, Bool, not, ◌&&◌, ◌==◌, some, if◌then◌else◌, List,
}
use mathlib.Core.Path.{subst}
use abel_os.PmmInit.{KernelImage}
use abel_os.Vmm.{n_entries, kernel_page_idx, AddrSpace, read_pte, vmm_free_page}
use abel_os.Vmm.Frames.{IsEntry, window}
use abel_os.Vmm.Lease.{vmm_free_page-AreOwned}
use abel_os.Kalloc.{Block, Blocks, Heap, page_block}
use abel_os.Kalloc.Blocks.{AllApart, AreBlocks, AllIn, IsHeap}
use abel_os.Kalloc.Fresh.{AllMapped}
use abel_os.Kalloc.Free.{PagesReturned}
use abel_os.Kalloc.Release.{PagesIn, AtMostOne, kfree-AllIn}
use abel_os.Memory.{Memory, without_page, free_pages, kfree_pages}
use abel_os.Memory.Alloc.{IsMemory}

-- Whether the page with a number is one of the kernel's with an entry.
abbrev in_use : AddrSpace → ℕ → Bool
in_use a p =
    leb window (p * 4096)
    && ltb (p * 4096) (window + n_entries * 4096)
    && not (read_pte a kernel_page_idx (p - window / 4096) == 0)

module _ (k : KernelImage) (a : AddrSpace) (at : k.virt_start ≡ window) where
  AllIn-AllMapped : (bs : Blocks) → AllMapped k a bs → AllIn (in_use a) bs
  AllIn-AllMapped [] m = tt
  AllIn-AllMapped (b ∷ bs) m =
      let above = m.0.above in
      let below = m.0.below in
      let index : (b.addr - k.virt_start) / 4096 ≡ b.addr / 4096 - window / 4096 = omega arith in
      let entry : IsEntry a (b.addr / 4096 - window / 4096) = rw index at m.0.entry in
      (ground arith, AllIn-AllMapped bs m.1)

  AllMapped-AllIn : (bs : Blocks) → AllIn (in_use a) bs → AllMapped k a bs
  AllMapped-AllIn [] m = tt
  AllMapped-AllIn (b ∷ bs) m =
      let here = m.0 in
      let above : window ≤ b.addr / 4096 * 4096 = ground arith in
      let below : b.addr / 4096 * 4096 < window + n_entries * 4096 = ground arith in
      let entry : IsEntry a (b.addr / 4096 - window / 4096) = ground arith in
      let index : (b.addr - k.virt_start) / 4096 ≡ b.addr / 4096 - window / 4096 = omega arith in
      (
        record { above = omega arith; below = omega arith; entry = rw index entry },
        AllMapped-AllIn bs m.1,
      )

  -- Blocks apart from a page stay mapped when the entry of the page is cleared.
  AllMapped-Apart :
      (a' : AddrSpace) (i : ℕ) (bs : Blocks)
      → ((j : ℕ)
          → read_pte a' kernel_page_idx j ≡ (if j == i then 0 else read_pte a kernel_page_idx j))
      → AreBlocks bs
      → AllApart (page_block (window + i * 4096)) bs
      → AllMapped k a bs
      → AllMapped k a' bs
  AllMapped-Apart a' i [] cleared w apart m = tt
  AllMapped-Apart a' i (b ∷ bs) cleared w apart m =
      let above = m.0.above in
      let in_page = w.0.in_page in
      let j = (b.addr - k.virt_start) / 4096 in
      let other : j ≢ i =
        λ e. elim apart.0 [ inl h ↦ absurd (omega arith) | inr h ↦ absurd (omega arith) ] in
      let kept : read_pte a' kernel_page_idx j ≡ read_pte a kernel_page_idx j =
        ground (arith, cleared j) in
      (
        record { above = above; below = m.0.below; entry = λ gone. m.0.entry (sym kept ∙ gone) },
        AllMapped-Apart a' i bs cleared w.1 apart.1 m.1,
      )

-- The free list starts with a page that is not mapped any more.
abbrev pub Dangles : Memory → Type 0
Dangles s =
    (i : ℕ) × (rest : Blocks) × (s.heap.free ≡ page_block (window + i * 4096) ∷ rest)
    × (read_pte s.space kernel_page_idx i ≡ 0)

-- The memory without a page of the kernel that no block lies in, unless the list starts with it.
without_page-IsMemory :
    (k : KernelImage) (s : Memory) (h' : Heap) (i : ℕ)
    → k.virt_start ≡ window
    → IsMemory k s
    → IsHeap h'
    → i < n_entries
    → IsEntry s.space i
    → AllMapped k s.space h'.free
    → AllMapped k s.space h'.used
    → AllApart (page_block (window + i * 4096)) h'.used
    → AllApart (page_block (window + i * 4096)) h'.free
      ⊎ ((rest : Blocks) × (h'.free ≡ page_block (window + i * 4096) ∷ rest))
    → let t = without_page (window + i * 4096) (record s { heap = h' }) in IsMemory k t ⊎ Dangles t
without_page-IsMemory k s h' i at v w lt entry free used apart off =
    let (owned, entries, bits) = vmm_free_page-AreOwned s.map s.space i lt v.owned entry in
    let a' = (vmm_free_page (window + i * 4096) s.map s.space).1 in
    elim off [
      | inr (rest, same) ↦ inr (i, rest, same, ground (arith, entries i))
      | inl clear ↦ inl (record {
        owned = owned;
        heap_lem = w;
        free_mapped = AllMapped-Apart k s.space at a' i h'.free entries w.free_blocks clear free;
        used_mapped = AllMapped-Apart k s.space at a' i h'.used entries w.used_blocks apart used;
      })
    ]

-- What `kfree` leaves where the heap gives one page back, or none.
freed_page :
    (k : KernelImage) (s : Memory) (h' : Heap) (pages : List ℕ)
    → k.virt_start ≡ window
    → IsMemory k s
    → IsHeap h'
    → PagesReturned pages h'
    → AllIn (in_use s.space) h'.free
    → AllIn (in_use s.space) h'.used
    → PagesIn (in_use s.space) pages
    → AtMostOne pages
    → let t = free_pages pages (record s { heap = h' }) in
      (t.heap ≡ h') × (IsMemory k t ⊎ Dangles t)
unfolding free_pages
freed_page k s h' [] at v w back free used whole one = (
  refl,
  inl (record {
    owned = v.owned;
    heap_lem = w;
    free_mapped = AllMapped-AllIn k s.space at h'.free free;
    used_mapped = AllMapped-AllIn k s.space at h'.used used;
  }),
)
freed_page k s h' (p ∷ []) at v w back free used whole one =
    let i = p / 4096 - window / 4096 in
    let test = whole.0.1 in
    let in_page = whole.0.0.in_page in
    let low : window ≤ p / 4096 * 4096 = ground arith in
    let high : p / 4096 * 4096 < window + n_entries * 4096 = ground arith in
    let entry : IsEntry s.space i = ground arith in
    let place : p ≡ window + i * 4096 = omega arith in
    let lt : i < n_entries = omega arith in
    let step =
      without_page-IsMemory k s h' i at v w lt entry (AllMapped-AllIn k s.space at h'.free free)
        (AllMapped-AllIn k s.space at h'.used used)
        (subst (λ q. AllApart (page_block q) h'.used) place back.0.0)
        (subst
          (λ q.
            AllApart (page_block q) h'.free ⊎ ((rest : Blocks) × (h'.free ≡ page_block q ∷ rest)))
          place back.0.1) in
    (
      refl,
      subst (λ q. let t = without_page q (record s { heap = h' }) in IsMemory k t ⊎ Dangles t)
          (sym place) step,
    )
freed_page k s h' (p ∷ (q ∷ ps)) at v w back free used whole one = absurd one

-- For a kernel whose pages start at 0xC0400000 and memory that satisfies its invariant: freeing the
-- pointer of a block in use succeeds, and exactly this block is no longer in use. The invariant still
-- holds, unless the free list starts with a page that was given back and is no longer mapped.
pub kfree_pages-IsMemory :
    (k : KernelImage) (s : Memory) (before : Blocks) (b : Block) (after : Blocks)
    → k.virt_start ≡ window
    → IsMemory k s
    → s.heap.used ≡ before ++ (b ∷ after)
    → (t : Memory) × (kfree_pages (b.addr + 8) s ≡ some t)
      × (t.heap.used ≡ before ++ after)
      × (IsMemory k t ⊎ Dangles t)
unfolding kfree_pages
kfree_pages-IsMemory k s before b after at v same =
    let (h', pages, runs, left, w, back, free, used, whole, one) =
      kfree-AllIn (in_use s.space) s.heap before b after v.heap_lem same
        (AllIn-AllMapped k s.space at s.heap.free v.free_mapped)
        (AllIn-AllMapped k s.space at s.heap.used v.used_mapped) in
    let (heap_kept, goes_on) = freed_page k s h' pages at v w back free used whole one in
    (
      free_pages pages (record s { heap = h' }),
      rw (runs, kfree_pages) refl,
      ap (λ (h : Heap). h.used) heap_kept ∙ left,
      goes_on,
    )
