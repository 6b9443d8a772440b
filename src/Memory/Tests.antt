-- ===== src/Memory/Tests.antt =====
-- Runs of the heap in a small memory.
use abel_os.Base.{◌<◌, ◌≤◌, ◌≡◌, refl, [], some, none, arith, ◌⊎◌}
use abel_os.Kalloc.{page_block}
use abel_os.Memory.{Memory, kalloc_pages, kfree_pages}
use abel_os.Memory.Alloc.{IsMemory, Granted}
use abel_os.Memory.Kalloc.{IsScarce, kalloc_pages-Granted}
use abel_os.Memory.Kfree.{Dangles, kfree_pages-IsMemory}
use abel_os.Memory.Sample.{
  image, memory, memory-IsMemory, memory-HasSupply, page_in_use, page_in_use-IsMemory,
}

kalloc_pages-Granted_example :
    ((4088 < 1023) × (kalloc_pages image 1023 memory ≡ some (0, memory)))
    ⊎ ((1023 ≤ 4088)
        × (Granted image 1023 memory (kalloc_pages image 1023 memory)
            ⊎ ((kalloc_pages image 1023 memory ≡ none) × IsScarce memory.space)))
kalloc_pages-Granted_example =
    kalloc_pages-Granted image 1023 memory refl memory-IsMemory
      (memory-HasSupply.0.0, memory-HasSupply.0.1.0) (omega arith)

kfree_pages-IsMemory_example :
    (t : Memory) × (kfree_pages 0xC040_1008 page_in_use ≡ some t)
    × (t.heap.used ≡ [])
    × (IsMemory image t ⊎ Dangles t)
kfree_pages-IsMemory_example =
    kfree_pages-IsMemory image page_in_use [] (page_block 0xC040_1000) [] refl page_in_use-IsMemory
      refl
