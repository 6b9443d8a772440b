-- ===== src/Kalloc/Tests.antt =====
-- Runs of the heap on concrete pages.
use abel_os.Pmm.{PhysicalMemoryMap}
use abel_os.PmmInit.{KernelImage}
use abel_os.Vmm.{kernel_page_idx, AddrSpace, read_pte}
use abel_os.Base.{
  ◌≢◌, ◌==◌, if◌then◌else◌, ◌%◌, ℕ, ◌+◌, ◌-◌, ◌≤◌, ◌<◌, ◌≡◌, refl, List, [], ◌∷◌, some, arith, ◌⊎◌,
  inl, inr, ◌^◌,
}
use abel_os.Kalloc.{
  normalize, search_free, find_fit, carve, take_at, insert_free, try_collide, place, touch, Block,
  Heap, page_block, null, overlap, block, kalloc, kfree,
}
use abel_os.Kalloc.Blocks.{IsHeap, IsBlock, IsNewPage}
use abel_os.Kalloc.Alloc.{kalloc-Grants}
use abel_os.Kalloc.Carve.{heap, Grants}
use abel_os.Kalloc.Free.{PagesReturned, kfree-IsHeap}
use abel_os.Kalloc.Limits.{kalloc-wraps, kfree-dangles}

abbrev blk : ℕ → ℕ → Block
blk a n = record { addr = a; size = n }

-- A page that is split: 100 bytes in use, 3980 free.
abbrev split_page : Heap
split_page = heap (blk 0x306c 3980 ∷ []) (blk 0x3000 100 ∷ [])

split_page-IsHeap : IsHeap split_page
split_page-IsHeap = record {
  ordered = omega arith;
  free_blocks = (
    record {
      in_page = omega arith;
      low = omega arith;
      not_null = omega arith;
      even_addr = omega arith;
      even_size = omega arith;
    },
    tt,
  );
  used_blocks = (
    record {
      in_page = omega arith;
      low = omega arith;
      not_null = omega arith;
      even_addr = omega arith;
      even_size = omega arith;
    },
    tt,
  );
  used_apart = omega arith;
  separate = (((inl (omega arith)), tt), tt);
}

page-IsBlock : (p : ℕ) → 4096 ≤ p → p < 2 ^ 32 → p % 4096 ≡ 0 → IsBlock (page_block p)
page-IsBlock p lo hi aligned = record {
  in_page = omega arith;
  low = hi;
  not_null = lo;
  even_addr = omega arith;
  even_size = omega arith;
}

page-IsNewPage : (p : ℕ) → 0x4000 ≤ p → p < 2 ^ 32 → p % 4096 ≡ 0 → IsNewPage p split_page
page-IsNewPage p lo hi aligned = record {
  page_lem = page-IsBlock p (omega arith) hi aligned;
  not_free = (inr (omega arith), tt);
  not_used = (inr (omega arith), tt);
}

first_kalloc :
    kalloc 0x3000 0x4000 99 (heap [] [])
    ≡ block 0x3008 (heap (blk 0x306c 3980 ∷ []) (blk 0x3000 100 ∷ []))
unfolding kalloc normalize search_free find_fit carve
first_kalloc = refl

-- Freed again, the block and the rest behind it make a page.
free_again : kfree 0x3008 split_page ≡ some (heap [] [], 0x3000 ∷ [])
unfolding kfree take_at insert_free try_collide place touch
free_again = refl

kalloc-Grants_example :
    ((4088 < 4082) × (kalloc 0x4000 0x5000 4082 split_page ≡ null))
    ⊎ ((4082 ≤ 4088) × Grants 4082 split_page (kalloc 0x4000 0x5000 4082 split_page))
kalloc-Grants_example =
    kalloc-Grants split_page 0x4000 0x5000 4082 split_page-IsHeap
      (page-IsNewPage 0x4000 (omega arith) (omega arith) (omega arith))
      (page-IsNewPage 0x5000 (omega arith) (omega arith) (omega arith)) (inl (omega arith))
      (omega arith)

kfree-IsHeap_example :
    (h' : Heap) × (pages : List ℕ) × (kfree 0x3008 split_page ≡ some (h', pages))
    × (h'.used ≡ [])
    × IsHeap h'
    × PagesReturned pages h'
kfree-IsHeap_example = kfree-IsHeap split_page [] (blk 0x3000 100) [] split_page-IsHeap refl

-- The first 16 bytes are free, the rest of the page is in use.
abbrev upper_used : Heap
upper_used = heap (blk 0x3000 16 ∷ []) (blk 0x3018 4064 ∷ [])

upper_used-IsHeap : IsHeap upper_used
upper_used-IsHeap = record {
  ordered = omega arith;
  free_blocks = (
    record {
      in_page = omega arith;
      low = omega arith;
      not_null = omega arith;
      even_addr = omega arith;
      even_size = omega arith;
    },
    tt,
  );
  used_blocks = (
    record {
      in_page = omega arith;
      low = omega arith;
      not_null = omega arith;
      even_addr = omega arith;
      even_size = omega arith;
    },
    tt,
  );
  used_apart = omega arith;
  separate = ((inr (omega arith), tt), tt);
}

kfree-dangles_example :
    kfree 0x3020 upper_used ≡ some (heap (page_block 0x3000 ∷ []) [], 0x3000 ∷ [])
kfree-dangles_example =
    kfree-dangles 0x3000 (blk 0x3018 4064) [] [] upper_used-IsHeap (omega arith) (omega arith)
      (omega arith)

kalloc-wraps_example :
    ((n : ℕ)
      → 2 ^ 32 ≤ n + 9
      → n + 1 < 2 ^ 32
      → kalloc 0x4000 0x5000 n (heap (page_block 0x3000 ∷ []) []) ≡ overlap)
    × (kalloc 0x4000 0x5000 (2 ^ 32 - 1) (heap (page_block 0x3000 ∷ []) [])
        ≡ block 0x3008 (heap (blk 0x3008 4080 ∷ []) (blk 0x3000 0 ∷ [])))
kalloc-wraps_example =
    kalloc-wraps 0x4000 0x5000 (page_block 0x3000) [] []
      (page-IsBlock 0x3000 (omega arith) (omega arith) (omega arith)) (omega arith)

-- The kernel's first page is mapped, and holds the heap's page.
abbrev image : KernelImage
image = record { start = 0x3000; finish = 0x4000; virt_start = 0x3000; phys_start = 0x10000 }

abbrev one_page : AddrSpace
one_page = record { p_dir = λ i. 0x107; p_tables = λ i j. if j == 0 then 0x10107 else 0 }

abbrev no_pages : PhysicalMemoryMap
no_pages = record { bitmap = 0; bytes = []; bitmap_phy_addr = 0; bitmap_len = 0; n_pages = 0 }

page_in_use : read_pte one_page kernel_page_idx 0 ≢ 0
unfolding read_pte
page_in_use = omega arith
