-- ===== src/Memory.antt =====
-- The kernel's memory as a whole: the heap of os/src/kernel/kalloc/kalloc.c over the pages of
-- os/src/kernel/vmm/vmm.c and os/src/kernel/pmm/pmm.c, each call of `vmm_alloc_page` and
-- `vmm_free_page` made where the code makes it.
pub mod Alloc
pub mod Kalloc
pub mod Kfree
pub mod Leaves
pub mod Supply
pub mod Sample
mod Tests
use abel_os.Base.{ℕ, ◌+◌, List, [], ◌∷◌, ◌++◌, Option, none, some, ltb, ◌==◌, if◌then◌else◌, u32}
use abel_os.Pmm.{PhysicalMemoryMap}
use abel_os.PmmInit.{KernelImage}
use abel_os.Vmm.{AddrSpace, vmm_alloc_page, vmm_free_page}
use abel_os.Kalloc.{
  Blocks, Heap, header, page_block, normalize, find_fit, place, Allocation, null, fault, overlap,
  block, carve, is_nil, kfree,
}

pub record Memory : Type 0 where
  pub map : PhysicalMemoryMap
  pub space : AddrSpace
  pub heap : Heap

-- `vmm_alloc_page` and `vmm_free_page` on the memory.
abbrev pub with_page : KernelImage → Memory → ℕ × Memory
with_page k s = let r = vmm_alloc_page k s.map s.space in (r.0, record s { map = r.1; space = r.2 })

abbrev pub without_page : ℕ → Memory → Memory
without_page p s = let r = vmm_free_page p s.map s.space in record s { map = r.0; space = r.1 }

-- The heap that an allocation leaves, in its memory; `none` is a fault, or a header over another.
abbrev pub outcome : Memory → Allocation → Option (ℕ × Memory)
outcome s null = some (0, s)
outcome s fault = none
outcome s overlap = none
outcome s (block p h) = some (p, record s { heap = h })

-- The first page of an empty free list. The page is written to without a test for 0.
pub first_page : KernelImage → Memory → Option Memory
first_page k s =
    let r = with_page k s in
    if is_nil s.heap.free
    then if r.0 == 0
      then none
      else some (record r.1 { heap = record s.heap { free = page_block r.0 ∷ [] } })
    else some s

-- The search, with a page more where no block has room.
pub search_pages : KernelImage → (n need : ℕ) → Memory → Option (ℕ × Memory)
search_pages k n need s =
    let r = with_page k s in
    elim (find_fit need s.heap.free) [
      | some (before, b, after) ↦ outcome s (carve n need before b after s.heap.used)
      | none ↦
          if r.0 == 0
          then none
          else let (before, after) = place r.0 s.heap.free in
            outcome r.1 (carve n need before (page_block r.0) after s.heap.used)
    ]

-- `kalloc` with its pages.
pub kalloc_pages : KernelImage → ℕ → Memory → Option (ℕ × Memory)
kalloc_pages k n s =
    let n' = normalize n in
    let need = u32 (n' + header) in
    if ltb 4096 need
    then some (0, s)
    else elim (first_page k s) [ none ↦ none | some s' ↦ search_pages k n' need s' ]

-- The pages that the heap gives back.
pub free_pages : List ℕ → Memory → Memory
free_pages [] s = s
free_pages (p ∷ ps) s = free_pages ps (without_page p s)

-- `kfree` with its pages.
pub kfree_pages : ℕ → Memory → Option Memory
kfree_pages ptr s = elim (kfree ptr s.heap) [
  | none ↦ none
  | some (h, pages) ↦ some (free_pages pages (record s { heap = h }))
]
