-- ===== src/Memory/Leaves.antt =====
-- What `kalloc` keeps of a memory, whatever path it takes.
use abel_os.Base.{
  ℕ, ◌+◌, [], ◌∷◌, ltb, inl, inr, Bool-cases, u32, ◌==◌, Option, none, some, if◌then◌else◌,
}
use abel_os.PmmInit.{KernelImage}
use abel_os.Kalloc.{
  Block, Blocks, Heap, header, page_block, normalize, find_fit, place, Allocation, null, fault,
  overlap, block, carve, is_nil,
}
use abel_os.Memory.{Memory, with_page, outcome, first_page, search_pages, kalloc_pages}

abbrev pub Leaves : (Memory → Type 0) → Option (ℕ × Memory) → Type 0
Leaves P none = Unit {0}
Leaves P (some (p, t)) = P t

-- The memory with its first page in the free list, where it was empty.
abbrev pub with_first : KernelImage → Memory → Memory
with_first k s = record (with_page k s).1 {
  heap = record s.heap { free = page_block (with_page k s).0 ∷ [] };
}

module _ (P : Memory → Type 0)
    (any_heap : (s : Memory) (h : Heap) → P s → P (record s { heap = h })) where
  outcome-Leaves : (s : Memory) (r : Allocation) → P s → Leaves P (outcome s r)
  outcome-Leaves s (block p h) g = any_heap s h g
  outcome-Leaves s null g = g
  outcome-Leaves s fault g = tt
  outcome-Leaves s overlap g = tt

  search-Leaves :
      (k : KernelImage) (size need : ℕ) (s : Memory)
      → P s
      → P (with_page k s).1
      → Leaves P (search_pages k size need s)
  unfolding search_pages
  search-Leaves k size need s g g' = take (find_fit need s.heap.free)
    where
      take :
          (r : Option (Blocks × Block × Blocks))
          → let found : Option (ℕ × Memory) = elim r [
            | some (before, b, after) ↦ outcome s (carve size need before b after s.heap.used)
            | none ↦
                if (with_page k s).0 == 0
                then none
                else let (before, after) = place (with_page k s).0 s.heap.free in
                  outcome
                    (with_page k s).1
                    (carve size need before (page_block (with_page k s).0) after s.heap.used)
          ] in
            Leaves P found
      take (some (before, b, after)) = outcome-Leaves s _ g
      take none = elim (Bool-cases ((with_page k s).0 == 0)) [
        | inl no_addr ↦ rw no_addr tt
        | inr there ↦ rw there (outcome-Leaves (with_page k s).1 _ g')
      ]

  -- What does not depend on the heap and holds with no page, one page and two pages taken, holds
  -- behind every call of `kalloc`.
  pub kalloc_pages-Leaves :
      (k : KernelImage) (size : ℕ) (s : Memory)
      → P s
      → P (with_page k s).1
      → P (with_page k (with_first k s)).1
      → Leaves P (kalloc_pages k size s)
  unfolding kalloc_pages first_page
  kalloc_pages-Leaves k size s g g1 g2 =
      elim (Bool-cases (ltb 4096 (u32 (normalize size + header)))) [
        | inl much ↦ rw much g
        | inr fine ↦ rw fine (elim (Bool-cases (is_nil s.heap.free)) [
          | inr some_left ↦
              rw some_left (search-Leaves k (normalize size) (u32 (normalize size + header)) s g g1)
          | inl none_left ↦ rw none_left (elim (Bool-cases ((with_page k s).0 == 0)) [
            | inl no_addr ↦ rw no_addr tt
            | inr there ↦ rw there (
                search-Leaves k (normalize size) (u32 (normalize size + header)) (with_first k s)
                  (any_heap (with_page k s).1 _ g1) g2)
          ])
        ])
      ]
