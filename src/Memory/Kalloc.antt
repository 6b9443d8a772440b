-- ===== src/Memory/Kalloc.antt =====
-- The whole of `kalloc` over the pages that it asks for.
use abel_os.Base.{
  ℕ, ◌+◌, ◌^◌, ◌≤◌, ◌<◌, ◌≡◌, ◌≢◌, refl, ◌∙◌, [], ◌∷◌, ltb, arith, ◌⊎◌, inl, inr, Bool-cases, u32,
  false, ◌==◌, none, some,
}
use abel_os.Pmm.{alloc_page}
use abel_os.PmmInit.{KernelImage}
use abel_os.Vmm.{n_entries, kernel_page_idx, AddrSpace, read_pte, vmm_alloc_page}
use abel_os.Vmm.Frames.{window}
use abel_os.Kalloc.{page_block, normalize, is_nil}
use abel_os.Kalloc.Alloc.{normalize_lem, first-IsHeap}
use abel_os.Kalloc.Carve.{heap}
use abel_os.Memory.{Memory, with_page, first_page, kalloc_pages}
use abel_os.Memory.Alloc.{IsMemory, Granted, IsFull, IsFresh, with_page-IsFresh, search-Granted}

-- Two physical pages are left.
abbrev pub HasPages : KernelImage → Memory → Type 0
HasPages k s = ((alloc_page s.map).0 ≢ 0) × ((alloc_page (alloc_page s.map).1).0 ≢ 0)

-- At most one entry of the kernel's table is null.
abbrev pub IsScarce : AddrSpace → Type 0
IsScarce a =
    (i j : ℕ)
    → i < n_entries
    → j < n_entries
    → read_pte a kernel_page_idx i ≡ 0
    → read_pte a kernel_page_idx j ≡ 0
    → i ≡ j

pub with_page-map : (k : KernelImage) (s : Memory) → (with_page k s).1.map ≡ (alloc_page s.map).1
unfolding vmm_alloc_page
with_page-map k s = refl

-- The heap that consists of its first page.
pub first-IsMemory :
    (k : KernelImage) (s : Memory)
    → IsMemory k s
    → IsFresh k s (with_page k s).0 (with_page k s).1
    → IsMemory k
        (record (with_page k s).1 { heap = heap (page_block (with_page k s).0 ∷ []) s.heap.used })
first-IsMemory k s v w = record {
  owned = w.owned;
  heap_lem = first-IsHeap (with_page k s).0 s.heap v.heap_lem w.new;
  free_mapped = (w.mapped, tt);
  used_mapped = w.used_mapped;
}

IsScarce-full :
    (k : KernelImage) (s : Memory) (p : ℕ) (t : Memory)
    → IsFresh k s p t
    → IsFull t.space
    → IsScarce s.space
IsScarce-full k s p t w full i j hi hj ei ej =
    let (l, place, unused, entry, before, others) = w.others in
    elim (Bool-cases (i == l)) [
      | inr other ↦ let ne : i ≢ l = ground arith in absurd (full i hi (others i ne ∙ ei))
      | inl here ↦ elim (Bool-cases (j == l)) [
        | inr other ↦ let ne : j ≢ l = ground arith in absurd (full j hj (others j ne ∙ ej))
        | inl there ↦ ground arith
      ]
    ]

-- For a kernel whose pages start at 0xC0400000, memory that satisfies its invariant with two physical
-- pages left, and a size that does not wrap around: a request of more than 4088 bytes is answered with
-- the null pointer and changes nothing. Any other is given a block of its own of at least the size, and
-- the invariant still holds; only if the kernel's table has at most one null entry left, it may instead
-- write to the address 0.
pub kalloc_pages-Granted :
    (k : KernelImage) (n : ℕ) (s : Memory)
    → k.virt_start ≡ window
    → IsMemory k s
    → HasPages k s
    → n + 10 ≤ 2 ^ 32
    → ((4088 < n) × (kalloc_pages k n s ≡ some (0, s)))
      ⊎ ((n ≤ 4088)
          × (Granted k n s (kalloc_pages k n s) ⊎ ((kalloc_pages k n s ≡ none) × IsScarce s.space)))
unfolding kalloc_pages first_page
kalloc_pages-Granted k n s at v pages fits =
    let (even, pos, lo, hi, low, limit) = normalize_lem n fits in
    let plain : u32 (normalize n + 8) ≡ normalize n + 8 = omega arith in
    let small : ltb 4088 n ≡ false → normalize n + 8 ≤ 4096 = λ fine. ground arith in
    elim (Bool-cases (ltb 4088 n)) [
      | inl much ↦ rw (plain, limit, much) (inl (ground arith, refl))
      | inr fine ↦
          rw (plain, limit, fine)
            (inr (
              ground arith,
              elim (Bool-cases (is_nil s.heap.free)) [
                | inr some_left ↦ rw some_left (
                    rw plain
                      (elim (search-Granted k n (normalize n) s s at v pages.0 refl even
                        (small fine) pos lo hi) [
                          | inl g ↦ inl g
                          | inr (stuck, full) ↦
                              inr (stuck, λ i j hi hj ei ej. absurd (full i hi ei))
                        ]))
                | inl none_left ↦ elim (with_page-IsFresh k s at v pages.0) [
                  | inl (no_addr, full) ↦
                      rw (none_left, no_addr) (inr (refl, λ i j hi hj ei ej. absurd (full i hi ei)))
                  | inr w ↦
                      let p = (with_page k s).0 in
                      let there : (p == 0) ≡ false =
                        let pos = w.new.page_lem.not_null in ground arith in
                      let t : Memory = record (with_page k s).1 {
                        heap = heap (page_block p ∷ []) s.heap.used;
                      } in
                      let more : (alloc_page t.map).0 ≢ 0 = rw (with_page-map k s) pages.1 in
                      rw (none_left, there)
                        (rw plain
                          (elim (search-Granted k n (normalize n) s t at (first-IsMemory k s v w)
                            more refl even (small fine) pos lo hi) [
                              | inl g ↦ inl g
                              | inr (stuck, full) ↦
                                  inr (stuck, IsScarce-full k s p (with_page k s).1 w full)
                            ]))
                ]
              ],
            ))
    ]
