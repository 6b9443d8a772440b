-- ===== src/Memory/Alloc.antt =====
-- `kalloc` over the pages that it asks for.
use abel_os.Base.{
  ℕ, ◌*◌, ◌+◌, ◌-◌, ◌/◌, ◌%◌, ◌≤◌, ◌<◌, ◌≡◌, ◌≢◌, refl, sym, ap, ◌∙◌, ◌∷◌, ◌++◌, arith, ◌⊎◌, inl,
  inr, Bool-cases, false, ◌==◌, Option, none, some, if◌then◌else◌,
}
use mathlib.Core.Path.{subst}
use abel_os.Pmm.{alloc_page}
use abel_os.PmmInit.{KernelImage}
use abel_os.Vmm.{n_entries, kernel_page_idx, AddrSpace, read_pte, vmm_alloc_page}
use abel_os.Vmm.Frames.{IsEntry, AreOwned, window}
use abel_os.Vmm.Lease.{vmm_alloc_page-AreOwned}
use abel_os.Kalloc.{
  Block, Blocks, page_block, find_fit, place, Allocation, null, fault, overlap, block, carve,
}
use abel_os.Kalloc.Blocks.{IsHeap, IsNewPage}
use abel_os.Kalloc.Place.{place-append, IsHeap-place, Fits, find_fit-Fits}
use abel_os.Kalloc.Carve.{heap, Grants, AreBlocks-middle, carve-Grants}
use abel_os.Kalloc.Fresh.{IsMapped, AllMapped, vmm_alloc_page-IsNewPage}
use abel_os.Kalloc.Mapped.{AllMapped-insert, AllMapped-entries, LeavesMapped, carve-LeavesMapped}
use abel_os.Memory.{Memory, with_page, outcome, search_pages}

-- The memory between calls: each page of the kernel has a physical page of its own, and the blocks of
-- the heap lie apart from one another in such pages.
pub record IsMemory (k : KernelImage) (s : Memory) : Type 0 where
  pub owned : AreOwned s.map s.space
  pub heap_lem : IsHeap s.heap
  pub free_mapped : AllMapped k s.space s.heap.free
  pub used_mapped : AllMapped k s.space s.heap.used

-- What an allocation of `n` bytes gives: the memory between calls, with one more block in use, of at
-- least the size, behind whose header the pointer stands.
abbrev pub Granted : KernelImage → ℕ → Memory → Option (ℕ × Memory) → Type 0
Granted k n s none = ⊥
Granted k n s (some (p, t)) =
    IsMemory k t × ((b : Block) × (t.heap.used ≡ b ∷ s.heap.used) × (p ≡ b.addr + 8) × (n ≤ b.size))

-- Every entry of the kernel's table is in use.
abbrev pub IsFull : AddrSpace → Type 0
IsFull a = (j : ℕ) → j < n_entries → IsEntry a j

outcome-Granted :
    (k : KernelImage) (n : ℕ) (s0 s : Memory) (r : Allocation)
    → AreOwned s.map s.space
    → Grants n s0.heap r
    → LeavesMapped k s.space r
    → Granted k n s0 (outcome s r)
outcome-Granted k n s0 s (block p h) o (v, (b, used, ptr, big, small)) m =
    (record { owned = o; heap_lem = v; free_mapped = m.0; used_mapped = m.1 }, (b, used, ptr, big))
outcome-Granted k n s0 s null o g m = absurd g
outcome-Granted k n s0 s fault o g m = absurd g
outcome-Granted k n s0 s overlap o g m = absurd g

-- A page that the virtual memory gives: the one of the first null entry.
pub record IsFresh (k : KernelImage) (s : Memory) (p : ℕ) (t : Memory) : Type 0 where
  pub new : IsNewPage p s.heap
  pub owned : AreOwned t.map t.space
  pub mapped : IsMapped k t.space (page_block p)
  pub free_mapped : AllMapped k t.space s.heap.free
  pub used_mapped : AllMapped k t.space s.heap.used
  pub others :
      (i : ℕ) × (p ≡ window + i * 4096)
      × (read_pte s.space kernel_page_idx i ≡ 0)
      × IsEntry t.space i
      × ((j : ℕ) → j < i → IsEntry s.space j)
      × ((j : ℕ) → j ≢ i → read_pte t.space kernel_page_idx j ≡ read_pte s.space kernel_page_idx j)

pub with_page-IsFresh :
    (k : KernelImage) (s : Memory)
    → k.virt_start ≡ window
    → IsMemory k s
    → (alloc_page s.map).0 ≢ 0
    → let r = with_page k s in ((r.0 ≡ 0) × IsFull s.space) ⊎ IsFresh k s r.0 r.1
with_page-IsFresh k s at v some_page =
    let (owned, given) = vmm_alloc_page-AreOwned k s.map s.space at v.owned some_page in
    elim given [
      | inl (zero_addr, full, same) ↦ inl (zero_addr, full)
      | inr (i, lt, addr, unused, before, entry, page, was_free, others) ↦
          elim (vmm_alloc_page-IsNewPage k s.map s.space s.heap (omega (arith, at))
            (omega (arith, at)) (omega (arith, at)) v.heap_lem v.free_mapped v.used_mapped) [
              | inl zero_addr ↦ absurd (omega arith)
              | inr new ↦
                  let stay : (j : ℕ)
                      → IsEntry s.space j
                      → IsEntry (vmm_alloc_page k s.map s.space).2 j =
                    λ j used gone. elim (Bool-cases (j == i)) [
                      | inl same ↦
                          let e : j ≡ i = ground arith in
                          used (ap (read_pte s.space kernel_page_idx) e ∙ unused)
                      | inr other ↦ let ne : j ≢ i = ground arith in used (sym (others j ne) ∙ gone)
                    ] in
                  let index : ((vmm_alloc_page k s.map s.space).0 - k.virt_start) / 4096 ≡ i =
                    omega arith in
                  inr (record {
                    new = new;
                    owned = owned;
                    mapped = record {
                      above = omega arith;
                      below = omega arith;
                      entry = rw index entry;
                    };
                    free_mapped = AllMapped-entries k s.space _ s.heap.free stay v.free_mapped;
                    used_mapped = AllMapped-entries k s.space _ s.heap.used stay v.used_mapped;
                    others = (i, addr, unused, entry, before, others);
                  })
            ]
    ]

-- The search, where a physical page is left for it.
pub search-Granted :
    (k : KernelImage) (asked n : ℕ) (s0 s : Memory)
    → k.virt_start ≡ window
    → IsMemory k s
    → (alloc_page s.map).0 ≢ 0
    → s0.heap.used ≡ s.heap.used
    → n % 2 ≡ 0
    → n + 8 ≤ 4096
    → 0 < n
    → asked ≤ n
    → n ≤ asked + 16
    → Granted k asked s0 (search_pages k n (n + 8) s)
      ⊎ ((search_pages k n (n + 8) s ≡ none) × IsFull s.space)
unfolding search_pages
search-Granted k asked n s0 s at v some_page same even small pos lo hi =
    take (find_fit (n + 8) s.heap.free) (find_fit-Fits (n + 8) s.heap.free)
  where
    take :
        (r : Option (Blocks × Block × Blocks))
        → Fits (n + 8) s.heap.free r
        → let found : Option (ℕ × Memory) = elim r [
          | some (before, b, after) ↦ outcome s (carve n (n + 8) before b after s.heap.used)
          | none ↦
              if (with_page k s).0 == 0
              then none
              else let (before, after) = place (with_page k s).0 s.heap.free in
                outcome
                  (with_page k s).1
                  (carve n (n + 8) before (page_block (with_page k s).0) after s.heap.used)
        ] in
          Granted k asked s0 found ⊎ ((found ≡ none) × IsFull s.space)
    take (some (before, b, after)) f =
        let h : IsHeap (heap (before ++ (b ∷ after)) s.heap.used) =
          subst (λ l. IsHeap (heap l s.heap.used)) f.0 v.heap_lem in
        inl (
          outcome-Granted k asked s0 s _ v.owned
            (carve-Grants asked n before b after s.heap.used s0.heap h same even
              (omega (arith, f.1)) small pos lo hi)
            (carve-LeavesMapped k s.space n before b after s.heap.used at
              (AreBlocks-middle before b after h.free_blocks) small
              (subst (AllMapped k s.space) f.0 v.free_mapped) v.used_mapped))
    take none f = elim (with_page-IsFresh k s at v some_page) [
      | inl (no_addr, full) ↦ rw no_addr (inr (refl, full))
      | inr w ↦
          let p = (with_page k s).0 in
          let (before, after) = place p s.heap.free in
          let there : (p == 0) ≡ false = let pos = w.new.page_lem.not_null in ground arith in
          let h =
            IsHeap-place (page_block p) s.heap.free s.heap.used w.new.page_lem w.new.not_free
              w.new.not_used v.heap_lem in
          rw there (
            inl (
              outcome-Granted k asked s0 (with_page k s).1 _ w.owned
                (carve-Grants asked n before (page_block p) after s.heap.used s0.heap h same even
                  (omega arith) small pos lo hi)
                (carve-LeavesMapped k (with_page k s).1.space n before (page_block p) after
                  s.heap.used at w.new.page_lem small
                  (AllMapped-insert k (with_page k s).1.space before (page_block p) after w.mapped (
                    subst (AllMapped k (with_page k s).1.space) (sym (place-append p s.heap.free))
                      w.free_mapped))
                  w.used_mapped)))
    ]
