-- ===== src/Vmm/Separate.antt =====
-- Allocations and frees of the kernel's pages in any order: os/src/kernel/vmm/vmm.c.
use abel_os.Base.{ℕ, ◌+◌, ◌*◌, ◌/◌, ◌<◌, ◌≡◌, ◌≢◌, sym, ap, ◌∙◌, bit_or, true, arith, inl, inr}
use abel_os.Pmm.{PhysicalMemoryMap, alloc_page, free_page, free_page_n}
use abel_os.Pmm.Pages.{is_used}
use abel_os.Pmm.Free.{free_page-alloc_page, free_page-get_page}
use abel_os.PmmInit.{KernelImage}
use abel_os.Vmm.{
  n_entries, kernel_page_idx, flag_kernel, AddrSpace, read_pte, write_pte, dealloc_page,
  virt_to_phys, vmm_alloc_page, vmm_free_page,
}
use abel_os.Vmm.Frames.{
  frame, IsEntry, AreOwned, window, vmm_map-entry, dealloc_page-entry, virt_to_phys-entry,
}
use abel_os.Vmm.Lease.{
  vmm_alloc_page-AreOwned, vmm_free_page-AreOwned, get_page-frame, undo-write_pte,
}

vmm_alloc_page-write_pte :
    (k : KernelImage) (m : PhysicalMemoryMap) (a : AddrSpace) (i : ℕ)
    → i < n_entries
    → AreOwned m a
    → (vmm_alloc_page k m a).0 ≡ window + i * 4096
    → read_pte a kernel_page_idx i ≡ 0
    → (vmm_alloc_page k m a).2 ≡ write_pte kernel_page_idx i (bit_or (alloc_page m).0 flag_kernel) a
unfolding vmm_alloc_page
vmm_alloc_page-write_pte k m a i lt v place unused =
    rw place (vmm_map-entry i (alloc_page m).0 a lt v.table unused)

free_page-frame :
    (i p : ℕ) (m : PhysicalMemoryMap) (a : AddrSpace)
    → i < n_entries
    → AreOwned m a
    → IsEntry a i
    → p ≡ frame a i * 4096
    → free_page (virt_to_phys (window + i * 4096) a) m ≡ free_page p m
free_page-frame i p m a lt v entry e =
    let number : p / 4096 ≡ frame a i = omega arith in
    get_page-frame i m a lt v entry
    ∙ sym (free_page-get_page p m ∙ ap (λ n. free_page_n n m) number)

-- For a kernel whose pages start at 0xC0400000, tables in which each page of the kernel has a physical
-- page of its own, a physical page to give and an entry for it: freeing the page that `vmm_alloc_page`
-- answered gives the old physical pages and the old tables back.
pub vmm_free_page-vmm_alloc_page :
    (k : KernelImage) (m : PhysicalMemoryMap) (a : AddrSpace)
    → k.virt_start ≡ window
    → AreOwned m a
    → (alloc_page m).0 ≢ 0
    → (vmm_alloc_page k m a).0 ≢ 0
    → let r = vmm_alloc_page k m a in vmm_free_page r.0 r.1 r.2 ≡ (m, a)
unfolding vmm_free_page vmm_alloc_page
vmm_free_page-vmm_alloc_page k m a at v some_page found =
    let r = vmm_alloc_page k m a in
    let (v', given) = vmm_alloc_page-AreOwned k m a at v some_page in
    elim given [
      | inl (null, full, same) ↦ absurd (found null)
      | inr (i, lt, place, unused, before, entry, page, was_free, others) ↦
          let written = vmm_alloc_page-write_pte k m a i lt v place unused in
          let tables : dealloc_page (window + i * 4096) r.2 ≡ a =
            dealloc_page-entry i r.2 lt v'.table
            ∙ ap (write_pte kernel_page_idx i 0) written
            ∙ undo-write_pte i _ a unused in
          let pages : free_page (virt_to_phys (window + i * 4096) r.2) r.1 ≡ m =
            free_page-frame i _ r.1 r.2 lt v' entry page
            ∙ free_page-alloc_page m (frame r.2 i) v.map was_free in
          ap (λ w. vmm_free_page w r.1 r.2) place ∙ (λ x. (pages x, tables x))
    ]

-- The memory as the kernel's pages see it.
pub record Pages : Type 0 where
  pub map : PhysicalMemoryMap
  pub space : AddrSpace

abbrev pub allocated : KernelImage → Pages → Pages
allocated k p = let r = vmm_alloc_page k p.map p.space in record { map = r.1; space = r.2 }

abbrev pub freed : ℕ → Pages → Pages
freed i p =
    let r = vmm_free_page (window + i * 4096) p.map p.space in record { map = r.0; space = r.1 }

-- One call: of `vmm_alloc_page` with a physical page to give, or of `vmm_free_page` on a page of an
-- entry in use.
pub data Call (k : KernelImage) (p : Pages) : Pages → Type 0 where
  allocs : (alloc_page p.map).0 ≢ 0 → Call k p (allocated k p)
  frees : (i : ℕ) → i < n_entries → IsEntry p.space i → Call k p (freed i p)

pub data Calls (k : KernelImage) (p : Pages) : Pages → Type 0 where
  here : Calls k p p
  later : {q r : Pages} → Calls k p q → Call k q r → Calls k p r

pub Calls-AreOwned :
    {k : KernelImage} {p q : Pages}
    → k.virt_start ≡ window
    → AreOwned p.map p.space
    → Calls k p q
    → AreOwned q.map q.space
Calls-AreOwned at v here = v
Calls-AreOwned {k} at v (later {q} cs (allocs some_page)) =
    (vmm_alloc_page-AreOwned k q.map q.space at (Calls-AreOwned at v cs) some_page).0
Calls-AreOwned at v (later {q} cs (frees i lt entry)) =
    (vmm_free_page-AreOwned q.map q.space i lt (Calls-AreOwned at v cs) entry).0

-- For a kernel whose pages start at 0xC0400000 and tables in which each page of the kernel has a
-- physical page of its own: however calls of `vmm_alloc_page` with a physical page to give and calls
-- of `vmm_free_page` on pages in use follow one another, two pages in use translate to different
-- physical pages, and the allocator counts both as used.
pub Calls-separate :
    {k : KernelImage} {p q : Pages}
    → k.virt_start ≡ window
    → AreOwned p.map p.space
    → Calls k p q
    → (i j : ℕ) → i < n_entries
    → j < n_entries
    → IsEntry q.space i
    → IsEntry q.space j
    → i ≢ j
    → (virt_to_phys (window + i * 4096) q.space ≢ virt_to_phys (window + j * 4096) q.space)
      × (is_used q.map.bytes (virt_to_phys (window + i * 4096) q.space / 4096) ≡ true)
      × (is_used q.map.bytes (virt_to_phys (window + j * 4096) q.space / 4096) ≡ true)
Calls-separate {k} {p} {q} at v cs i j lt lt' entry entry' differ =
    let w = Calls-AreOwned at v cs in
    let e = virt_to_phys-entry i q.map q.space lt w entry in
    let e' = virt_to_phys-entry j q.map q.space lt' w entry' in
    (
      (λ h. w.apart i j entry entry' differ (ap (λ x. x / 4096) (sym e ∙ h ∙ e'))),
      rw e (w.used i entry),
      rw e' (w.used j entry'),
    )
