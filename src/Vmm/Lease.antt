-- ===== src/Vmm/Lease.antt =====
-- `vmm_alloc_page` and `vmm_free_page` of os/src/kernel/vmm/vmm.c on pages with owners.
use abel_os.Base.{
  ◌&&◌, ℕ, ◌+◌, ◌*◌, ◌^◌, ◌<◌, ◌≡◌, ◌≢◌, refl, sym, ap, ◌==◌, true, false, arith, ◌⊎◌, inl, inr,
  Bool-cases, if◌then◌else◌,
}
use abel_os.Pmm.{PhysicalMemoryMap, alloc_page, free_page, free_page_n}
use abel_os.Pmm.Pages.{is_used, IsMap}
use abel_os.Pmm.Alloc.{Allocated, out_of_memory, lowest, alloc_page-Allocated, alloc_page-IsMap}
use abel_os.Pmm.Free.{
  free_page-get_page, bitmap_len-free_page_n, free_page_n-releases, free_page_n-IsMap,
}
use abel_os.PmmInit.{KernelImage}
use abel_os.Vmm.{
  n_entries, kernel_page_idx, is_present, AddrSpace, read_pte, write_pte, find_unused_page_kernel,
  virt_to_phys, vmm_map, vmm_alloc_page, vmm_free_page,
}
use abel_os.Vmm.Translate.{vmm_map-refused}
use abel_os.Vmm.Address.{addr_to_pdi_lem}
use abel_os.Vmm.Search.{find_unused_page_kernel-first}
use abel_os.Vmm.Frames.{
  frame, IsEntry, AreOwned, window, vmm_map-entry, dealloc_page-entry, virt_to_phys-entry,
}
use abel_os.Vmm.Owned.{
  added, added-here, there-write_pte, added-AreOwned, cleared-AreOwned, entry-write_pte,
  more-AreOwned,
}

-- What `vmm_alloc_page` has done when `p` is the physical page, `v` its result and `a'` what it leaves:
-- no entry of the kernel's table was null, and the tables are the same; or the address is that of the
-- first entry that was null, which now stands for a physical page that was free, and all others are as
-- before.
abbrev pub IsGiven : PhysicalMemoryMap → AddrSpace → ℕ → ℕ → AddrSpace → Type 0
IsGiven m a p v a' =
    ((v ≡ 0) × ((j : ℕ) → j < n_entries → IsEntry a j) × (a' ≡ a))
    ⊎ ((i : ℕ) × (i < n_entries)
        × (v ≡ window + i * 4096)
        × (read_pte a kernel_page_idx i ≡ 0)
        × ((j : ℕ) → j < i → IsEntry a j)
        × IsEntry a' i
        × (p ≡ frame a' i * 4096)
        × (is_used m.bytes (frame a' i) ≡ false)
        × ((j : ℕ) → j ≢ i → read_pte a' kernel_page_idx j ≡ read_pte a kernel_page_idx j))

present_ne : (e : ℕ) → is_present e ≡ true → e ≢ 0
present_ne e h null = let h' = rw null at h in cc

Given-Allocated :
    (k : KernelImage) (m : PhysicalMemoryMap) (a : AddrSpace) {addr : ℕ} {m' : PhysicalMemoryMap}
    → k.virt_start ≡ window
    → AreOwned m a
    → IsMap m'
    → addr ≢ 0
    → Allocated m addr m'
    → let v = find_unused_page_kernel k a in
      AreOwned m' (vmm_map v addr a) × IsGiven m a addr v (vmm_map v addr a)
Given-Allocated k m a at v v' some_page (out_of_memory full none_left same) =
    absurd (some_page none_left)
Given-Allocated k m a {addr} {m'} at v v' some_page
      (lowest page covered free lower value rest marked) =
    let same_len : m'.bitmap_len ≡ m.bitmap_len =
      ap (λ (x : PhysicalMemoryMap). x.bitmap_len) rest in
    elim (find_unused_page_kernel-first k a (omega (arith, at)) (omega (arith, at))) [
      | inl (null, full) ↦
          let unmapped : vmm_map (find_unused_page_kernel k a) addr a ≡ a =
            rw null (vmm_map-refused 0 addr a (inl (rw (addr_to_pdi_lem 0) v.low_unmapped))) in
          rw unmapped (
            more-AreOwned m m' a v v' same_len (λ p u. ground (arith, marked p, u)),
            inl (null, full, refl),
          )
      | inr (i, lt, place, ne, unused, before) ↦
          let value' : addr ≡ page * 4096 = omega arith in
          let small : page * 4096 < 2 ^ 32 = omega (arith, v.map.fits) in
          let mapped : vmm_map (find_unused_page_kernel k a) addr a ≡ added a i page =
            rw (place, at, value') (vmm_map-entry i (page * 4096) a lt v.table unused) in
          rw mapped (
            added-AreOwned m m' a i v v' same_len page covered free marked,
            inr (
              i,
              lt,
              rw (place, at) refl,
              unused,
              before,
              present_ne _ (added-here a i page small).1,
              rw (added-here a i page small).0 value',
              rw (added-here a i page small).0 free,
              there-write_pte i _ a,
            ),
          )
    ]

-- For a kernel whose pages start at 0xC0400000, tables in which each page of the kernel has a physical
-- page of its own, and some physical page to give: `vmm_alloc_page` keeps that, and either every entry
-- of the kernel's table was in use and the tables are the same, or the answer is the address of the
-- first entry that was null, which now stands for a physical page that was free, and no other entry of
-- that table changed.
pub vmm_alloc_page-AreOwned :
    (k : KernelImage) (m : PhysicalMemoryMap) (a : AddrSpace)
    → k.virt_start ≡ window
    → AreOwned m a
    → (alloc_page m).0 ≢ 0
    → let r = vmm_alloc_page k m a in AreOwned r.1 r.2 × IsGiven m a (alloc_page m).0 r.0 r.2
unfolding vmm_alloc_page
vmm_alloc_page-AreOwned k m a at v some_page =
    Given-Allocated k m a at v (alloc_page-IsMap m v.map) some_page (alloc_page-Allocated m v.map)

-- The physical page behind an entry, as `pmm_free_page` finds it.
pub get_page-frame :
    (i : ℕ) (m : PhysicalMemoryMap) (a : AddrSpace)
    → i < n_entries
    → AreOwned m a
    → IsEntry a i
    → free_page (virt_to_phys (window + i * 4096) a) m ≡ free_page_n (frame a i) m
get_page-frame i m a lt v entry = rw (virt_to_phys-entry i m a lt v entry) (free_page-get_page _ m)

-- Freeing the page of an entry in use keeps every page of the kernel with a physical page of its own,
-- clears exactly that entry, and releases exactly the physical page behind it.
pub vmm_free_page-AreOwned :
    (m : PhysicalMemoryMap) (a : AddrSpace) (i : ℕ)
    → i < n_entries
    → AreOwned m a
    → IsEntry a i
    → let r = vmm_free_page (window + i * 4096) m a in
      AreOwned r.0 r.1
      × ((j : ℕ)
          → read_pte r.1 kernel_page_idx j ≡ (if j == i then 0 else read_pte a kernel_page_idx j))
      × ((p : ℕ) → is_used r.0.bytes p ≡ (if p == frame a i then false else is_used m.bytes p))
unfolding vmm_free_page
vmm_free_page-AreOwned m a i lt v entry =
    let covered = v.covered i entry in
    let freed = free_page_n-releases m v.map (frame a i) covered in
    let v' = free_page_n-IsMap m v.map (frame a i) covered in
    rw (get_page-frame i m a lt v entry, dealloc_page-entry i a lt v.table, vmm_free_page)
      (
        cleared-AreOwned m (free_page_n (frame a i) m) a i v v' (bitmap_len-free_page_n _ m) entry
            freed,
        λ j. ground (arith, entry-write_pte i 0 a j),
        freed,
      )

-- Writing null to an entry that was null before its last write.
pub undo-write_pte :
    (i e : ℕ) (a : AddrSpace)
    → read_pte a kernel_page_idx i ≡ 0
    → write_pte kernel_page_idx i 0 (write_pte kernel_page_idx i e a) ≡ a
unfolding write_pte read_pte
undo-write_pte i e a null = λ x. record a { p_tables = λ k l. same k l x }
  where
    same :
        (k l : ℕ)
        → (write_pte kernel_page_idx i 0 (write_pte kernel_page_idx i e a)).p_tables k l
          ≡ a.p_tables k l
    same k l = elim (Bool-cases (k == kernel_page_idx && (l == i))) [
      | inr other ↦ rw other
      | inl here ↦
          let row : k ≡ kernel_page_idx = ground arith in
          let column : l ≡ i = ground arith in rw here (rw (row, column) (sym null))
    ]
