-- ===== src/Vmm/Search.antt =====
-- The searches for unused entries, and what the wrappers do with an address that is not mapped.
use abel_os.Base.{
  ℕ, zero, suc, ◌+◌, ◌*◌, ◌≤◌, ◌<◌, ◌^◌, ◌≡◌, ◌≢◌, refl, false, ◌==◌, arith, ◌⊎◌, inl, inr,
  Bool-cases, ==_iff,
}
use abel_os.Pmm.{PhysicalMemoryMap, free_page}
use abel_os.PmmInit.{KernelImage}
use abel_os.Vmm.{
  n_entries, kernel_page_idx, is_present, addr_to_pdi, AddrSpace, read_pte, first_unused,
  find_unused_page_kernel, dealloc_page, virt_to_phys, vmm_free_page,
}

-- Where the loop stops: within bounds, behind used entries only, and in front of a null one if it is
-- not the end.
abbrev pub StopsAt : AddrSpace → ℕ → ℕ → ℕ → Type 0
StopsAt a i end r =
    (i ≤ r)
    × (r ≤ end)
    × ((k : ℕ) → i ≤ k → k < r → read_pte a kernel_page_idx k ≢ 0)
    × ((r < end) → read_pte a kernel_page_idx r ≡ 0)

first_unused-StopsAt :
    (a : AddrSpace) (left i end : ℕ) → i + left ≡ end → StopsAt a i end (first_unused a left i)
unfolding first_unused
first_unused-StopsAt a zero i end h =
    (omega arith, omega arith, (λ k lo hi. absurd (omega arith)), (λ lt. absurd (omega arith)))
first_unused-StopsAt a (suc left) i end h = elim (Bool-cases (read_pte a kernel_page_idx i == 0)) [
  | inl null ↦
      rw null
        (omega arith, omega arith, (λ k lo hi. absurd (omega arith)), (λ lt. (==_iff _ _).0 null))
  | inr used ↦
      let (lo, hi, all, stop) = first_unused-StopsAt a left (i + 1) end (omega arith) in
      rw used (
        omega arith,
        hi,
        (λ k kl kh. elim (Bool-cases (i == k)) [
          | inl same ↦ let e = (==_iff _ _).0 same in rw (← e) (ground arith)
          | inr other ↦ let ne : i ≢ k = ground arith in all k (omega arith) kh
        ]),
        stop,
      )
]

-- For a kernel whose table ends below 4 GiB, `arch_vmm_find_unused_page_kernel` answers the address
-- of the first null entry of the kernel's table, and 0 exactly if the table has none.
pub find_unused_page_kernel-first :
    (k : KernelImage) (a : AddrSpace)
    → 0 < k.virt_start
    → k.virt_start + n_entries * 4096 ≤ 2 ^ 32
    → let v = find_unused_page_kernel k a in
      ((v ≡ 0) × ((j : ℕ) → j < n_entries → read_pte a kernel_page_idx j ≢ 0))
      ⊎ ((i : ℕ) × (i < n_entries)
          × (v ≡ k.virt_start + i * 4096)
          × (v ≢ 0)
          × (read_pte a kernel_page_idx i ≡ 0)
          × ((j : ℕ) → j < i → read_pte a kernel_page_idx j ≢ 0))
unfolding find_unused_page_kernel
find_unused_page_kernel-first k a pos fits =
    let (lo, hi, all, stop) = first_unused-StopsAt a n_entries 0 n_entries refl in
    let i = first_unused a n_entries 0 in
    elim (Bool-cases (i == n_entries)) [
      | inl at_end ↦
          let e = (==_iff _ _).0 at_end in
          rw at_end (inl (refl, (λ j lt. all j (omega arith) (omega arith))))
      | inr inside ↦
          let lt : i < n_entries = ground arith in
          rw inside
            (inr (i, lt, omega arith, omega arith, stop lt, (λ j less. all j (omega arith) less)))
    ]

-- Freeing an address that is not mapped frees the physical page 0.
pub vmm_free_page-unmapped :
    (v : ℕ) (m : PhysicalMemoryMap) (a : AddrSpace)
    → is_present (a.p_dir (addr_to_pdi v)) ≡ false
    → vmm_free_page v m a ≡ (free_page 0 m, a)
unfolding vmm_free_page virt_to_phys dealloc_page
vmm_free_page-unmapped v m a h = rw h
