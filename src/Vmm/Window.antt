-- ===== src/Vmm/Window.antt =====
-- The window that `arch_vmm_map_core` opens onto physical memory.
use abel_os.Base.{
  ℕ, zero, suc, ◌+◌, ◌-◌, ◌*◌, ◌/◌, ◌%◌, ◌^◌, ◌≤◌, ◌<◌, ◌≡◌, ◌≢◌, refl, ◌∙◌, bit_and, bit_or, true,
  ◌==◌, arith, inl, inr, Bool-cases, u32,
}
use abel_os.Vmm.{
  n_entries, io_page_idx, flag_kernel, is_present, addr_to_pdi, addr_to_pti, AddrSpace, read_pte,
  write_pte, find_run, map_run, map_core, virt_to_phys,
}
use abel_os.Vmm.Translate.{p_dir-write_pte, is_present-flags}
use abel_os.Vmm.Core.{map_core-maps}
use abel_os.Vmm.Address.{addr_to_pdi_lem, addr_to_pti_lem, page_of_entry}

p_dir-map_run :
    (base i left j : ℕ) (a : AddrSpace) (k : ℕ) → (map_run base i left j a).p_dir k ≡ a.p_dir k
unfolding map_run
p_dir-map_run base i zero j a k = refl
p_dir-map_run base i (suc left) j a k =
    let e = bit_or (u32 (base + j * 4096)) flag_kernel in
    p_dir-map_run base i left (j + 1) (write_pte io_page_idx (i + j) e a) k
    ∙ p_dir-write_pte io_page_idx (i + j) e a k (λ h. absurd (omega arith))

p_dir-map_core :
    (base len : ℕ) (a : AddrSpace) (k : ℕ) → (map_core base len a).1.p_dir k ≡ a.p_dir k
unfolding map_core
p_dir-map_core base len a k =
    let n = u32 (len + 4096) / 4096 in
    elim (Bool-cases ((find_run a n n_entries 0 0).1 == n)) [
      | inl e ↦ rw e (p_dir-map_run base ((find_run a n n_entries 0 0).0 - n) n 0 a k)
      | inr e ↦ rw e refl
    ]

-- The translation of an address whose tables are at hand.
virt_to_phys-present :
    (v e : ℕ) (a : AddrSpace)
    → is_present (a.p_dir (addr_to_pdi v)) ≡ true
    → read_pte a (addr_to_pdi v) (addr_to_pti v) ≡ bit_or e flag_kernel
    → virt_to_phys v a ≡ bit_and (bit_or e flag_kernel) 0xffff_f000
unfolding virt_to_phys
virt_to_phys-present v e a dir entry = rw (entry, dir, is_present-flags e) refl

-- With a page table for devices and a range below 4 GiB, an address that `arch_vmm_map_core` answers
-- opens onto the physical page of the base: the byte at an offset of no more than the length is the byte
-- at that offset from the start of the page, so that of a base inside its page the low bits are lost.
pub virt_to_phys-map_core :
    (base len o : ℕ) (a : AddrSpace)
    → is_present (a.p_dir io_page_idx) ≡ true
    → base + len + 4096 < 2 ^ 32
    → o ≤ len
    → (map_core base len a).0 ≢ 0
    → let v = (map_core base len a).0 in
      virt_to_phys (v + o) (map_core base len a).1 + (v + o) % 4096 ≡ base - base % 4096 + o
virt_to_phys-map_core base len o a table fits inside mapped = elim (map_core-maps base len a) [
  | inl (none_found, same, full) ↦ absurd (mapped none_found)
  | inr (i, le, addr, unused, entries) ↦
      let v = (map_core base len a).0 in
      let pdi : addr_to_pdi (v + o) ≡ io_page_idx = addr_to_pdi_lem (v + o) ∙ omega arith in
      let pti : addr_to_pti (v + o) ≡ i + o / 4096 = addr_to_pti_lem (v + o) ∙ omega arith in
      let p = u32 (base + (i + o / 4096 - i) * 4096) in
      let value : p ≡ base + o / 4096 * 4096 = omega arith in
      let entry = entries io_page_idx (i + o / 4096) in
      let page = page_of_entry p (omega arith) in
      let dir = p_dir-map_core base len a io_page_idx in
      let found : read_pte (map_core base len a).1 io_page_idx (i + o / 4096)
          ≡ bit_or p flag_kernel =
        ground arith in
      let there =
        virt_to_phys-present (v + o) p (map_core base len a).1 (rw (pdi, dir) table)
          (rw (pdi, pti) found) in
      rw (there, page) omega arith
]
