-- ===== src/Vmm/Frames.antt =====
-- The physical pages behind the kernel's table: os/src/kernel/vmm/vmm.c over the allocator of
-- physical pages.
use abel_os.Base.{ℕ, ◌+◌, ◌*◌, ◌/◌, ◌<◌, ◌≡◌, ◌≢◌, refl, ◌∙◌, bit_and, bit_or, true, false, arith}
use abel_os.Pmm.{PhysicalMemoryMap}
use abel_os.Pmm.Pages.{is_used, IsMap}
use abel_os.Vmm.{
  n_entries, kernel_page_idx, flag_kernel, is_present, addr_to_pdi, addr_to_pti, AddrSpace,
  read_pte, write_pte, dealloc_page, virt_to_phys, vmm_map,
}
use abel_os.Vmm.Address.{addr_to_pdi_lem, addr_to_pti_lem}

-- The number of the physical page behind an entry of the kernel's table.
abbrev pub frame : AddrSpace → ℕ → ℕ
frame a j = bit_and (read_pte a kernel_page_idx j) 0xffff_f000 / 4096

-- Whether entry `j` of the kernel's table is in use.
abbrev pub IsEntry : AddrSpace → ℕ → Type 0
IsEntry a j = read_pte a kernel_page_idx j ≢ 0

-- Each page of the kernel's table has a physical page of its own, which the allocator counts
-- as used; the directory has no entry for the lowest addresses.
pub record AreOwned (m : PhysicalMemoryMap) (a : AddrSpace) : Type 0 where
  pub map : IsMap m
  pub table : is_present (a.p_dir kernel_page_idx) ≡ true
  pub low_unmapped : is_present (a.p_dir 0) ≡ false
  pub present : (j : ℕ) → IsEntry a j → is_present (read_pte a kernel_page_idx j) ≡ true
  pub covered : (j : ℕ) → IsEntry a j → frame a j < 8 * m.bitmap_len
  pub used : (j : ℕ) → IsEntry a j → is_used m.bytes (frame a j) ≡ true
  pub apart : (i j : ℕ) → IsEntry a i → IsEntry a j → i ≢ j → frame a i ≢ frame a j

-- The kernel's pages as the linker places them: those of its table.
abbrev pub window : ℕ
window = 0xC040_0000

pub pdi_of : (i : ℕ) → i < n_entries → addr_to_pdi (window + i * 4096) ≡ kernel_page_idx
pdi_of i lt = addr_to_pdi_lem (window + i * 4096) ∙ omega arith

pub pti_of : (i : ℕ) → i < n_entries → addr_to_pti (window + i * 4096) ≡ i
pti_of i lt = addr_to_pti_lem (window + i * 4096) ∙ omega arith

-- A new entry, and a cleared one.
pub vmm_map-entry :
    (i p : ℕ) (a : AddrSpace)
    → i < n_entries
    → is_present (a.p_dir kernel_page_idx) ≡ true
    → read_pte a kernel_page_idx i ≡ 0
    → vmm_map (window + i * 4096) p a ≡ write_pte kernel_page_idx i (bit_or p flag_kernel) a
unfolding vmm_map
vmm_map-entry i p a lt table unused =
    rw (pdi_of i lt, pti_of i lt, vmm_map) (rw (table, unused) refl)

pub dealloc_page-entry :
    (i : ℕ) (a : AddrSpace)
    → i < n_entries
    → is_present (a.p_dir kernel_page_idx) ≡ true
    → dealloc_page (window + i * 4096) a ≡ write_pte kernel_page_idx i 0 a
unfolding dealloc_page
dealloc_page-entry i a lt table = rw (pdi_of i lt, pti_of i lt, dealloc_page) (rw table refl)

pub virt_to_phys-entry :
    (i : ℕ) (m : PhysicalMemoryMap) (a : AddrSpace)
    → i < n_entries
    → AreOwned m a
    → IsEntry a i
    → virt_to_phys (window + i * 4096) a ≡ bit_and (read_pte a kernel_page_idx i) 0xffff_f000
unfolding virt_to_phys
virt_to_phys-entry i m a lt v entry =
    rw (pdi_of i lt, pti_of i lt, virt_to_phys) (rw (v.table, v.present i entry) refl)
