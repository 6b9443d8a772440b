-- ===== src/Vmm/PageTests.antt =====
-- Runs of the allocation of pages in a small memory.
use abel_os.Base.{◌==◌, ◌&&◌, if◌then◌else◌, ◌+◌, ◌/◌, ◌≡◌, ◌≢◌, refl, true, arith, ◌%◌, ◌-◌}
use abel_os.Pmm.{alloc_page, find_byte, find_first_zero, mark_used}
use abel_os.Pmm.Pages.{is_used}
use abel_os.Memory.Sample.{image, pages_map, two_pages, two_pages-AreOwned, memory-HasSupply}
use abel_os.Vmm.{
  AddrSpace, map_core, find_run, map_run, addr_to_pdi, addr_to_pti, read_pte, write_pte,
  first_unused, find_unused_page_kernel, virt_to_phys, vmm_map, vmm_alloc_page, vmm_free_page,
}
use abel_os.Vmm.Frames.{AreOwned, IsEntry}
use abel_os.Vmm.Lease.{IsGiven, vmm_alloc_page-AreOwned}
use abel_os.Vmm.Separate.{
  Pages, allocated, here, later, allocs, Calls-separate, vmm_free_page-vmm_alloc_page,
}
use abel_os.Vmm.Window.{virt_to_phys-map_core}

vmm_alloc_page-AreOwned_example :
    let r = vmm_alloc_page image pages_map two_pages in
    AreOwned r.1 r.2 × IsGiven pages_map two_pages (alloc_page pages_map).0 r.0 r.2
vmm_alloc_page-AreOwned_example =
    vmm_alloc_page-AreOwned image pages_map two_pages refl two_pages-AreOwned memory-HasSupply.0.0

page_found : (vmm_alloc_page image pages_map two_pages).0 ≢ 0
unfolding vmm_alloc_page find_unused_page_kernel first_unused read_pte
page_found = omega arith

vmm_free_page-vmm_alloc_page_example :
    let r = vmm_alloc_page image pages_map two_pages in
    vmm_free_page r.0 r.1 r.2 ≡ (pages_map, two_pages)
vmm_free_page-vmm_alloc_page_example =
    vmm_free_page-vmm_alloc_page image pages_map two_pages refl two_pages-AreOwned
      memory-HasSupply.0.0 page_found

abbrev pages : Pages
pages = record { map = pages_map; space = two_pages }

kept_page-IsEntry : IsEntry (allocated image pages).space 1
unfolding vmm_alloc_page find_unused_page_kernel first_unused read_pte vmm_map write_pte addr_to_pdi
    addr_to_pti alloc_page find_byte find_first_zero mark_used
kept_page-IsEntry = omega arith

new_page-IsEntry : IsEntry (allocated image pages).space 2
unfolding vmm_alloc_page find_unused_page_kernel first_unused read_pte vmm_map write_pte addr_to_pdi
    addr_to_pti alloc_page find_byte find_first_zero mark_used
new_page-IsEntry = omega arith

Calls-separate_example :
    let q = allocated image pages in
    (virt_to_phys 0xC040_1000 q.space ≢ virt_to_phys 0xC040_2000 q.space)
    × (is_used q.map.bytes (virt_to_phys 0xC040_1000 q.space / 4096) ≡ true)
    × (is_used q.map.bytes (virt_to_phys 0xC040_2000 q.space / 4096) ≡ true)
Calls-separate_example =
    Calls-separate refl two_pages-AreOwned (later here (allocs memory-HasSupply.0.0)) 1 2
      (omega arith) (omega arith) kept_page-IsEntry new_page-IsEntry (λ e. absurd (omega arith))

-- Tables with one for devices, the first entry of which is in use.
abbrev devices : AddrSpace
devices = record {
  p_dir = λ i. if i == 0x300 then 0x15107 else 0;
  p_tables = λ i j. if i == 0x300 && (j == 0) then 0xb8107 else 0;
}

window_found : (map_core 0x6480 100 devices).0 ≢ 0
unfolding map_core find_run map_run read_pte
window_found = omega arith

virt_to_phys-map_core_example :
    let v = (map_core 0x6480 100 devices).0 in
    virt_to_phys (v + 7) (map_core 0x6480 100 devices).1 + (v + 7) % 4096
    ≡ 0x6480 - 0x6480 % 4096 + 7
virt_to_phys-map_core_example =
    virt_to_phys-map_core 0x6480 100 7 devices refl (omega arith) (omega arith) window_found
