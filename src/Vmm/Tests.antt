-- ===== src/Vmm/Tests.antt =====
-- Runs of the page tables: the kernel's table holds two pages and nothing else is mapped.
use abel_os.Base.{
  ◌≤◌, u32, ◌-◌, ◌/◌, leb, bit_or, ℕ, ◌+◌, ◌*◌, ◌≡◌, ◌≢◌, refl, true, false, ltb, ◌==◌, ◌&&◌,
  if◌then◌else◌, arith, ◌⊎◌, [],
}
use abel_os.Pmm.{PhysicalMemoryMap}
use abel_os.PmmInit.{KernelImage}
use abel_os.Vmm.{
  map_core, io_page_idx, flag_kernel, n_entries, is_present, addr_to_pdi, addr_to_pti, AddrSpace,
  directory_idx, read_pte, write_pte, first_unused, find_unused_page_kernel, virt_to_phys, vmm_map,
}
use abel_os.Vmm.Translate.{same_entry, virt_to_phys-vmm_map}
use abel_os.Vmm.Core.{NoRun, AllUnused, map_core-maps}

abbrev kernel : KernelImage
kernel = record {
  start = 0xC040_0000;
  finish = 0xC040_2000;
  virt_start = 0xC040_0000;
  phys_start = 0x10000;
}

abbrev tables : AddrSpace
tables = record {
  p_dir = λ i. if i == 0x301 then 0x13107 else 0;
  p_tables = λ i j. if i == 0x301 && ltb j 2 then 0x10107 + j * 4096 else 0;
}

abbrev no_pages : PhysicalMemoryMap
no_pages = record { bitmap = 0; bytes = []; bitmap_phy_addr = 0; bitmap_len = 0; n_pages = 0 }

find_unused_run : find_unused_page_kernel kernel tables ≡ 0xC040_2000
unfolding find_unused_page_kernel first_unused read_pte
find_unused_run = refl

translate_run : virt_to_phys 0xC040_1234 tables ≡ 0x11000
unfolding virt_to_phys read_pte addr_to_pdi addr_to_pti
translate_run = refl

map_page_run : virt_to_phys 0xC040_2000 (vmm_map 0xC040_2000 0x50000 tables) ≡ 0x50000
unfolding virt_to_phys vmm_map read_pte write_pte addr_to_pdi addr_to_pti
map_page_run = refl

directory_kept : addr_to_pdi 0xC040_2000 ≢ directory_idx
unfolding addr_to_pdi
directory_kept = omega arith

table_present : is_present (tables.p_dir (addr_to_pdi 0xC040_2000)) ≡ true
unfolding addr_to_pdi
table_present = refl

entry_unused :
    is_present (read_pte tables (addr_to_pdi 0xC040_2000) (addr_to_pti 0xC040_2000)) ≡ false
unfolding read_pte addr_to_pdi addr_to_pti
entry_unused = refl

no_table : is_present (tables.p_dir (addr_to_pdi 0x1000)) ≡ false
unfolding addr_to_pdi
no_table = refl

virt_to_phys-vmm_map_example :
    virt_to_phys 0xC040_2678 (vmm_map 0xC040_2000 (0x50 * 4096) tables)
    ≡ (if same_entry 0xC040_2678 0xC040_2000 then 0x50 * 4096 else virt_to_phys 0xC040_2678 tables)
virt_to_phys-vmm_map_example =
    virt_to_phys-vmm_map 0xC040_2000 0x50 tables (omega arith) directory_kept table_present
      entry_unused 0xC040_2678

-- The directory's table for devices is empty, so that the run starts with its first entry.
map_core-maps_example :
    let n = u32 (4000 + 4096) / 4096 in
    ((map_core 0xb8000 4000 tables).0 ≡ 0)
      × ((map_core 0xb8000 4000 tables).1 ≡ tables)
      × NoRun tables n n_entries
    ⊎ ((i : ℕ) × (i + n ≤ n_entries)
        × ((map_core 0xb8000 4000 tables).0 ≡ 0xC000_0000 + 4096 * i)
        × AllUnused tables i (i + n)
        × ((t k : ℕ)
            → read_pte (map_core 0xb8000 4000 tables).1 t k ≡ (
                if t == io_page_idx && leb i k && ltb k (i + n)
                then bit_or (u32 (0xb8000 + (k - i) * 4096)) flag_kernel
                else read_pte tables t k)))
map_core-maps_example = map_core-maps 0xb8000 4000 tables
