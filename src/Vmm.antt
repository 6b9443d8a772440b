-- ===== src/Vmm.antt =====
-- Virtual memory: os/src/arch/x86/vmm/vmm.c, os/include/arch/x86/vmm/types.h and the wrappers of
-- os/src/kernel/vmm/vmm.c. The recursive mapping shows the current page tables at fixed addresses;
-- the tables are functions of their indices. `reload_page_directory` changes no entry.
pub mod Translate
pub mod Search
pub mod Startup
pub mod Core
pub mod Address
pub mod Window
pub mod Frames
pub mod Owned
pub mod Lease
pub mod Separate
mod Tests
mod PageTests
use abel_os.Base.{
  ℕ, zero, suc, ◌+◌, ◌-◌, ◌*◌, ◌/◌, ◌%◌, ◌^◌, bit_and, bit_or, Bool, true, false, not, ◌&&◌, ltb,
  ◌==◌, if◌then◌else◌, u32, sub32, ◌<<<◌, ◌>>>◌,
}
use abel_os.Pmm.{PhysicalMemoryMap, alloc_page, free_page}
use abel_os.PmmInit.{KernelImage}

abbrev pub n_entries : ℕ
n_entries = 1024

-- `X86_PAGE_FLAG_KERNEL`
abbrev pub flag_kernel : ℕ
flag_kernel = 0x107

abbrev pub kernel_page_idx : ℕ
kernel_page_idx = 0x301

abbrev pub io_page_idx : ℕ
io_page_idx = 0x300

abbrev pub swap_page_idx : ℕ
swap_page_idx = 0x3fe

abbrev pub is_present : ℕ → Bool
is_present e = not (bit_and e 0x0001 == 0)

-- `X86_ADDR_TO_PDI` and `X86_ADDR_TO_PTI`
pub addr_to_pdi : ℕ → ℕ
addr_to_pdi addr = bit_and addr 0xffc0_0000 >>> 22

pub addr_to_pti : ℕ → ℕ
addr_to_pti addr = bit_and addr 0x003f_f000 >>> 12

-- `struct vmm_addr_space`, entry `j` of table `i` being `p_tables i j`. Table 1023 is one past the
-- array, where the directory stands.
pub record AddrSpace : Type 0 where
  pub p_dir : ℕ → ℕ
  pub p_tables : ℕ → ℕ → ℕ

abbrev pub directory_idx : ℕ
directory_idx = 1023

unfoldable pub read_pte : AddrSpace → ℕ → ℕ → ℕ
read_pte a i j = if i == directory_idx then a.p_dir j else a.p_tables i j

abbrev pub write_pde : ℕ → ℕ → AddrSpace → AddrSpace
write_pde j v a = record a { p_dir = λ k. if k == j then v else a.p_dir k }

pub write_pte : ℕ → ℕ → ℕ → AddrSpace → AddrSpace
write_pte i j v a =
    if i == directory_idx
    then write_pde j v a
    else record a { p_tables = λ k l. if k == i && (l == j) then v else a.p_tables k l }

-- A `for` loop that stores null entries in table `i`, at entry `j` with `left` rounds to go.
pub clear_ptes : ℕ → ℕ → ℕ → AddrSpace → AddrSpace
clear_ptes i zero j a = a
clear_ptes i (suc left) j a = clear_ptes i left (j + 1) (write_pte i j 0 a)

-- `struct vmm_core_data`
pub record CoreData : Type 0 where
  pub k_page_dir_addr : ℕ
  pub k_swap_page_table_addr : ℕ
  pub k_io_page_table_addr : ℕ
  pub k_code_page_table_addr : ℕ

pub core_data : KernelImage → CoreData
core_data k =
    let dir = u32 (sub32 k.finish k.virt_start + k.phys_start) in
    record {
      k_page_dir_addr = dir;
      k_swap_page_table_addr = u32 (dir + 4096);
      k_io_page_table_addr = u32 (dir + 2 * 4096);
      k_code_page_table_addr = u32 (dir + 3 * 4096);
    }

pub arch_vmm_init : KernelImage → AddrSpace → AddrSpace
arch_vmm_init k a =
    let kernel_pages = u32 (sub32 k.finish k.start + 4096 - 1) / 4096 in
    let swap = bit_and (core_data k).k_swap_page_table_addr 0xffff_f000 in
    let mapped = write_pde swap_page_idx (bit_or swap flag_kernel) (write_pde 0 0 a) in
    let emptied = clear_ptes swap_page_idx n_entries 0 mapped in
    clear_ptes kernel_page_idx (n_entries - kernel_pages) kernel_pages emptied

-- `p_addr` is what `pmm_alloc_page` returns, which is called only where a table is added and is
-- not tested for 0. The address space is not null.
pub alloc_page_table : ℕ → ℕ → AddrSpace → AddrSpace
alloc_page_table p_addr pdi a =
    if is_present (a.p_dir pdi)
    then a
    else clear_ptes pdi n_entries 0 (write_pde pdi (bit_or p_addr flag_kernel) a)

-- The `while` loop of `arch_vmm_find_unused_page_kernel`: the index where it stops.
unfoldable pub first_unused : AddrSpace → ℕ → ℕ → ℕ
first_unused a zero i = i
first_unused a (suc left) i =
    let rest = first_unused a left (i + 1) in if read_pte a kernel_page_idx i == 0 then i else rest

-- The address of the first null entry, 0 if there is none.
unfoldable pub find_unused_page_kernel : KernelImage → AddrSpace → ℕ
find_unused_page_kernel k a =
    let i = first_unused a n_entries 0 in
    if i == n_entries then 0 else u32 (k.virt_start + i * 4096)

-- The search of `arch_vmm_map_core`: `i` and `found` where the loop stops.
pub find_run : AddrSpace → ℕ → ℕ → ℕ → ℕ → ℕ × ℕ
find_run a n_pages zero i found = (i, found)
find_run a n_pages (suc left) i found =
    let rest =
      find_run a n_pages left (i + 1)
        (if is_present (read_pte a io_page_idx i) then 0 else found + 1) in
    if ltb found n_pages then rest else (i, found)

-- The loop that maps the run, at round `j` with `left` rounds to go.
pub map_run : ℕ → ℕ → ℕ → ℕ → AddrSpace → AddrSpace
map_run base i zero j a = a
map_run base i (suc left) j a =
    map_run base i left (j + 1)
      (write_pte io_page_idx (i + j) (bit_or (u32 (base + j * 4096)) flag_kernel) a)

pub map_core : ℕ → ℕ → AddrSpace → ℕ × AddrSpace
map_core base len a =
    let n_pages = u32 (len + 4096) / 4096 in
    let r = find_run a n_pages n_entries 0 0 in
    let i = r.0 - n_pages in
    if r.1 == n_pages then (u32 (0xC000_0000 + 4096 * i), map_run base i n_pages 0 a) else (0, a)

pub dealloc_page : ℕ → AddrSpace → AddrSpace
dealloc_page p a =
    if is_present (a.p_dir (addr_to_pdi p))
    then write_pte (addr_to_pdi p) (addr_to_pti p) 0 a
    else a

-- 0 where the address is not mapped.
pub virt_to_phys : ℕ → AddrSpace → ℕ
virt_to_phys p a =
    let e = read_pte a (addr_to_pdi p) (addr_to_pti p) in
    if is_present (a.p_dir (addr_to_pdi p)) && is_present e then bit_and e 0xffff_f000 else 0

-- `arch_vmm_map`: nothing happens without a page table, or on an entry that is in use.
pub vmm_map : ℕ → ℕ → AddrSpace → AddrSpace
vmm_map v p a =
    if is_present (a.p_dir (addr_to_pdi v))
      && not (is_present (read_pte a (addr_to_pdi v) (addr_to_pti v)))
    then write_pte (addr_to_pdi v) (addr_to_pti v) (bit_or p flag_kernel) a
    else a

-- `vmm_alloc_page` tests neither result.
unfoldable pub vmm_alloc_page :
    KernelImage → PhysicalMemoryMap → AddrSpace → ℕ × PhysicalMemoryMap × AddrSpace
vmm_alloc_page k m a =
    let r = alloc_page m in let v = find_unused_page_kernel k a in (v, r.1, vmm_map v r.0 a)

pub vmm_free_page : ℕ → PhysicalMemoryMap → AddrSpace → PhysicalMemoryMap × AddrSpace
vmm_free_page p m a = (free_page (virt_to_phys p a) m, dealloc_page p a)

pub vmm_get_page : ℕ → ℕ
vmm_get_page p = p / 4096
