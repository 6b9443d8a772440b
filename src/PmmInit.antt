-- ===== src/PmmInit.antt =====
-- os/src/arch/x86/pmm/pmm.c: the bitmap is sized and placed from the e820 memory map, then the
-- usable ranges are cleared and the kernel's own ranges are marked again.
pub mod Place
pub mod Masks
pub mod Edges
pub mod Clear
pub mod Fill
pub mod Boot
pub mod Size
mod Tests
use abel_os.Base.{
  ℕ, zero, suc, ◌+◌, ◌-◌, ◌*◌, ◌/◌, ◌%◌, ◌^◌, bit_and, bit_or, Bool, true, false, not, ◌&&◌, ◌||◌,
  List, [], ◌∷◌, Option, none, some, ltb, leb, ◌==◌, if◌then◌else◌, get_or, set, length, u8, u32,
  u64, sub32, ◌<<<◌, ◌>>>◌,
}
use abel_os.Mem.{memset}
use abel_os.Pmm.{PhysicalMemoryMap, byte_at}

-- `struct e820_frame_info`; its `ext` is never read.
pub record E820Frame : Type 0 where
  pub base : ℕ
  pub size : ℕ
  pub kind : ℕ

-- `MEM_USABLE` of `enum E820_TYPE`.
abbrev pub mem_usable : ℕ
mem_usable = 1

-- `struct boot_info`; `n_entries` is the length of `frames`.
pub record BootInfo : Type 0 where
  pub mmap_list_ptr : ℕ
  pub frames : List E820Frame
  pub bootstrap_start : ℕ
  pub bootstrap_end : ℕ

-- The linker's symbols.
pub record KernelImage : Type 0 where
  pub start : ℕ
  pub finish : ℕ
  pub virt_start : ℕ
  pub phys_start : ℕ

pub frames_collide : ℕ → ℕ → ℕ → ℕ → Bool
frames_collide x_start x_end y_start y_end =
    (leb y_start x_start && ltb x_start y_end) || (leb x_start y_start && ltb y_start x_end)

-- The loop of `get_maximum_usable_mem_address_from_e820`, from the highest address so far.
pub maximum_from : ℕ → List E820Frame → ℕ
maximum_from highest [] = highest
maximum_from highest (f ∷ fs) =
    let top = u64 (f.base + f.size) in
    maximum_from (if ltb highest top && (f.kind == mem_usable) then top else highest) fs

pub get_maximum_usable_mem_address : BootInfo → ℕ
unfolding maximum_from
get_maximum_usable_mem_address b = maximum_from 0 b.frames

-- A range of physical addresses that the bitmap has to avoid.
pub record Reserved : Type 0 where
  pub from : ℕ
  pub to : ℕ

abbrev pub bootstrap : BootInfo → Reserved
bootstrap b = record { from = b.bootstrap_start; to = b.bootstrap_end }

-- `sizeof(struct e820_frame_info)` is 24.
abbrev pub e820_table : BootInfo → Reserved
e820_table b = record { from = b.mmap_list_ptr; to = u64 (b.mmap_list_ptr + length b.frames * 24) }

-- The four pages behind the image are the page directory and the first page tables.
abbrev pub kernel_pages : KernelImage → Reserved
kernel_pages k = record {
  from = k.phys_start;
  to = u64 (u32 (sub32 k.finish k.virt_start + k.phys_start) + 4096 * 4);
}

abbrev pub hits : ℕ → ℕ → Reserved → Bool
hits start len r = frames_collide start (u64 (start + len)) r.from r.to

-- The `while (!exit)` loop: the candidate moves behind each reserved range that it meets. `none`
-- means that the fuel ran out.
pub settle : ℕ → ℕ → Reserved → Reserved → Reserved → ℕ → Option ℕ
settle zero len r1 r2 r3 start = none
settle (suc fuel) len r1 r2 r3 start =
    let behind1 = settle fuel len r1 r2 r3 r1.to in
    let behind2 = settle fuel len r1 r2 r3 r2.to in
    let behind3 = settle fuel len r1 r2 r3 r3.to in
    if hits start len r1
    then behind1
    else if hits start len r2
    then behind2
    else if hits start len r3
    then behind3
    else some start

-- What the search for the bitmap's place comes to.
pub data Search : Type 0 where
  found : ℕ → Search
  not_found diverges : Search

-- Whether the `continue` of the `for` loop skips the frame.
abbrev pub skips : ℕ → E820Frame → Bool
skips len f = not (f.kind == mem_usable) || ltb f.size len || leb 0xffff_ffff f.base

-- One round for each reserved range, and one that leaves the loop.
abbrev pub rounds : ℕ
rounds = 4

pub search_frames : ℕ → Reserved → Reserved → Reserved → List E820Frame → Search
search_frames len r1 r2 r3 [] = not_found
search_frames len r1 r2 r3 (f ∷ fs) =
    let rest = search_frames len r1 r2 r3 fs in
    if skips len f then rest else elim (settle rounds len r1 r2 r3 f.base) [
      | none ↦ diverges
      | some start ↦ if ltb (u64 (start + len)) (u64 (f.base + f.size)) then found start else rest
    ]

pub get_free_mem_range_for_bitmap : KernelImage → BootInfo → ℕ → Search
get_free_mem_range_for_bitmap k b len =
    search_frames len (bootstrap b) (e820_table b) (kernel_pages k) b.frames

-- The byte that `~x` leaves in a `uint8_t`.
abbrev pub not8 : ℕ → ℕ
not8 x = 255 - u8 x

-- `mark_range_as_usable` from its page numbers on: one byte if the range starts and ends in the
-- same, else the first, the last, and a `memset` of those between.
pub clear_pages : ℕ → ℕ → List ℕ → List ℕ
clear_pages base_page end_page bytes =
    let base_index = base_page / 8 in
    let base_mask = u8 (0xff <<< (8 - base_page % 8)) in
    let end_index = end_page / 8 in
    let end_mask = u8 (0xff >>> (end_page % 8)) in
    if base_index == end_index
    then set bytes base_index (bit_and (byte_at bytes base_index) (bit_or base_mask end_mask))
    else let first = set bytes base_index (bit_and (byte_at bytes base_index) base_mask) in
      let last = set first end_index (bit_and (byte_at first end_index) end_mask) in
      if leb 2 (sub32 end_index base_index)
      then memset 0x00 (base_index + 1) (sub32 end_index base_index - 1) last
      else last

-- The first page is rounded up and the last down.
pub mark_range_as_usable : ℕ → ℕ → List ℕ → List ℕ
mark_range_as_usable base len bytes =
    if ltb len 4096
    then bytes
    else clear_pages (u32 (base + (4096 - 1)) / 4096) (u32 (base + len) / 4096) bytes

-- `mark_range_as_used` from its page numbers on.
pub fill_pages : ℕ → ℕ → List ℕ → List ℕ
fill_pages base_page end_page bytes =
    let base_index = base_page / 8 in
    let base_mask = not8 (0xff <<< (8 - base_page % 8)) in
    let end_index = end_page / 8 in
    let end_mask = not8 (0xff >>> (end_page % 8)) in
    if base_index == end_index
    then set bytes base_index (bit_or (byte_at bytes base_index) (bit_and base_mask end_mask))
    else let first = set bytes base_index (bit_or (byte_at bytes base_index) base_mask) in
      let last = set first end_index (bit_or (byte_at first end_index) end_mask) in
      if leb 2 (sub32 end_index base_index)
      then memset 0xff (base_index + 1) (sub32 end_index base_index - 1) last
      else last

-- The first page is rounded down and the last up.
pub mark_range_as_used : ℕ → ℕ → List ℕ → List ℕ
mark_range_as_used base len bytes =
    fill_pages (base / 4096) (u32 (base + len + 4096 - 1) / 4096) bytes

pub mark_bitmap_usable_from_e820 : List E820Frame → List ℕ → List ℕ
mark_bitmap_usable_from_e820 [] bytes = bytes
mark_bitmap_usable_from_e820 (f ∷ fs) bytes =
    mark_bitmap_usable_from_e820 fs
      (if f.kind == mem_usable then mark_range_as_usable (u32 f.base) (u32 f.size) bytes else bytes)

-- `pmm->bitmap[0] = pmm->bitmap[0] | 0x80`
abbrev pub reserve_page_zero : List ℕ → List ℕ
reserve_page_zero bytes = set bytes 0 (bit_or (byte_at bytes 0) 0x80)

-- The bytes of the finished bitmap, which lies at `addr`, from the `fresh` bytes that stood there.
pub fill_bitmap : KernelImage → BootInfo → ℕ → ℕ → List ℕ → List ℕ
fill_bitmap k b addr len fresh =
    let all_used = memset 0xff 0 len fresh in
    let usable = mark_bitmap_usable_from_e820 b.frames all_used in
    let boot =
      mark_range_as_used b.bootstrap_start (sub32 b.bootstrap_end b.bootstrap_start) usable in
    let kernel = mark_range_as_used k.phys_start (u32 (sub32 k.finish k.start + 4096 * 4)) boot in
    let own = mark_range_as_used addr len kernel in reserve_page_zero own

-- `memory a n` are the `n` bytes at physical address `a`. The map is left as it was if there is no
-- place for the bitmap below 4 GiB; `none` means that the search does not end.
pub arch_pmm_init :
    (ℕ → ℕ → List ℕ) → KernelImage → BootInfo → PhysicalMemoryMap → Option PhysicalMemoryMap
arch_pmm_init memory k b m =
    let len = get_maximum_usable_mem_address b / 32768 + 1 in
    elim (get_free_mem_range_for_bitmap k b len) [
      | diverges ↦ none
      | not_found ↦ some m
      | found addr ↦
          if leb 0xffff_ffff addr
          then some m
          else some (record {
            bitmap = 0;
            bytes = fill_bitmap k b addr (u32 len) (memory addr (u32 len));
            bitmap_phy_addr = u32 addr;
            bitmap_len = u32 len;
            n_pages = u32 (len / 4096 + 1);
          })
    ]
