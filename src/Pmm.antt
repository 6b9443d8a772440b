-- ===== src/Pmm.antt =====
-- The physical page allocator of os/src/kernel/pmm/pmm.c: a bitmap with one bit for each 4096-byte
-- page, most significant bit first, where 1 means used.
pub mod Pages
pub mod Alloc
pub mod Free
mod Tests
use abel_os.Base.{
  ℕ, zero, suc, ◌+◌, ◌-◌, ◌*◌, ◌/◌, ◌%◌, bit_and, bit_or, bit_xor, Bool, true, false, List, [], ◌∷◌,
  Option, none, some, ◌==◌, if◌then◌else◌, get_or, set, u8, u32, ◌<<<◌,
}

-- `struct physical_memory_map`. `bitmap` is the address through which the kernel reaches the map,
-- 0 until it has one; `bytes` is what stands there, `bitmap_len` bytes in a map that `IsMap` admits.
pub record PhysicalMemoryMap : Type 0 where
  pub bitmap : ℕ
  pub bytes : List ℕ
  pub bitmap_phy_addr : ℕ
  pub bitmap_len : ℕ
  pub n_pages : ℕ

-- `bitmap[i]`; a read past the end yields a byte of used pages.
abbrev pub byte_at : List ℕ → ℕ → ℕ
byte_at bytes i = get_or bytes i 0xff

-- The `for` loop of `find_first_zero` at index `i`, with `left` rounds to go.
first_zero_from : ℕ → ℕ → ℕ → ℕ
first_zero_from zero i byte = 0xff
first_zero_from (suc left) i byte =
    let rest = first_zero_from left (i + 1) byte in
    if bit_and (1 <<< (7 - i)) byte == 0 then i else rest

unfoldable pub find_first_zero : ℕ → ℕ
unfolding first_zero_from
find_first_zero byte = first_zero_from 8 0 byte

-- The search loop of `pmm_alloc_page`: the index of the first byte that is not full, from `i` on
-- with `left` bytes to go.
unfoldable pub find_byte : List ℕ → ℕ → ℕ → Option ℕ
find_byte bytes zero i = none
find_byte bytes (suc left) i =
    let rest = find_byte bytes left (i + 1) in if byte_at bytes i == 0xff then rest else some i

unfoldable pub mark_used : List ℕ → ℕ → ℕ → List ℕ
mark_used bytes i offset = set bytes i (bit_or (byte_at bytes i) (u8 (1 <<< (7 - offset))))

-- Returns the page's address, 0 if every page is used.
unfoldable pub alloc_page : PhysicalMemoryMap → ℕ × PhysicalMemoryMap
alloc_page m = elim (find_byte m.bytes m.bitmap_len 0) [
  | none ↦ (0, m)
  | some i ↦
      let offset = find_first_zero (byte_at m.bytes i) in
      (u32 (u32 (8 * i + offset) * 4096), record m { bytes = mark_used m.bytes i offset })
]

pub get_page : ℕ → ℕ
get_page ptr = ptr / 4096

pub free_page_n : ℕ → PhysicalMemoryMap → PhysicalMemoryMap
free_page_n pageid m =
    let mask = u8 (1 <<< (7 - pageid % 8)) in
    let index = pageid / 8 in
    record m { bytes = set m.bytes index (bit_xor (bit_or (byte_at m.bytes index) mask) mask) }

pub free_page : ℕ → PhysicalMemoryMap → PhysicalMemoryMap
unfolding get_page free_page_n
free_page ptr m = free_page_n (get_page ptr) m

-- `pmm_remap_self_data`, with the address that `vmm_map_core` returned and the bytes that are found
-- there: those of the bitmap only if it starts a page.
pub remap_self_data : (mapped : ℕ) (found : List ℕ) → PhysicalMemoryMap → PhysicalMemoryMap
remap_self_data mapped found m = record m { bitmap = mapped; bytes = found }

-- "unimplemented yet"
pub alloc_pages : ℕ → ℕ
alloc_pages n_pages = 0
