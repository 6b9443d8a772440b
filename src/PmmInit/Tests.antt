-- ===== src/PmmInit/Tests.antt =====
-- Runs of the initialisation on a machine with 2 MiB of memory: usable are the first 639 KiB, in
-- which the e820 table, the bootstrap code and the kernel lie, and the second MiB.
use abel_os.Base.{
  ℕ, ◌+◌, ◌/◌, ◌≡◌, refl, true, false, not, ◌&&◌, ◌||◌, List, [], ◌∷◌, some, arith, leb,
  if◌then◌else◌, replicate,
}
use abel_os.Pmm.{PhysicalMemoryMap}
use abel_os.Pmm.Pages.{is_used}
use abel_os.PmmInit.{
  E820Frame, BootInfo, KernelImage, frames_collide, maximum_from, get_maximum_usable_mem_address,
  bootstrap, e820_table, kernel_pages, settle, found, search_frames, get_free_mem_range_for_bitmap,
  mark_range_as_usable, arch_pmm_init,
}
use abel_os.PmmInit.Edges.{within}
use abel_os.PmmInit.Place.{IsAnswer, FramesEnd, get_free_mem_range-IsAnswer}
use abel_os.PmmInit.Clear.{mark_range_as_usable-frees}
use abel_os.PmmInit.Boot.{in_usable_frame, FramesFit, BootFits, is_protected}
use abel_os.PmmInit.Size.{bitmap_size, arch_pmm_init-lem}

abbrev low_memory : E820Frame
low_memory = record { base = 0; size = 0x9fc00; kind = 1 }

abbrev rom : E820Frame
rom = record { base = 0xf0000; size = 0x10000; kind = 2 }

abbrev high_memory : E820Frame
high_memory = record { base = 0x100000; size = 0x100000; kind = 1 }

abbrev small_machine : BootInfo
small_machine = record {
  mmap_list_ptr = 0x20;
  frames = low_memory ∷ rom ∷ high_memory ∷ [];
  bootstrap_start = 0x7c00;
  bootstrap_end = 0x9000;
}

abbrev small_kernel : KernelImage
small_kernel = record {
  start = 0xC040_0000;
  finish = 0xC041_0000;
  virt_start = 0xC040_0000;
  phys_start = 0x10000;
}

abbrev no_map : PhysicalMemoryMap
no_map = record { bitmap = 0; bytes = []; bitmap_phy_addr = 0; bitmap_len = 0; n_pages = 0 }

abbrev memory : ℕ → ℕ → List ℕ
memory a n = replicate n 0xaa

bitmap_size_run : bitmap_size small_machine ≡ 65
unfolding get_maximum_usable_mem_address maximum_from
bitmap_size_run = refl

-- The candidate 0 touches the table, so that the bitmap lies behind it.
place_run :
    get_free_mem_range_for_bitmap small_kernel small_machine (bitmap_size small_machine)
    ≡ found 0x68
unfolding get_free_mem_range_for_bitmap search_frames settle frames_collide
    get_maximum_usable_mem_address maximum_from
place_run = refl

small-FramesFit : FramesFit 65 (low_memory ∷ rom ∷ high_memory ∷ [])
small-FramesFit = (
  (λ _. (omega arith, omega arith)),
  ((λ _. (omega arith, omega arith)), ((λ _. (omega arith, omega arith)), tt)),
)

small-FramesEnd : FramesEnd (low_memory ∷ rom ∷ high_memory ∷ [])
small-FramesEnd = (omega arith, (omega arith, (omega arith, tt)))

fits : BootFits small_kernel small_machine 0x68 65 (memory 0x68 65)
fits = record {
  covers = refl;
  not_empty = omega arith;
  frames = small-FramesFit;
  boot_order = omega arith;
  boot_low = omega arith;
  boot_in = omega arith;
  kernel_order = omega arith;
  finish_low = omega arith;
  kernel_low = omega arith;
  kernel_in = omega arith;
  own_low = omega arith;
  own_in = omega arith;
}

arch_pmm_init_example :
    (m' : PhysicalMemoryMap) × (arch_pmm_init memory small_kernel small_machine no_map ≡ some m')
    × (m'.bitmap ≡ 0)
    × (m'.bitmap_phy_addr ≡ 0x68)
    × (m'.bitmap_len ≡ bitmap_size small_machine)
    × ((p : ℕ)
        → is_used m'.bytes p ≡ (
            is_protected small_kernel small_machine 0x68 (bitmap_size small_machine) p
            || not (in_usable_frame (low_memory ∷ rom ∷ high_memory ∷ []) p)))
arch_pmm_init_example =
    arch_pmm_init-lem memory small_kernel small_machine no_map 0x68 place_run
      (rw bitmap_size_run fits)

IsAnswer_example :
    IsAnswer 65
      (bootstrap small_machine)
      (e820_table small_machine)
      (kernel_pages small_kernel)
      (low_memory ∷ rom ∷ high_memory ∷ [])
      (get_free_mem_range_for_bitmap small_kernel small_machine 65)
IsAnswer_example =
    get_free_mem_range-IsAnswer small_kernel small_machine 65 (omega arith) (omega arith)
      (record { not_empty = omega arith; room = omega arith })
      (record { not_empty = omega arith; room = omega arith })
      (record { not_empty = omega arith; room = omega arith }) small-FramesEnd

mark_range_as_usable_example : is_used (mark_range_as_usable 0x1800 0x9000 (replicate 4 0xff)) 5 ≡ (
    if leb 4096 0x9000 && within ((0x1800 + 4095) / 4096) ((0x1800 + 0x9000) / 4096) 5
    then false
    else is_used (replicate 4 0xff) 5)
mark_range_as_usable_example =
    mark_range_as_usable-frees 0x1800 0x9000 (replicate 4 0xff) (omega arith) (omega arith) 5

page_300_usable : in_usable_frame (low_memory ∷ rom ∷ high_memory ∷ []) 300 ≡ true
unfolding in_usable_frame
page_300_usable = refl
