-- ===== src/PmmInit/Size.antt =====
-- The size of the bitmap, and the whole of `arch_pmm_init`.
use abel_os.Base.{
  ℕ, ◌+◌, ◌*◌, ◌/◌, ◌≤◌, ◌<◌, ◌^◌, ◌≡◌, refl, true, false, not, ◌&&◌, ◌||◌, List, [], ◌∷◌, some,
  arith, ltb, leb, ◌==◌, if◌then◌else◌, u32, u64, inl, inr, Bool-cases,
}
use abel_os.Pmm.{PhysicalMemoryMap}
use abel_os.Pmm.Pages.{is_used}
use abel_os.PmmInit.{
  E820Frame, mem_usable, BootInfo, KernelImage, maximum_from, get_maximum_usable_mem_address, found,
  get_free_mem_range_for_bitmap, fill_bitmap, mark_bitmap_usable_from_e820, arch_pmm_init,
}
use abel_os.PmmInit.Place.{FramesEnd}
use abel_os.PmmInit.Boot.{in_usable_frame, BootFits, is_protected, fill_bitmap-lem}

-- Every usable frame of the list ends at or before `top`.
abbrev pub EndBy : ℕ → List E820Frame → Type 0
EndBy top [] = Unit {0}
EndBy top (f ∷ fs) = (f.kind ≡ mem_usable → f.base + f.size ≤ top) × EndBy top fs

maximum_from-grows : (top : ℕ) (fs : List E820Frame) → top ≤ maximum_from top fs
unfolding maximum_from
maximum_from-grows top [] = omega arith
maximum_from-grows top (f ∷ fs) =
    let next =
      if ltb top (u64 (f.base + f.size)) && (f.kind == mem_usable)
      then u64 (f.base + f.size)
      else top in
    ground (arith, maximum_from-grows next fs)

maximum_from-EndBy : (top : ℕ) (fs : List E820Frame) → FramesEnd fs → EndBy (maximum_from top fs) fs
unfolding maximum_from
maximum_from-EndBy top [] ends = tt
maximum_from-EndBy top (f ∷ fs) ends =
    let next =
      if ltb top (u64 (f.base + f.size)) && (f.kind == mem_usable)
      then u64 (f.base + f.size)
      else top in
    ((λ usable. ground (arith, maximum_from-grows next fs)), maximum_from-EndBy next fs ends.1)

-- No usable frame ends above the address that sizes the bitmap.
pub get_maximum-EndBy :
    (b : BootInfo) → FramesEnd b.frames → EndBy (get_maximum_usable_mem_address b) b.frames
unfolding get_maximum_usable_mem_address
get_maximum-EndBy b ends = maximum_from-EndBy 0 b.frames ends

abbrev pub bitmap_size : BootInfo → ℕ
bitmap_size b = get_maximum_usable_mem_address b / 32768 + 1

covers_pages : (top page : ℕ) → page < top / 4096 → page < 8 * (top / 32768 + 1)
covers_pages top page h = omega arith

covered_from :
    (top : ℕ) (fs : List E820Frame) (p : ℕ)
    → EndBy top fs
    → in_usable_frame fs p ≡ true
    → p < 8 * (top / 32768 + 1)
unfolding in_usable_frame
covered_from top [] p ends h = cc
covered_from top (f ∷ fs) p ends h = elim (Bool-cases (in_usable_frame fs p)) [
  | inl later ↦ covered_from top fs p ends.1 later
  | inr here ↦ ground (arith, ends.0)
]

-- Every page that lies whole in a usable frame has a bit in a bitmap of the size that
-- `arch_pmm_init` computes.
pub bitmap_size-covers :
    (b : BootInfo) (p : ℕ)
    → FramesEnd b.frames
    → in_usable_frame b.frames p ≡ true
    → p < 8 * bitmap_size b
bitmap_size-covers b p ends h =
    covered_from (get_maximum_usable_mem_address b) b.frames p (get_maximum-EndBy b ends) h

-- Where the search finds a place, and what is there fits: the bitmap's computed size is not 0 and the
-- bytes at the place are as many; every usable frame and the bootstrap end at 4 GiB less a page or
-- before, so does the bitmap at its place, and the kernel ends more than five pages before 4 GiB; the
-- whole pages of the usable frames and all pages that the bootstrap, the bitmap or the kernel with the
-- four pages behind its image touch have a bit in the map; bootstrap and kernel end no earlier than they
-- start, and the kernel's end is a 32-bit address. Then `arch_pmm_init` succeeds: the map has the
-- computed size, lies at that place and is not reachable yet, and a page is used unless it lies whole in
-- a usable frame, and used anyway if it is page 0 or touches the bitmap, the kernel with these four pages
-- or the bootstrap.
pub arch_pmm_init-lem :
    (memory : ℕ → ℕ → List ℕ) (k : KernelImage) (b : BootInfo) (m : PhysicalMemoryMap) (addr : ℕ)
    → get_free_mem_range_for_bitmap k b (bitmap_size b) ≡ found addr
    → BootFits k b addr (bitmap_size b) (memory addr (bitmap_size b))
    → (m' : PhysicalMemoryMap) × (arch_pmm_init memory k b m ≡ some m')
      × (m'.bitmap ≡ 0)
      × (m'.bitmap_phy_addr ≡ addr)
      × (m'.bitmap_len ≡ bitmap_size b)
      × ((p : ℕ)
          → is_used m'.bytes p
            ≡ (is_protected k b addr (bitmap_size b) p || not (in_usable_frame b.frames p)))
unfolding arch_pmm_init
arch_pmm_init-lem memory k b m addr e fits =
    let len = bitmap_size b in
    let same_len : u32 len ≡ len = omega (arith, fits.own_low) in
    let same_addr : u32 addr ≡ addr = omega (arith, fits.own_low) in
    let low : leb 0xffff_ffff addr ≡ false = ground (arith, fits.own_low) in
    (
      record {
        bitmap = 0;
        bytes = fill_bitmap k b addr len (memory addr len);
        bitmap_phy_addr = addr;
        bitmap_len = len;
        n_pages = u32 (len / 4096 + 1);
      },
      rw (e, arch_pmm_init) (rw (low, same_len, same_addr)),
      refl,
      refl,
      refl,
      fill_bitmap-lem k b addr len (memory addr len) fits,
    )

-- The addresses are cut to 32 bits before they are used: a frame that starts any multiple of 4 GiB
-- higher up clears the bits of the low pages that it would clear without that offset.
pub high_frame-aliases :
    (f : E820Frame) (fs : List E820Frame) (gibs : ℕ) (bytes : List ℕ)
    → mark_bitmap_usable_from_e820 (record f { base = f.base + gibs * 2 ^ 32 } ∷ fs) bytes
      ≡ mark_bitmap_usable_from_e820 (f ∷ fs) bytes
unfolding mark_bitmap_usable_from_e820
high_frame-aliases f fs gibs bytes =
    let cut : u32 (f.base + gibs * 2 ^ 32) ≡ u32 f.base = omega arith in rw cut
