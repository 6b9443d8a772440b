-- ===== src/PmmInit/Boot.antt =====
-- The bitmap that `arch_pmm_init` leaves, page by page.
use abel_os.Base.{
  ℕ, ◌+◌, ◌-◌, ◌*◌, ◌/◌, ◌%◌, ◌^◌, ◌≤◌, ◌<◌, ◌≡◌, refl, ◌∙◌, Bool, true, false, not, ◌&&◌, ◌||◌,
  List, [], ◌∷◌, arith, ltb, leb, ◌==◌, if◌then◌else◌, length, length-set, length-if, u32, sub32,
  Bool-cases, inl, inr,
}
use abel_os.Mem.{memset}
use abel_os.Mem.Laws.{length-memset}
use abel_os.Pmm.Pages.{is_used, testbit_full}
use abel_os.PmmInit.{
  E820Frame, mem_usable, BootInfo, KernelImage, clear_pages, mark_range_as_usable, fill_pages,
  mark_range_as_used, mark_bitmap_usable_from_e820, reserve_page_zero, fill_bitmap,
}
use abel_os.PmmInit.Masks.{is_used-or, is_used-memset, is_used_out, testbit_top}
use abel_os.PmmInit.Edges.{within}
use abel_os.PmmInit.Clear.{mark_range_as_usable-frees}
use abel_os.PmmInit.Fill.{mark_range_as_used-marks}

-- A write and a `memset` keep the length, so the range functions do.
length-clear_pages : (b e : ℕ) (bytes : List ℕ) → length (clear_pages b e bytes) ≡ length bytes
unfolding clear_pages
length-clear_pages b e bytes = elim (Bool-cases (b / 8 == e / 8)) [
  | inl one ↦ rw (one, length-set)
  | inr many ↦ rw many (elim (Bool-cases (leb 2 (sub32 (e / 8) (b / 8)))) [
    | inl wide ↦ simp (wide, length-memset, length-set)
    | inr next ↦ simp (next, length-set)
  ])
]

length-fill_pages : (b e : ℕ) (bytes : List ℕ) → length (fill_pages b e bytes) ≡ length bytes
unfolding fill_pages
length-fill_pages b e bytes = elim (Bool-cases (b / 8 == e / 8)) [
  | inl one ↦ rw (one, length-set)
  | inr many ↦ rw many (elim (Bool-cases (leb 2 (sub32 (e / 8) (b / 8)))) [
    | inl wide ↦ simp (wide, length-memset, length-set)
    | inr next ↦ simp (next, length-set)
  ])
]

pub length-mark_range_as_usable :
    (base len : ℕ) (bytes : List ℕ) → length (mark_range_as_usable base len bytes) ≡ length bytes
unfolding mark_range_as_usable
length-mark_range_as_usable base len bytes =
    length-if (ltb len 4096) bytes _ _ refl (length-clear_pages _ _ bytes)

pub length-mark_range_as_used :
    (base len : ℕ) (bytes : List ℕ) → length (mark_range_as_used base len bytes) ≡ length bytes
unfolding mark_range_as_used
length-mark_range_as_used base len bytes = length-fill_pages _ _ bytes

-- Whether page `p` lies whole in a usable frame of the e820 map.
unfoldable pub in_usable_frame : List E820Frame → ℕ → Bool
in_usable_frame [] p = false
in_usable_frame (f ∷ fs) p =
    (f.kind == mem_usable)
      && (leb 4096 f.size && within ((f.base + 4095) / 4096) ((f.base + f.size) / 4096) p)
    || in_usable_frame fs p

-- Every usable frame ends below 4 GiB less a page, and inside a map of `len` bytes.
abbrev pub FramesFit : ℕ → List E820Frame → Type 0
FramesFit len [] = Unit
FramesFit len (f ∷ fs) =
    (f.kind ≡ mem_usable → (f.base + f.size + 4095 < 2 ^ 32) × ((f.base + f.size) / 4096 ≤ 8 * len))
    × FramesFit len fs

if_or :
    (x y z : Bool) → (if y then false else (if x then false else z)) ≡ (if x || y then false else z)
if_or true true z = refl
if_or true false z = refl
if_or false y z = refl

length-mark_bitmap :
    (fs : List E820Frame) (bytes : List ℕ)
    → length (mark_bitmap_usable_from_e820 fs bytes) ≡ length bytes
unfolding mark_bitmap_usable_from_e820
length-mark_bitmap [] bytes = refl
length-mark_bitmap (f ∷ fs) bytes =
    length-mark_bitmap fs
      (if f.kind == mem_usable then mark_range_as_usable (u32 f.base) (u32 f.size) bytes else bytes)
    ∙ length-if (f.kind == mem_usable) _ _ _
        (length-mark_range_as_usable (u32 f.base) (u32 f.size) bytes) refl

-- With frames that fit, exactly the pages that lie whole in a usable frame become free.
pub mark_bitmap-frees :
    (fs : List E820Frame) (bytes : List ℕ) (p : ℕ)
    → FramesFit (length bytes) fs
    → is_used (mark_bitmap_usable_from_e820 fs bytes) p
      ≡ (if in_usable_frame fs p then false else is_used bytes p)
unfolding mark_bitmap_usable_from_e820 in_usable_frame
mark_bitmap-frees [] bytes p fit = refl
mark_bitmap-frees (f ∷ fs) bytes p fit = elim (Bool-cases (f.kind == mem_usable)) [
  | inl usable ↦
      let (low, covered) = fit.0 (ground arith) in
      let base : u32 f.base ≡ f.base = omega arith in
      let size : u32 f.size ≡ f.size = omega arith in
      let bytes' = mark_range_as_usable f.base f.size bytes in
      let fit' : FramesFit (length bytes') fs =
        rw (length-mark_range_as_usable f.base f.size bytes) fit.1 in
      rw
        (
          usable,
          base,
          size,
          mark_bitmap-frees fs bytes' p fit',
          mark_range_as_usable-frees f.base f.size bytes low covered p,
        )
        (if_or (leb 4096 f.size && within ((f.base + 4095) / 4096) ((f.base + f.size) / 4096) p)
          (in_usable_frame fs p) (is_used bytes p))
  | inr other ↦ rw (other, mark_bitmap-frees fs bytes p fit.1)
]

-- What the bitmap's place and the ranges to protect have to meet: all of them end below 4 GiB
-- less a page and inside the map, and the bitmap has the `len` bytes that it covers.
pub record BootFits (k : KernelImage) (b : BootInfo) (addr len : ℕ) (fresh : List ℕ) : Type 0 where
  pub covers : length fresh ≡ len
  pub not_empty : 0 < len
  pub frames : FramesFit len b.frames
  pub boot_order : b.bootstrap_start ≤ b.bootstrap_end
  pub boot_low : b.bootstrap_end + 4095 < 2 ^ 32
  pub boot_in : (b.bootstrap_end + 4095) / 4096 ≤ 8 * len
  pub kernel_order : k.start ≤ k.finish
  pub finish_low : k.finish < 2 ^ 32
  pub kernel_low : k.phys_start + (k.finish - k.start) + 5 * 4096 < 2 ^ 32
  pub kernel_in : (k.phys_start + (k.finish - k.start) + 16384 + 4095) / 4096 ≤ 8 * len
  pub own_low : addr + len + 4095 < 2 ^ 32
  pub own_in : (addr + len + 4095) / 4096 ≤ 8 * len

-- The pages that `arch_pmm_init` takes back: page 0, the bitmap's own, the kernel's with the four
-- behind its image, and the bootstrap's.
unfoldable pub is_protected : KernelImage → BootInfo → ℕ → ℕ → ℕ → Bool
is_protected k b addr len p =
    (p == 0)
    || within (addr / 4096) ((addr + len + 4095) / 4096) p
    || within (k.phys_start / 4096) ((k.phys_start + (k.finish - k.start) + 16384 + 4095) / 4096) p
    || within (b.bootstrap_start / 4096) ((b.bootstrap_end + 4095) / 4096) p

all_used_lem :
    (len : ℕ) (fresh : List ℕ) (p : ℕ)
    → length fresh ≡ len
    → is_used (memset 0xff 0 len fresh) p ≡ true
all_used_lem len fresh p h = elim (Bool-cases (leb 0 (p / 8) && ltb (p / 8) (0 + len))) [
  | inl inside ↦
      rw (is_used-memset 0xff 0 len fresh p (omega arith), inside)
        (testbit_full (7 - p % 8) (omega arith))
  | inr outside ↦
      rw (is_used-memset 0xff 0 len fresh p (omega arith), outside)
        (is_used_out fresh p (ground arith))
]

-- `mark_range_as_used` on a range given by its end.
marks_up_to :
    (base len finish : ℕ) (bytes : List ℕ) (p : ℕ)
    → base + len ≡ finish
    → finish + 4095 < 2 ^ 32
    → (finish + 4095) / 4096 ≤ 8 * length bytes
    → is_used (mark_range_as_used base len bytes) p
      ≡ (within (base / 4096) ((finish + 4095) / 4096) p || is_used bytes p)
marks_up_to base len finish bytes p e low inside =
    rw e at (mark_range_as_used-marks base len bytes (omega arith) (rw e inside) p)

reserve_lem :
    (bytes : List ℕ) (p : ℕ)
    → 0 < length bytes
    → is_used (reserve_page_zero bytes) p ≡ ((p == 0) || is_used bytes p)
reserve_lem bytes p h = ground (arith, is_used-or bytes 0 0x80 p, testbit_top (p % 8) (omega arith))

gather :
    (first own kernel boot usable : Bool)
    → (first || (own || (kernel || (boot || (if usable then false else true)))))
      ≡ ((first || own || kernel || boot) || not usable)
gather true own kernel boot usable = refl
gather false true kernel boot usable = refl
gather false false true boot usable = refl
gather false false false true usable = refl
gather false false false false true = refl
gather false false false false false = refl

-- After initialisation a page is used unless it lies whole in a usable e820 frame, and used
-- anyway if it is page 0 or touches the bitmap, the kernel or the bootstrap code; every other page
-- is free.
pub fill_bitmap-lem :
    (k : KernelImage) (b : BootInfo) (addr len : ℕ) (fresh : List ℕ)
    → BootFits k b addr len fresh
    → (p : ℕ)
    → is_used (fill_bitmap k b addr len fresh) p
      ≡ (is_protected k b addr len p || not (in_usable_frame b.frames p))
unfolding fill_bitmap is_protected
fill_bitmap-lem k b addr len fresh fits p =
    let all_used = memset 0xff 0 len fresh in
    let usable = mark_bitmap_usable_from_e820 b.frames all_used in
    let boot_len = sub32 b.bootstrap_end b.bootstrap_start in
    let boot = mark_range_as_used b.bootstrap_start boot_len usable in
    let kernel_len = u32 (sub32 k.finish k.start + 4096 * 4) in
    let kernel = mark_range_as_used k.phys_start kernel_len boot in
    let own = mark_range_as_used addr len kernel in
    let len0 : length all_used ≡ len = length-memset 0xff 0 len fresh ∙ fits.covers in
    let len1 : length usable ≡ len = length-mark_bitmap b.frames all_used ∙ len0 in
    let len2 : length boot ≡ len =
      length-mark_range_as_used b.bootstrap_start boot_len usable ∙ len1 in
    let len3 : length kernel ≡ len =
      length-mark_range_as_used k.phys_start kernel_len boot ∙ len2 in
    let len4 : length own ≡ len = length-mark_range_as_used addr len kernel ∙ len3 in
    let reserved = reserve_lem own p (omega (arith, len4)) in
    let own_marked =
      marks_up_to addr len (addr + len) kernel p refl fits.own_low (rw len3 fits.own_in) in
    let kernel_marked =
      marks_up_to k.phys_start kernel_len (k.phys_start + (k.finish - k.start) + 16384) boot p
        (omega arith) (omega arith) (rw len2 fits.kernel_in) in
    let boot_marked =
      marks_up_to b.bootstrap_start boot_len b.bootstrap_end usable p (omega arith) fits.boot_low
        (rw len1 fits.boot_in) in
    let freed = mark_bitmap-frees b.frames all_used p (rw len0 fits.frames) in
    rw
      (
        reserved,
        own_marked,
        kernel_marked,
        boot_marked,
        freed,
        all_used_lem len fresh p fits.covers,
        is_protected,
      )
      (gather (p == 0) (within (addr / 4096) ((addr + len + 4095) / 4096) p)
        (within (k.phys_start / 4096) ((k.phys_start + (k.finish - k.start) + 16384 + 4095) / 4096)
          p)
        (within (b.bootstrap_start / 4096) ((b.bootstrap_end + 4095) / 4096) p)
        (in_usable_frame b.frames p))
