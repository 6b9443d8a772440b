-- ===== src/Pmm/Free.antt =====
-- `pmm_free_page_n` and `pmm_free_page`, alone and after an allocation.
use abel_os.Base.{
  ℕ, ◌+◌, ◌-◌, ◌*◌, ◌/◌, ◌%◌, ◌<◌, bit_or, bit_xor, ◌≡◌, refl, ap, ◌∙◌, false, List, arith, ◌==◌,
  if◌then◌else◌, length, length-set, get_or_ext,
}
use abel_os.Base.Bits.{testbit-bit_or, testbit-bit_xor, testbit_ext, bit_or-lt, bit_xor-lt}
use abel_os.Pmm.{PhysicalMemoryMap, byte_at, alloc_page, get_page, free_page_n, free_page}
use abel_os.Pmm.Pages.{
  is_used, AreBytes, IsMap, mask_of, testbit-mask_of, is_used-set, AreBytes-set,
}
use abel_os.Pmm.Alloc.{Allocated, out_of_memory, lowest, alloc_page-Allocated, alloc_page-IsMap}

-- Two maps of bytes with the same used pages are the same bytes.
pub is_used_ext :
    (xs ys : List ℕ)
    → length xs ≡ length ys
    → AreBytes xs
    → AreBytes ys
    → ((p : ℕ) → is_used xs p ≡ is_used ys p)
    → xs ≡ ys
unfolding is_used
is_used_ext xs ys e hx hy h = get_or_ext 0xff xs ys e λ i.
    testbit_ext 8 (byte_at xs i) (byte_at ys i) (hx i) (hy i) λ k hk.
      let byte : (8 * i + (7 - k)) / 8 ≡ i = omega arith in
      let bit : 7 - (8 * i + (7 - k)) % 8 ≡ k = omega arith in
      rw (byte, bit) at (h (8 * i + (7 - k)))

module _ (m : PhysicalMemoryMap) (v : IsMap m) (page : ℕ) (covered : page < 8 * m.bitmap_len) where
  -- On a map with its stated length, of bytes, freeing a page that the map covers releases that
  -- page, and leaves every other as it was.
  pub free_page_n-releases :
      (p : ℕ)
      → is_used (free_page_n page m).bytes p ≡ (if p == page then false else is_used m.bytes p)
  unfolding free_page_n is_used
  free_page_n-releases p =
      let old = byte_at m.bytes (page / 8) in
      let mask = mask_of (page % 8) in
      ground (
        arith,
        is_used-set m.bytes (page / 8) (bit_xor (bit_or old mask) mask) p,
        v.covers,
        testbit-bit_xor (7 - p % 8) (bit_or old mask) mask,
        testbit-bit_or (7 - p % 8) old mask,
        testbit-mask_of (p % 8) (page % 8),
      )

  pub free_page_n-IsMap : IsMap (free_page_n page m)
  unfolding free_page_n
  free_page_n-IsMap =
      let old = byte_at m.bytes (page / 8) in
      let mask = mask_of (page % 8) in
      record {
        covers =
            omega (arith, v.covers, length-set m.bytes (page / 8) (bit_xor (bit_or old mask) mask));
        fits = v.fits;
        are_bytes = AreBytes-set m.bytes (page / 8) (bit_xor (bit_or old mask) mask) v.are_bytes (
            bit_xor-lt 8 (bit_or old mask) mask
              (bit_or-lt 8 old mask (v.are_bytes (page / 8)) (omega arith)) (omega arith));
      }

Allocated-undo :
    (m : PhysicalMemoryMap) {a : ℕ} {m' : PhysicalMemoryMap} (p : ℕ)
    → IsMap m
    → IsMap m'
    → is_used m.bytes p ≡ false
    → Allocated m a m'
    → free_page a m' ≡ m
unfolding free_page
Allocated-undo m p v v' free (out_of_memory full _ _) = cc (full p)
Allocated-undo m {a} {m'} p v v' free (lowest page covered was_free lower addr rest marked) =
    let back : get_page a ≡ page = omega (arith, addr) in
    let covered' : page < 8 * m'.bitmap_len =
      rw (ap (λ (x : PhysicalMemoryMap). x.bitmap_len) rest) covered in
    let freed = free_page_n page m' in
    let same_bytes : freed.bytes ≡ m.bytes =
      is_used_ext freed.bytes m.bytes
        (omega (
          arith,
          (free_page_n-IsMap m' v' page covered').covers,
          v.covers,
          ap (λ (x : PhysicalMemoryMap). x.bitmap_len) rest,
        ))
        (free_page_n-IsMap m' v' page covered').are_bytes v.are_bytes
        λ q. ground (arith, free_page_n-releases m' v' page covered' q, marked q, was_free) in
    rw back (
      ap (λ (x : PhysicalMemoryMap). record x { bytes = freed.bytes }) rest
      ∙ ap (λ (b : List ℕ). record m { bytes = b }) same_bytes)

-- On a map with its stated length, of bytes, and of at most 2^17 bytes, which are pages with 32-bit
-- addresses: where some page is free, freeing the page that `pmm_alloc_page` returned gives the old map
-- back.
pub free_page-alloc_page :
    (m : PhysicalMemoryMap) (p : ℕ)
    → IsMap m
    → is_used m.bytes p ≡ false
    → free_page (alloc_page m).0 (alloc_page m).1 ≡ m
free_page-alloc_page m p v free =
    Allocated-undo m p v (alloc_page-IsMap m v) free (alloc_page-Allocated m v)

-- A page's address stands for its number.
pub free_page-get_page :
    (ptr : ℕ) (m : PhysicalMemoryMap) → free_page ptr m ≡ free_page_n (ptr / 4096) m
unfolding free_page get_page
free_page-get_page ptr m = refl

pub bitmap_len-free_page_n :
    (page : ℕ) (m : PhysicalMemoryMap) → (free_page_n page m).bitmap_len ≡ m.bitmap_len
unfolding free_page_n
bitmap_len-free_page_n page m = refl
