-- ===== src/Pmm/Alloc.antt =====
-- `pmm_alloc_page` of os/src/kernel/pmm/pmm.c: its search and its choice of a page.
use abel_os.Base.{
  ℕ, zero, suc, ◌+◌, ◌-◌, ◌*◌, ◌/◌, ◌%◌, ◌≤◌, ◌<◌, bit_or, ◌≡◌, refl, ◌≢◌, true, false, ◌||◌, List,
  Option, none, some, arith, ◌==◌, length, length-set, get_or_out, inl, inr, Bool-cases,
}
use native.Mathlib.Decide.{dec_lt}
use abel_os.Base.Bits.{testbit-bit_or, bit_or-lt}
use abel_os.Pmm.{PhysicalMemoryMap, byte_at, find_byte, find_first_zero, mark_used, alloc_page}
use abel_os.Pmm.Pages.{
  is_used, IsMap, mask_of, testbit-mask_of, is_used_full, is_used-set, AreBytes-set, IsFirstZero,
  find_first_zero-IsFirstZero,
}

-- What the search loop has found when it stops.
abbrev Found : List ℕ → ℕ → ℕ → Option ℕ → Type 0
Found bytes left i none = (j : ℕ) → i ≤ j → j < i + left → byte_at bytes j ≡ 0xff
Found bytes left i (some r) =
    (i ≤ r)
    × (r < i + left)
    × (byte_at bytes r ≢ 0xff)
    × ((j : ℕ) → i ≤ j → j < r → byte_at bytes j ≡ 0xff)

-- From `i + 1` back to `i`, past a full byte.
from_here :
    (bytes : List ℕ) (i j : ℕ)
    → byte_at bytes i ≡ 0xff
    → ((k : ℕ) → i + 1 ≤ k → k ≤ j → byte_at bytes k ≡ 0xff)
    → i ≤ j
    → byte_at bytes j ≡ 0xff
from_here bytes i j full rest h = elim (Bool-cases (i == j)) [
  | inl e ↦ let e' : j ≡ i = ground arith in rw e' full
  | inr ne ↦ rest j (ground arith) (omega arith)
]

Found-full :
    (bytes : List ℕ) (left i : ℕ) (o : Option ℕ)
    → byte_at bytes i ≡ 0xff
    → Found bytes left (i + 1) o
    → Found bytes (suc left) i o
Found-full bytes left i none full rest =
    λ j p q. from_here bytes i j full (λ k a b. rest k a (omega arith)) p
Found-full bytes left i (some r) full rest = (
  omega arith,
  omega arith,
  rest.2,
  λ j p q. from_here bytes i j full (λ k a b. rest.3 k a (omega arith)) p,
)

find_byte-Found : (bytes : List ℕ) (left i : ℕ) → Found bytes left i (find_byte bytes left i)
unfolding find_byte
find_byte-Found bytes zero i = λ j p q. absurd (omega arith)
find_byte-Found bytes (suc left) i = elim (Bool-cases (byte_at bytes i == 0xff)) [
  | inl full ↦ rw full (
      Found-full bytes left i (find_byte bytes left (i + 1)) (ground arith)
        (find_byte-Found bytes left (i + 1)))
  | inr other ↦ rw other (omega arith, omega arith, ground arith, λ j p q. absurd (omega arith))
]

-- Setting the bit of page `8 * i + offset` marks that page, and no other.
is_used-mark_used :
    (bytes : List ℕ) (i offset p : ℕ)
    → i < length bytes
    → offset < 8
    → is_used (mark_used bytes i offset) p ≡ ((p == 8 * i + offset) || is_used bytes p)
unfolding mark_used is_used
is_used-mark_used bytes i offset p hi ho = ground (
  arith,
  is_used-set bytes i (bit_or (byte_at bytes i) (mask_of offset)) p,
  testbit-bit_or (7 - p % 8) (byte_at bytes i) (mask_of offset),
  testbit-mask_of (p % 8) offset,
)

-- What a call of `pmm_alloc_page` on `m` has done when it returns `addr` and leaves `m'`: either
-- the map is full, the result is 0 and nothing changed; or `page` was the lowest free page, its
-- address is the result, and it alone has become used.
pub data Allocated (m : PhysicalMemoryMap) (addr : ℕ) (m' : PhysicalMemoryMap) : Type 0 where
  out_of_memory : ((p : ℕ) → is_used m.bytes p ≡ true) → addr ≡ 0 → m' ≡ m → Allocated m addr m'
  lowest :
      (page : ℕ)
      → page < 8 * m.bitmap_len
      → is_used m.bytes page ≡ false
      → ((p : ℕ) → p < page → is_used m.bytes p ≡ true)
      → addr ≡ 4096 * page
      → m' ≡ record m { bytes = m'.bytes }
      → ((p : ℕ) → is_used m'.bytes p ≡ ((p == page) || is_used m.bytes p))
      → Allocated m addr m'

module _ (m : PhysicalMemoryMap) (v : IsMap m) where
  full_map :
      ((j : ℕ) → 0 ≤ j → j < 0 + m.bitmap_len → byte_at m.bytes j ≡ 0xff)
      → (p : ℕ) → is_used m.bytes p ≡ true
  full_map full p = is_used_full m.bytes p (elim (dec_lt (p / 8) m.bitmap_len) [
    | yes h ↦ full (p / 8) (omega arith) (omega arith)
    | no h ↦ get_or_out m.bytes (p / 8) 0xff (omega (arith, v.covers))
  ])

  module _ (i : ℕ) (found : Found m.bytes m.bitmap_len 0 (some i)) where
    abbrev offset : ℕ
    offset = find_first_zero (byte_at m.bytes i)

    first : IsFirstZero (byte_at m.bytes i) offset
    first = find_first_zero-IsFirstZero (byte_at m.bytes i) (v.are_bytes i) found.2

    index_of : (8 * i + offset) / 8 ≡ i
    index_of = omega (arith, first.in_range)

    page_free : is_used m.bytes (8 * i + offset) ≡ false
    unfolding is_used
    page_free =
        let low : (8 * i + offset) % 8 ≡ offset = omega (arith, first.in_range) in
        rw (index_of, low) first.is_zero

    lower_used : (p : ℕ) → p < 8 * i + offset → is_used m.bytes p ≡ true
    unfolding is_used
    lower_used p h = elim (dec_lt (p / 8) i) [
      | yes before ↦ is_used_full m.bytes p (found.3 (p / 8) (omega arith) before)
      | no here ↦
          let same_byte : p / 8 ≡ i = omega (arith, first.in_range) in
          rw same_byte (first.ones_before (p % 8) (omega (arith, first.in_range)))
    ]

Allocated-Found :
    (m : PhysicalMemoryMap) (o : Option ℕ)
    → find_byte m.bytes m.bitmap_len 0 ≡ o
    → IsMap m
    → Found m.bytes m.bitmap_len 0 o
    → Allocated m (alloc_page m).0 (alloc_page m).1
unfolding alloc_page
Allocated-Found m none e v found = rw (e, alloc_page) (out_of_memory (full_map m v found) refl refl)
Allocated-Found m (some i) e v found =
    let r = find_first_zero (byte_at m.bytes i) in
    let first : IsFirstZero (byte_at m.bytes i) r =
      find_first_zero-IsFirstZero (byte_at m.bytes i) (v.are_bytes i) found.2 in
    rw (e, alloc_page)
      (lowest (8 * i + r) (omega (arith, first.in_range)) (page_free m v i found)
        (lower_used m v i found) (omega (arith, first.in_range, v.fits)) refl
        (λ p. is_used-mark_used m.bytes i r p (omega (arith, v.covers)) first.in_range))

-- On a map with its stated length that fits 32-bit page addresses, `pmm_alloc_page` either finds
-- every page used, returns 0 and changes nothing, or returns the address of the lowest free page
-- and marks that page, and no other.
pub alloc_page-Allocated :
    (m : PhysicalMemoryMap) → IsMap m → Allocated m (alloc_page m).0 (alloc_page m).1
alloc_page-Allocated m v =
    Allocated-Found m (find_byte m.bytes m.bitmap_len 0) refl v
      (find_byte-Found m.bytes m.bitmap_len 0)

IsMap-Found :
    (m : PhysicalMemoryMap) (o : Option ℕ)
    → find_byte m.bytes m.bitmap_len 0 ≡ o
    → IsMap m
    → Found m.bytes m.bitmap_len 0 o
    → IsMap (alloc_page m).1
unfolding alloc_page mark_used
IsMap-Found m none e v found = rw (e, alloc_page) v
IsMap-Found m (some i) e v found =
    let r = find_first_zero (byte_at m.bytes i) in
    let marked = bit_or (byte_at m.bytes i) (mask_of r) in
    rw (e, alloc_page)
      (record {
        covers = omega (arith, v.covers, length-set m.bytes i marked);
        fits = v.fits;
        are_bytes =
            AreBytes-set m.bytes i marked v.are_bytes
              (bit_or-lt 8 (byte_at m.bytes i) (mask_of r) (v.are_bytes i) (omega arith));
      })

-- On every branch `pmm_alloc_page` keeps the map's stated length, its bound, and its entries bytes.
pub alloc_page-IsMap : (m : PhysicalMemoryMap) → IsMap m → IsMap (alloc_page m).1
alloc_page-IsMap m v =
    IsMap-Found m (find_byte m.bytes m.bitmap_len 0) refl v (find_byte-Found m.bytes m.bitmap_len 0)
