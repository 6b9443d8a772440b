-- ===== src/Pmm/Pages.antt =====
-- The view of a bitmap as the set of used pages, and what a write of one byte does to it.
use abel_os.Base.{
  ℕ, ◌-◌, ◌/◌, ◌%◌, ◌^◌, ◌≤◌, ◌<◌, ◌≡◌, refl, ◌≢◌, Bool, true, false, not, ◌&&◌, ◌||◌, List, arith,
  ◌==◌, if◌then◌else◌, set, length, get_or-set, u8, ◌<<<◌, ltb,
}
use abel_os.Base.Bits.{testbit, checks, checks₂, checks-read, checks₂_lem, same, eq_of_same}
use abel_os.Pmm.{PhysicalMemoryMap, byte_at, find_first_zero}

-- Whether page `p` is marked as used; so is every page that the map does not cover.
unfoldable pub is_used : List ℕ → ℕ → Bool
is_used bytes p = testbit (7 - p % 8) (byte_at bytes (p / 8))

-- Every entry is a byte.
abbrev pub AreBytes : List ℕ → Type 0
AreBytes bytes = (i : ℕ) → byte_at bytes i < 256

-- What the allocator relies on: the map has its stated length, of bytes, and its page numbers and
-- page addresses fit 32 bits.
pub record IsMap (m : PhysicalMemoryMap) : Type 0 where
  pub covers : length m.bytes ≡ m.bitmap_len
  pub fits : m.bitmap_len ≤ 2 ^ 17
  pub are_bytes : AreBytes m.bytes

-- The mask `1 << (7 - offset)`.
abbrev pub mask_of : ℕ → ℕ
mask_of offset = u8 (1 <<< (7 - offset))

abbrev mask_bit : ℕ → ℕ → Bool
mask_bit k offset = same (testbit (7 - k) (mask_of offset)) (k == offset)

mask_table : checks₂ 8 8 mask_bit ≡ true
unfolding checks₂ testbit
mask_table = refl

-- It has one bit, that of the page at `offset`.
pub testbit-mask_of :
    (k offset : ℕ) → k < 8 → offset < 8 → testbit (7 - k) (mask_of offset) ≡ (k == offset)
testbit-mask_of k offset hk ho = eq_of_same _ _ (checks₂_lem 8 8 mask_bit k offset mask_table hk ho)

full_table : checks 8 (λ k. testbit k 0xff) ≡ true
unfolding checks testbit
full_table = refl

pub testbit_full : (k : ℕ) → k < 8 → testbit k 0xff ≡ true
testbit_full k h = checks-read (λ k. testbit k 0xff) 8 k h full_table

pub is_used_full : (bytes : List ℕ) (p : ℕ) → byte_at bytes (p / 8) ≡ 0xff → is_used bytes p ≡ true
unfolding is_used
is_used_full bytes p h = rw h (testbit_full (7 - p % 8) (omega arith))

pub is_used-set :
    (bytes : List ℕ) (i v p : ℕ)
    → i < length bytes
    → is_used (set bytes i v) p ≡ (if p / 8 == i then testbit (7 - p % 8) v else is_used bytes p)
unfolding is_used
is_used-set bytes i v p h = ground (arith, get_or-set bytes i (p / 8) v 0xff)

pub AreBytes-set : (bytes : List ℕ) (i v : ℕ) → AreBytes bytes → v < 256 → AreBytes (set bytes i v)
AreBytes-set bytes i v h hv j = ground (arith, get_or-set bytes i j v 0xff, h j)

-- What `find_first_zero` is for: the index, from the top, of the first 0 of a byte.
abbrev first_zero_check : ℕ → ℕ → Bool
first_zero_check byte k =
    let r = find_first_zero byte in
    (byte == 0xff)
    || (ltb r 8 && not (testbit (7 - r) byte) && (not (ltb k r) || testbit (7 - k) byte))

first_zero_table : checks₂ 256 8 first_zero_check ≡ true
unfolding checks₂ testbit find_first_zero
first_zero_table = refl

pub record IsFirstZero (byte r : ℕ) : Type 0 where
  pub in_range : r < 8
  pub is_zero : testbit (7 - r) byte ≡ false
  pub ones_before : (k : ℕ) → k < r → testbit (7 - k) byte ≡ true

-- For every byte but 0xff `find_first_zero` finds the first 0, from the most significant bit on.
pub find_first_zero-IsFirstZero :
    (byte : ℕ) → byte < 256 → byte ≢ 0xff → IsFirstZero byte (find_first_zero byte)
find_first_zero-IsFirstZero byte h ne = record {
  in_range = ground (arith, fact 0 (omega arith));
  is_zero = ground (arith, fact 0 (omega arith));
  ones_before = λ k lt. ground (arith, fact k, fact 0 (omega arith));
}
  where
    fact : (k : ℕ) → k < 8 → first_zero_check byte k ≡ true
    fact k hk = checks₂_lem 256 8 first_zero_check byte k first_zero_table h hk
