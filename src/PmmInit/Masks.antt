-- ===== src/PmmInit/Masks.antt =====
-- The masks of the two range functions bit by bit, and writes of one masked byte page by page.
use abel_os.Base.{
  ℕ, ◌+◌, ◌-◌, ◌/◌, ◌%◌, ◌≤◌, ◌<◌, bit_and, bit_or, ◌≡◌, refl, Bool, true, false, ◌&&◌, ◌||◌, List,
  arith, ltb, leb, ◌==◌, if◌then◌else◌, set, length, get_or-set, get_or_out, u8, ◌<<<◌, ◌>>>◌,
  Bool-cases, inl, inr,
}
use abel_os.Base.Bits.{
  testbit, testbit-bit_and, testbit-bit_or, checks₂, checks₂_lem, same, eq_of_same,
}
use abel_os.Mem.{memset}
use abel_os.Mem.Laws.{get_or-memset}
use abel_os.Pmm.{byte_at}
use abel_os.Pmm.Pages.{is_used, testbit_full, is_used_full}
use abel_os.PmmInit.{not8}

-- The masks: the bits of the pages before `offset`, and of those from `offset` on.
abbrev pub low_pages : ℕ → ℕ
low_pages offset = u8 (0xff <<< (8 - offset))

abbrev pub high_pages : ℕ → ℕ
high_pages offset = u8 (0xff >>> offset)

abbrev low_check : ℕ → ℕ → Bool
low_check k offset = same (testbit (7 - k) (low_pages offset)) (ltb k offset)

abbrev high_check : ℕ → ℕ → Bool
high_check k offset = same (testbit (7 - k) (high_pages offset)) (leb offset k)

abbrev not_low_check : ℕ → ℕ → Bool
not_low_check k offset = same (testbit (7 - k) (not8 (0xff <<< (8 - offset)))) (leb offset k)

abbrev not_high_check : ℕ → ℕ → Bool
not_high_check k offset = same (testbit (7 - k) (not8 (0xff >>> offset))) (ltb k offset)

mask_tables :
    (checks₂ 8 8 low_check ≡ true)
    × (checks₂ 8 8 high_check ≡ true)
    × (checks₂ 8 8 not_low_check ≡ true)
    × (checks₂ 8 8 not_high_check ≡ true)
unfolding checks₂ testbit
mask_tables = (refl, refl, refl, refl)

module _ (k offset : ℕ) (hk : k < 8) (ho : offset < 8) where
  pub testbit-low : testbit (7 - k) (low_pages offset) ≡ ltb k offset
  testbit-low = eq_of_same _ _ (checks₂_lem 8 8 low_check k offset mask_tables.0 hk ho)

  pub testbit-high : testbit (7 - k) (high_pages offset) ≡ leb offset k
  testbit-high = eq_of_same _ _ (checks₂_lem 8 8 high_check k offset mask_tables.1 hk ho)

  pub testbit-not_low : testbit (7 - k) (not8 (0xff <<< (8 - offset))) ≡ leb offset k
  testbit-not_low = eq_of_same _ _ (checks₂_lem 8 8 not_low_check k offset mask_tables.2 hk ho)

  pub testbit-not_high : testbit (7 - k) (not8 (0xff >>> offset)) ≡ ltb k offset
  testbit-not_high = eq_of_same _ _ (checks₂_lem 8 8 not_high_check k offset mask_tables.3 hk ho)

-- One page after a write of one byte; a write past the end changes nothing.
is_used-write :
    (bytes : List ℕ) (i v p : ℕ)
    → is_used (set bytes i v) p ≡ (
        if p / 8 == i
        then (if ltb i (length bytes) then testbit (7 - p % 8) v else true)
        else is_used bytes p)
unfolding is_used
is_used-write bytes i v p =
    ground (arith, get_or-set bytes i (p / 8) v 0xff, testbit_full (7 - p % 8) (omega arith))

-- `bytes[i] &= mask`, page by page.
pub is_used-and :
    (bytes : List ℕ) (i mask p : ℕ)
    → is_used (set bytes i (bit_and (byte_at bytes i) mask)) p ≡ (
        if p / 8 == i
        then (if ltb i (length bytes) then is_used bytes p && testbit (7 - p % 8) mask else true)
        else is_used bytes p)
is_used-and bytes i mask p = elim (Bool-cases (p / 8 == i)) [
  | inl here ↦
      let at : p / 8 ≡ i = ground arith in
      let same_bit : is_used bytes p ≡ testbit (7 - p % 8) (byte_at bytes i) =
        unfold is_used in rw at in
      rw (
        is_used-write bytes i (bit_and (byte_at bytes i) mask) p,
        here,
        same_bit,
        testbit-bit_and (7 - p % 8) (byte_at bytes i) mask,
      )
  | inr there ↦ rw (is_used-write bytes i (bit_and (byte_at bytes i) mask) p, there)
]

-- `bytes[i] |= mask`, page by page.
pub is_used-or :
    (bytes : List ℕ) (i mask p : ℕ)
    → is_used (set bytes i (bit_or (byte_at bytes i) mask)) p ≡ (
        if p / 8 == i
        then (if ltb i (length bytes) then is_used bytes p || testbit (7 - p % 8) mask else true)
        else is_used bytes p)
is_used-or bytes i mask p = elim (Bool-cases (p / 8 == i)) [
  | inl here ↦
      let at : p / 8 ≡ i = ground arith in
      let same_bit : is_used bytes p ≡ testbit (7 - p % 8) (byte_at bytes i) =
        unfold is_used in rw at in
      rw (
        is_used-write bytes i (bit_or (byte_at bytes i) mask) p,
        here,
        same_bit,
        testbit-bit_or (7 - p % 8) (byte_at bytes i) mask,
      )
  | inr there ↦ rw (is_used-write bytes i (bit_or (byte_at bytes i) mask) p, there)
]

pub is_used-memset :
    (val dst len : ℕ) (bytes : List ℕ) (p : ℕ)
    → dst + len ≤ length bytes
    → is_used (memset val dst len bytes) p ≡ (
        if leb dst (p / 8) && ltb (p / 8) (dst + len)
        then testbit (7 - p % 8) val
        else is_used bytes p)
unfolding is_used
is_used-memset val dst len bytes p h =
    elim (Bool-cases (leb dst (p / 8) && ltb (p / 8) (dst + len))) [
      | inl e ↦ rw (get_or-memset val dst len 0xff bytes (p / 8) h, e)
      | inr e ↦ rw (get_or-memset val dst len 0xff bytes (p / 8) h, e)
    ]

pub is_used_out : (bytes : List ℕ) (p : ℕ) → length bytes ≤ p / 8 → is_used bytes p ≡ true
is_used_out bytes p h = is_used_full bytes p (get_or_out bytes (p / 8) 0xff h)

testbit_zero_table : checks₂ 8 1 (λ k _. same (testbit k 0) false) ≡ true
unfolding checks₂ testbit
testbit_zero_table = refl

pub testbit_zero : (k : ℕ) → k < 8 → testbit k 0 ≡ false
testbit_zero k h =
    eq_of_same _ _
      (checks₂_lem 8 1 (λ k _. same (testbit k 0) false) k 0 testbit_zero_table h (omega arith))

top_table : checks₂ 8 1 (λ k _. same (testbit (7 - k) 0x80) (k == 0)) ≡ true
unfolding checks₂ testbit
top_table = refl

-- `0x80` is the bit of the first page of a byte.
pub testbit_top : (k : ℕ) → k < 8 → testbit (7 - k) 0x80 ≡ (k == 0)
testbit_top k h =
    eq_of_same _ _
      (checks₂_lem 8 1 (λ k _. same (testbit (7 - k) 0x80) (k == 0)) k 0 top_table h (omega arith))
