-- ===== src/PmmInit/Fill.antt =====
-- `mark_range_as_used`, page by page.
use abel_os.Base.{
  ℕ, ◌+◌, ◌-◌, ◌*◌, ◌/◌, ◌%◌, ◌^◌, ◌≤◌, ◌<◌, bit_and, bit_or, ◌≡◌, ◌∙◌, true, false, ◌&&◌, ◌||◌,
  List, arith, ltb, leb, ◌==◌, set, length, length-set, u32, sub32, Bool-cases, inl, inr, ◌<<<◌,
  ◌>>>◌,
}
use native.Mathlib.Decide.{dec_lt}
use abel_os.Base.Bits.{testbit-bit_and}
use abel_os.Pmm.{byte_at}
use abel_os.Pmm.Pages.{is_used, testbit_full}
use abel_os.PmmInit.{not8, fill_pages, mark_range_as_used}
use abel_os.PmmInit.Masks.{
  testbit-not_low, testbit-not_high, is_used-or, is_used-memset, is_used_out,
}
use abel_os.PmmInit.Edges.{within, filled_ends, set_one_bit, set_many_bit}

-- The masks: the bits of the pages from `offset` on, and of those before it.
abbrev from_page : ℕ → ℕ
from_page offset = not8 (0xff <<< (8 - offset))

abbrev to_page : ℕ → ℕ
to_page offset = not8 (0xff >>> offset)

module _ (bytes : List ℕ) (b e p : ℕ) (covered : e ≤ 8 * length bytes) where
  fill_one :
      b ≤ e → b / 8 ≡ e / 8 → is_used (fill_pages b e bytes) p ≡ (within b e p || is_used bytes p)
  unfolding fill_pages
  fill_one ordered one =
      let one_byte : (b / 8 == e / 8) ≡ true = ground arith in
      let mask = bit_and (from_page (b % 8)) (to_page (e % 8)) in
      rw
        (
          one_byte,
          is_used-or bytes (b / 8) mask p,
          testbit-bit_and (7 - p % 8) (from_page (b % 8)) (to_page (e % 8)),
          testbit-not_low (p % 8) (b % 8) (omega arith) (omega arith),
          testbit-not_high (p % 8) (e % 8) (omega arith) (omega arith),
        )
        (set_one_bit (is_used bytes p) b e p (length bytes) ordered covered one
          (is_used_out bytes p))

  -- `first` and `last` as the code names them.
  fill_many :
      e < 2 ^ 32
      → b / 8 < e / 8
      → is_used (fill_pages b e bytes) p ≡ (within b e p || is_used bytes p)
  unfolding fill_pages
  fill_many small many =
      let two_bytes : (b / 8 == e / 8) ≡ false = ground arith in
      let gap : sub32 (e / 8) (b / 8) ≡ e / 8 - b / 8 = omega arith in
      let low = from_page (b % 8) in
      let high = to_page (e % 8) in
      let first = set bytes (b / 8) (bit_or (byte_at bytes (b / 8)) low) in
      let last = set first (e / 8) (bit_or (byte_at first (e / 8)) high) in
      let length_first = length-set bytes (b / 8) (bit_or (byte_at bytes (b / 8)) low) in
      let length_last : length last ≡ length bytes =
        length-set first (e / 8) (bit_or (byte_at first (e / 8)) high) ∙ length_first in
      let both : is_used last p ≡ filled_ends (is_used bytes p) b e p (length bytes) = rw (
        is_used-or first (e / 8) high p,
        is_used-or bytes (b / 8) low p,
        length_first,
        testbit-not_low (p % 8) (b % 8) (omega arith) (omega arith),
        testbit-not_high (p % 8) (e % 8) (omega arith) (omega arith),
      ) in
      let bit =
        set_many_bit (is_used bytes p) b e p (length bytes) many covered (is_used_out bytes p) in
      elim (Bool-cases (leb 2 (e / 8 - b / 8))) [
        | inl wide ↦
            rw
              (
                two_bytes,
                gap,
                wide,
                is_used-memset 0xff (b / 8 + 1) (e / 8 - b / 8 - 1) last p
                    (omega (arith, length_last)),
                both,
                testbit_full (7 - p % 8) (omega arith),
              )
              bit
        | inr next ↦
            let none_between : (leb (b / 8 + 1) (p / 8)
                  && ltb (p / 8) (b / 8 + 1 + (e / 8 - b / 8 - 1)))
                ≡ false =
              ground arith in
            rw (two_bytes, gap, next, both) (rw none_between at bit)
      ]

  fill_pages_lem :
      b ≤ e → e < 2 ^ 32 → is_used (fill_pages b e bytes) p ≡ (within b e p || is_used bytes p)
  fill_pages_lem ordered small = elim (dec_lt (b / 8) (e / 8)) [
    | yes many ↦ fill_many small many
    | no one ↦ fill_one ordered (omega arith)
  ]

module _ (base len : ℕ) (bytes : List ℕ) where
  -- Where the range, rounded up, ends below 4 GiB and inside the map, `mark_range_as_used` marks
  -- exactly the pages from the one that holds `base` up to the rounded end, and leaves every other.
  pub mark_range_as_used-marks :
      base + len + 4095 < 2 ^ 32
      → (base + len + 4095) / 4096 ≤ 8 * length bytes
      → (p : ℕ)
      → is_used (mark_range_as_used base len bytes) p
        ≡ (within (base / 4096) ((base + len + 4095) / 4096) p || is_used bytes p)
  unfolding mark_range_as_used
  mark_range_as_used-marks small covered p =
      let last : u32 (base + len + 4096 - 1) ≡ base + len + 4095 = omega arith in
      rw last (
        fill_pages_lem bytes (base / 4096) ((base + len + 4095) / 4096) p covered (omega arith)
          (omega arith))
