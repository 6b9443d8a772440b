-- ===== src/PmmInit/Clear.antt =====
-- `mark_range_as_usable`, page by page.
use abel_os.Base.{
  ℕ, ◌+◌, ◌-◌, ◌*◌, ◌/◌, ◌%◌, ◌^◌, ◌≤◌, ◌<◌, bit_and, bit_or, ◌≡◌, ◌∙◌, true, false, ◌&&◌, List,
  arith, ltb, leb, ◌==◌, if◌then◌else◌, set, length, length-set, u32, sub32, Bool-cases, inl, inr,
}
use native.Mathlib.Decide.{dec_lt}
use abel_os.Base.Bits.{testbit-bit_or}
use abel_os.Pmm.{byte_at}
use abel_os.Pmm.Pages.{is_used}
use abel_os.PmmInit.{clear_pages, mark_range_as_usable}
use abel_os.PmmInit.Masks.{
  low_pages, high_pages, testbit-low, testbit-high, is_used-and, is_used-memset, is_used_out,
  testbit_zero,
}
use abel_os.PmmInit.Edges.{within, cleared_ends, clear_one_bit, clear_many_bit}

module _ (bytes : List ℕ) (b e p : ℕ) (covered : e ≤ 8 * length bytes) where
  clear_one :
      b ≤ e
      → b / 8 ≡ e / 8
      → is_used (clear_pages b e bytes) p ≡ (if within b e p then false else is_used bytes p)
  unfolding clear_pages
  clear_one ordered one =
      let one_byte : (b / 8 == e / 8) ≡ true = ground arith in
      let mask = bit_or (low_pages (b % 8)) (high_pages (e % 8)) in
      rw
        (
          one_byte,
          is_used-and bytes (b / 8) mask p,
          testbit-bit_or (7 - p % 8) (low_pages (b % 8)) (high_pages (e % 8)),
          testbit-low (p % 8) (b % 8) (omega arith) (omega arith),
          testbit-high (p % 8) (e % 8) (omega arith) (omega arith),
        )
        (clear_one_bit (is_used bytes p) b e p (length bytes) ordered covered one
          (is_used_out bytes p))

  -- `first` and `last` as the code names them.
  clear_many :
      e < 2 ^ 32
      → b / 8 < e / 8
      → is_used (clear_pages b e bytes) p ≡ (if within b e p then false else is_used bytes p)
  unfolding clear_pages
  clear_many small many =
      let two_bytes : (b / 8 == e / 8) ≡ false = ground arith in
      let gap : sub32 (e / 8) (b / 8) ≡ e / 8 - b / 8 = omega arith in
      let low = low_pages (b % 8) in
      let high = high_pages (e % 8) in
      let first = set bytes (b / 8) (bit_and (byte_at bytes (b / 8)) low) in
      let last = set first (e / 8) (bit_and (byte_at first (e / 8)) high) in
      let length_first = length-set bytes (b / 8) (bit_and (byte_at bytes (b / 8)) low) in
      let length_last : length last ≡ length bytes =
        length-set first (e / 8) (bit_and (byte_at first (e / 8)) high) ∙ length_first in
      let both : is_used last p ≡ cleared_ends (is_used bytes p) b e p (length bytes) = rw (
        is_used-and first (e / 8) high p,
        is_used-and bytes (b / 8) low p,
        length_first,
        testbit-low (p % 8) (b % 8) (omega arith) (omega arith),
        testbit-high (p % 8) (e % 8) (omega arith) (omega arith),
      ) in
      let bit =
        clear_many_bit (is_used bytes p) b e p (length bytes) many covered (is_used_out bytes p) in
      elim (Bool-cases (leb 2 (e / 8 - b / 8))) [
        | inl wide ↦
            rw
              (
                two_bytes,
                gap,
                wide,
                is_used-memset 0x00 (b / 8 + 1) (e / 8 - b / 8 - 1) last p
                    (omega (arith, length_last)),
                both,
                testbit_zero (7 - p % 8) (omega arith),
              )
              bit
        | inr next ↦
            let none_between : (leb (b / 8 + 1) (p / 8)
                  && ltb (p / 8) (b / 8 + 1 + (e / 8 - b / 8 - 1)))
                ≡ false =
              ground arith in
            rw (two_bytes, gap, next, both) (rw none_between at bit)
      ]

  clear_pages_lem :
      b ≤ e
      → e < 2 ^ 32
      → is_used (clear_pages b e bytes) p ≡ (if within b e p then false else is_used bytes p)
  clear_pages_lem ordered small = elim (dec_lt (b / 8) (e / 8)) [
    | yes many ↦ clear_many small many
    | no one ↦ clear_one ordered (omega arith)
  ]

module _ (base len : ℕ) (bytes : List ℕ) where
  -- Where the range ends below 4 GiB less a page and inside the map, `mark_range_as_usable` frees
  -- exactly the pages that lie whole in the range, if it has the length of a page; else nothing.
  pub mark_range_as_usable-frees :
      base + len + 4095 < 2 ^ 32
      → (base + len) / 4096 ≤ 8 * length bytes
      → (p : ℕ)
      → is_used (mark_range_as_usable base len bytes) p ≡ (
          if leb 4096 len && within ((base + 4095) / 4096) ((base + len) / 4096) p
          then false
          else is_used bytes p)
  unfolding mark_range_as_usable
  mark_range_as_usable-frees small covered p =
      let first : u32 (base + (4096 - 1)) ≡ base + 4095 = omega arith in
      let last : u32 (base + len) ≡ base + len = omega arith in
      let b = (base + 4095) / 4096 in
      let e = (base + len) / 4096 in
      elim (Bool-cases (ltb len 4096)) [
        | inl short ↦ let too_short : leb 4096 len ≡ false = ground arith in rw (short, too_short)
        | inr long ↦
            let long_enough : leb 4096 len ≡ true = ground arith in
            rw (long, first, last, long_enough)
              (clear_pages_lem bytes b e p covered (ground arith) (omega arith))
      ]
