-- ===== src/Platform/Rate.antt =====
-- The rate of the timer.
use abel_os.Base.{
  ℕ, ◌+◌, ◌*◌, ◌/◌, ◌%◌, ◌^◌, ◌<◌, ◌≡◌, ◌≢◌, refl, [], ◌∷◌, ◌++◌, none, some, ◌==◌, inl, inr, ◌⊎◌,
  Bool-cases, arith,
}
use abel_os.Base.Masks.{bit_and_low8}
use abel_os.Platform.{Timer, config_pit_freq, pit_set_frequency}

-- Setting the frequency 0 divides by zero. Any other one is stored and sends the divisor of the base
-- frequency in two bytes, the low one first, cut to 16 bits.
pub pit_set_frequency-divisor :
    (freq : ℕ) (t : Timer)
    → ((freq ≡ 0) × (pit_set_frequency freq t ≡ none))
      ⊎ ((freq ≢ 0)
          × (low high : ℕ) × (pit_set_frequency freq t
              ≡ some (record t {
                current_interrupt_freq_hz = freq;
                outs = t.outs ++ ((0x40, low) ∷ ((0x40, high) ∷ []));
              }))
          × (low < 256)
          × (high < 256)
          × (low + 256 * high ≡ (1193182 / freq) % 2 ^ 16))
unfolding pit_set_frequency config_pit_freq
pit_set_frequency-divisor freq t = elim (Bool-cases (freq == 0)) [
  | inl null ↦ let e : freq ≡ 0 = ground arith in inl (e, rw null refl)
  | inr more ↦
      let ne : freq ≢ 0 = ground arith in
      let q = 1193182 / freq in
      inr (
        ne,
        q % 2 ^ 16 % 256,
        q % 2 ^ 16 / 256,
        rw (more, bit_and_low8 (q % 2 ^ 16)) refl,
        omega arith,
        omega arith,
        omega arith,
      )
]
