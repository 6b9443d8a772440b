-- ===== src/Printk/Digits.antt =====
-- The digits that the printing loops leave in their buffers, read back.
use abel_os.Base.{
  ℕ, zero, suc, ◌+◌, ◌-◌, ◌*◌, ◌/◌, ◌%◌, ◌<◌, ◌≡◌, refl, ◌∙◌, ap, bit_and, List, [], ◌∷◌, arith,
  leb, ◌==◌, if◌then◌else◌, inl, inr, Bool-cases,
}
use abel_os.Base.Masks.{bit_and_low4}
use abel_os.Printk.{int_digits, n_to_single_hex, hex_digits, longx_digits}

-- The number that digits stand for in a base, behind a number that was read before.
abbrev pub read_digits : (base : ℕ) → (ℕ → ℕ) → ℕ → List ℕ → ℕ
read_digits base value n [] = n
read_digits base value n (d ∷ ds) = read_digits base value (base * n + value d) ds

abbrev pub int_value : ℕ → ℕ
int_value d = d - b'0'

abbrev pub hex_value : ℕ → ℕ
hex_value d = if leb b'a' d then d - b'a' + 10 else d - b'0'

-- The first number with too many digits for the places.
abbrev pub limit : (base places : ℕ) → ℕ
limit base zero = 1
limit base (suc places) = base * limit base places

pub read-int_digits :
    (left n : ℕ) (acc : List ℕ)
    → n < limit 10 left
    → read_digits 10 int_value 0 (int_digits left n acc) ≡ read_digits 10 int_value n acc
unfolding int_digits
read-int_digits zero n acc h =
    let e : 0 ≡ n = omega arith in ap (λ m. read_digits 10 int_value m acc) e
read-int_digits (suc left) n acc h = elim (Bool-cases (n == 0)) [
  | inl null ↦ let e : 0 ≡ n = ground arith in rw null (ap (λ m. read_digits 10 int_value m acc) e)
  | inr more ↦
      let e : 10 * (n / 10) + (n % 10 + b'0' - b'0') ≡ n = omega arith in
      rw more (
        read-int_digits left (n / 10) ((n % 10 + b'0') ∷ acc) (omega arith)
        ∙ ap (λ m. read_digits 10 int_value m acc) e)
]

-- Lowercase hexadecimal digits.
hex_value-n_to_single_hex : (d : ℕ) → d < 16 → hex_value (n_to_single_hex d) ≡ d
unfolding n_to_single_hex
hex_value-n_to_single_hex d h = ground arith

pub read-hex_digits :
    (left n : ℕ) (acc : List ℕ)
    → n < limit 16 left
    → read_digits 16 hex_value 0 (hex_digits left n acc) ≡ read_digits 16 hex_value n acc
unfolding hex_digits
read-hex_digits zero n acc h =
    let e : 0 ≡ n = omega arith in ap (λ m. read_digits 16 hex_value m acc) e
read-hex_digits (suc left) n acc h = elim (Bool-cases (n == 0)) [
  | inl null ↦ let e : 0 ≡ n = ground arith in rw null (ap (λ m. read_digits 16 hex_value m acc) e)
  | inr more ↦
      let digit = bit_and (n % 16) 0x0f in
      let low : digit ≡ n % 16 = bit_and_low4 (n % 16) ∙ omega arith in
      let back = hex_value-n_to_single_hex digit (omega arith) in
      let e : 16 * (n / 16) + hex_value (n_to_single_hex digit) ≡ n = omega (arith, back) in
      rw more (
        read-hex_digits left (n / 16) (n_to_single_hex digit ∷ acc) (omega arith)
        ∙ ap (λ m. read_digits 16 hex_value m acc) e)
]

-- The two hexadecimal loops compute the same digits, one by division, the other by shifts.
pub longx_digits-hex_digits :
    (left n : ℕ) (acc : List ℕ) → longx_digits left n acc ≡ hex_digits left n acc
unfolding longx_digits hex_digits
longx_digits-hex_digits zero n acc = refl
longx_digits-hex_digits (suc left) n acc =
    let same : bit_and n 0x0f ≡ bit_and (n % 16) 0x0f =
      bit_and_low4 n ∙ (let e = bit_and_low4 (n % 16) in omega arith) in
    rw (longx_digits-hex_digits left (n / 16) (n_to_single_hex (bit_and n 0x0f) ∷ acc), same) refl
