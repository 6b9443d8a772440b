-- ===== src/Printk/Numbers.antt =====
-- The numbers that the conversions print, read back.
use abel_os.Base.{
  ◌⊎◌, sym, ℕ, zero, suc, ◌+◌, ◌-◌, ◌/◌, ◌%◌, ◌^◌, ◌≤◌, ◌<◌, ◌≡◌, ◌≢◌, bit_and, refl, ◌∙◌, ap, true,
  false, List, [], ◌∷◌, none, some, arith, leb, ◌==◌, if◌then◌else◌, inl, inr, Bool-cases,
}
use abel_os.Printk.{
  Console, print_str, print_int, print_hex, print_longx, n_to_single_hex, int_digits, hex_digits,
  longx_digits,
}
use abel_os.Printk.Digits.{
  limit, read_digits, int_value, hex_value, read-int_digits, read-hex_digits,
  longx_digits-hex_digits,
}
use abel_os.Printk.Text.{put_text, print_int-int_text, print_longx-longx_text, int_text, longx_text}

-- The first byte of a text, and 0 for none.
abbrev pub first : List ℕ → ℕ
first [] = 0
first (d ∷ ds) = d

-- What a decimal text stands for, as the pattern of an `int`.
abbrev pub read_int : List ℕ → ℕ
read_int [] = 0
read_int (d ∷ ds) =
    if d == b'-'
    then 2 ^ 32 - read_digits 10 int_value 0 ds
    else read_digits 10 int_value 0 (d ∷ ds)

first-int_digits :
    (left n : ℕ) (acc : List ℕ)
    → n < limit 10 (suc left)
    → 0 < n
    → b'1' ≤ first (int_digits (suc left) n acc)
unfolding int_digits
first-int_digits zero n acc h pos =
    let more : (n == 0) ≡ false = ground arith in rw more (omega arith)
first-int_digits (suc left) n acc h pos =
    let more : (n == 0) ≡ false = ground arith in
    elim (Bool-cases (n / 10 == 0)) [
      | inl last ↦ let low : n / 10 ≡ 0 = ground arith in rw (more, last) (omega arith)
      | inr rest ↦
          let pos' : 0 < n / 10 = ground arith in
          rw more (first-int_digits left (n / 10) ((n % 10 + b'0') ∷ acc) (omega arith) pos')
    ]

read_int-plain : (t : List ℕ) → b'1' ≤ first t → read_int t ≡ read_digits 10 int_value 0 t
read_int-plain [] h = refl
read_int-plain (d ∷ ds) h = ground arith

read_int-int_text :
    (n : ℕ)
    → n < 2 ^ 32
    → ((n ≡ 2 ^ 31) × (int_text n ≡ none))
      ⊎ ((n ≢ 2 ^ 31) × (t : List ℕ) × (int_text n ≡ some t) × (read_int t ≡ n))
unfolding int_text
read_int-int_text n h = elim (Bool-cases (n == 2 ^ 31)) [
  | inl least ↦ let e : n ≡ 2 ^ 31 = ground arith in inl (e, rw e refl)
  | inr other ↦
      let ne : n ≢ 2 ^ 31 = ground arith in
      elim (Bool-cases (leb (2 ^ 31) n)) [
        | inl negative ↦
            let back = read-int_digits 16 (2 ^ 32 - n) [] (ground arith) in
            inr (
              ne,
              b'-' ∷ int_digits 16 (2 ^ 32 - n) [],
              rw (other, negative) refl,
              omega (arith, back),
            )
        | inr positive ↦ elim (Bool-cases (n == 0)) [
          | inl null ↦ inr (ne, b'0' ∷ [], rw (other, positive, null) refl, ground arith)
          | inr more ↦
              let low : n < 2 ^ 31 = ground arith in
              let back = read-int_digits 16 n [] (omega arith) in
              let digit = first-int_digits 15 n [] (omega arith) (ground arith) in
              inr (
                ne,
                int_digits 16 n [],
                rw (other, positive, more) refl,
                read_int-plain (int_digits 16 n []) digit ∙ back,
              )
        ]
      ]
]

-- `print_int` of every `int` but the least one puts a text on the screen that reads back as that number,
-- sign included; for the least one its recursion does not end.
pub print_int-reads :
    (n : ℕ) (c : Console)
    → n < 2 ^ 32
    → ((n ≡ 2 ^ 31) × (print_int n c ≡ none))
      ⊎ ((n ≢ 2 ^ 31) × (t : List ℕ) × (print_int n c ≡ some (print_str t c)) × (read_int t ≡ n))
print_int-reads n c h = elim (read_int-int_text n h) [
  | inl (e, no_text) ↦ inl (e, print_int-int_text n c ∙ ap (put_text c) no_text)
  | inr (ne, t, text, back) ↦ inr (ne, t, print_int-int_text n c ∙ ap (put_text c) text, back)
]

abbrev pub read_hex : List ℕ → ℕ
read_hex (z ∷ (x ∷ ds)) = read_digits 16 hex_value 0 ds
read_hex other = 0

read_hex-longx_text : (n : ℕ) → n < 2 ^ 64 → read_hex (longx_text n) ≡ n
unfolding longx_text
read_hex-longx_text n h = elim (Bool-cases (n == 0)) [
  | inl null ↦ let e : 0 ≡ n = ground arith in rw null e
  | inr more ↦ rw more (
      ap (λ t. read_digits 16 hex_value 0 t) (longx_digits-hex_digits 20 n [])
      ∙ read-hex_digits 20 n [] (omega arith))
]

-- `print_longx` of every 64-bit number puts a text on the screen that reads back as that number behind
-- its prefix of two bytes.
pub print_longx-reads :
    (n : ℕ) (c : Console)
    → n < 2 ^ 64
    → (t : List ℕ) × (print_longx n c ≡ print_str t c) × (read_hex t ≡ n)
print_longx-reads n c h = (longx_text n, print_longx-longx_text n c, read_hex-longx_text n h)

hex_digits-spare :
    (left n : ℕ) (acc : List ℕ)
    → n < limit 16 left
    → hex_digits (suc left) n acc ≡ hex_digits left n acc
unfolding hex_digits
hex_digits-spare zero n acc h = let null : (n == 0) ≡ true = ground arith in rw null refl
hex_digits-spare (suc left) n acc h =
    rw
      (hex_digits-spare left (n / 16) (n_to_single_hex (bit_and (n % 16) 0x0f) ∷ acc) (omega arith))
      refl

-- For a 32-bit number `print_hex` prints what `print_longx` prints, whose buffer is larger and whose
-- loop shifts and masks instead of dividing.
pub print_hex-print_longx : (n : ℕ) (c : Console) → n < 2 ^ 32 → print_hex n c ≡ print_longx n c
unfolding print_hex print_longx
print_hex-print_longx n c h =
    let places : hex_digits 16 n [] ≡ longx_digits 20 n [] = sym (
      longx_digits-hex_digits 20 n []
      ∙ (hex_digits-spare 19 n [] (omega arith)
          ∙ (hex_digits-spare 18 n [] (omega arith)
              ∙ (hex_digits-spare 17 n [] (omega arith)
                  ∙ hex_digits-spare 16 n [] (omega arith))))) in
    rw places refl
