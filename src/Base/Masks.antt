-- ===== src/Base/Masks.antt =====
-- `bit_and` with a mask of low ones is the remainder.
use Prim.Native.Nat.{ℕ, zero, suc, ◌+◌, ◌*◌, ◌/◌, ◌%◌, ◌≤◌, bit_and, bit_or, ◌<◌, ◌^◌}
use mathlib.Core.Path.{◌≡◌, refl, ap₂}
use native.Mathlib.Omega.{arith}
use abel_os.Base.Bits.{bit_and_digit, bit_or_digit}

bit_and_none : (n x : ℕ) → x ≤ n → bit_and x 0 ≡ 0
bit_and_none zero x h = let e : x ≡ 0 = omega arith in rw e refl
bit_and_none (suc n) x h =
    let e = bit_and_digit x 0 in let ih = bit_and_none n (x / 2) (omega arith) in omega arith

-- One digit to the base 16 of the mask.
bit_and_nibble : (n m k : ℕ) → k ≡ 16 * m + 15 → bit_and n k ≡ bit_and (n / 16) m * 16 + n % 16
bit_and_nibble n m k h =
    let a = bit_and_digit n k in
    let b = bit_and_digit (n / 2) (k / 2) in
    let c = bit_and_digit (n / 2 / 2) (k / 2 / 2) in
    let d = bit_and_digit (n / 2 / 2 / 2) (k / 2 / 2 / 2) in
    let e : bit_and (n / 2 / 2 / 2 / 2) (k / 2 / 2 / 2 / 2) ≡ bit_and (n / 16) m =
      ap₂ bit_and (omega arith) (omega arith) in
    omega arith

pub bit_and_low4 : (n : ℕ) → bit_and n 0x0f ≡ n % 16
bit_and_low4 n =
    let a = bit_and_nibble n 0 15 refl in
    let b = bit_and_none (n / 16) (n / 16) (omega arith) in omega arith

pub bit_and_low8 : (n : ℕ) → bit_and n 0xff ≡ n % 256
bit_and_low8 n =
    let a = bit_and_nibble n 0xf 0xff refl in let b = bit_and_low4 (n / 16) in omega arith

pub bit_and_low16 : (n : ℕ) → bit_and n 0xffff ≡ n % 65536
bit_and_low16 n =
    let a = bit_and_nibble n 0xfff 0xffff refl in
    let b = bit_and_nibble (n / 16) 0xff 0xfff refl in
    let c = bit_and_low8 (n / 16 / 16) in omega arith

-- A mask whose last digit to the base 16 is 0.
bit_and_zeros : (n m k : ℕ) → k ≡ 16 * m → bit_and n k ≡ bit_and (n / 16) m * 16
bit_and_zeros n m k h =
    let a = bit_and_digit n k in
    let b = bit_and_digit (n / 2) (k / 2) in
    let c = bit_and_digit (n / 2 / 2) (k / 2 / 2) in
    let d = bit_and_digit (n / 2 / 2 / 2) (k / 2 / 2 / 2) in
    let e : bit_and (n / 2 / 2 / 2 / 2) (k / 2 / 2 / 2 / 2) ≡ bit_and (n / 16) m =
      ap₂ bit_and (omega arith) (omega arith) in
    omega arith

-- The masks of a page's address, and of the indices of its two tables.
pub bit_and_page : (n : ℕ) → n < 2 ^ 32 → bit_and n 0xffff_f000 ≡ n / 4096 * 4096
bit_and_page n h =
    let a = bit_and_zeros n 0xffff_f00 0xffff_f000 refl in
    let b = bit_and_zeros (n / 16) 0xffff_f0 0xffff_f00 refl in
    let c = bit_and_zeros (n / 16 / 16) 0xffff_f 0xffff_f0 refl in
    let d = bit_and_nibble (n / 16 / 16 / 16) 0xffff 0xffff_f refl in
    let e = bit_and_low16 (n / 16 / 16 / 16 / 16) in omega arith

bit_and_low10 : (n : ℕ) → bit_and n 0x3ff ≡ n % 1024
bit_and_low10 n =
    let a = bit_and_nibble n 0x3f 0x3ff refl in
    let b = bit_and_nibble (n / 16) 3 0x3f refl in
    let c = bit_and_digit (n / 16 / 16) 3 in
    let d = bit_and_digit (n / 16 / 16 / 2) 1 in
    let e = bit_and_none (n / 16 / 16 / 2 / 2) (n / 16 / 16 / 2 / 2) (omega arith) in omega arith

pub bit_and_pti : (n : ℕ) → bit_and n 0x003f_f000 / 2 ^ 12 ≡ n / 4096 % 1024
bit_and_pti n =
    let a = bit_and_zeros n 0x3ff00 0x3f_f000 refl in
    let b = bit_and_zeros (n / 16) 0x3ff0 0x3ff00 refl in
    let c = bit_and_zeros (n / 16 / 16) 0x3ff 0x3ff0 refl in
    let d = bit_and_low10 (n / 16 / 16 / 16) in omega arith

pub bit_and_pdi : (n : ℕ) → bit_and n 0xffc0_0000 / 2 ^ 22 ≡ n / 2 ^ 22 % 1024
bit_and_pdi n =
    let a = bit_and_zeros n 0xffc0000 0xffc00000 refl in
    let b = bit_and_zeros (n / 16) 0xffc000 0xffc0000 refl in
    let c = bit_and_zeros (n / 16 / 16) 0xffc00 0xffc000 refl in
    let d = bit_and_zeros (n / 16 / 16 / 16) 0xffc0 0xffc00 refl in
    let e = bit_and_zeros (n / 16 / 16 / 16 / 16) 0xffc 0xffc0 refl in
    let m = n / 16 / 16 / 16 / 16 / 16 in
    let f = bit_and_digit m 0xffc in
    let g = bit_and_digit (m / 2) 0x7fe in let h = bit_and_low10 (m / 2 / 2) in omega arith

-- Flags in the last twelve bits leave the others.
bit_or_none : (n x : ℕ) → x ≤ n → bit_or x 0 ≡ x
bit_or_none zero x h = let e : x ≡ 0 = omega arith in rw e refl
bit_or_none (suc n) x h =
    let e = bit_or_digit x 0 in let ih = bit_or_none n (x / 2) (omega arith) in omega arith

bit_or_nibble : (n k : ℕ) → bit_or n k / 16 ≡ bit_or (n / 16) (k / 16)
bit_or_nibble n k =
    let a = bit_or_digit n k in
    let b = bit_or_digit (n / 2) (k / 2) in
    let c = bit_or_digit (n / 2 / 2) (k / 2 / 2) in
    let d = bit_or_digit (n / 2 / 2 / 2) (k / 2 / 2 / 2) in
    let e : bit_or (n / 2 / 2 / 2 / 2) (k / 2 / 2 / 2 / 2) ≡ bit_or (n / 16) (k / 16) =
      ap₂ bit_or (omega arith) (omega arith) in
    omega arith

pub bit_or_page : (n : ℕ) → bit_or n 0x107 / 4096 ≡ n / 4096
bit_or_page n =
    let a = bit_or_nibble n 0x107 in
    let b = bit_or_nibble (n / 16) 0x10 in
    let c = bit_or_nibble (n / 16 / 16) 1 in
    let d = bit_or_none (n / 16 / 16 / 16) (n / 16 / 16 / 16) (omega arith) in omega arith
