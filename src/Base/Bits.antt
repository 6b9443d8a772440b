-- ===== src/Base/Bits.antt =====
-- Binary digits of native numbers, and what `bit_and`, `bit_or` and `bit_xor` do to each digit.
use Prim.Native.Nat.{
  ℕ, zero, suc, ◌+◌, ◌*◌, ◌/◌, ◌%◌, ◌^◌, ◌≤◌, ◌<◌, min, max, digits, bitwise, bit_and, bit_or,
  bit_xor, bit_and-bitwise, bit_or-bitwise, bit_xor-bitwise, differ,
}
use mathlib.Core.Path.{◌≡◌, refl, ap, ◌∙◌}
use mathlib.Core.Bool.{Bool, true, false, not, ◌&&◌, ◌||◌}
use native.Mathlib.Nat.{pow-suc}
use native.Mathlib.Omega.{arith}
use mathlib.Core.Logic.{inl, inr}
use abel_os.Base.Tests.{◌==◌, if◌then◌else◌, Bool-cases}

-- Whether bit `k` of `a` is 1.
unfoldable pub testbit : ℕ → ℕ → Bool
testbit zero a = a % 2 == 1
testbit (suc k) a = testbit k (a / 2)

-- The native operations are a digit recursion with fuel. More fuel than the number changes nothing.
module _ (z : ℕ → ℕ) (f : ℕ → ℕ → ℕ) where
  one_more_round : (n x y : ℕ) → x ≤ n → digits z f (suc n) x y ≡ digits z f n x y
  one_more_round zero zero y h = refl
  one_more_round zero (suc x) y h = absurd (omega arith)
  one_more_round (suc n) zero y h = refl
  one_more_round (suc n) (suc x) y h =
      ap (λ r. r * 2 + f (suc x % 2) (y % 2)) (one_more_round n (suc x / 2) (y / 2) (omega arith))

  spare_rounds : (n m x y : ℕ) → x ≤ m → m ≤ n → digits z f n x y ≡ digits z f m x y
  spare_rounds zero m x y h k = let e : m ≡ 0 = omega arith in rw e
  spare_rounds (suc n) m x y h k = elim (Bool-cases (m == suc n)) [
    | inl same ↦ let e : m ≡ suc n = ground arith in rw e
    | inr less ↦ one_more_round n x y (ground arith) ∙ spare_rounds n m x y h (ground arith)
  ]

  lowest_digit :
      (x y : ℕ)
      → bitwise z f (suc x) y ≡ bitwise z f (suc x / 2) (y / 2) * 2 + f (suc x % 2) (y % 2)
  lowest_digit x y =
      let rest = spare_rounds x (suc x / 2) (suc x / 2) (y / 2) (omega arith) (omega arith) in
      ap (λ r. r * 2 + f (suc x % 2) (y % 2)) rest

-- The lowest digit of a result, and the result on what is left of the arguments.
pub bit_or_digit : (x y : ℕ) → bit_or x y ≡ bit_or (x / 2) (y / 2) * 2 + max (x % 2) (y % 2)
bit_or_digit zero y = simp bit_or-bitwise (omega arith)
bit_or_digit (suc x) y = simp bit_or-bitwise (lowest_digit (λ r. r) max x y)

bit_xor_digit : (x y : ℕ) → bit_xor x y ≡ bit_xor (x / 2) (y / 2) * 2 + differ (x % 2) (y % 2)
bit_xor_digit zero y = simp bit_xor-bitwise (omega arith)
bit_xor_digit (suc x) y = simp bit_xor-bitwise (lowest_digit (λ r. r) differ x y)

pub bit_and_digit : (x y : ℕ) → bit_and x y ≡ bit_and (x / 2) (y / 2) * 2 + min (x % 2) (y % 2)
bit_and_digit zero y = simp bit_and-bitwise (omega arith)
bit_and_digit (suc x) y = simp bit_and-bitwise (lowest_digit (λ _. 0) min x y)

differ_bits : (x y : ℕ) → x < 2 → y < 2 → differ x y ≡ (x + y) % 2
differ_bits zero y p q = omega arith
differ_bits (suc zero) zero p q = refl
differ_bits (suc zero) (suc zero) p q = refl
differ_bits (suc zero) (suc (suc y)) p q = absurd (omega arith)
differ_bits (suc (suc x)) y p q = absurd (omega arith)

pub testbit-bit_and : (k a b : ℕ) → testbit k (bit_and a b) ≡ (testbit k a && testbit k b)
unfolding testbit
testbit-bit_and zero a b = ground (arith, bit_and_digit a b)
testbit-bit_and (suc k) a b =
    let halves : bit_and a b / 2 ≡ bit_and (a / 2) (b / 2) = omega (arith, bit_and_digit a b) in
    rw halves (testbit-bit_and k (a / 2) (b / 2))

pub testbit-bit_or : (k a b : ℕ) → testbit k (bit_or a b) ≡ (testbit k a || testbit k b)
unfolding testbit
testbit-bit_or zero a b = ground (arith, bit_or_digit a b)
testbit-bit_or (suc k) a b =
    let halves : bit_or a b / 2 ≡ bit_or (a / 2) (b / 2) = omega (arith, bit_or_digit a b) in
    rw halves (testbit-bit_or k (a / 2) (b / 2))

-- One digit of `^` as an `if`: it differs from `a`'s where `b` has a 1.
pub testbit-bit_xor :
    (k a b : ℕ) → testbit k (bit_xor a b) ≡ (if testbit k b then not (testbit k a) else testbit k a)
unfolding testbit
testbit-bit_xor zero a b =
    ground (arith, bit_xor_digit a b, differ_bits (a % 2) (b % 2) (omega arith) (omega arith))
testbit-bit_xor (suc k) a b =
    let halves : bit_xor a b / 2 ≡ bit_xor (a / 2) (b / 2) =
      omega (arith, bit_xor_digit a b, differ_bits (a % 2) (b % 2) (omega arith) (omega arith)) in
    rw halves (testbit-bit_xor k (a / 2) (b / 2))

-- The operations stay within the digits of their arguments.
pub bit_and-lt : (n a b : ℕ) → a < 2 ^ n → b < 2 ^ n → bit_and a b < 2 ^ n
bit_and-lt zero a b p q = omega (arith, bit_and_digit a b, zeros)
  where
    zeros : bit_and a b ≡ 0
    zeros = let e : a ≡ 0 = omega arith in rw e (bit_and-bitwise 0 b)
bit_and-lt (suc n) a b p q = omega (
  arith,
  pow-suc 2 n,
  bit_and_digit a b,
  bit_and-lt n (a / 2) (b / 2) (omega (arith, pow-suc 2 n)) (omega (arith, pow-suc 2 n)),
)

pub bit_or-lt : (n a b : ℕ) → a < 2 ^ n → b < 2 ^ n → bit_or a b < 2 ^ n
bit_or-lt zero a b p q = omega (arith, zeros)
  where
    zeros : bit_or a b ≡ b
    zeros = let e : a ≡ 0 = omega arith in rw e (bit_or-bitwise 0 b)
bit_or-lt (suc n) a b p q = omega (
  arith,
  pow-suc 2 n,
  bit_or_digit a b,
  bit_or-lt n (a / 2) (b / 2) (omega (arith, pow-suc 2 n)) (omega (arith, pow-suc 2 n)),
)

pub bit_xor-lt : (n a b : ℕ) → a < 2 ^ n → b < 2 ^ n → bit_xor a b < 2 ^ n
bit_xor-lt zero a b p q = omega (arith, zeros)
  where
    zeros : bit_xor a b ≡ b
    zeros = let e : a ≡ 0 = omega arith in rw e (bit_xor-bitwise 0 b)
bit_xor-lt (suc n) a b p q = omega (
  arith,
  pow-suc 2 n,
  bit_xor_digit a b,
  differ_bits (a % 2) (b % 2) (omega arith) (omega arith),
  bit_xor-lt n (a / 2) (b / 2) (omega (arith, pow-suc 2 n)) (omega (arith, pow-suc 2 n)),
)

-- Values of fewer than `n` digits with the same digits are equal.
pub testbit_ext :
    (n a b : ℕ) → a < 2 ^ n → b < 2 ^ n → ((k : ℕ) → k < n → testbit k a ≡ testbit k b) → a ≡ b
unfolding testbit
testbit_ext zero a b p q h = omega arith
testbit_ext (suc n) a b p q h =
    let halves : a / 2 ≡ b / 2 =
      testbit_ext n (a / 2) (b / 2) (omega (arith, pow-suc 2 n)) (omega (arith, pow-suc 2 n))
        (λ k r. h (suc k) (omega arith)) in
    ground (arith, h 0)

-- Over a small range a test is checked at every value by evaluation.
unfoldable pub checks : (bound : ℕ) → (test : ℕ → Bool) → Bool
checks zero test = true
checks (suc last) test = checks last test && test last

pub checks-read :
    (test : ℕ → Bool) (bound i : ℕ) → i < bound → checks bound test ≡ true → test i ≡ true
unfolding checks
checks-read test zero i lt all = absurd (omega arith)
checks-read test (suc last) i lt all = elim (Bool-cases (i == last)) [
  | inl here ↦ let e : i ≡ last = ground arith in rw e (ground arith)
  | inr before ↦ checks-read test last i (ground arith) (ground arith)
]

unfoldable pub checks₂ : ℕ → ℕ → (ℕ → ℕ → Bool) → Bool
unfolding checks
checks₂ n m p = checks n (λ x. checks m (p x))

pub checks₂_lem :
    (n m : ℕ) (p : ℕ → ℕ → Bool) (x y : ℕ) → checks₂ n m p ≡ true → x < n → y < m → p x y ≡ true
unfolding checks₂
checks₂_lem n m p x y h hx hy =
    checks-read (p x) m y hy (checks-read (λ x. checks m (p x)) n x hx h)

-- Boolean equality of two bits, for tables.
abbrev pub same : Bool → Bool → Bool
same true b = b
same false b = not b

pub eq_of_same : (a b : Bool) → same a b ≡ true → a ≡ b
eq_of_same a b h = ground arith
