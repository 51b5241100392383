-- ===== src/Base/Bits.antt =====
-- Shifts, masks and disjoint fields of machine words, as arithmetic.
use Prim.Native.Nat.{
  ℕ, zero, suc, ◌+◌, ◌*◌, ◌/◌, ◌%◌, ◌^◌, ◌-◌, ◌≤◌, ◌<◌, min, max, bit_and, bit_or, digits,
  bit_and-bitwise, bit_or-bitwise,
}
use mathlib.Core.Path.{◌≡◌, refl, ap}
use native.Mathlib.Nat.{pow-suc, one-le-pow}
use native.Mathlib.Omega.{arith}

infixl 75 ◌<<<◌ ◌>>>◌
-- `x << k` before it is cut to a width, and `x >> k`.
abbrev pub ◌<<<◌ : ℕ → ℕ → ℕ
x <<< k = x * 2 ^ k

abbrev pub ◌>>>◌ : ℕ → ℕ → ℕ
x >>> k = x / 2 ^ k

-- One binary digit of a native operation. `z` is what it makes of a missing first number.
module _ (z : ℕ → ℕ) (f : ℕ → ℕ → ℕ) where
  -- Fuel beyond the first number changes nothing.
  digits_enough : (n m x y : ℕ) → x ≤ n → x ≤ m → digits z f n x y ≡ digits z f m x y
  digits_enough zero zero x y h k = refl
  digits_enough zero (suc m) zero y h k = refl
  digits_enough zero (suc m) (suc x) y h k = absurd (omega arith)
  digits_enough (suc n) zero zero y h k = refl
  digits_enough (suc n) zero (suc x) y h k = absurd (omega arith)
  digits_enough (suc n) (suc m) zero y h k = refl
  digits_enough (suc n) (suc m) (suc x) y h k =
      ap (λ (t : ℕ). t * 2 + f (suc x % 2) (y % 2))
        (digits_enough n m (suc x / 2) (y / 2) (omega arith) (omega arith))

  digits_step :
      (x y : ℕ)
      → digits z f (suc x) (suc x) y
        ≡ digits z f (suc x / 2) (suc x / 2) (y / 2) * 2 + f (suc x % 2) (y % 2)
  digits_step x y =
      ap (λ (t : ℕ). t * 2 + f (suc x % 2) (y % 2))
        (digits_enough x (suc x / 2) (suc x / 2) (y / 2) (omega arith) (omega arith))

pub bit_or_digit : (x y : ℕ) → bit_or x y ≡ bit_or (x / 2) (y / 2) * 2 + max (x % 2) (y % 2)
bit_or_digit zero y = simp bit_or-bitwise (omega arith)
bit_or_digit (suc x) y = simp bit_or-bitwise (digits_step (λ b. b) max x y)

pub bit_and_digit : (x y : ℕ) → bit_and x y ≡ bit_and (x / 2) (y / 2) * 2 + min (x % 2) (y % 2)
bit_and_digit zero y = simp bit_and-bitwise (omega arith)
bit_and_digit (suc x) y = simp bit_and-bitwise (digits_step (λ b. 0) min x y)

half_pow : (x k : ℕ) → x < 2 ^ suc k → x / 2 < 2 ^ k
half_pow x k h = omega (arith, pow-suc 2 k)

zero-bit_or : (y : ℕ) → bit_or 0 y ≡ y
zero-bit_or y = bit_or-bitwise 0 y

bit_or-zero_below : (k x : ℕ) → x < 2 ^ k → bit_or x 0 ≡ x
bit_or-zero_below zero x h = let e : x ≡ 0 = omega arith in rw e (zero-bit_or 0)
bit_or-zero_below (suc k) x h =
    omega (arith, bit_or_digit x 0, bit_or-zero_below k (x / 2) (half_pow x k h))

-- `|` of a number below `2 ^ m`, shifted by `k`, and one below `2 ^ k` is their sum.
pub bit_or_disjoint : (m k q r : ℕ) → q < 2 ^ m → r < 2 ^ k → bit_or (q <<< k) r ≡ q * 2 ^ k + r
bit_or_disjoint m zero q r hq h = ground (arith, bit_or-zero_below m q)
bit_or_disjoint m (suc k) q r hq h =
    let e : q * 2 ^ suc k ≡ q * 2 ^ k * 2 = omega (arith, ap (λ (t : ℕ). q * t) (pow-suc 2 k)) in
    let d : q * 2 ^ suc k / 2 ≡ q * 2 ^ k = omega arith in
    omega (
      arith,
      rw d at (bit_or_digit (q * 2 ^ suc k) r),
      bit_or_disjoint m k q (r / 2) hq (half_pow r k h),
    )

bit_and-zero_below : (k x : ℕ) → x < 2 ^ k → bit_and x 0 ≡ 0
bit_and-zero_below zero x h = let e : x ≡ 0 = omega arith in rw e (bit_and-bitwise 0 0)
bit_and-zero_below (suc k) x h =
    omega (arith, bit_and_digit x 0, bit_and-zero_below k (x / 2) (half_pow x k h))

bit_and_field : (m k q r : ℕ) → q < 2 ^ m → r < 2 ^ k → bit_and (q * 2 ^ k + r) (2 ^ k - 1) ≡ r
bit_and_field m zero q r hq h =
    let e : q * 1 + r ≡ q = omega arith in
    let z : r ≡ 0 = omega arith in rw (e, z) (bit_and-zero_below m q hq)
bit_and_field m (suc k) q r hq h =
    let e : q * 2 ^ suc k ≡ q * 2 ^ k * 2 = omega (arith, ap (λ (t : ℕ). q * t) (pow-suc 2 k)) in
    let d : (q * 2 ^ suc k + r) / 2 ≡ q * 2 ^ k + r / 2 = omega arith in
    let p : 1 ≤ 2 ^ k = one-le-pow k 2 (omega arith) in
    let c : (2 ^ suc k - 1) / 2 ≡ 2 ^ k - 1 = omega (arith, pow-suc 2 k) in
    omega (
      arith,
      pow-suc 2 k,
      rw (d, c) at (bit_and_digit (q * 2 ^ suc k + r) (2 ^ suc k - 1)),
      bit_and_field m k q (r / 2) hq (half_pow r k h),
    )

-- A mask of `k` ones keeps the remainder by `2 ^ k`.
pub bit_and_low : (m k x : ℕ) → x < 2 ^ m → bit_and x (2 ^ k - 1) ≡ x % 2 ^ k
bit_and_low m k x h = ground (arith, one-le-pow k 2, bit_and_field m k (x / 2 ^ k) (x % 2 ^ k))
