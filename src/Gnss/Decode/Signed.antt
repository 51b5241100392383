-- ===== src/Gnss/Decode/Signed.antt =====
-- crates/gnss/src/rtcm/decode.rs: the values that the bit reader gives.
use Prim.Native.Nat.{bit_and}
use native.Mathlib.Nat.{
  pow-suc, pow-le-pow_right, one-le-pow, add-mul, mul_assoc, mul_comm, mul-le-mul_right,
  mul-div_cancel, div-eq_of_lt-le,
}
use open_ntripclient.Base.{
  ℕ, zero, suc, ◌+◌, ◌-◌, ◌*◌, ◌%◌, ◌^◌, ◌≤◌, ◌<◌, true, false, some, ◌≡◌, refl, sym, ap, ◌∙◌,
  arith, ltb, if◌then◌else◌, get_or, length, Bool-cases, inl, inr,
}
use open_ntripclient.Base.Bits.{◌<<<◌, ◌>>>◌, bit_or_disjoint, bit_and_low}
use open_ntripclient.Base.Bytes.{Bytes}
use open_ntripclient.Gnss.Decode.{
  ℤ, pos, negsuc, BitReader, ◌>>=◌, give, bit_at, read_bits, read_u, as_i64, sar, sign_extend,
  read_s,
}

lt_pow_of : (n : ℕ) → n < 2 ^ n
lt_pow_of zero = omega arith
lt_pow_of (suc n) = omega (arith, pow-suc 2 n, lt_pow_of n)

bit_at-le : (bytes : Bytes) (p : ℕ) → bit_at bytes p < 2
bit_at-le bytes p =
    let x = get_or bytes (p >>> 3) 0 >>> (7 - bit_and p 7) in
    omega (arith, bit_and_low x 1 x (lt_pow_of x))

two_pow_le : (i j : ℕ) → i ≤ j → 2 ^ i ≤ 2 ^ j
two_pow_le i j h = pow-le-pow_right (omega arith) h

read_bits-lt :
    (n k : ℕ) (bytes : Bytes) (p v : ℕ)
    → k + n ≤ 64
    → v < 2 ^ k
    → read_bits n bytes p v < 2 ^ (k + n)
unfolding read_bits
read_bits-lt zero k bytes p v h b = let e : k + 0 ≡ k = omega arith in rw e b
read_bits-lt (suc n) k bytes p v h b =
    let e : k + suc n ≡ suc k + n = omega arith in
    let m : (v <<< 1) % 2 ^ 64 ≡ v <<< 1 = omega (arith, two_pow_le k 63 (omega arith)) in
    let d = bit_or_disjoint k 1 v (bit_at bytes p) b (bit_at-le bytes p) in
    rw (e, m, d)
      (read_bits-lt n (suc k) bytes (suc p) (v * 2 ^ 1 + bit_at bytes p) (omega arith)
        (omega (arith, pow-suc 2 k, bit_at-le bytes p)))

-- The number that the bits are in two's complement.
abbrev pub two_complement : ℕ → ℕ → ℤ
two_complement bits v = if ltb v (2 ^ (bits - 1)) then pos v else negsuc (2 ^ bits - 1 - v)

two_pow_sum : (a b : ℕ) → 2 ^ a * 2 ^ b ≡ 2 ^ (a + b)
two_pow_sum a zero = let e : a + 0 ≡ a = omega arith in rw e (omega arith)
two_pow_sum a (suc b) =
    let e : a + suc b ≡ suc (a + b) = omega arith in
    rw (e, pow-suc 2 b, pow-suc 2 (a + b))
      (sym (mul_assoc (2 ^ a) (2 ^ b) 2) ∙ ap (λ (n : ℕ). n * 2) (two_pow_sum a b))

-- Shifting up to bit 63 and back down again, with `half * 2` for the numbers of that width.
sar_of_shifted :
    (k half v : ℕ)
    → 1 ≤ 2 ^ k
    → half * 2 ^ k ≡ 2 ^ 63
    → v < half * 2
    → sar (as_i64 ((v <<< k) % 2 ^ 64)) k
      ≡ (if ltb v half then pos v else negsuc (half * 2 - 1 - v))
sar_of_shifted k half v one e b =
    let c = 2 ^ k in
    let n = half * 2 - 1 - v in
    let sums : (n + v + 1) * c ≡ n * c + v * c + c =
      add-mul (n + v) 1 c ∙ omega (arith, add-mul n v c) in
    let whole : n + v + 1 ≡ half * 2 = omega arith in
    let top : half * 2 * c ≡ 2 ^ 64 =
      mul_assoc half 2 c ∙ omega (arith, e, mul_assoc half 2 c, twice half c) in
    let all : n * c + v * c + c ≡ 2 ^ 64 = sym sums ∙ ap (λ (t : ℕ). t * c) whole ∙ top in
    let small : (v * c) % 2 ^ 64 ≡ v * c = omega (arith, all, one) in
    let succ_n : (n + 1) * c ≡ n * c + c = omega (arith, add-mul n 1 c) in
    elim (Bool-cases (ltb v half)) [
      | inl t ↦
          let le = mul-le-mul_right c (suc_le v half t) in
          let below : ltb (v * c) (2 ^ 63) ≡ true = ground (arith, le, e, add-mul v 1 c, one) in
          rw (small, t, below) (ap pos (mul-div_cancel v one))
      | inr t ↦
          let le = mul-le-mul_right c (not_lt v half t) in
          let above : ltb (v * c) (2 ^ 63) ≡ false = ground (arith, le, e) in
          rw (small, t, above)
            (ap negsuc (
              div-eq_of_lt-le {k = n} c (omega (arith, all, one))
                (omega (arith, all, one, succ_n))))
    ]
  where
    twice : (half c : ℕ) → half * (2 * c) ≡ half * c * 2
    twice half c = ap (λ (t : ℕ). half * t) (mul_comm 2 c) ∙ sym (mul_assoc half c 2)

    suc_le : (v half : ℕ) → ltb v half ≡ true → v + 1 ≤ half
    suc_le v half t = ground arith

    not_lt : (v half : ℕ) → ltb v half ≡ false → half ≤ v
    not_lt v half t = ground arith

sign_extend_lem :
    (bits v : ℕ) → 1 ≤ bits → bits ≤ 64 → v < 2 ^ bits → sign_extend bits v ≡ two_complement bits v
unfolding sign_extend
sign_extend_lem bits v a b h =
    let k = 64 - bits in
    let half = 2 ^ (bits - 1) in
    let e : bits - 1 + k ≡ 63 = omega arith in
    let w : 2 ^ bits ≡ half * 2 = ap (λ n. 2 ^ n) (predecessor bits a) ∙ pow-suc 2 (bits - 1) in
    rw w (
      sar_of_shifted k half v (one-le-pow k 2 (omega arith))
        (two_pow_sum (bits - 1) k ∙ ap (λ n. 2 ^ n) e) (omega (arith, w)))
  where
    predecessor : (bits : ℕ) → 1 ≤ bits → bits ≡ suc (bits - 1)
    predecessor bits a = omega arith

zero_plus : (n : ℕ) → 0 + n ≡ n
zero_plus n = omega arith

-- For each width from 1 to 64 and at any cursor, a signed read succeeds exactly where the unsigned
-- read does, leaves the same cursor, and gives the two's complement of its value.
pub read_s-read_u :
    (bits : ℕ) (r : BitReader)
    → 1 ≤ bits
    → bits ≤ 64
    → read_s bits r ≡ (read_u bits >>= λ v. give (two_complement bits v)) r
unfolding read_s read_u
read_s-read_u bits r a b = elim (Bool-cases (ltb (length r.data_bytes * 8) (r.position + bits))) [
  | inl t ↦ rw (t, read_u, read_s, ◌>>=◌) refl
  | inr t ↦
      let v = read_bits bits r.data_bytes r.position 0 in
      let z : 2 ^ (0 + bits) ≡ 2 ^ bits = ap (λ (n : ℕ). 2 ^ n) (zero_plus bits) in
      let below = read_bits-lt bits 0 r.data_bytes r.position 0 (omega arith) (omega arith) in
      let small : v < 2 ^ bits = omega (arith, z, below) in
      rw (t, read_u, read_s, ◌>>=◌)
        (ap (λ x. some (x, record r { position = r.position + bits }))
          (sign_extend_lem bits v a b small))
]
