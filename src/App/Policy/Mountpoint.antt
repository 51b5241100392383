-- ===== src/App/Policy/Mountpoint.antt =====
-- crates/app/src/workers/ntrip.rs: the test for a mountpoint that is rewritten agrees with the request
-- builder (crates/ntrip-core/src/request.rs).
use open_ntripclient.Base.{
  ℕ, suc, ◌≤◌, Bool, true, false, ◌||◌, [], ◌∷◌, ◌++◌, ◌≡◌, ◌↔◌, refl, ap, ◌∙◌, arith, leb, length,
  length-append, Bool-cases, inl, inr,
}
use open_ntripclient.Base.Bytes.{Bytes}
use open_ntripclient.Ntrip.Request.{encode_byte, encode_mountpoint}
use open_ntripclient.App.Policy.{mountpoint_needs_encoding}

abbrev rewritten : ℕ → Bool
rewritten b = leb b 0x20 || leb 0x7f b

encode_byte_plain : (b : ℕ) → rewritten b ≡ false → encode_byte b ≡ b ∷ []
encode_byte_plain b e = rw e refl

encode_byte_escaped : (b : ℕ) → rewritten b ≡ true → length (encode_byte b) ≡ 3
encode_byte_escaped b e = rw e refl

neither : (a b c : Bool) → (a || b || c) ≡ false → ((a || b) ≡ false) × (c ≡ false)
neither true b c h = absurd (cc)
neither false true c h = absurd (cc)
neither false false c h = (refl, h)

one_of : (a b c : Bool) → (a || b || c) ≡ true → (a || b) ≡ false → c ≡ true
one_of true b c h k = absurd (cc)
one_of false true c h k = absurd (cc)
one_of false false c h k = h

unchanged_bytes : (m : Bytes) → mountpoint_needs_encoding m ≡ false → encode_mountpoint m ≡ m
unfolding mountpoint_needs_encoding encode_mountpoint
unchanged_bytes [] h = refl
unchanged_bytes (b ∷ bs) h =
    let (e, k) = neither (leb b 0x20) (leb 0x7f b) (mountpoint_needs_encoding bs) h in
    ap (λ x. x ++ encode_mountpoint bs) (encode_byte_plain b e) ∙ ap (◌∷◌ b) (unchanged_bytes bs k)

length-encode_byte : (b : ℕ) → 1 ≤ length (encode_byte b)
length-encode_byte b = elim (Bool-cases (rewritten b)) [
  | inl e ↦ omega (arith, encode_byte_escaped b e)
  | inr e ↦ omega (arith, ap length (encode_byte_plain b e))
]

length-encode_mountpoint : (m : Bytes) → length m ≤ length (encode_mountpoint m)
unfolding encode_mountpoint
length-encode_mountpoint [] = omega arith
length-encode_mountpoint (b ∷ bs) = omega (
  arith,
  length-append (encode_byte b) (encode_mountpoint bs),
  length-encode_byte b,
  length-encode_mountpoint bs,
)

longer_bytes :
    (m : Bytes) → mountpoint_needs_encoding m ≡ true → suc (length m) ≤ length (encode_mountpoint m)
unfolding mountpoint_needs_encoding encode_mountpoint
longer_bytes [] h = absurd (cc)
longer_bytes (b ∷ bs) h =
    let split = length-append (encode_byte b) (encode_mountpoint bs) in
    elim (Bool-cases (rewritten b)) [
      | inl e ↦ omega (arith, split, encode_byte_escaped b e, length-encode_mountpoint bs)
      | inr e ↦
          let k = one_of (leb b 0x20) (leb 0x7f b) (mountpoint_needs_encoding bs) h e in
          omega (arith, split, ap length (encode_byte_plain b e), longer_bytes bs k)
    ]

-- The worker's test says that a mountpoint needs no encoding if and only if the request builder's
-- encoding leaves it as it is.
pub needs_encoding_iff :
    (m : Bytes) → (mountpoint_needs_encoding m ≡ false) ↔ (encode_mountpoint m ≡ m)
needs_encoding_iff m = (
  unchanged_bytes m,
  λ e. elim (Bool-cases (mountpoint_needs_encoding m)) [
    | inl t ↦ absurd (omega (arith, longer_bytes m t, ap length e))
    | inr f ↦ f
  ],
)
