-- ===== src/Ntrip/Base64/RoundTrip.antt =====
-- The encoder of crates/ntrip-core/src/base64.rs against a decoder written from RFC 4648.
use Prim.Native.Nat.{bit_or}
use open_ntripclient.Base.{
  ℕ, ◌+◌, ◌-◌, ◌*◌, ◌/◌, ◌%◌, ◌^◌, ◌<◌, true, false, [], ◌∷◌, ◌++◌, ◌≡◌, refl, ap, ◌∙◌, ◌==◌,
  if◌then◌else◌, length, arith, ==_iff, all_below, all_below-lt,
}
use open_ntripclient.Base.Bytes.{AreBytes, Bytes, within}
use open_ntripclient.Base.Bits.{◌<<<◌, bit_or_disjoint, bit_and_low}
use open_ntripclient.Ntrip.Base64.{symbol, sextet, encode_chunk, encode}

-- The value of a symbol; 64 for a character that is none, such as the padding.
abbrev pub symbol_value : ℕ → ℕ
symbol_value c =
    if within b'A' b'Z' c
    then c - b'A'
    else if within b'a' b'z' c
    then c - b'a' + 26
    else if within b'0' b'9' c
    then c - b'0' + 52
    else if c == b'+'
    then 62
    else if c == b'/'
    then 63
    else 64

-- Four symbols give three bytes; with one `=`, two; with two, one.
pub decode_chunk : ℕ → ℕ → ℕ → ℕ → Bytes
decode_chunk p q r s =
    let first = p * 4 + q / 16 in
    let second = q % 16 * 16 + r / 4 in
    let third = r % 4 * 64 + s in
    if r == 64
    then first ∷ []
    else if s == 64
    then first ∷ second ∷ []
    else first ∷ second ∷ third ∷ []

pub decode : Bytes → Bytes
unfolding decode_chunk
decode (p ∷ q ∷ r ∷ s ∷ rest) =
    decode_chunk (symbol_value p) (symbol_value q) (symbol_value r) (symbol_value s) ++ decode rest
decode _ = []

symbol_table : all_below 64 (λ i. symbol_value (symbol i) == i) ≡ true
unfolding all_below
symbol_table = refl

symbol_value-symbol : (i : ℕ) → i < 64 → symbol_value (symbol i) ≡ i
symbol_value-symbol i h =
    (==_iff _ i).0 (all_below-lt 64 (λ j. symbol_value (symbol j) == j) i symbol_table h)

word_sum :
    (a b c : ℕ)
    → a < 256
    → b < 256
    → c < 256
    → bit_or (bit_or (a <<< 16) (b <<< 8)) c ≡ a * 65536 + b * 256 + c
word_sum a b c ha hb hc =
    let e : a * 65536 + b * 256 ≡ (a * 256 + b) * 2 ^ 8 = omega arith in
    rw (bit_or_disjoint 8 16 a (b * 256) ha (omega arith), e)
      (bit_or_disjoint 16 8 (a * 256 + b) c (omega arith) hc)

-- The four groups of six bits of a chunk's word.
record AreSextets (n a b c : ℕ) : Type 0 where
  first : sextet n 18 ≡ a / 4
  second : sextet n 12 ≡ a % 4 * 16 + b / 16
  third : sextet n 6 ≡ b % 16 * 4 + c / 64
  fourth : sextet n 0 ≡ c % 64

word-AreSextets :
    (n a b c : ℕ) → n ≡ a * 65536 + b * 256 + c → a < 256 → b < 256 → c < 256 → AreSextets n a b c
word-AreSextets n a b c e ha hb hc = record {
  first = omega (arith, bit_and_low 24 6 (n / 2 ^ 18) (omega arith));
  second = omega (arith, bit_and_low 24 6 (n / 2 ^ 12) (omega arith));
  third = omega (arith, bit_and_low 24 6 (n / 2 ^ 6) (omega arith));
  fourth = omega (arith, bit_and_low 24 6 (n / 2 ^ 0) (omega arith));
}

not_pad : (i : ℕ) → i < 64 → (i == 64) ≡ false
not_pad i h = ground arith

decode_three :
    (p q r s : ℕ) (rest : Bytes)
    → p < 64
    → q < 64
    → r < 64
    → s < 64
    → decode (symbol p ∷ symbol q ∷ symbol r ∷ symbol s ∷ rest)
      ≡ (p * 4 + q / 16) ∷ (q % 16 * 16 + r / 4) ∷ (r % 4 * 64 + s) ∷ decode rest
unfolding decode
decode_three p q r s rest hp hq hr hs = rw (
  symbol_value-symbol p hp,
  symbol_value-symbol q hq,
  symbol_value-symbol r hr,
  symbol_value-symbol s hs,
  not_pad r hr,
  not_pad s hs,
)

decode_two :
    (p q r : ℕ)
    → p < 64
    → q < 64
    → r < 64
    → decode (symbol p ∷ symbol q ∷ symbol r ∷ b'=' ∷ [])
      ≡ (p * 4 + q / 16) ∷ (q % 16 * 16 + r / 4) ∷ []
unfolding decode
decode_two p q r hp hq hr =
    rw (symbol_value-symbol p hp, symbol_value-symbol q hq, symbol_value-symbol r hr, not_pad r hr)

decode_one :
    (p q : ℕ)
    → p < 64
    → q < 64
    → decode (symbol p ∷ symbol q ∷ b'=' ∷ b'=' ∷ []) ≡ (p * 4 + q / 16) ∷ []
unfolding decode
decode_one p q hp hq = rw (symbol_value-symbol p hp, symbol_value-symbol q hq)

encode_three :
    (a b c : ℕ) (rest : Bytes)
    → a < 256
    → b < 256
    → c < 256
    → decode (encode_chunk (a ∷ b ∷ c ∷ []) ++ rest) ≡ a ∷ b ∷ c ∷ decode rest
unfolding encode_chunk
encode_three a b c rest ha hb hc =
    let w = word-AreSextets _ a b c (word_sum a b c ha hb hc) ha hb hc in
    let x : a / 4 * 4 + (a % 4 * 16 + b / 16) / 16 ≡ a = omega arith in
    let y : (a % 4 * 16 + b / 16) % 16 * 16 + (b % 16 * 4 + c / 64) / 4 ≡ b = omega arith in
    let z : (b % 16 * 4 + c / 64) % 4 * 64 + c % 64 ≡ c = omega arith in
    rw (w.first, w.second, w.third, w.fourth)
      (decode_three (a / 4) (a % 4 * 16 + b / 16) (b % 16 * 4 + c / 64) (c % 64) rest (omega arith)
          (omega arith) (omega arith) (omega arith)
        ∙ rw (x, y, z))

-- Decoding what was encoded gives the bytes back.
pub decode-encode : (bs : Bytes) → AreBytes bs → decode (encode bs) ≡ bs
unfolding encode
decode-encode [] h = unfold decode in refl
decode-encode (a ∷ []) (ha, _) =
    let w =
      word-AreSextets _ a 0 0 (word_sum a 0 0 ha (omega arith) (omega arith)) ha (omega arith)
        (omega arith) in
    let x : a / 4 * 4 + (a % 4 * 16 + 0 / 16) / 16 ≡ a = omega arith in
    unfold encode_chunk in
    rw (w.first, w.second)
      (decode_one (a / 4) (a % 4 * 16 + 0 / 16) (omega arith) (omega arith) ∙ rw x)
decode-encode (a ∷ b ∷ []) (ha, (hb, _)) =
    let w = word-AreSextets _ a b 0 (word_sum a b 0 ha hb (omega arith)) ha hb (omega arith) in
    let x : a / 4 * 4 + (a % 4 * 16 + b / 16) / 16 ≡ a = omega arith in
    let y : (a % 4 * 16 + b / 16) % 16 * 16 + (b % 16 * 4 + 0 / 64) / 4 ≡ b = omega arith in
    unfold encode_chunk in
    rw (w.first, w.second, w.third)
      (decode_two (a / 4) (a % 4 * 16 + b / 16) (b % 16 * 4 + 0 / 64) (omega arith) (omega arith)
          (omega arith)
        ∙ rw (x, y))
decode-encode (a ∷ b ∷ c ∷ rest) (ha, (hb, (hc, h))) =
    encode_three a b c (encode rest) ha hb hc
    ∙ ap (λ (t : Bytes). a ∷ b ∷ c ∷ t) (decode-encode rest h)

-- The encoder's output has four characters for each three bytes, a part of three counted whole.
pub length-encode : (bs : Bytes) → length (encode bs) ≡ (length bs + 2) / 3 * 4
unfolding encode encode_chunk
length-encode [] = omega arith
length-encode (a ∷ []) = omega arith
length-encode (a ∷ b ∷ []) = omega arith
length-encode (a ∷ b ∷ c ∷ rest) = omega (arith, length-encode rest)
