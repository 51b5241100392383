-- ===== src/Gnss/Frame/Encoding.antt =====
-- crates/gnss/src/rtcm/frame.rs: how the deframer reads a frame that an encoder has written.
use Prim.Native.Nat.{bit_and, bit_or, bit_xor}
use native.Mathlib.Nat.{pow-suc}
use open_ntripclient.Base.{
  ℕ, zero, suc, ◌+◌, ◌*◌, ◌/◌, ◌%◌, ◌^◌, ◌<◌, true, false, [], ◌∷◌, ◌++◌, ◌≡◌, refl, sym, ap, ◌∙◌,
  arith, ltb, ◌==◌, ==_iff, all_below, all_below-lt, length, take, drop, get_or, length-append,
  take_of_append, drop_of_length-le,
}
use open_ntripclient.Base.Bits.{◌<<<◌, ◌>>>◌, bit_or_disjoint, bit_and_low}
use open_ntripclient.Base.Bytes.{Bytes}
use open_ntripclient.Gnss.Crc24q.{shl_u32, build_table, crc_byte, crc_from, crc24q}
use open_ntripclient.Gnss.Frame.{
  frame, Scan, candidate, payload_length, look_length, look, flush_run, judge, crc_holds,
  stated_crc, message_type, payload_of, scan_round, scan_loop,
}

lt_pow_self : (n : ℕ) → n < 2 ^ n
lt_pow_self zero = omega arith
lt_pow_self (suc n) = omega (arith, pow-suc 2 n, lt_pow_self n)

crc_byte-lt : (crc b : ℕ) → crc_byte crc b < 2 ^ 24
unfolding crc_byte
crc_byte-lt crc b =
    let index = bit_and (bit_xor (crc >>> 16) b) 0xFF in
    let x = bit_xor (shl_u32 crc 8) (get_or build_table index 0) in
    omega (arith, bit_and_low x 24 x (lt_pow_self x))

crc_from-lt : (crc : ℕ) (bs : Bytes) → crc < 2 ^ 24 → crc_from crc bs < 2 ^ 24
unfolding crc_from
crc_from-lt crc [] h = h
crc_from-lt crc (b ∷ bs) h = crc_from-lt (crc_byte crc b) bs (crc_byte-lt crc b)

crc24q-lt : (bs : Bytes) → crc24q bs < 2 ^ 24
unfolding crc24q
crc24q-lt bs = crc_from-lt 0 bs (omega arith)

-- The encoder: the sync byte, the length, the payload, and the check.
abbrev header_and : Bytes → Bytes
header_and payload = 0xD3 ∷ length payload / 256 ∷ length payload % 256 ∷ payload

abbrev crc_bytes : ℕ → Bytes
crc_bytes c = c / 65536 ∷ c / 256 % 256 ∷ c % 256 ∷ []

unfoldable pub encode_frame : Bytes → Bytes
encode_frame payload = header_and payload ++ crc_bytes (crc24q (header_and payload))

crc_bytes_read :
    (c : ℕ)
    → c < 2 ^ 24
    → bit_or (bit_or ((c / 65536) <<< 16) ((c / 256 % 256) <<< 8)) (c % 256) ≡ c
crc_bytes_read c h =
    let x : bit_or ((c / 65536) <<< 16) ((c / 256 % 256) <<< 8)
        ≡ c / 65536 * 2 ^ 16 + c / 256 % 256 * 2 ^ 8 =
      bit_or_disjoint 8 16 (c / 65536) ((c / 256 % 256) <<< 8) (omega arith) (omega arith) in
    let y : c / 65536 * 2 ^ 16 + c / 256 % 256 * 2 ^ 8 ≡ c / 256 * 2 ^ 8 = omega arith in
    rw (x, y) (bit_or_disjoint 16 8 (c / 256) (c % 256) (omega arith) (omega arith) ∙ omega arith)

get_or_after : (xs ys : Bytes) (i : ℕ) → get_or (xs ++ ys) (length xs + i) 0 ≡ get_or ys i 0
get_or_after [] ys i = let e : 0 + i ≡ i = omega arith in rw e refl
get_or_after (x ∷ xs) ys i =
    let e : suc (length xs) + i ≡ suc (length xs + i) = omega arith in rw e (get_or_after xs ys i)

length_field_read : (n : ℕ) → n < 1024 → payload_length (n / 256) (n % 256) ≡ n
length_field_read n h =
    let m : bit_and (n / 256) 3 ≡ n / 256 = bit_and_low 8 2 (n / 256) (omega arith) ∙ omega arith in
    rw m (bit_or_disjoint 2 8 (n / 256) (n % 256) (omega arith) (omega arith) ∙ omega arith)

reserved_table : all_below 4 (λ a. bit_and a 0xFC == 0) ≡ true
unfolding all_below
reserved_table = refl

look-encode_frame :
    (payload : Bytes)
    → length payload < 1024
    → look (encode_frame payload) ≡ candidate (length payload)
unfolding look look_length encode_frame
look-encode_frame payload h =
    let n = length payload in
    let a : (bit_and (n / 256) 0xFC == 0) ≡ true =
      all_below-lt 4 _ (n / 256) reserved_table (omega arith) in
    let l = length-append payload (crc_bytes (crc24q (header_and payload))) in
    let e = length_field_read n h in
    let f : ltb (suc (suc (suc (length (payload ++ crc_bytes (crc24q (header_and payload)))))))
          (3 + n + 3)
        ≡ false =
      ground (arith, l) in
    rw a (rw (e, f) refl)

crc_holds_of :
    (len : ℕ) (rest q : Bytes)
    → take (3 + len) rest ≡ q
    → stated_crc len rest ≡ crc24q q
    → crc_holds len rest ≡ true
unfolding crc_holds
crc_holds_of len rest q e f = rw e ((==_iff (crc24q q) (stated_crc len rest)).1 (sym f))

stated_crc-append :
    (q : Bytes) (len c : ℕ)
    → length q ≡ 3 + len
    → c < 2 ^ 24
    → stated_crc len (q ++ crc_bytes c) ≡ c
stated_crc-append q len c e h =
    let t = crc_bytes c in
    let e0 : 3 + len ≡ length q + 0 = omega (arith, e) in
    let e1 : 4 + len ≡ length q + 1 = omega (arith, e) in
    let e2 : 5 + len ≡ length q + 2 = omega (arith, e) in
    rw (e0, e1, e2, get_or_after q t 0, get_or_after q t 1, get_or_after q t 2) (crc_bytes_read c h)

crc_holds-encode_frame :
    (payload : Bytes) → crc_holds (length payload) (encode_frame payload) ≡ true
unfolding encode_frame
crc_holds-encode_frame payload =
    let q = header_and payload in
    let c = crc24q q in
    let l : length q ≡ 3 + length payload = omega arith in
    crc_holds_of (length payload) (q ++ crc_bytes c) q
      (ap (λ n. take n (q ++ crc_bytes c)) (sym l) ∙ take_of_append q (crc_bytes c))
      (stated_crc-append q (length payload) c l (crc24q-lt q))

payload_of-encode_frame :
    (payload : Bytes) → payload_of (length payload) (encode_frame payload) ≡ payload
unfolding encode_frame
payload_of-encode_frame payload = take_of_append payload _

drop-encode_frame : (payload : Bytes) → drop (3 + length payload + 3) (encode_frame payload) ≡ []
unfolding encode_frame
drop-encode_frame payload =
    let t = crc_bytes (crc24q (header_and payload)) in
    drop_of_length-le (3 + length payload + 3) (header_and payload ++ t)
      (omega (arith, length-append payload t))

-- The one round that takes the frame.
pub scan_round-encode_frame :
    (fuel : ℕ) (payload : Bytes) (s : Scan)
    → length payload < 1024
    → s.run ≡ 0
    → s.rest ≡ encode_frame payload
    → let t = scan_loop (suc fuel) s in
      (t
        ≡ scan_loop fuel (record s {
          rest = [];
          events = s.events ++ frame (message_type payload) payload ∷ [];
        }))
unfolding scan_loop scan_round judge flush_run
scan_round-encode_frame fuel payload s h r e =
    let l : look s.rest ≡ candidate (length payload) = ap look e ∙ look-encode_frame payload h in
    let c : crc_holds (length payload) s.rest ≡ true =
      ap (crc_holds (length payload)) e ∙ crc_holds-encode_frame payload in
    rw l (rw (c, r) (rw (e, drop-encode_frame payload, payload_of-encode_frame payload) refl))
