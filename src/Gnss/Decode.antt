-- ===== src/Gnss/Decode.antt =====
-- crates/gnss/src/rtcm/decode.rs: the diagnostic decoder. A length in metres is kept as the integer
-- that the message has, in its unit; `position_set` says whether the geodetic position is computed.
pub mod Signed
use Prim.Native.Nat.{bit_and, bit_or}
use open_ntripclient.Base.{
  ℕ, zero, suc, ◌+◌, ◌-◌, ◌*◌, ◌%◌, ◌^◌, Bool, true, false, Option, none, some, List, [], ◌∷◌, ltb,
  ◌==◌, if◌then◌else◌, get_or, length,
}
use open_ntripclient.Base.Bits.{◌<<<◌, ◌>>>◌}
use open_ntripclient.Base.Bytes.{Bytes}
use open_ntripclient.Base.Utf8.{from_utf8_lossy}

-- `negsuc n` is -(n + 1).
pub data ℤ : Type 0 where
  pos negsuc : ℕ → ℤ

pub record BitReader : Type 0 where
  pub data_bytes : Bytes
  pub position : ℕ

-- A read that may fail, and the reader after it.
abbrev pub Read {ℓ} : Type ℓ → Type ℓ
Read A = BitReader → Option (A × BitReader)

infixl 5 ◌>>=◌
abbrev pub ◌>>=◌ {ℓ κ} : {A : Type ℓ} {B : Type κ} → Read A → (A → Read B) → Read B
(m >>= f) r = elim (m r) [ none ↦ none | some (a, r') ↦ f a r' ]

abbrev pub give {ℓ} : {A : Type ℓ} → A → Read A
give a r = some (a, r)

abbrev pub bit_at : Bytes → ℕ → ℕ
bit_at bytes p = bit_and (get_or bytes (p >>> 3) 0 >>> (7 - bit_and p 7)) 1

-- The loop over as many bits, from `p` on, on a u64.
unfoldable pub read_bits : ℕ → Bytes → ℕ → ℕ → ℕ
read_bits zero bytes p v = v
read_bits (suc n) bytes p v =
    read_bits n bytes (suc p) (bit_or ((v <<< 1) % 2 ^ 64) (bit_at bytes p))

-- The cursor's sum does not overflow a usize: a payload has at most 1023 bytes.
unfoldable pub read_u : ℕ → Read ℕ
unfolding read_bits
read_u bits r =
    let end = r.position + bits in
    if ltb (length r.data_bytes * 8) end
    then none
    else some (read_bits bits r.data_bytes r.position 0, record r { position = end })

abbrev pub as_i64 : ℕ → ℤ
as_i64 x = if ltb x (2 ^ 63) then pos x else negsuc (2 ^ 64 - 1 - x)

-- The arithmetic shift `>>`.
abbrev pub sar : ℤ → ℕ → ℤ
sar (pos x) k = pos (x >>> k)
sar (negsuc n) k = negsuc (n >>> k)

unfoldable pub sign_extend : ℕ → ℕ → ℤ
sign_extend bits v = sar (as_i64 ((v <<< (64 - bits)) % 2 ^ 64)) (64 - bits)

unfoldable pub read_s : ℕ → Read ℤ
unfolding read_u sign_extend
read_s bits = do v ← read_u bits; give (sign_extend bits v)

unfoldable pub skip : ℕ → Read {0} Unit
skip bits r =
    let end = r.position + bits in
    if ltb (length r.data_bytes * 8) end then none else some (tt, record r { position = end })

unfoldable pub read_bytes : ℕ → Read Bytes
unfolding read_u
read_bytes zero = give []
read_bytes (suc n) = do b ← read_u 8; bs ← read_bytes n; give (b % 2 ^ 8 ∷ bs)

unfoldable pub read_string : ℕ → Read Bytes
unfolding read_bytes from_utf8_lossy
read_string len = do bs ← read_bytes len; give (from_utf8_lossy bs)

unfoldable pub read_counted : ℕ → Read (Option Bytes)
unfolding read_string
read_counted n = elim (n == 0) [ true ↦ give none | false ↦ (do s ← read_string n; give (some s)) ]

unfoldable pub read_counted_string : Read (Option Bytes)
unfolding read_u read_counted
read_counted_string = do n ← read_u 8; read_counted n

-- In units of 0.0001 m.
pub record BasePosition : Type 0 where
  pub station_id : ℕ
  pub is_1006 : Bool
  pub ecef_x : ℤ
  pub ecef_y : ℤ
  pub ecef_z : ℤ
  pub antenna_height : Option ℕ
  pub position_set : Bool

pub record AntennaInfo : Type 0 where
  pub station_id : ℕ
  pub antenna : Bytes
  pub setup_id : ℕ
  pub antenna_serial : Option Bytes
  pub receiver : Option Bytes
  pub firmware : Option Bytes
  pub receiver_serial : Option Bytes

pub record TextMessage : Type 0 where
  pub station_id : ℕ
  pub mjd : ℕ
  pub seconds_of_day : ℕ
  pub text : Bytes

-- The biases in units of 0.02 m.
pub record GlonassBiases : Type 0 where
  pub station_id : ℕ
  pub bias_indicator : Bool
  pub biases : List (ℕ × ℤ)

pub record MsmHeader : Type 0 where
  pub constellation : Bytes
  pub msg_type : ℕ
  pub station_id : ℕ
  pub epoch : ℕ
  pub num_sats : ℕ
  pub num_signals : ℕ
  pub signal_ids : List ℕ

pub data Decoded : Type 0 where
  base_position : BasePosition → Decoded
  antenna_info : AntennaInfo → Decoded
  text_message : TextMessage → Decoded
  glonass_biases : GlonassBiases → Decoded
  msm_header : MsmHeader → Decoded
