-- ===== src/Gnss/Messages.antt =====
-- crates/gnss/src/rtcm/decode.rs: the decoders of the message types.
pub mod Sized
use Prim.Native.Nat.{bit_and}
use open_ntripclient.Base.{
  ℕ, zero, suc, ◌+◌, ◌*◌, ◌/◌, ◌%◌, ◌^◌, Bool, true, false, not, ◌&&◌, Option, none, some, List, [],
  ◌∷◌, ◌==◌, if◌then◌else◌, is_empty,
}
use open_ntripclient.Base.Bits.{◌>>>◌}
use open_ntripclient.Base.Bytes.{Bytes}
use open_ntripclient.Gnss.Decode.{
  ℤ, pos, BitReader, Read, ◌>>=◌, give, read_u, read_s, skip, read_string, read_counted_string,
  Decoded, base_position, antenna_info, text_message, glonass_biases, msm_header,
}
use open_ntripclient.Gnss.Names.{msm_constellation}

abbrev is_zero : ℤ → Bool
is_zero (pos zero) = true
is_zero _ = false

unfoldable pub read_height : Bool → Read (Option ℕ)
unfolding read_u
read_height true = do h ← read_u 16; give (some h)
read_height false = give none

unfoldable pub decode_base : Bool → Read Decoded
unfolding read_u read_s skip read_height
decode_base is_1006 = do
  station_id ← read_u 12
  _ ← skip (6 + 1 + 1 + 1 + 1)
  x ← read_s 38
  _ ← skip (1 + 1)
  y ← read_s 38
  _ ← skip 2
  z ← read_s 38
  height ← read_height is_1006
  give (
      base_position (record {
        station_id = station_id % 2 ^ 16;
        is_1006 = is_1006;
        ecef_x = x;
        ecef_y = y;
        ecef_z = z;
        antenna_height = height;
        position_set = not (is_zero x && is_zero y && is_zero z);
      }))

unfoldable pub decode_1008 : Read Decoded
unfolding read_u read_string
decode_1008 = do
  station_id ← read_u 12
  n ← read_u 8
  antenna ← read_string n
  setup_id ← read_u 8
  m ← read_u 8
  serial ← read_string m
  give (
      antenna_info (record {
        station_id = station_id % 2 ^ 16;
        antenna = antenna;
        setup_id = setup_id % 2 ^ 8;
        antenna_serial = if is_empty serial then none else some serial;
        receiver = none;
        firmware = none;
        receiver_serial = none;
      }))

unfoldable pub decode_1029 : Read Decoded
unfolding read_u read_string
decode_1029 = do
  station_id ← read_u 12
  mjd ← read_u 16
  seconds_of_day ← read_u 17
  _ ← read_u 7
  num_bytes ← read_u 8
  text ← read_string num_bytes
  give (
      text_message (record {
        station_id = station_id % 2 ^ 16;
        mjd = mjd % 2 ^ 16;
        seconds_of_day = seconds_of_day % 2 ^ 32;
        text = text;
      }))

unfoldable pub decode_1033 : Read Decoded
unfolding read_u read_string read_counted_string
decode_1033 = do
  station_id ← read_u 12
  n ← read_u 8
  antenna ← read_string n
  setup_id ← read_u 8
  antenna_serial ← read_counted_string
  receiver ← read_counted_string
  firmware ← read_counted_string
  receiver_serial ← read_counted_string
  give (
      antenna_info (record {
        station_id = station_id % 2 ^ 16;
        antenna = antenna;
        setup_id = setup_id % 2 ^ 8;
        antenna_serial = antenna_serial;
        receiver = receiver;
        firmware = firmware;
        receiver_serial = receiver_serial;
      }))

-- The loop over the signals from `signal` on, as many as `count`.
unfoldable pub read_biases : ℕ → ℕ → ℕ → Read (List (ℕ × ℤ))
unfolding read_s
read_biases zero mask signal = give []
read_biases (suc count) mask signal = elim (bit_and mask (0x8 >>> signal) == 0) [
  | true ↦ read_biases count mask (suc signal)
  | false ↦ (do
    raw ← read_s 16
    rest ← read_biases count mask (suc signal)
    give ((signal, raw) ∷ rest))
]

unfoldable pub decode_1230 : Read Decoded
unfolding read_u skip read_biases
decode_1230 = do
  station_id ← read_u 12
  bias_indicator ← read_u 1
  _ ← skip 3
  mask ← read_u 4
  biases ← read_biases 4 (mask % 2 ^ 8) 0
  give (
      glonass_biases (record {
        station_id = station_id % 2 ^ 16;
        bias_indicator = bias_indicator == 1;
        biases = biases;
      }))

-- How many of the lowest bits are set.
unfoldable pub count_ones : ℕ → ℕ → ℕ
count_ones zero mask = 0
count_ones (suc bits) mask = mask % 2 + count_ones bits (mask / 2)

-- The numbers from `i + 1` on, as many as `count`, whose bits are set.
unfoldable pub signals_from : ℕ → ℕ → ℕ → List ℕ
signals_from zero mask i = []
signals_from (suc count) mask i =
    let rest = signals_from count mask (suc i) in
    if bit_and mask (0x80000000 >>> i) == 0 then rest else suc i ∷ rest

unfoldable pub decode_msm_header : ℕ → Bytes → Read Decoded
unfolding read_u skip count_ones signals_from
decode_msm_header msg_type constellation = do
  station_id ← read_u 12
  epoch ← read_u 30
  _ ← skip (1 + 3 + 7 + 2 + 2 + 1 + 3)
  sat_mask ← read_u 64
  sig_mask ← read_u 32
  _ ← skip (count_ones 64 sat_mask * count_ones 32 sig_mask)
  give (
      msm_header (record {
        constellation = constellation;
        msg_type = msg_type;
        station_id = station_id % 2 ^ 16;
        epoch = epoch % 2 ^ 32;
        num_sats = count_ones 64 sat_mask;
        num_signals = count_ones 32 sig_mask;
        signal_ids = signals_from 32 sig_mask 0;
      }))

abbrev pub decode_msm : ℕ → Option Bytes → Read Decoded
decode_msm t none r = none
decode_msm t (some constellation) r = decode_msm_header t constellation r

-- The match on the message type.
unfoldable pub decode_body : ℕ → Read Decoded
unfolding decode_base decode_1008 decode_1029 decode_1033 decode_1230 decode_msm_header
decode_body t =
    if t == 1005
    then decode_base false
    else if t == 1006
    then decode_base true
    else if t == 1008
    then decode_1008
    else if t == 1029
    then decode_1029
    else if t == 1033
    then decode_1033
    else if t == 1230
    then decode_1230
    else decode_msm t (msm_constellation t)

abbrev pub decode_numbered : ℕ → ℕ → Read Decoded
decode_numbered msg_type number = elim (number % 2 ^ 16 == msg_type) [
  | false ↦ (λ r. none)
  | true ↦ decode_body msg_type
]

abbrev pub decoded : Option (Decoded × BitReader) → Option Decoded
decoded none = none
decoded (some (d, _)) = some d

unfoldable pub decode : ℕ → Bytes → Option Decoded
unfolding read_u decode_body
decode msg_type payload = decoded (
    (do number ← read_u 12; decode_numbered msg_type number)
      (record { data_bytes = payload; position = 0 }))
