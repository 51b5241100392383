-- ===== src/Tests/Gnss.antt =====
-- Runs of the deframer and of its check (crates/gnss/src/rtcm).
use open_ntripclient.Base.{[], ◌∷◌, ◌++◌, ◌≡◌, refl, take, drop, length, ◌+◌, ◌%◌, ◌^◌, ◌<◌, arith}
use open_ntripclient.Base.{true, false, some, none}
use open_ntripclient.Gnss.Decode.{
  pos, negsuc, base_position, Decoded, BitReader, ◌>>=◌, give, read_u, read_s,
}
use open_ntripclient.Gnss.Decode.Signed.{two_complement, read_s-read_u}
use open_ntripclient.Gnss.Messages.Sized.{base_bytes, length-decode}
use open_ntripclient.Base.{◌≤◌}
use open_ntripclient.Gnss.Messages.{decode}
use open_ntripclient.Gnss.Names.{type_name, msm_name, msm_constellation}
use open_ntripclient.Gnss.Names.Known.{is_some, msm_name-msm_constellation}
use open_ntripclient.Base.Bytes.{Bytes, ascii}
use open_ntripclient.Gnss.Crc24q.{crc24q}
use open_ntripclient.Gnss.Clock.{
  civil_from_days, year_of_era, day_of_year, utc_from_unix, days_from_civil,
}
use open_ntripclient.Gnss.Clock.Dates.{days_from_civil-civil_from_days}
use open_ntripclient.Gnss.Frame.{frame, crc_error, garbage, empty, message_type, feed}
use open_ntripclient.Gnss.Frame.Accounting.{discarded, failures, feed_accounting}
use open_ntripclient.Gnss.Frame.Agreement.{findings}
use open_ntripclient.Gnss.Frame.Delivery.{feed_resync}
use open_ntripclient.Gnss.Frame.Encoding.{encode_frame}
use open_ntripclient.Gnss.Frame.Layout.{Reads}
use open_ntripclient.Gnss.Frame.Held.{length-feed}
use open_ntripclient.Gnss.Frame.Split.{feed_split}
use open_ntripclient.Base.Bytes.{AreBytes}

-- The 1005 message of the RTCM 3 documentation.
abbrev message_1005 : Bytes
message_1005 =
    0xD3 ∷ 0x00 ∷ 0x13 ∷ 0x3E ∷ 0xD7 ∷ 0xD3 ∷ 0x02 ∷ 0x02 ∷ 0x98 ∷ 0x0E ∷ 0xDE ∷ 0xEF ∷ 0x34 ∷ 0xB4
    ∷ 0xBD ∷ 0x62 ∷ 0xAC ∷ 0x09 ∷ 0x41 ∷ 0x98 ∷ 0x6F ∷ 0x33 ∷ 0x36 ∷ 0x0B ∷ 0x98 ∷ []

check_value : crc24q (ascii "123456789") ≡ 0xCDE703
unfolding crc24q
check_value = refl

message_1005_run :
    (feed empty (ascii "junk" ++ message_1005)).events
    ≡ garbage 4 ∷ frame 1005 (take 19 (drop 3 message_1005)) ∷ []
unfolding feed
message_1005_run = refl

corrupt_run : (feed empty (0xD3 ∷ 0 ∷ 1 ∷ 7 ∷ 0 ∷ 0 ∷ 0 ∷ [])).events ≡ crc_error ∷ garbage 7 ∷ []
unfolding feed
corrupt_run = refl

encode_frame_run : encode_frame (take 19 (drop 3 message_1005)) ≡ message_1005
unfolding encode_frame crc24q
encode_frame_run = refl

feed_split_example :
    let f = feed empty (take 10 message_1005) in
    let g = feed f.deframer (drop 10 message_1005) in
    let h = feed empty (take 10 message_1005 ++ drop 10 message_1005) in
    (h.deframer ≡ g.deframer) × (findings h.events ≡ findings f.events ++ findings g.events)
feed_split_example = feed_split empty (take 10 message_1005) (drop 10 message_1005)

feed_accounting_example :
    let f = feed empty (ascii "junk" ++ message_1005) in
    Reads f.events (ascii "junk" ++ message_1005) f.deframer.buf
    × (f.deframer.garbage_bytes ≡ (0 + discarded f.events) % 2 ^ 64)
    × (f.deframer.crc_failures ≡ (0 + failures f.events) % 2 ^ 64)
feed_accounting_example =
    feed_accounting empty (ascii "junk" ++ message_1005) (omega arith) (omega arith)

abbrev part : Bytes
part = 0xD3 ∷ 3 ∷ 255 ∷ 7 ∷ []

length-feed_example :
    (length (feed empty part).deframer.buf < 1029) × AreBytes (feed empty part).deframer.buf
length-feed_example =
    length-feed empty part tt (omega arith, (omega arith, (omega arith, (omega arith, tt))))

feed_resync_example :
    let f = feed empty (ascii "junk" ++ encode_frame (take 19 (drop 3 message_1005))) in
    (findings f.events
      ≡ frame (message_type (take 19 (drop 3 message_1005))) (take 19 (drop 3 message_1005)) ∷ [])
    × (f.deframer.buf ≡ [])
feed_resync_example =
    feed_resync empty (ascii "junk") (take 19 (drop 3 message_1005)) refl refl (omega arith)

abbrev position_1005 : Decoded
position_1005 = base_position (record {
  station_id = 2003;
  is_1006 = false;
  ecef_x = pos 11141045999;
  ecef_y = negsuc 48507297107;
  ecef_z = pos 39755214643;
  antenna_height = none;
  position_set = true;
})

decode_1005_run : decode 1005 (take 19 (drop 3 message_1005)) ≡ some position_1005
unfolding decode
decode_1005_run = refl

decode_truncated_run : decode 1005 (take 18 (drop 3 message_1005)) ≡ none
unfolding decode
decode_truncated_run = refl

msm_names_run : (type_name 1077 ≡ some (ascii "GPS MSM7")) × (type_name 1070 ≡ none)
unfolding type_name
msm_names_run = (refl, refl)

msm_name-msm_constellation_example : is_some (msm_name 1127) ≡ is_some (msm_constellation 1127)
msm_name-msm_constellation_example = msm_name-msm_constellation 1127

-- 0xFE2 in twelve bits, after four.
abbrev reader : BitReader
reader = record { data_bytes = 0x1F ∷ 0xE2 ∷ []; position = 4 }

signed_run : read_s 12 reader ≡ some (negsuc 29, record reader { position = 16 })
unfolding read_s
signed_run = refl

read_s-read_u_example : read_s 12 reader ≡ (read_u 12 >>= λ v. give (two_complement 12 v)) reader
read_s-read_u_example = read_s-read_u 12 reader (omega arith) (omega arith)

length-decode_example : base_bytes false ≤ length (take 19 (drop 3 message_1005))
length-decode_example =
    length-decode false (take 19 (drop 3 message_1005)) position_1005 decode_1005_run

-- 2024-02-29 is day 19782; 1600-02-29, before the epoch, is day -135081.
leap_day_run : civil_from_days (pos 19782) ≡ record { year = pos 2024; month = 2; day = 29 }
unfolding civil_from_days
leap_day_run = refl

early_day_run : civil_from_days (negsuc 135080) ≡ record { year = pos 1600; month = 2; day = 29 }
unfolding civil_from_days
early_day_run = refl

clock_run : utc_from_unix (negsuc 0) 25 ≡ record {
  date = record { year = pos 1969; month = 12; day = 31 };
  hour = 23;
  min = 59;
  sec = 59;
  centis = 25;
}
unfolding utc_from_unix
clock_run = refl

days_from_civil-civil_from_days_example :
    let d = civil_from_days (negsuc 135080) in
    (1 ≤ d.month)
    × (d.month ≤ 12)
    × (1 ≤ d.day)
    × (d.day ≤ 31)
    × (days_from_civil d ≡ negsuc 135080)
unfolding year_of_era day_of_year
days_from_civil-civil_from_days_example =
    days_from_civil-civil_from_days (negsuc 135080) (omega arith)
