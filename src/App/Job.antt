-- ===== src/App/Job.antt =====
-- crates/app/src/workers/ntrip.rs: what one run of the NTRIP worker is asked to do. A coordinate
-- is the 64 bits of its double, whose comparisons are those of the bits without the sign.
-- A duration is a number of milliseconds.
use open_ntripclient.Base.{
  ℕ, ◌%◌, Bool, true, false, ◌&&◌, ◌||◌, Option, none, some, ◌++◌, ltb, leb, if◌then◌else◌,
  is_empty,
}
use open_ntripclient.Base.Bytes.{Bytes, ascii}
use open_ntripclient.Ntrip.Config.{
  NtripVersion, Transport, ntrip, raw_tcp, GgaPolicy, off, always, when_required,
}

pub data GgaMode : Type 0 where
  gga_off gga_when_required gga_always : GgaMode

pub data GgaSource : Type 0 where
  manual receiver : GgaSource

pub data ReconnectPolicy : Type 0 where
  auto options_off one_shot : ReconnectPolicy

pub record NtripJob : Type 0 where
  pub host : Bytes
  pub port : ℕ
  pub mountpoint : Bytes
  pub username : Bytes
  pub password : Bytes
  pub version : NtripVersion
  pub transport : Transport
  pub tls : Bool
  pub allow_invalid_certs : Bool
  pub gga_mode : GgaMode
  pub gga_source : GgaSource
  pub manual_lat : ℕ
  pub manual_lon : ℕ
  pub stream_requires_gga : Option Bool
  pub reconnect : ReconnectPolicy
  pub max_attempts : ℕ
  pub audio_alert : Bytes
  pub capture : Bool
  pub user_agent : Bytes

abbrev pub is_ntrip : Transport → Bool
is_ntrip ntrip = true
is_ntrip raw_tcp = false

unfoldable pub is_table_request : NtripJob → Bool
is_table_request job = is_ntrip job.transport && is_empty job.mountpoint

unfoldable pub enabled : ReconnectPolicy → Bool
enabled auto = true
enabled _ = false

abbrev pub unwrap_or {ℓ} : {A : Type ℓ} → A → Option A → A
unwrap_or d none = d
unwrap_or d (some a) = a

unfoldable pub gga_policy : GgaMode → Option Bool → GgaPolicy
gga_policy gga_off stream_requires = off
gga_policy gga_always stream_requires = always
gga_policy gga_when_required stream_requires = when_required (unwrap_or true stream_requires)

abbrev pub sign_bit : ℕ
sign_bit = 0x8000000000000000

-- The bits of the absolute value; those of a NaN are above every number's.
abbrev pub magnitude : ℕ → ℕ
magnitude x = x % sign_bit

abbrev pub ninety : ℕ
ninety = 0x4056800000000000

abbrev pub hundred_eighty : ℕ
hundred_eighty = 0x4066800000000000

abbrev pub manual_position_set : ℕ → ℕ → Bool
manual_position_set lat lon =
    leb (magnitude lat) ninety
    && leb (magnitude lon) hundred_eighty
    && (ltb 0 (magnitude lat) || ltb 0 (magnitude lon))

abbrev pub has_manual : NtripJob → Bool
has_manual job = manual_position_set job.manual_lat job.manual_lon

-- `format!("{:.digits}", x)` of the float `x` nearest to a quotient: Rust's formatting of floating
-- point, as a parameter.
abbrev pub FloatText : Type 0
FloatText = ℕ → ℕ → ℕ → Bytes

unfoldable pub fmt_duration : FloatText → ℕ → Bytes
fmt_duration fixed ms =
    if ltb ms 10000
    then fixed 1 ms 1000 ++ ascii " s"
    else if ltb ms 120000
    then fixed 0 ms 1000 ++ ascii " s"
    else if ltb ms 7200000
    then fixed 0 ms 60000 ++ ascii " min"
    else fixed 1 ms 3600000 ++ ascii " h"
