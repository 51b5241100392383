-- ===== src/App/Policy.antt =====
-- crates/app/src/workers/ntrip.rs: the worker's decisions on reconnecting, positions and traffic,
-- and the lines that report them.
pub mod Mountpoint
pub mod Positions
pub mod Traffic
use open_ntripclient.Base.{
  ℕ, zero, suc, ◌+◌, ◌/◌, ◌%◌, Bool, true, false, not, ◌&&◌, ◌||◌, Option, none, some, List, [],
  ◌∷◌, ◌++◌, ltb, leb, ◌==◌, if◌then◌else◌, is_empty, length, get_elem?, get_or,
}
use open_ntripclient.Base.Bytes.{Bytes, ascii, decimal, equal, within, lf}
use open_ntripclient.Base.Text.{split, split_whitespace}
use open_ntripclient.Base.Utf8.{from_utf8_lossy}
use open_ntripclient.Ntrip.Config.{
  Transport, ntrip, raw_tcp, GgaPolicy, off, always, when_required, CloseReason, unknown_response,
  remote_closed, stream_silence,
}
use open_ntripclient.Ntrip.Sourcetable.{parse_below}
use open_ntripclient.App.Job.{
  GgaMode, GgaSource, manual, receiver, ReconnectPolicy, auto, options_off, one_shot, is_ntrip,
  gga_policy,
}

unfoldable pub mountpoint_needs_encoding : Bytes → Bool
mountpoint_needs_encoding [] = false
mountpoint_needs_encoding (b ∷ bs) = leb b 0x20 || leb 0x7f b || mountpoint_needs_encoding bs

unfoldable pub mib_crossed : ℕ → ℕ → Option ℕ
mib_crossed before after =
    let a = after / 1048576 in if ltb (before / 1048576) a then some a else none

abbrev pub verdict_text : ℕ → ℕ → Bytes
verdict_text zero crc_failures = ascii " - no RTCM3 frames yet"
verdict_text (suc frames) zero = ascii " - RTCM3 framing clean"
verdict_text (suc frames) (suc crc_failures) = []

abbrev pub crosses : ℕ → ℕ → ℕ → Bool
crosses mark before after = ltb before mark && leb mark after

abbrev pub early_mark : ℕ → ℕ → Option Bytes
early_mark before after =
    if crosses 100000 before after
    then some (ascii "100 kB")
    else if crosses 10000 before after
    then some (ascii "10 kB")
    else none

abbrev pub mark_of : Option ℕ → ℕ → ℕ → Option Bytes
mark_of (some mib) before after = some (decimal 20 mib ++ ascii " MiB")
mark_of none before after = early_mark before after

abbrev pub report_mark : Option Bytes → ℕ → ℕ → Option Bytes
report_mark none frames crc_failures = none
report_mark (some mark) frames crc_failures =
    some (ascii "Received " ++ (mark ++ verdict_text frames crc_failures))

unfoldable pub traffic_milestone : ℕ → ℕ → ℕ → ℕ → Option Bytes
unfolding mib_crossed decimal
traffic_milestone before after frames crc_failures =
    report_mark (mark_of (mib_crossed before after) before after) frames crc_failures

abbrev pub plan_for : Bool → GgaSource → Bool → Bool → Bytes
plan_for false source ready manual_set = ascii "GGA off"
plan_for true manual ready true = ascii "sending GGA every 10 s (manual position)"
plan_for true manual ready false =
    ascii "GGA wanted but the manual position is not set - edit the profile"
plan_for true receiver true manual_set = ascii "sending GGA every 10 s (receiver passthrough)"
plan_for true receiver false manual_set =
    ascii "will send receiver GGA every 10 s (none until the receiver supplies a fix)"

abbrev pub plan_enabled : GgaPolicy → Bool
plan_enabled off = false
plan_enabled always = true
plan_enabled (when_required stream_requires) = stream_requires

unfoldable pub gga_plan : Transport → GgaMode → Option Bool → GgaSource → Bool → Bool → Bytes
unfolding gga_policy
gga_plan raw_tcp mode stream_requires source ready manual_set = ascii "GGA not applicable (raw TCP)"
gga_plan ntrip mode stream_requires source ready manual_set =
    plan_for (plan_enabled (gga_policy mode stream_requires)) source ready manual_set

abbrev pub kick_shaped : CloseReason → Bool
kick_shaped remote_closed = true
kick_shaped stream_silence = true
kick_shaped _ = false

-- [diagnosis, remedy]
abbrev pub hint_for : Option Bool → Bool → Option (Bytes × Bytes)
hint_for (some true) died_fast = some (
  ascii "This mount requests NMEA GGA (sourcetable nmea=1) and none was sent",
  ascii "Enable Send GGA in the profile and check the position source",
)
hint_for none true = some (
  ascii "If this mount requires NMEA GGA, casters drop silent clients",
  ascii "Check Send GGA is on and a position source exists (receiver or manual)",
)
hint_for (some false) true = some (
  ascii "The cached sourcetable says this mount needs no GGA (nmea=0)",
  ascii "If that table is old it may be wrong - refetch it (Sourcetable tab > Refresh)",
)
hint_for _ false = none

unfoldable pub gga_hint :
    CloseReason → Transport → Bytes → Option Bool → ℕ → ℕ → Option (Bytes × Bytes)
gga_hint reason transport mountpoint stream_requires gga_sent connected_for =
    if not (kick_shaped reason) || ltb 0 gga_sent || not (is_ntrip transport) || is_empty mountpoint
    then none
    else hint_for stream_requires (ltb connected_for 60000)

abbrev pub starve_hint_after : ℕ
starve_hint_after = 5000

abbrev pub not_refused : Option Bool → Bool
not_refused (some false) = false
not_refused _ = true

unfoldable pub position_matters : Transport → Bytes → Option Bool → Bool
position_matters transport mountpoint stream_requires =
    is_ntrip transport && not (is_empty mountpoint) && not_refused stream_requires

abbrev pub is_some_and {ℓ} : {A : Type ℓ} → (A → Bool) → Option A → Bool
is_some_and test none = false
is_some_and test (some a) = test a

unfoldable pub starving : Option ℕ → Bool → ℕ → Bool → Bool
starving answered_for streaming gga_sent matters =
    matters
    && not streaming
    && gga_sent == 0
    && is_some_and (λ d. leb starve_hint_after d) answered_for

pub data PositionTrouble : Type 0 where
  starved refused : PositionTrouble

abbrev pub code_of : Option Bytes → Option ℕ
code_of none = none
code_of (some code) = if length code == 3 then parse_below 65536 code else none

-- `str::from_utf8(line).ok()`: what the lossy decoding leaves as it is.
abbrev pub utf8_words : Bytes → List Bytes
utf8_words line = if equal (from_utf8_lossy line) line then split_whitespace line else []

unfoldable pub status_code : Bytes → Option ℕ
unfolding split from_utf8_lossy equal split_whitespace parse_below
status_code raw = code_of (get_elem? (utf8_words (get_or (split lf raw) 0 [])) 1)

abbrev pub forbidden : CloseReason → Bool
forbidden (unknown_response raw) = is_some_and (λ c. c == 403) (status_code raw)
forbidden _ = false

abbrev pub trouble_of : Option (Bytes × Bytes) → Bool → Option PositionTrouble
trouble_of (some hint) is_refused = some starved
trouble_of none true = some refused
trouble_of none false = none

unfoldable pub position_verdict :
    CloseReason → Transport → Bytes → Option Bool → ℕ → ℕ → Bool → Option PositionTrouble
unfolding position_matters gga_hint status_code
position_verdict reason transport mountpoint stream_requires gga_sent connected_for position_ready =
    if position_matters transport mountpoint stream_requires
    then trouble_of (gga_hint reason transport mountpoint stream_requires gga_sent connected_for)
        (forbidden reason && not position_ready)
    else none

unfoldable pub no_reconnect_line : Bool → ReconnectPolicy → Bool → ℕ → Bytes
unfolding decimal
no_reconnect_line false policy is_table max_attempts =
    ascii "Not reconnecting: this failure would repeat until the settings change"
no_reconnect_line true one_shot true max_attempts =
    ascii "Sourcetable fetches are one-shot - use Get sourcetable to retry"
no_reconnect_line true one_shot false max_attempts = ascii "This run is one-shot - not reconnecting"
no_reconnect_line true options_off is_table max_attempts =
    ascii "Auto-reconnect is off - staying disconnected (enable it in Options to ride outages)"
no_reconnect_line true auto is_table max_attempts =
    ascii "Reconnect attempt limit reached ("
    ++ (decimal 10 max_attempts ++ ascii " attempts) - staying disconnected")

unfoldable pub ordinal_times : ℕ → Bytes
unfolding decimal
ordinal_times n =
    let suffix =
      if within 11 13 (n % 100)
      then ascii "th"
      else if n % 10 == 1
      then ascii "st"
      else if n % 10 == 2
      then ascii "nd"
      else if n % 10 == 3
      then ascii "rd"
      else ascii "th" in
    decimal 10 n ++ (suffix ++ ascii " time")

unfoldable pub reconnect_notice : ℕ → ℕ → ℕ → Bytes
unfolding ordinal_times decimal
reconnect_notice drops next_attempt max_attempts =
    let budget =
      ascii "(attempt "
      ++ (decimal 10 next_attempt ++ (ascii " of " ++ (decimal 10 max_attempts ++ ascii ")"))) in
    if drops == 0
    then ascii "Reconnecting in 10 s " ++ budget
    else ascii "Stream dropped ("
      ++ (ordinal_times drops ++ (ascii " this session) - reconnecting in 10 s " ++ budget))
