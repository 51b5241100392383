-- ===== src/App/Bus.antt =====
-- crates/app/src/bus.rs: what the workers post, as the calls of the hub in their order. The time
-- stamp of a log line is left out, and so is the NMEA sentence event.
use open_ntripclient.Base.{ℕ, Bool, Option, List}
use open_ntripclient.Base.Bytes.{Bytes, ascii}
use open_ntripclient.Gnss.Decode.{Decoded}
use open_ntripclient.Ntrip.Sourcetable.{SourceTable}
use open_ntripclient.App.Policy.{PositionTrouble, starved, refused}

pub data NtripStatus : Type 0 where
  idle waiting_for_data streaming : NtripStatus
  connecting reconnect_wait : ℕ → NtripStatus
  stopped : Bytes → Bool → NtripStatus

unfoldable pub hint : PositionTrouble → Bytes
hint starved =
    ascii
      "The caster may want your position: turn on GGA (a nearby manual point is fine) and reconnect."
hint refused =
    ascii
      "The caster may only serve users near it: send a manual GGA position near the base and reconnect."

pub data SerialStatus : Type 0 where
  connected : Bytes → Bytes → SerialStatus
  disconnected : Bytes → SerialStatus

pub record RtcmBatch : Type 0 where
  pub frames : List (ℕ × ℕ × ℕ)
  pub crc_failures : ℕ
  pub garbage_bytes : ℕ
  pub decoded : List Decoded

pub data AppEvent : Type 0 where
  event_line conn_line last_close unknown_response : Bytes → AppEvent
  ntrip : NtripStatus → AppEvent
  rx_bytes overruns : ℕ → AppEvent
  rtcm : RtcmBatch → AppEvent
  sourcetable_ready : Bytes → ℕ → SourceTable → AppEvent
  position_trouble : Option PositionTrouble → AppEvent
  serial : SerialStatus → AppEvent

pub data LogCmd : Type 0 where
  capture_begin capture_data : Bytes → LogCmd
  capture_end : LogCmd

-- `Hub::event`, `conn`, `status`, `data` and `log_cmd`.
pub data HubCall : Type 0 where
  event conn : Bytes → HubCall
  status posted : AppEvent → HubCall
  log_cmd : LogCmd → HubCall
