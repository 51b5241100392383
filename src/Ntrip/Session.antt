-- ===== src/Ntrip/Session.antt =====
-- crates/ntrip-core/src/session.rs: the state of a session, and the small operations on it. An
-- instant is a number of milliseconds; the `out` vector is passed on and returned. The loops and
-- the handlers are in the children.
pub mod Headers
pub mod IcyPrelude
pub mod Body
pub mod Events
pub mod Closing
pub mod ClosingBody
pub mod CloseOnce
pub mod Inert
pub mod Passthrough
pub mod HeaderLoop
pub mod EndLine
use open_ntripclient.Base.{
  ℕ, zero, suc, ◌+◌, Bool, true, false, not, ◌&&◌, Option, none, some, List, [], ◌∷◌, ◌++◌, map,
  if◌then◌else◌, is_empty, take, drop,
}
use open_ntripclient.Base.Bytes.{Bytes, strip_cr}
use open_ntripclient.Base.Utf8.{from_utf8_lossy}
use open_ntripclient.Ntrip.Chunked.{ChunkError, Decoder, find_lf}
use open_ntripclient.Ntrip.Config.{
  Transport, ntrip, raw_tcp, GgaPolicy, off, always, when_required, SessionConfig, CloseReason,
  Output, protocol_tx, protocol_rx, close,
}
use open_ntripclient.Ntrip.Request.{Request, build}

abbrev pub hdr_cap : ℕ
hdr_cap = 16384

abbrev pub first_response_timeout_ms : ℕ
first_response_timeout_ms = 30000

abbrev pub table_timeout_ms : ℕ
table_timeout_ms = 10000

abbrev pub silence_timeout_ms : ℕ
silence_timeout_ms = 30000

abbrev pub gga_first_delay_ms : ℕ
gga_first_delay_ms = 300

abbrev pub gga_interval_ms : ℕ
gga_interval_ms = 10000

abbrev pub gga_retry_delay_ms : ℕ
gga_retry_delay_ms = 2000

pub record HttpInfo : Type 0 where
  pub status : Bytes
  pub content_type : Bytes
  pub content_length : Option ℕ
  pub chunked : Bool

-- `direct (some n)` is delimited by Content-Length, with n bytes to come.
pub data TableMode : Type 0 where
  direct : Option ℕ → TableMode
  chunked : Decoder → TableMode

pub record TableState : Type 0 where
  pub body : Bytes
  pub scan : ℕ
  pub mode : TableMode
  pub deadline : ℕ

-- `headers line lines`: the current incomplete line, and how many headers were accepted.
pub data Prelude : Type 0 where
  headers : Bytes → ℕ → Prelude
  resolved : Prelude

pub record StreamState : Type 0 where
  pub prelude : Prelude
  pub chunked : Option Decoder

pub data Phase : Type 0 where
  status_line done : Phase
  http_headers : HttpInfo → Phase
  table : TableState → Phase
  streaming : StreamState → Phase

pub data Gga : Type 0 where
  disabled idle await_sent : Gga
  due : ℕ → Gga

pub data BodyEvent : Type 0 where
  nothing table_complete chunk_stream_end : BodyEvent
  corrupt : ChunkError → BodyEvent

pub record NtripSession : Type 0 where
  pub mountpoint_requested : Bool
  pub phase : Phase
  pub pending : List Output
  pub hdr : Bytes
  pub hdr_pos : ℕ
  pub first_deadline : ℕ
  pub last_rx : ℕ
  pub gga : Gga
  pub closed : Bool

-- A handler's session afterwards, and the outputs so far.
pub record Reply : Type 0 where
  pub session : NtripSession
  pub out : List Output

abbrev pub reply : NtripSession → List Output → Reply
reply s out = record { session = s; out = out }

abbrev pub wants_gga : GgaPolicy → Bool
wants_gga off = false
wants_gga always = true
wants_gga (when_required stream_requires) = stream_requires

abbrev pub gga_enabled : Transport → GgaPolicy → Bool
gga_enabled ntrip policy = wants_gga policy
gga_enabled raw_tcp policy = false

-- The session and the bytes that the caller must write.
pub record Opened : Type 0 where
  pub session : NtripSession
  pub wire : Bytes

abbrev pub initial : SessionConfig → ℕ → NtripSession
initial cfg now = record {
  mountpoint_requested = not (is_empty cfg.mountpoint);
  phase = status_line;
  pending = [];
  hdr = [];
  hdr_pos = 0;
  first_deadline = now + first_response_timeout_ms;
  last_rx = now;
  gga = if gga_enabled cfg.transport cfg.gga then idle else disabled;
  closed = false;
}

abbrev pub open_transport : Transport → SessionConfig → NtripSession → Opened
open_transport raw_tcp cfg s = record {
  session = record s { phase = streaming (record { prelude = resolved; chunked = none }) };
  wire = [];
}
open_transport ntrip cfg s = record {
  session = record s { pending = map protocol_tx (build cfg).log_lines };
  wire = (build cfg).wire;
}

unfoldable pub new : SessionConfig → ℕ → Opened
new cfg now = open_transport cfg.transport cfg (initial cfg now)

unfoldable pub flush_pending : NtripSession → List Output → Reply
flush_pending s out = reply (record s { pending = [] }) (out ++ s.pending)

-- The bytes that the ICY prelude holds back, as the line that `emit_close` logs.
abbrev pub held_prelude : Prelude → List Output
held_prelude (headers line lines) =
    if is_empty line then [] else protocol_rx (from_utf8_lossy line) ∷ []
held_prelude resolved = []

abbrev pub held_lines : Phase → List Output
held_lines (streaming s) = held_prelude s.prelude
held_lines _ = []

unfoldable pub emit_close : NtripSession → CloseReason → List Output → Reply
emit_close s reason out =
    reply (record s { closed = true; phase = done })
      (out ++ (held_lines s.phase ++ (close reason ∷ [])))

abbrev pub enabled_to : Gga → Gga → Gga
enabled_to disabled next = disabled
enabled_to _ next = next

unfoldable pub gga_sent : NtripSession → ℕ → NtripSession
gga_sent s now = record s { gga = enabled_to s.gga (due (now + gga_interval_ms)) }

unfoldable pub gga_missed : NtripSession → ℕ → NtripSession
gga_missed s now = record s { gga = enabled_to s.gga (due (now + gga_retry_delay_ms)) }

unfoldable pub enter_streaming : NtripSession → ℕ → Prelude → Option Decoder → NtripSession
enter_streaming s now prelude decoder = record s {
  phase = streaming (record { prelude = prelude; chunked = decoder });
  last_rx = now;
  gga = enabled_to s.gga (due (now + gga_first_delay_ms));
}

-- A part of the header buffer, and the session without the buffer.
pub record TakenHdr : Type 0 where
  pub bytes : Bytes
  pub session : NtripSession

unfoldable pub take_hdr_all : NtripSession → TakenHdr
take_hdr_all s = record { bytes = s.hdr; session = record s { hdr = []; hdr_pos = 0 } }

unfoldable pub take_hdr_consumed : NtripSession → TakenHdr
take_hdr_consumed s = record {
  bytes = take s.hdr_pos s.hdr;
  session = record s { hdr = []; hdr_pos = 0 };
}

unfoldable pub take_hdr_leftover : NtripSession → TakenHdr
take_hdr_leftover s = record {
  bytes = drop s.hdr_pos s.hdr;
  session = record s { hdr = []; hdr_pos = 0 };
}

pub record NextLine : Type 0 where
  pub line : Bytes
  pub session : NtripSession

abbrev pub line_at : NtripSession → Option ℕ → Option NextLine
line_at s none = none
line_at s (some rel) = some (record {
  line = from_utf8_lossy (strip_cr (take rel (drop s.hdr_pos s.hdr)));
  session = record s { hdr_pos = suc (s.hdr_pos + rel) };
})

unfoldable pub next_line : NtripSession → Option NextLine
next_line s = line_at s (find_lf (drop s.hdr_pos s.hdr))
