-- ===== src/Ntrip/Config.antt =====
-- crates/ntrip-core/src/lib.rs: the configuration of a session, what a session asks of its caller,
-- and why it closes.
use open_ntripclient.Base.{ℕ, Bool, true, false}
use open_ntripclient.Base.Bytes.{Bytes}
use open_ntripclient.Ntrip.Chunked.{ChunkError}

pub data NtripVersion : Type 0 where
  v1 v2 : NtripVersion

pub data Transport : Type 0 where
  ntrip raw_tcp : Transport

-- `when_required` has the sourcetable's flag for the stream.
pub data GgaPolicy : Type 0 where
  off always : GgaPolicy
  when_required : Bool → GgaPolicy

pub record SessionConfig : Type 0 where
  pub host : Bytes
  pub port : ℕ
  pub mountpoint : Bytes
  pub username : Bytes
  pub password : Bytes
  pub version : NtripVersion
  pub transport : Transport
  pub user_agent : Bytes
  pub gga : GgaPolicy

pub data CloseReason : Type 0 where
  unauthorized first_response_timeout sourcetable_timeout stream_silence : CloseReason
  remote_closed cancelled : CloseReason
  mountpoint_not_found unknown_response : Bytes → CloseReason
  stream_corrupt : ChunkError → CloseReason

pub data Output : Type 0 where
  protocol_tx protocol_rx corrections sourcetable : Bytes → Output
  gga_due : Output
  close : CloseReason → Output

unfoldable pub auto_reconnect : CloseReason → Bool
auto_reconnect first_response_timeout = true
auto_reconnect sourcetable_timeout = true
auto_reconnect stream_silence = true
auto_reconnect (stream_corrupt _) = true
auto_reconnect remote_closed = true
auto_reconnect _ = false
