-- ===== src/App/Worker/Drive.antt =====
-- crates/app/src/workers/ntrip.rs: one connection, from its socket to its end. What the socket, the
-- TLS library, the clock, the cancel flag and the serial worker do is the connection's script: a
-- list of rounds of the loop. A script that runs out before the connection ended gives `none`.
use open_ntripclient.Base.{
  ℕ, Bool, true, false, not, ◌&&◌, Option, none, some, List, [], ◌∷◌, ◌++◌, if◌then◌else◌, is_empty,
}
use open_ntripclient.Base.Bytes.{Bytes, ascii, decimal}
use open_ntripclient.Ntrip.Config.{Output, SessionConfig, Transport, ntrip, raw_tcp, cancelled}
use open_ntripclient.Ntrip.Session.{NtripSession, Reply}
use open_ntripclient.Ntrip.Session.Events.{on_bytes, on_remote_close, cancel}
use open_ntripclient.App.Queue.{Step}
use open_ntripclient.App.Job.{NtripJob, GgaMode, gga_off, gga_when_required, gga_policy, is_ntrip}
use open_ntripclient.App.Policy.{mountpoint_needs_encoding}
use open_ntripclient.App.Bus.{event, conn}
use open_ntripclient.App.Worker.{Cx, Moment, SessionEnd, closed, failed, failed_permanent, post}
use open_ntripclient.App.Worker.Dispatch.{both}

pub data ReadResult : Type 0 where
  received : Bytes → ReadResult
  end_of_stream timed_out unexpected_eof : ReadResult
  read_error : Bytes → ReadResult

-- A round of the loop: the moment of the dispatch, what the serial worker did since the last one,
-- the cancel flag, the read, the flag behind the read, and the clock then.
pub record Round : Type 0 where
  pub moment : Moment
  pub serial : List Step
  pub is_cancelled : Bool
  pub read : ReadResult
  pub is_cancelled_then : Bool
  pub read_at : ℕ

-- A handshake's protocol and cipher, or its failure.
pub data TlsResult : Type 0 where
  secured : Bytes → Bytes → TlsResult
  tls_cancelled : TlsResult
  tls_failed tls_io : Bytes → TlsResult

pub record Connection : Type 0 where
  pub timeout_error : Option Bytes
  pub tls_result : TlsResult
  pub opened_at : ℕ
  pub request_error : Option Bytes
  pub rounds : List Round

pub record Driven : Type 0 where
  pub cx : Cx
  pub end : Option SessionEnd

abbrev pub ended : Cx → SessionEnd → Driven
ended cx end = record { cx = cx; end = some end }

abbrev pub stance : Bool → Bytes
stance true = ascii "certificate NOT verified (diagnostic mode)"
stance false = ascii "certificate verified"

-- `establish`: `none` when there is a stream to go on with.
unfoldable pub establish : Bool → TlsResult → Cx → Driven
unfolding post
establish false result cx = record { cx = cx; end = none }
establish true (secured protocol cipher) cx =
    let line =
      ascii "TLS handshake complete: "
      ++ (protocol
          ++ (ascii ", " ++ (cipher ++ (ascii ", " ++ stance cx.job.allow_invalid_certs)))) in
    record { cx = post (both line) cx; end = none }
establish true tls_cancelled cx = ended cx (closed cancelled)
establish true (tls_failed msg) cx =
    let line = ascii "TLS handshake failed: " ++ msg in
    ended (post (both line) cx) (failed_permanent line)
establish true (tls_io msg) cx =
    let line = ascii "TLS handshake failed: " ++ msg in
    ended (post (conn line ∷ []) cx) (failed line)

abbrev pub address : NtripJob → Bytes
address job = job.host ++ (b':' ∷ decimal 5 job.port)

unfoldable pub note_raw : Transport → Cx → Cx
unfolding post decimal
note_raw ntrip cx = cx
note_raw raw_tcp cx =
    post
      (conn (ascii "TCP connected " ++ (address cx.job ++ ascii " - raw, no NTRIP handshake")) ∷ [])
      cx

abbrev pub is_mount_stream : NtripJob → Bool
is_mount_stream job = is_ntrip job.transport && not (is_empty job.mountpoint)

unfoldable pub note_plan : GgaMode → Option Bool → Bool → Cx → Cx
unfolding post
note_plan gga_when_required none true cx =
    if cx.gga_assumption_logged
    then cx
    else post
        (event (
            ascii "No sourcetable entry for '"
            ++ (cx.job.mountpoint ++ ascii "'; will send GGA in case it is required"))
          ∷ [])
        (record cx { gga_assumption_logged = true })
note_plan gga_off (some true) true cx =
    if cx.gga_off_warning_logged
    then cx
    else post
        (event (
            ascii "The sourcetable marks '"
            ++ (cx.job.mountpoint ++ ascii "' as requiring NMEA GGA, but Send GGA is off"))
          ∷ event (ascii "The caster may disconnect this position-silent connection")
          ∷ [])
        (record cx { gga_off_warning_logged = true })
note_plan _ _ _ cx = cx

module _ (escape_default : Bytes → Bytes) where
  unfoldable pub note_encoding : Cx → Cx
  unfolding post mountpoint_needs_encoding
  note_encoding cx =
      if mountpoint_needs_encoding cx.job.mountpoint && not cx.mount_encoding_logged
      then post
          (event (
              ascii "Mountpoint '"
              ++ (escape_default cx.job.mountpoint
                  ++ ascii "' contains spaces or control characters; sending it percent-encoded"))
            ∷ [])
          (record cx { mount_encoding_logged = true })
      else cx

unfoldable pub config_of : NtripJob → SessionConfig
unfolding gga_policy
config_of job = record {
  host = job.host;
  port = job.port;
  mountpoint = job.mountpoint;
  username = job.username;
  password = job.password;
  version = job.version;
  transport = job.transport;
  user_agent = job.user_agent;
  gga = gga_policy job.gga_mode job.stream_requires_gga;
}

pub record Read : Type 0 where
  pub cx : Cx
  pub session : NtripSession
  pub out : List Output

abbrev pub with_reply : Cx → Reply → Read
with_reply cx r = record { cx = cx; session = r.session; out = r.out }

-- The arms on the read's result.
unfoldable pub on_read : ReadResult → Bool → ℕ → Cx → NtripSession → Read
unfolding cancel on_remote_close on_bytes post
on_read end_of_stream true now cx s = with_reply cx (cancel s [])
on_read end_of_stream false now cx s = with_reply cx (on_remote_close s [])
on_read (received bytes) flag now cx s = with_reply cx (on_bytes s bytes now [])
on_read timed_out flag now cx s = record { cx = cx; session = s; out = [] }
on_read unexpected_eof true now cx s = with_reply cx (cancel s [])
on_read unexpected_eof false now cx s = with_reply cx (on_remote_close s [])
on_read (read_error e) true now cx s = with_reply cx (cancel s [])
on_read (read_error e) false now cx s =
    with_reply (post (event (ascii "Socket error: " ++ e) ∷ []) cx) (on_remote_close s [])
