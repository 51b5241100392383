-- ===== src/Tests/Worker.antt =====
-- Runs of the NTRIP worker (crates/app/src/workers/ntrip.rs).
use open_ntripclient.Base.{
  ℕ, ◌+◌, ◌/◌, ◌≤◌, true, false, none, some, List, [], ◌∷◌, ◌++◌, ◌≡◌, ◌↔◌, refl, arith, ◌==◌,
  if◌then◌else◌,
}
use open_ntripclient.Base.Bytes.{Bytes, ascii, decimal}
use open_ntripclient.Ntrip.Config.{v2, ntrip, gga_due, unauthorized, remote_closed}
use open_ntripclient.Gnss.Frame.{empty}
use open_ntripclient.Ntrip.Request.{build, encode_mountpoint}
use open_ntripclient.Ntrip.Session.{
  NtripSession, due, streaming, resolved, enter_streaming, take_hdr_leftover,
}
use open_ntripclient.Ntrip.Session.Events.{on_tick}
use open_ntripclient.App.Job.{
  sign_bit, manual_position_set, NtripJob, FloatText, gga_when_required, receiver, auto,
}
use open_ntripclient.App.Closes.{transient}
use open_ntripclient.App.Policy.{
  mountpoint_needs_encoding, traffic_milestone, status_code, position_verdict, starved,
  ordinal_times,
}
use open_ntripclient.App.Policy.Mountpoint.{needs_encoding_iff}
use open_ntripclient.App.Policy.Traffic.{Chunk, reports, total_after, reports-bound}
use open_ntripclient.App.Worker.{Cx, ConnState, Moment, closed, is_some}
use open_ntripclient.App.Worker.Attempts.{core, recover}
use open_ntripclient.App.Worker.Reports.{blocks_reported}
use open_ntripclient.App.Worker.Budget.{OnAgain, Reconnects}
use open_ntripclient.App.Worker.Retries.{drive_connection-IsConnection, turn-Reconnects}
use open_ntripclient.App.Worker.Stops.{IsBarren, supervise-gives_up}
use open_ntripclient.App.Worker.Permanent.{HasStopped, turn-HasStopped}
use open_ntripclient.App.Worker.Answered.{sends, next_due, dispatch-on_tick}
use open_ntripclient.App.Worker.Dispatch.{dispatch}
use open_ntripclient.App.Worker.Arrivals.{drive_connection-core}
use open_ntripclient.App.Worker.Drive.{
  received, timed_out, end_of_stream, tls_cancelled, Connection, Driven,
}
use open_ntripclient.App.Worker.Loop.{drive_connection}
use open_ntripclient.App.Worker.Supervise.{Attempt, connected, supervise, turn, begin_attempt}

status_code_run : status_code (ascii "HTTP/1.1 403 Forbidden") ≡ some 403
unfolding status_code
status_code_run = refl

ordinal_run : (ordinal_times 112 ≡ ascii "112th time") × (ordinal_times 22 ≡ ascii "22nd time")
unfolding ordinal_times
ordinal_run = (refl, refl)

milestone_run :
    traffic_milestone 9000 12000 7 0 ≡ some (ascii "Received 10 kB - RTCM3 framing clean")
unfolding traffic_milestone
milestone_run = refl

needs_encoding_iff_example :
    (mountpoint_needs_encoding (ascii "BASE 1") ≡ false)
    ↔ (encode_mountpoint (ascii "BASE 1") ≡ ascii "BASE 1")
needs_encoding_iff_example = needs_encoding_iff (ascii "BASE 1")

-- 48.1 and 11.6, (0, 0), and a NaN.
position_run :
    (manual_position_set 0x40480CCCCCCCCCCD 0x4027333333333333 ≡ true)
    × (manual_position_set 0 sign_bit ≡ false)
    × (manual_position_set 0x7FF8000000000000 0 ≡ false)
position_run = (refl, refl, refl)

verdict_run : position_verdict remote_closed ntrip (ascii "MT1") none 0 2000 false ≡ some starved
unfolding position_verdict
verdict_run = refl

abbrev chunks : List Chunk
chunks =
    record { size = 12000; frames = 3; crc_failures = 0 }
    ∷ record { size = 100000; frames = 9; crc_failures = 1 }
    ∷ []

reports-bound_example : reports 0 chunks ≤ 2 + total_after 0 chunks / 1048576
reports-bound_example = reports-bound chunks

abbrev job : NtripJob
job = record {
  host = ascii "caster";
  port = 2101;
  mountpoint = ascii "MT1";
  username = [];
  password = [];
  version = v2;
  transport = ntrip;
  tls = false;
  allow_invalid_certs = false;
  gga_mode = gga_when_required;
  gga_source = receiver;
  manual_lat = 0;
  manual_lon = 0;
  stream_requires_gga = none;
  reconnect = auto;
  max_attempts = 3;
  audio_alert = [];
  capture = false;
  user_agent = ascii "NTRIP OpenNTRIPClient";
}

-- The worker's state when it is spawned.
abbrev spawned : Cx
spawned = record {
  job = job;
  hub = [];
  corr = record { q = []; cap = 64; active = false; overruns = 0 };
  attempts_done = 0;
  drops = 0;
  alert_armed = false;
  total_bytes = 0;
  frames_total = 0;
  crc_base = 0;
  garbage_base = 0;
  last_health_posted = (0, 0);
  last_overrun_event = none;
  gga_assumption_logged = false;
  gga_off_warning_logged = false;
  mount_encoding_logged = false;
  starved_hint_logged = false;
  refused_hint_logged = false;
}

abbrev whole : FloatText
whole digits n d = decimal 20 (n / d)

abbrev same : Bytes → Bytes
same s = s

abbrev at_time : ℕ → Moment
at_time now = record { now = now; last_gga = none; fabricated = []; write_error = none }

-- The caster accepts, streams, and closes.
abbrev short_stream : Connection
short_stream = record {
  timeout_error = none;
  tls_result = tls_cancelled;
  opened_at = 0;
  request_error = none;
  rounds =
      record {
        moment = at_time 0;
        serial = [];
        is_cancelled = false;
        read = received (ascii "ICY 200 OK" ++ 13 ∷ 10 ∷ 13 ∷ 10 ∷ ascii "corrections");
        is_cancelled_then = false;
        read_at = 100;
      }
      ∷ record {
        moment = at_time 100;
        serial = [];
        is_cancelled = false;
        read = end_of_stream;
        is_cancelled_then = false;
        read_at = 500;
      }
      ∷ record {
        moment = at_time 500;
        serial = [];
        is_cancelled = false;
        read = timed_out;
        is_cancelled_then = false;
        read_at = 900;
      }
      ∷ [];
}

abbrev streamed : Driven
unfolding drive_connection
streamed = drive_connection whole same short_stream (record spawned { attempts_done = 2 })

stream_run :
    (streamed.end ≡ some (closed remote_closed))
    × (streamed.cx.attempts_done ≡ 0)
    × (streamed.cx.alert_armed ≡ true)
    × (streamed.cx.total_bytes ≡ 11)
unfolding drive_connection build enter_streaming take_hdr_leftover
stream_run = (refl, refl, refl, refl)

abbrev second_try : Cx
second_try = record spawned { attempts_done = 2 }

drive_connection-core_example :
    let d = drive_connection whole same short_stream second_try in
    core d.cx ≡ (
      if blocks_reported d.cx.hub == blocks_reported second_try.hub
      then core second_try
      else recover (core second_try))
drive_connection-core_example = drive_connection-core whole same short_stream second_try

-- Connections whose sockets all fail.
abbrev break_off : Connection → Cx → Driven
unfolding drive_connection
break_off n cx =
    drive_connection whole same (record n { timeout_error = some (ascii "no socket") }) cx

break_off-IsBarren : IsBarren break_off
unfolding drive_connection
break_off-IsBarren = record { keeps = λ n cx. refl; ends = λ n cx. refl }

abbrev attempt : Attempt Connection
attempt = record {
  cancelled_before = false;
  outcome = connected short_stream;
  cancelled_after = false;
  audio_error = none;
  cancelled_waiting = false;
}

supervise-gives_up_example :
    is_some (supervise break_off (attempt ∷ attempt ∷ attempt ∷ []) spawned).result ≡ true
supervise-gives_up_example =
    supervise-gives_up break_off break_off-IsBarren (attempt ∷ attempt ∷ attempt ∷ []) spawned refl
      refl (omega arith) (omega arith) (omega arith)

turn-Reconnects_example :
    OnAgain (Reconnects (core spawned)) (turn (drive_connection whole same) attempt spawned)
turn-Reconnects_example =
    turn-Reconnects (drive_connection whole same) (drive_connection-IsConnection whole same) attempt
      spawned refl

-- The caster refuses the credentials.
abbrev refused_stream : Connection
refused_stream = record short_stream {
  rounds =
      record {
        moment = at_time 0;
        serial = [];
        is_cancelled = false;
        read = received (ascii "HTTP/1.1 401 Unauthorized" ++ 13 ∷ 10 ∷ 13 ∷ 10 ∷ []);
        is_cancelled_then = false;
        read_at = 100;
      }
      ∷ record {
        moment = at_time 100;
        serial = [];
        is_cancelled = false;
        read = timed_out;
        is_cancelled_then = false;
        read_at = 500;
      }
      ∷ [];
}

abbrev refused_attempt : Attempt Connection
refused_attempt = record attempt { outcome = connected refused_stream }

refused_run :
    (drive_connection whole same refused_stream (begin_attempt spawned)).end
    ≡ some (closed unauthorized)
unfolding drive_connection build begin_attempt
refused_run = refl

unauthorized_run : transient unauthorized ≡ false
unfolding transient
unauthorized_run = refl

turn-HasStopped_example : HasStopped (turn (drive_connection whole same) refused_attempt spawned)
turn-HasStopped_example =
    turn-HasStopped (drive_connection whole same) refused_attempt refused_stream
      (closed unauthorized) spawned refl refused_run unauthorized_run

abbrev connection : ConnState
connection = record {
  deframer = empty;
  streaming = false;
  connected_at = 0;
  bytes_at_connect = 0;
  gga_sent = 0;
  last_miss_note = none;
  answered_at = none;
  starve_noted = false;
  terminal = none;
}

abbrev streaming_session : NtripSession
streaming_session = record {
  mountpoint_requested = true;
  phase = streaming (record { prelude = resolved; chunked = none });
  pending = [];
  hdr = [];
  hdr_pos = 0;
  first_deadline = 30000;
  last_rx = 100;
  gga = due 300;
  closed = false;
}

due_run : (on_tick streaming_session 400 []).out ≡ gga_due ∷ []
unfolding on_tick
due_run = refl

dispatch-on_tick_example :
    (dispatch whole
      (at_time 400)
      (on_tick streaming_session 400 []).out
      spawned
      connection
      (on_tick streaming_session 400 []).session).session.gga
    ≡ next_due (sends spawned.job (at_time 400)) 400
unfolding on_tick
dispatch-on_tick_example =
    dispatch-on_tick whole streaming_session 400 (at_time 400) spawned connection refl tt
