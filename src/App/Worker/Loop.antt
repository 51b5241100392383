-- ===== src/App/Worker/Loop.antt =====
-- crates/app/src/workers/ntrip.rs: the loop of a connection.
use open_ntripclient.Base.{
  ℕ, ◌-◌, Bool, true, false, not, ◌&&◌, Option, none, some, List, [], ◌∷◌, ◌++◌, if◌then◌else◌,
  is_empty,
}
use mathlib.Core.Option
use open_ntripclient.Base.Bytes.{Bytes, ascii}
use open_ntripclient.Gnss.Frame.{empty}
use open_ntripclient.Ntrip.Config.{Output}
use open_ntripclient.Ntrip.Session.{NtripSession, new}
use open_ntripclient.Ntrip.Session.Events.{on_tick, cancel}
use open_ntripclient.App.Queue.{steps}
use open_ntripclient.App.Job.{FloatText}
use open_ntripclient.App.Policy.{starved, starving, position_matters}
use open_ntripclient.App.Bus.{
  HubCall, event, status, log_cmd, capture_begin, capture_end, waiting_for_data, ntrip,
}
use open_ntripclient.App.Worker.{Cx, ConnState, SessionEnd, failed, post, add64}
use open_ntripclient.App.Worker.Gga.{report_trouble}
use open_ntripclient.App.Worker.Dispatch.{dispatch}
use open_ntripclient.App.Worker.Drive.{
  Round, Connection, Driven, ended, establish, note_raw, is_mount_stream, note_plan, note_encoding,
  config_of, on_read,
}

abbrev pub end_calls : Bool → List HubCall
end_calls true = log_cmd capture_end ∷ []
end_calls false = []

-- The connection ended: its deframer's counters join the run's.
unfoldable pub finish : SessionEnd → ConnState → Cx → Driven
unfolding post
finish end c cx =
    ended
      (post (end_calls cx.job.capture) (record cx {
        crc_base = add64 cx.crc_base c.deframer.crc_failures;
        garbage_base = add64 cx.garbage_base c.deframer.garbage_bytes;
      }))
      end

abbrev pub begin_calls : Bool → Bytes → List HubCall
begin_calls true mount = log_cmd (capture_begin mount) ∷ []
begin_calls false mount = []

abbrev pub starves : ℕ → Cx → ConnState → Bool
starves now cx c =
    let job = cx.job in
    not c.starve_noted
    && starving (Option.map (λ at. now - at) c.answered_at) c.streaming c.gga_sent
        (position_matters job.transport job.mountpoint job.stream_requires_gga)

pub record Noted : Type 0 where
  pub cx : Cx
  pub conn : ConnState

unfoldable pub note_starving : ℕ → Cx → ConnState → Noted
unfolding starving position_matters report_trouble
note_starving now cx c =
    if starves now cx c
    then record { cx = report_trouble starved cx; conn = record c { starve_noted = true } }
    else record { cx = cx; conn = c }

module _ (fixed : FloatText) where
  -- The outputs that the next round dispatches come with the connection.
  unfoldable pub drive_loop : List Round → List Output → Cx → ConnState → NtripSession → Driven
  unfolding dispatch finish steps on_read on_tick cancel note_starving
  drive_loop [] outs cx c s = record { cx = cx; end = none }
  drive_loop (r ∷ rs) outs cx c s =
      let shared = record cx { corr = steps r.serial cx.corr } in
      let l = dispatch fixed r.moment outs shared c s in
      let cancelling = cancel l.session [] in
      let read = on_read r.read r.is_cancelled_then r.read_at l.work.cx l.session in
      let ticked = on_tick read.session r.read_at read.out in
      let noted = note_starving r.read_at read.cx l.work.conn in
      elim l.work.conn.terminal [
        | some end ↦ finish end (record l.work.conn { terminal = none }) l.work.cx
        | none ↦ elim r.is_cancelled [
          | true ↦ drive_loop rs cancelling.out l.work.cx l.work.conn cancelling.session
          | false ↦ drive_loop rs ticked.out noted.cx noted.conn ticked.session
        ]
      ]

  -- From the request that was sent onwards.
  unfoldable pub run_session : Connection → NtripSession → Cx → Driven
  unfolding post on_tick drive_loop
  run_session n session cx =
      let waiting =
        post (event (ascii "Connected. Waiting for data...") ∷ status (ntrip waiting_for_data) ∷ [])
          cx in
      let first = on_tick session n.opened_at [] in
      let capturing = post (begin_calls cx.job.capture cx.job.mountpoint) waiting in
      let conn : ConnState = record {
        deframer = empty;
        streaming = false;
        connected_at = n.opened_at;
        bytes_at_connect = cx.total_bytes;
        gga_sent = 0;
        last_miss_note = none;
        answered_at = none;
        starve_noted = false;
        terminal = none;
      } in
      drive_loop n.rounds first.out capturing conn first.session

  -- The request is written, if there is one.
  unfoldable pub send_request : Option Bytes → Bool → Connection → NtripSession → Cx → Driven
  unfolding run_session
  send_request none no_request n session cx = run_session n session cx
  send_request (some e) true n session cx = run_session n session cx
  send_request (some e) false n session cx = ended cx (failed (ascii "Send request failed: " ++ e))

  unfoldable pub start_session : Connection → Cx → Driven
  unfolding config_of new send_request
  start_session n cx =
      let opened = new (config_of cx.job) n.opened_at in
      send_request n.request_error (is_empty opened.wire) n opened.session cx

  module _ (escape_default : Bytes → Bytes) where
    unfoldable pub with_stream : Option SessionEnd → Connection → Cx → Driven
    unfolding note_raw note_plan note_encoding start_session
    with_stream (some end) n cx = ended cx end
    with_stream none n cx =
        let job = cx.job in
        let raw = note_raw job.transport cx in
        let planned = note_plan job.gga_mode job.stream_requires_gga (is_mount_stream job) raw in
        start_session n (note_encoding escape_default planned)

    unfoldable pub with_timeout : Option Bytes → Connection → Cx → Driven
    unfolding establish with_stream
    with_timeout (some e) n cx = ended cx (failed (ascii "set_read_timeout: " ++ e))
    with_timeout none n cx =
        let tls = establish cx.job.tls n.tls_result cx in with_stream tls.end n tls.cx

    unfoldable pub drive_connection : Connection → Cx → Driven
    unfolding with_timeout
    drive_connection n cx = with_timeout n.timeout_error n cx
