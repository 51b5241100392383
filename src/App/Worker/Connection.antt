-- ===== src/App/Worker/Connection.antt =====
-- crates/app/src/workers/ntrip.rs: what a whole connection does to the attempt budget.
use open_ntripclient.Base.{
  ℕ, Bool, true, false, not, ◌&&◌, Option, none, some, List, [], ◌∷◌, ◌≡◌, refl, ◌∙◌, Bool-cases,
  Option-cases, inl, inr,
}
use open_ntripclient.Base.Bytes.{Bytes}
use open_ntripclient.Ntrip.Config.{Output, Transport, ntrip, raw_tcp}
use open_ntripclient.Ntrip.Session.{NtripSession}
use open_ntripclient.Ntrip.Session.Events.{on_tick, cancel}
use open_ntripclient.App.Queue.{steps}
use open_ntripclient.App.Job.{FloatText, GgaMode, gga_off, gga_when_required, gga_always}
use open_ntripclient.App.Policy.{starved, mountpoint_needs_encoding}
use open_ntripclient.App.Worker.{Cx, ConnState, SessionEnd, post}
use open_ntripclient.App.Worker.Attempts.{
  core, Tracks, kept, Tracks-then, report_trouble-core, dispatch-Tracks,
}
use open_ntripclient.App.Worker.Dispatch.{dispatch}
use open_ntripclient.App.Worker.Drive.{
  ReadResult, received, end_of_stream, timed_out, unexpected_eof, read_error, Round, TlsResult,
  secured, tls_cancelled, tls_failed, tls_io, Connection, establish, note_raw, is_mount_stream,
  note_plan, note_encoding, on_read,
}
use open_ntripclient.App.Worker.Loop.{
  finish, starves, note_starving, drive_loop, run_session, send_request, start_session, with_stream,
  with_timeout, drive_connection,
}

pub on_read-core :
    (x : ReadResult) (flag : Bool) (now : ℕ) (cx : Cx) (s : NtripSession)
    → core (on_read x flag now cx s).cx ≡ core cx
unfolding on_read post
on_read-core (received bytes) flag now cx s = refl
on_read-core timed_out flag now cx s = refl
on_read-core end_of_stream true now cx s = refl
on_read-core end_of_stream false now cx s = refl
on_read-core unexpected_eof true now cx s = refl
on_read-core unexpected_eof false now cx s = refl
on_read-core (read_error e) true now cx s = refl
on_read-core (read_error e) false now cx s = refl

pub note_starving-core :
    (now : ℕ) (cx : Cx) (c : ConnState) → core (note_starving now cx c).cx ≡ core cx
unfolding note_starving
note_starving-core now cx c = elim (Bool-cases (starves now cx c)) [
  | inl e ↦ rw e (report_trouble-core starved cx)
  | inr e ↦ rw e refl
]

pub finish-core : (end : SessionEnd) (c : ConnState) (cx : Cx) → core (finish end c cx).cx ≡ core cx
unfolding finish post
finish-core end c cx = refl

pub establish-core : (tls : Bool) (x : TlsResult) (cx : Cx) → core (establish tls x cx).cx ≡ core cx
unfolding establish post
establish-core false x cx = refl
establish-core true (secured protocol cipher) cx = refl
establish-core true tls_cancelled cx = refl
establish-core true (tls_failed msg) cx = refl
establish-core true (tls_io msg) cx = refl

pub note_raw-core : (t : Transport) (cx : Cx) → core (note_raw t cx) ≡ core cx
unfolding note_raw post
note_raw-core ntrip cx = refl
note_raw-core raw_tcp cx = refl

pub note_plan-core :
    (mode : GgaMode) (requires : Option Bool) (stream : Bool) (cx : Cx)
    → core (note_plan mode requires stream cx) ≡ core cx
unfolding note_plan post
note_plan-core gga_when_required none true cx = elim (Bool-cases cx.gga_assumption_logged) [
  | inl e ↦ rw e refl
  | inr e ↦ rw e refl
]
note_plan-core gga_off (some true) true cx = elim (Bool-cases cx.gga_off_warning_logged) [
  | inl e ↦ rw e refl
  | inr e ↦ rw e refl
]
note_plan-core gga_when_required none false cx = refl
note_plan-core gga_when_required (some b) stream cx = refl
note_plan-core gga_off none stream cx = refl
note_plan-core gga_off (some false) stream cx = refl
note_plan-core gga_off (some true) false cx = refl
note_plan-core gga_always requires stream cx = refl

pub note_encoding-core :
    (escape : Bytes → Bytes) (cx : Cx) → core (note_encoding escape cx) ≡ core cx
unfolding note_encoding post
note_encoding-core escape cx =
    elim (Bool-cases
      (mountpoint_needs_encoding cx.job.mountpoint && not cx.mount_encoding_logged)) [
        | inl e ↦ rw e refl
        | inr e ↦ rw e refl
      ]

module _ (fixed : FloatText) where
  drive_loop-Tracks :
      (rs : List Round) (outs : List Output) (cx : Cx) (c : ConnState) (s : NtripSession)
      → Tracks cx (drive_loop fixed rs outs cx c s).cx
  unfolding drive_loop
  drive_loop-Tracks [] outs cx c s = kept refl
  drive_loop-Tracks (r ∷ rs) outs cx c s =
      let shared = record cx { corr = steps r.serial cx.corr } in
      let l = dispatch fixed r.moment outs shared c s in
      let read = on_read r.read r.is_cancelled_then r.read_at l.work.cx l.session in
      let ticked = on_tick read.session r.read_at read.out in
      let noted = note_starving r.read_at read.cx l.work.conn in
      let given : Tracks cx shared = kept refl in
      let dispatched : Tracks cx l.work.cx =
        Tracks-then given (dispatch-Tracks fixed r.moment outs shared c s) in
      elim (Option-cases l.work.conn.terminal) [
        | inl e ↦ elim (Bool-cases r.is_cancelled) [
          | inl f ↦
              rw (e, drive_loop)
                (rw (f, drive_loop)
                  (Tracks-then dispatched (
                    let x = cancel l.session [] in
                    drive_loop-Tracks rs x.out l.work.cx l.work.conn x.session)))
          | inr f ↦
              let waited : Tracks l.work.cx noted.cx = kept (
                note_starving-core r.read_at read.cx l.work.conn
                ∙ on_read-core r.read r.is_cancelled_then r.read_at l.work.cx l.session) in
              rw (e, drive_loop)
                (rw (f, drive_loop)
                  (Tracks-then dispatched (
                    Tracks-then waited
                      (drive_loop-Tracks rs ticked.out noted.cx noted.conn ticked.session))))
        ]
        | inr (end, e) ↦
            rw (e, drive_loop)
              (Tracks-then dispatched
                (kept (finish-core end (record l.work.conn { terminal = none }) l.work.cx)))
      ]

  run_session-Tracks :
      (n : Connection) (session : NtripSession) (cx : Cx)
      → Tracks cx (run_session fixed n session cx).cx
  unfolding run_session post
  run_session-Tracks n session cx = Tracks-then (kept refl) (drive_loop-Tracks n.rounds _ _ _ _)

  send_request-Tracks :
      (error : Option Bytes) (no_request : Bool) (n : Connection) (session : NtripSession) (cx : Cx)
      → Tracks cx (send_request fixed error no_request n session cx).cx
  unfolding send_request
  send_request-Tracks none no_request n session cx = run_session-Tracks n session cx
  send_request-Tracks (some e) true n session cx = run_session-Tracks n session cx
  send_request-Tracks (some e) false n session cx = kept refl

  start_session-Tracks : (n : Connection) (cx : Cx) → Tracks cx (start_session fixed n cx).cx
  unfolding start_session
  start_session-Tracks n cx = send_request-Tracks n.request_error _ n _ cx

  with_stream-Tracks :
      (escape : Bytes → Bytes) (end : Option SessionEnd) (n : Connection) (cx : Cx)
      → Tracks cx (with_stream fixed escape end n cx).cx
  unfolding with_stream
  with_stream-Tracks escape (some end) n cx = kept refl
  with_stream-Tracks escape none n cx =
      let job = cx.job in
      let raw = note_raw job.transport cx in
      let stream = is_mount_stream job in
      let planned = note_plan job.gga_mode job.stream_requires_gga stream raw in
      let noted : Tracks cx (note_encoding escape planned) = kept (
        note_encoding-core escape planned
        ∙ note_plan-core job.gga_mode job.stream_requires_gga stream raw
        ∙ note_raw-core job.transport cx) in
      Tracks-then noted (start_session-Tracks n (note_encoding escape planned))

  with_timeout-Tracks :
      (escape : Bytes → Bytes) (error : Option Bytes) (n : Connection) (cx : Cx)
      → Tracks cx (with_timeout fixed escape error n cx).cx
  unfolding with_timeout
  with_timeout-Tracks escape (some e) n cx = kept refl
  with_timeout-Tracks escape none n cx =
      let tls = establish cx.job.tls n.tls_result cx in
      Tracks-then (kept (establish-core cx.job.tls n.tls_result cx))
        (with_stream-Tracks escape tls.end n tls.cx)

  -- A connection keeps the budget, or resets it and arms the alert.
  pub drive_connection-Tracks :
      (escape : Bytes → Bytes) (n : Connection) (cx : Cx)
      → Tracks cx (drive_connection fixed escape n cx).cx
  unfolding drive_connection
  drive_connection-Tracks escape n cx = with_timeout-Tracks escape n.timeout_error n cx
