-- ===== src/App/Worker/Arrivals.antt =====
-- crates/app/src/workers/ntrip.rs: when a connection resets the attempt budget.
use open_ntripclient.Base.{
  Bool, true, false, not, ◌&&◌, Option, none, some, ◌≡◌, ◌==◌, if◌then◌else◌, ◌<◌, ap, arith, refl,
  ◌∙◌, Bool-cases, inl, inr,
}
use open_ntripclient.Base.Bytes.{Bytes}
use open_ntripclient.Ntrip.Config.{Transport, ntrip, raw_tcp}
use open_ntripclient.Ntrip.Session.{NtripSession}
use open_ntripclient.App.Job.{FloatText, GgaMode, gga_off, gga_when_required, gga_always}
use open_ntripclient.App.Policy.{mountpoint_needs_encoding}
use open_ntripclient.App.Worker.{Cx, SessionEnd, post}
use open_ntripclient.App.Worker.Attempts.{core, recover}
use open_ntripclient.App.Worker.Connection.{
  establish-core, note_raw-core, note_plan-core, note_encoding-core,
}
use open_ntripclient.App.Worker.Reports.{blocks_reported, quiet_calls}
use open_ntripclient.App.Worker.Drive.{
  TlsResult, secured, tls_cancelled, tls_failed, tls_io, Connection, establish, note_raw,
  is_mount_stream, note_plan, note_encoding,
}
use open_ntripclient.App.Worker.Loop.{
  begin_calls, run_session, send_request, start_session, with_stream, with_timeout,
  drive_connection,
}
use open_ntripclient.App.Worker.Heard.{Heard, silent, woke, went_on, drive_loop-Heard}

-- A whole connection, which does not stream at its start.
data Outcome (cx cx' : Cx) : Type 0 where
  calm : blocks_reported cx'.hub ≡ blocks_reported cx.hub → core cx' ≡ core cx → Outcome cx cx'
  reset :
      blocks_reported cx.hub < blocks_reported cx'.hub
      → core cx' ≡ recover (core cx)
      → Outcome cx cx'

Heard-Outcome : {b : Bool} {cx cx' : Cx} → Heard false b cx cx' → Outcome cx cx'
Heard-Outcome (silent e r h) = calm r h
Heard-Outcome (woke e f r h) = reset r h
Heard-Outcome (went_on e f r h) = absurd (cc)

core_of :
    {cx cx' : Cx}
    → Outcome cx cx'
    → core cx'
      ≡ (if blocks_reported cx'.hub == blocks_reported cx.hub then core cx else recover (core cx))
core_of {cx} {cx'} (calm r h) =
    let same : (blocks_reported cx'.hub == blocks_reported cx.hub) ≡ true = ground (arith, r) in
    rw same h
core_of {cx} {cx'} (reset r h) =
    let more : (blocks_reported cx'.hub == blocks_reported cx.hub) ≡ false = ground (arith, r) in
    rw more h

calm-then :
    {x y z : Cx}
    → blocks_reported y.hub ≡ blocks_reported x.hub
    → core y ≡ core x
    → Outcome y z
    → Outcome x z
calm-then r h (calm q k) = calm (q ∙ r) (k ∙ h)
calm-then r h (reset q k) = reset (omega (arith, r, q)) (k ∙ ap recover h)

begin_quiet : (b : Bool) (mount : Bytes) → blocks_reported (begin_calls b mount) ≡ 0
begin_quiet true mount = refl
begin_quiet false mount = refl

establish-blocks_reported :
    (tls : Bool) (x : TlsResult) (cx : Cx)
    → blocks_reported (establish tls x cx).cx.hub ≡ blocks_reported cx.hub
unfolding establish post
establish-blocks_reported false x cx = refl
establish-blocks_reported true (secured protocol cipher) cx = quiet_calls cx.hub _ refl
establish-blocks_reported true tls_cancelled cx = refl
establish-blocks_reported true (tls_failed msg) cx = quiet_calls cx.hub _ refl
establish-blocks_reported true (tls_io msg) cx = quiet_calls cx.hub _ refl

note_raw-blocks_reported :
    (t : Transport) (cx : Cx) → blocks_reported (note_raw t cx).hub ≡ blocks_reported cx.hub
unfolding note_raw post
note_raw-blocks_reported ntrip cx = refl
note_raw-blocks_reported raw_tcp cx = quiet_calls cx.hub _ refl

note_plan-blocks_reported :
    (mode : GgaMode) (requires : Option Bool) (stream : Bool) (cx : Cx)
    → blocks_reported (note_plan mode requires stream cx).hub ≡ blocks_reported cx.hub
unfolding note_plan post
note_plan-blocks_reported gga_when_required none true cx =
    elim (Bool-cases cx.gga_assumption_logged) [
      | inl e ↦ rw e refl
      | inr e ↦ rw e (quiet_calls cx.hub _ refl)
    ]
note_plan-blocks_reported gga_off (some true) true cx =
    elim (Bool-cases cx.gga_off_warning_logged) [
      | inl e ↦ rw e refl
      | inr e ↦ rw e (quiet_calls cx.hub _ refl)
    ]
note_plan-blocks_reported gga_when_required none false cx = refl
note_plan-blocks_reported gga_when_required (some b) stream cx = refl
note_plan-blocks_reported gga_off none stream cx = refl
note_plan-blocks_reported gga_off (some false) stream cx = refl
note_plan-blocks_reported gga_off (some true) false cx = refl
note_plan-blocks_reported gga_always requires stream cx = refl

note_encoding-blocks_reported :
    (escape : Bytes → Bytes) (cx : Cx)
    → blocks_reported (note_encoding escape cx).hub ≡ blocks_reported cx.hub
unfolding note_encoding post
note_encoding-blocks_reported escape cx =
    elim (Bool-cases
      (mountpoint_needs_encoding cx.job.mountpoint && not cx.mount_encoding_logged)) [
        | inl e ↦ rw e (quiet_calls cx.hub _ refl)
        | inr e ↦ rw e refl
      ]

module _ (fixed : FloatText) where
  run_session-Outcome :
      (n : Connection) (session : NtripSession) (cx : Cx)
      → Outcome cx (run_session fixed n session cx).cx
  unfolding run_session post
  run_session-Outcome n session cx =
      let (b, h) = drive_loop-Heard fixed n.rounds _ _ _ _ in
      calm-then
        (quiet_calls _ _ (begin_quiet cx.job.capture cx.job.mountpoint) ∙ quiet_calls cx.hub _ refl)
        refl (Heard-Outcome h)

  send_request-Outcome :
      (error : Option Bytes) (no_request : Bool) (n : Connection) (session : NtripSession) (cx : Cx)
      → Outcome cx (send_request fixed error no_request n session cx).cx
  unfolding send_request
  send_request-Outcome none no_request n session cx = run_session-Outcome n session cx
  send_request-Outcome (some e) true n session cx = run_session-Outcome n session cx
  send_request-Outcome (some e) false n session cx = calm refl refl

  start_session-Outcome : (n : Connection) (cx : Cx) → Outcome cx (start_session fixed n cx).cx
  unfolding start_session
  start_session-Outcome n cx = send_request-Outcome n.request_error _ n _ cx

  with_stream-Outcome :
      (escape : Bytes → Bytes) (end : Option SessionEnd) (n : Connection) (cx : Cx)
      → Outcome cx (with_stream fixed escape end n cx).cx
  unfolding with_stream
  with_stream-Outcome escape (some end) n cx = calm refl refl
  with_stream-Outcome escape none n cx =
      let job = cx.job in
      let raw = note_raw job.transport cx in
      let stream = is_mount_stream job in
      let planned = note_plan job.gga_mode job.stream_requires_gga stream raw in
      calm-then
        (note_encoding-blocks_reported escape planned
          ∙ note_plan-blocks_reported job.gga_mode job.stream_requires_gga stream raw
          ∙ note_raw-blocks_reported job.transport cx)
        (note_encoding-core escape planned
          ∙ note_plan-core job.gga_mode job.stream_requires_gga stream raw
          ∙ note_raw-core job.transport cx)
        (start_session-Outcome n (note_encoding escape planned))

  with_timeout-Outcome :
      (escape : Bytes → Bytes) (error : Option Bytes) (n : Connection) (cx : Cx)
      → Outcome cx (with_timeout fixed escape error n cx).cx
  unfolding with_timeout
  with_timeout-Outcome escape (some e) n cx = calm refl refl
  with_timeout-Outcome escape none n cx =
      let tls = establish cx.job.tls n.tls_result cx in
      calm-then (establish-blocks_reported cx.job.tls n.tls_result cx)
        (establish-core cx.job.tls n.tls_result cx) (with_stream-Outcome escape tls.end n tls.cx)

  -- However a connection runs, it leaves the job, the count of drops, the attempts done and the alert
  -- as they are if it reported no byte count to the hub, as it does for each block of corrections.
  -- If it reported one, the job and the drops are as they were, no attempts are counted as done, and
  -- the alert is armed.
  pub drive_connection-core :
      (escape : Bytes → Bytes) (n : Connection) (cx : Cx)
      → let d = drive_connection fixed escape n cx in
        core d.cx ≡ (
          if blocks_reported d.cx.hub == blocks_reported cx.hub then core cx else recover (core cx))
  unfolding drive_connection
  drive_connection-core escape n cx = core_of (with_timeout-Outcome escape n.timeout_error n cx)
