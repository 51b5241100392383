-- ===== src/App/Worker/Supervise.antt =====
-- crates/app/src/workers/ntrip.rs: the supervisor, which connects, classifies how the connection
-- ended, and reconnects or stops. How a connection runs is the parameter `drive`.
use open_ntripclient.Base.{Bool, true, false, ◌&&◌, Option, none, some, List, [], ◌∷◌, ◌++◌, ltb}
use open_ntripclient.Base.Bytes.{Bytes, ascii, decimal}
use open_ntripclient.Ntrip.Config.{CloseReason, cancelled}
use open_ntripclient.App.Job.{is_table_request, enabled}
use open_ntripclient.App.Closes.{transient, should_reconnect, close_summary}
use open_ntripclient.App.Policy.{no_reconnect_line, reconnect_notice}
use open_ntripclient.App.Bus.{
  HubCall, event, status, ntrip, connecting, reconnect_wait, stopped, last_close,
}
use open_ntripclient.App.Worker.{
  Cx, SessionEnd, table_done, closed, failed, failed_permanent, post, add32,
}
use open_ntripclient.App.Worker.Dispatch.{both}
use open_ntripclient.App.Worker.Drive.{Driven, address}

pub data ConnectOutcome (N : Type 0) : Type 0 where
  connected : N → ConnectOutcome N
  connect_cancelled : ConnectOutcome N
  connect_failed : Bytes → ConnectOutcome N

-- What the world does in one turn of the supervisor's loop: the cancel flag where the loop reads it,
-- the connection, and the error of the audio alert.
pub record Attempt (N : Type 0) : Type 0 where
  pub cancelled_before : Bool
  pub outcome : ConnectOutcome N
  pub cancelled_after : Bool
  pub audio_error : Option Bytes
  pub cancelled_waiting : Bool

-- The worker's end: the summary, and whether it failed.
pub record Stopped : Type 0 where
  pub summary : Bytes
  pub failed : Bool

abbrev pub by_user : Stopped
by_user = record { summary = ascii "Disconnected by user"; failed = false }

-- The worker after its turns; `none` when it has not stopped yet.
pub record Supervised : Type 0 where
  pub cx : Cx
  pub result : Option Stopped

abbrev pub stop : Cx → Stopped → Supervised
stop cx s = record { cx = cx; result = some s }

-- How the end of a connection is judged.
pub data Judged : Type 0 where
  stops : Stopped → Judged
  goes_on : Bytes → Bool → Bool → Judged

abbrev pub judge_close : Cx → CloseReason → Judged
judge_close cx cancelled = stops by_user
judge_close cx reason =
    goes_on (close_summary reason cx.job.mountpoint)
      (should_reconnect reason (enabled cx.job.reconnect) cx.attempts_done cx.job.max_attempts)
      (transient reason)

-- Summary, reconnectable, transient.
unfoldable pub judge : Cx → SessionEnd → Judged
unfolding close_summary should_reconnect transient enabled
judge cx table_done = stops (record { summary = ascii "Sourcetable downloaded"; failed = false })
judge cx (closed reason) = judge_close cx reason
judge cx (failed msg) =
    goes_on msg (enabled cx.job.reconnect && ltb cx.attempts_done cx.job.max_attempts) true
judge cx (failed_permanent msg) = goes_on msg false false

abbrev pub failure_calls : SessionEnd → List HubCall
failure_calls (failed msg) = event msg ∷ []
failure_calls _ = []

abbrev pub audio_calls : Option Bytes → List HubCall
audio_calls none = []
audio_calls (some e) = event (ascii "Audio alert failed: " ++ e) ∷ []

-- The bell of an established stream that dropped.
unfoldable pub ring_bell : Bool → Option Bytes → Cx → Cx
unfolding post
ring_bell false audio_error cx = cx
ring_bell true audio_error cx =
    post (audio_calls audio_error) (record cx { alert_armed = false; drops = add32 cx.drops 1 })

unfoldable pub give_up : Bytes → Bool → Cx → Supervised
unfolding no_reconnect_line is_table_request post
give_up summary was_transient cx =
    let job = cx.job in
    let line =
      no_reconnect_line was_transient job.reconnect (is_table_request job) job.max_attempts in
    stop (post (both line) cx) (record { summary = summary; failed = true })

unfoldable pub announce : Cx → Cx
unfolding reconnect_notice post
announce cx =
    let next = add32 cx.attempts_done 1 in
    let notice = reconnect_notice cx.drops next cx.job.max_attempts in
    post (both notice ++ status (ntrip (reconnect_wait next)) ∷ []) cx

-- What a turn leads to: the end of the run, as far as the script tells, or the next turn.
pub data Turn : Type 0 where
  over : Supervised → Turn
  again : Cx → Turn

abbrev pub follow : Turn → (Cx → Supervised) → Supervised
follow (over s) next = s
follow (again cx) next = next cx

unfoldable pub reconnect : Bool → Cx → Turn
unfolding announce
reconnect true cx = over (stop (announce cx) by_user)
reconnect false cx = again (announce cx)

-- The reconnect decision, and the wait.
unfoldable pub decide : Bool → Bytes → Bool → Bool → Cx → Turn
unfolding give_up reconnect
decide false summary was_transient cancelled_waiting cx = over (give_up summary was_transient cx)
decide true summary was_transient cancelled_waiting cx = reconnect cancelled_waiting cx

unfoldable pub begin_attempt : Cx → Cx
unfolding post decimal
begin_attempt cx =
    let attempt = add32 cx.attempts_done 1 in
    let line =
      ascii "Connecting to "
      ++ (address cx.job ++ (ascii " (attempt " ++ (decimal 10 attempt ++ ascii ")"))) in
    post (status (ntrip (connecting attempt)) ∷ event line ∷ [])
      (record cx { attempts_done = attempt })

-- A connection that the user did not cancel: the summary, the bell, the decision.
unfoldable pub close_out : Bool → Bytes → Bool → Bool → Option Bytes → Bool → Cx → Turn
unfolding post ring_bell decide
close_out true summary reconnectable was_transient audio_error cancelled_waiting cx =
    over (stop cx by_user)
close_out false summary reconnectable was_transient audio_error cancelled_waiting cx =
    let told = post (status (last_close summary) ∷ []) cx in
    decide reconnectable summary was_transient cancelled_waiting
      (ring_bell told.alert_armed audio_error told)

module _ {N : Type 0} where
  unfoldable pub conclude : Attempt N → Judged → Cx → Turn
  unfolding close_out
  conclude a (stops s) cx = over (stop cx s)
  conclude a (goes_on summary reconnectable was_transient) cx =
      close_out a.cancelled_after summary reconnectable was_transient a.audio_error
        a.cancelled_waiting cx

  unfoldable pub settle : Attempt N → Option SessionEnd → Cx → Turn
  unfolding judge conclude post
  settle a none cx = over (record { cx = cx; result = none })
  settle a (some end) cx = conclude a (judge cx end) (post (failure_calls end) cx)

  module _ (drive : N → Cx → Driven) where
    unfoldable pub run_outcome : ConnectOutcome N → Attempt N → Cx → Turn
    unfolding settle
    run_outcome (connected n) a cx = let d = drive n cx in settle a d.end d.cx
    run_outcome connect_cancelled a cx = over (stop cx by_user)
    run_outcome (connect_failed e) a cx =
        settle a (some (failed (ascii "Connect failed: " ++ e))) cx

    unfoldable pub turn_unless : Bool → Attempt N → Cx → Turn
    unfolding begin_attempt run_outcome
    turn_unless true a cx = over (stop cx by_user)
    turn_unless false a cx = run_outcome a.outcome a (begin_attempt cx)

    unfoldable pub turn : Attempt N → Cx → Turn
    unfolding turn_unless
    turn a cx = turn_unless a.cancelled_before a cx

    unfoldable pub supervise : List (Attempt N) → Cx → Supervised
    unfolding turn
    supervise [] cx = record { cx = cx; result = none }
    supervise (a ∷ rest) cx = follow (turn a cx) (λ cx'. supervise rest cx')

    -- What the worker's thread does: supervise, then post the final status.
    unfoldable pub run_worker : List (Attempt N) → Cx → Supervised
    unfolding supervise post
    run_worker attempts cx =
        let s = supervise attempts cx in
        elim s.result [
          | some r ↦ record s { cx = post (status (ntrip (stopped r.summary r.failed)) ∷ []) s.cx }
          | none ↦ s
        ]
