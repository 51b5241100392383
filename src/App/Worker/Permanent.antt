-- ===== src/App/Worker/Permanent.antt =====
-- crates/app/src/workers/ntrip.rs: a failure that would repeat is never retried.
use open_ntripclient.Base.{Bool, true, false, Option, some, ◌≡◌, refl}
use open_ntripclient.Base.Bytes.{Bytes}
use open_ntripclient.Ntrip.Config.{
  CloseReason, mountpoint_not_found, unknown_response, unauthorized, first_response_timeout,
  sourcetable_timeout, stream_silence, remote_closed, cancelled, stream_corrupt,
}
use open_ntripclient.App.Job.{enabled}
use open_ntripclient.App.Closes.{transient, should_reconnect}
use open_ntripclient.App.Worker.{Cx, SessionEnd, table_done, closed, failed, failed_permanent, post}
use open_ntripclient.App.Worker.Drive.{Driven}
use open_ntripclient.App.Worker.Supervise.{
  connected, Attempt, Judged, stops, goes_on, judge, close_out, failure_calls, give_up, Turn, over,
  again, decide, conclude, settle, begin_attempt, run_outcome, turn, turn_unless,
}
use open_ntripclient.App.Worker.{is_some}

-- An end that no reconnect can help: a delivered table, a refused certificate, or a close that is
-- not transient.
abbrev pub IsPermanent : SessionEnd → Type 0
IsPermanent table_done = Unit
IsPermanent (failed_permanent msg) = Unit
IsPermanent (closed reason) = transient reason ≡ false
IsPermanent (failed msg) = ⊥

-- The worker has stopped, with a summary.
abbrev pub HasStopped : Turn → Type 0
HasStopped (over s) = is_some s.result ≡ true
HasStopped (again cx) = ⊥

abbrev RuledOut : Judged → Type 0
RuledOut (stops s) = Unit
RuledOut (goes_on summary ok t) = ok ≡ false

ruled_out :
    (cx : Cx) (reason : CloseReason)
    → transient reason ≡ false
    → should_reconnect reason (enabled cx.job.reconnect) cx.attempts_done cx.job.max_attempts
      ≡ false
unfolding should_reconnect
ruled_out cx reason h = rw h refl

judge-RuledOut : (cx : Cx) (end : SessionEnd) → IsPermanent end → RuledOut (judge cx end)
unfolding judge
judge-RuledOut cx table_done h = tt
judge-RuledOut cx (failed_permanent msg) h = refl
judge-RuledOut cx (failed msg) h = absurd h
judge-RuledOut cx (closed cancelled) h = tt
judge-RuledOut cx (closed unauthorized) h = ruled_out cx unauthorized h
judge-RuledOut cx (closed first_response_timeout) h = ruled_out cx first_response_timeout h
judge-RuledOut cx (closed sourcetable_timeout) h = ruled_out cx sourcetable_timeout h
judge-RuledOut cx (closed stream_silence) h = ruled_out cx stream_silence h
judge-RuledOut cx (closed remote_closed) h = ruled_out cx remote_closed h
judge-RuledOut cx (closed (mountpoint_not_found t)) h = ruled_out cx (mountpoint_not_found t) h
judge-RuledOut cx (closed (unknown_response raw)) h = ruled_out cx (unknown_response raw) h
judge-RuledOut cx (closed (stream_corrupt e)) h = ruled_out cx (stream_corrupt e) h

close_out-HasStopped :
    (flag : Bool) (summary : Bytes) (ok t : Bool) (audio : Option Bytes) (waiting : Bool) (d : Cx)
    → ok ≡ false
    → HasStopped (close_out flag summary ok t audio waiting d)
unfolding close_out decide give_up
close_out-HasStopped true summary ok t audio waiting d e = refl
close_out-HasStopped false summary false t audio waiting d e = refl
close_out-HasStopped false summary true t audio waiting d e = absurd (cc)

module _ {N : Type 0} where
  conclude-HasStopped :
      (a : Attempt N) (j : Judged) (d : Cx) → RuledOut j → HasStopped (conclude a j d)
  unfolding conclude
  conclude-HasStopped a (stops s) d h = refl
  conclude-HasStopped a (goes_on summary ok t) d h =
      close_out-HasStopped a.cancelled_after summary ok t a.audio_error a.cancelled_waiting d h

  settle-HasStopped :
      (a : Attempt N) (o : Option SessionEnd) (end : SessionEnd) (d : Cx)
      → o ≡ some end
      → IsPermanent end
      → HasStopped (settle a o d)
  unfolding settle
  settle-HasStopped a o end d e h =
      rw (e)
        (conclude-HasStopped a (judge d end) (post (failure_calls end) d) (judge-RuledOut d end h))

  module _ (drive : N → Cx → Driven) where
    turn_unless-HasStopped :
        (flag : Bool) (a : Attempt N) (n : N) (end : SessionEnd) (cx : Cx)
        → a.outcome ≡ connected n
        → (drive n (begin_attempt cx)).end ≡ some end
        → IsPermanent end
        → HasStopped (turn_unless drive flag a cx)
    unfolding turn_unless run_outcome
    turn_unless-HasStopped true a n end cx o e h = refl
    turn_unless-HasStopped false a n end cx o e h =
        rw (o, run_outcome) (settle-HasStopped a (drive n (begin_attempt cx)).end end _ e h)

    -- A turn whose connection ended for good stops the worker, with a summary, in every state of its
    -- budget and under every reconnect policy.
    pub turn-HasStopped :
        (a : Attempt N) (n : N) (end : SessionEnd) (cx : Cx)
        → a.outcome ≡ connected n
        → (drive n (begin_attempt cx)).end ≡ some end
        → IsPermanent end
        → HasStopped (turn drive a cx)
    unfolding turn
    turn-HasStopped a n end cx o e h = turn_unless-HasStopped a.cancelled_before a n end cx o e h
