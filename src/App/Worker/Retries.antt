-- ===== src/App/Worker/Retries.antt =====
-- crates/app/src/workers/ntrip.rs: the supervisor retries within its budget, and stops in time.
use open_ntripclient.Base.{
  Bool, true, false, Option, none, some, [], ◌∷◌, ◌++◌, ◌≡◌, refl, sym, ap, ◌∙◌, arith,
}
use open_ntripclient.Base.Bytes.{Bytes, ascii}
use open_ntripclient.App.Job.{FloatText, enabled}
use open_ntripclient.App.Worker.{Cx, SessionEnd, failed, post}
use open_ntripclient.App.Worker.Attempts.{Core, core, Tracks, kept, Tracks-then, Tracks-job}
use open_ntripclient.App.Bus.{status, last_close}
use open_ntripclient.App.Worker.Connection.{drive_connection-Tracks}
use open_ntripclient.App.Worker.Loop.{drive_connection}
use open_ntripclient.App.Worker.Drive.{Driven}
use open_ntripclient.App.Worker.Supervise.{
  ConnectOutcome, connected, connect_cancelled, connect_failed, Attempt, Judged, stops, goes_on,
  judge, close_out, failure_calls, announce, reconnect, decide, conclude, settle, begin_attempt,
  run_outcome, turn, turn_unless,
}
use open_ntripclient.App.Worker.Budget.{
  JudgedWell, judge-JudgedWell, Reconnects, OnAgain, ring_bell-Counted,
}

-- What the supervisor relies on in a connection.
pub record IsConnection {N : Type 0} (drive : N → Cx → Driven) : Type 0 where
  pub tracks : (n : N) (cx : Cx) → Tracks cx (drive n cx).cx

-- The worker's own connections keep the law.
pub drive_connection-IsConnection :
    (fixed : FloatText) (escape : Bytes → Bytes) → IsConnection (drive_connection fixed escape)
drive_connection-IsConnection fixed escape = record {
  tracks = drive_connection-Tracks fixed escape;
}

decide-Reconnects :
    (ok : Bool) (summary : Bytes) (t waiting : Bool) (c : Core) (rung : Cx)
    → (ok ≡ true → Reconnects c (core rung))
    → OnAgain (Reconnects c) (decide ok summary t waiting rung)
unfolding decide reconnect announce post
decide-Reconnects false summary t waiting c rung h = tt
decide-Reconnects true summary t true c rung h = tt
decide-Reconnects true summary t false c rung h = h refl

close_out-Reconnects :
    (flag : Bool) (summary : Bytes) (ok t : Bool) (audio : Option Bytes) (waiting : Bool)
    (cx d : Cx)
    → JudgedWell d (goes_on summary ok t)
    → Tracks (begin_attempt cx) d
    → cx.alert_armed ≡ false
    → OnAgain (Reconnects (core cx)) (close_out flag summary ok t audio waiting d)
unfolding close_out post begin_attempt
close_out-Reconnects true summary ok t audio waiting cx d w h q = tt
close_out-Reconnects false summary ok t audio waiting cx d w h q =
    decide-Reconnects ok summary t waiting (core cx) _ (λ e.
      let told = post (status (last_close summary) ∷ []) d in
      let (policy, budget, permitted) = w e in
      let job : d.job ≡ cx.job = Tracks-job h in
      let (counted, disarmed, same_job, attempts) =
        ring_bell-Counted cx told told.alert_armed audio refl q (Tracks-then h (kept refl)) in
      record {
        same_job = same_job;
        policy = ap (λ j. enabled j.reconnect) (sym job) ∙ policy;
        budget = omega (arith, budget, attempts, ap (λ j. j.max_attempts) job);
        disarmed = disarmed;
        counted = counted;
      })

judge_posted :
    (d : Cx) (j : Judged) (end : SessionEnd)
    → JudgedWell d j
    → JudgedWell (post (failure_calls end) d) j
unfolding post
judge_posted d (stops s) end w = tt
judge_posted d (goes_on summary ok t) end w = w

module _ {N : Type 0} where
  conclude-Reconnects :
      (a : Attempt N) (j : Judged) (cx d : Cx)
      → JudgedWell d j
      → Tracks (begin_attempt cx) d
      → cx.alert_armed ≡ false
      → OnAgain (Reconnects (core cx)) (conclude a j d)
  unfolding conclude
  conclude-Reconnects a (stops s) cx d w h q = tt
  conclude-Reconnects a (goes_on summary ok t) cx d w h q =
      close_out-Reconnects a.cancelled_after summary ok t a.audio_error a.cancelled_waiting cx d w h
        q

  settle-Reconnects :
      (a : Attempt N) (end : Option SessionEnd) (cx d : Cx)
      → Tracks (begin_attempt cx) d
      → cx.alert_armed ≡ false
      → OnAgain (Reconnects (core cx)) (settle a end d)
  unfolding settle post
  settle-Reconnects a none cx d h q = tt
  settle-Reconnects a (some end) cx d h q =
      conclude-Reconnects a (judge d end) cx (post (failure_calls end) d)
        (judge_posted d (judge d end) end (judge-JudgedWell d end)) (Tracks-then h (kept refl)) q

  module _ (drive : N → Cx → Driven) (law : IsConnection drive) where
    run_outcome-Reconnects :
        (o : ConnectOutcome N) (a : Attempt N) (cx : Cx)
        → cx.alert_armed ≡ false
        → OnAgain (Reconnects (core cx)) (run_outcome drive o a (begin_attempt cx))
    unfolding run_outcome
    run_outcome-Reconnects (connected n) a cx q =
        settle-Reconnects a _ cx _ (law.tracks n (begin_attempt cx)) q
    run_outcome-Reconnects connect_cancelled a cx q = tt
    run_outcome-Reconnects (connect_failed e) a cx q =
        settle-Reconnects a (some (failed (ascii "Connect failed: " ++ e))) cx (begin_attempt cx)
          (kept refl) q

    turn_unless-Reconnects :
        (flag : Bool) (a : Attempt N) (cx : Cx)
        → cx.alert_armed ≡ false
        → OnAgain (Reconnects (core cx)) (turn_unless drive flag a cx)
    unfolding turn_unless
    turn_unless-Reconnects true a cx q = tt
    turn_unless-Reconnects false a cx q = run_outcome-Reconnects a.outcome a cx q

    -- With the alert not armed at its start, a turn of the supervisor that ends in a reconnect leaves
    -- the alert disarmed; the policy allows reconnects and the attempts done are below the maximum;
    -- and either one attempt more is counted and no drop, or a drop is counted and the attempts are
    -- back at zero.
    pub turn-Reconnects :
        (a : Attempt N) (cx : Cx)
        → cx.alert_armed ≡ false
        → OnAgain (Reconnects (core cx)) (turn drive a cx)
    unfolding turn
    turn-Reconnects a cx q = turn_unless-Reconnects a.cancelled_before a cx q
