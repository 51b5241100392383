-- ===== src/App/Worker/Stops.antt =====
-- crates/app/src/workers/ntrip.rs: while no connection delivers corrections, the worker stops.
use open_ntripclient.Base.{
  ℕ, suc, ◌+◌, ◌≤◌, ◌<◌, Bool, true, false, Option, none, some, List, [], ◌∷◌, ◌++◌, ◌≡◌, refl, ap,
  ◌∙◌, arith, length,
}
use open_ntripclient.Base.Bytes.{Bytes, ascii}
use open_ntripclient.App.Plot.{u32_size}
use open_ntripclient.App.Worker.{Cx, SessionEnd, failed, post, add32}
use open_ntripclient.App.Worker.Attempts.{Core, core, kept}
use open_ntripclient.App.Bus.{status, last_close}
use open_ntripclient.App.Worker.Drive.{Driven}
use open_ntripclient.App.Worker.Supervise.{
  ConnectOutcome, connected, connect_cancelled, connect_failed, Attempt, Supervised, Judged, stops,
  goes_on, judge, close_out, failure_calls, ring_bell, give_up, announce, Turn, over, again,
  reconnect, decide, conclude, settle, begin_attempt, run_outcome, turn, turn_unless, follow,
  supervise,
}
use open_ntripclient.App.Worker.Budget.{Reconnects, OnAgain}
use open_ntripclient.App.Worker.{is_some}
use open_ntripclient.App.Worker.Retries.{IsConnection, turn-Reconnects}

-- A turn that stops the worker, or counts the attempts.
abbrev pub Proceeds : ℕ → Turn → Type 0
Proceeds n (over s) = is_some s.result ≡ true
Proceeds n (again cx) = cx.attempts_done ≡ n

Proceeds-by : {n m : ℕ} → n ≡ m → (t : Turn) → Proceeds n t → Proceeds m t
Proceeds-by e (over s) h = h
Proceeds-by e (again cx) h = h ∙ e

decide-Proceeds :
    (ok : Bool) (summary : Bytes) (t waiting : Bool) (cx : Cx)
    → Proceeds cx.attempts_done (decide ok summary t waiting cx)
unfolding decide give_up reconnect announce post
decide-Proceeds false summary t waiting cx = refl
decide-Proceeds true summary t true cx = refl
decide-Proceeds true summary t false cx = refl

ring_bell-attempts :
    (armed : Bool) (audio : Option Bytes) (cx : Cx)
    → (ring_bell armed audio cx).attempts_done ≡ cx.attempts_done
unfolding ring_bell post
ring_bell-attempts true audio cx = refl
ring_bell-attempts false audio cx = refl

close_out-Proceeds :
    (flag : Bool) (summary : Bytes) (ok t : Bool) (audio : Option Bytes) (waiting : Bool) (d : Cx)
    → Proceeds d.attempts_done (close_out flag summary ok t audio waiting d)
unfolding close_out post
close_out-Proceeds true summary ok t audio waiting d = refl
close_out-Proceeds false summary ok t audio waiting d =
    let told = post (status (last_close summary) ∷ []) d in
    Proceeds-by (ring_bell-attempts told.alert_armed audio told) _
      (decide-Proceeds ok summary t waiting (ring_bell told.alert_armed audio told))

module _ {N : Type 0} where
  conclude-Proceeds :
      (a : Attempt N) (j : Judged) (d : Cx) → Proceeds d.attempts_done (conclude a j d)
  unfolding conclude
  conclude-Proceeds a (stops s) d = refl
  conclude-Proceeds a (goes_on summary ok t) d =
      close_out-Proceeds a.cancelled_after summary ok t a.audio_error a.cancelled_waiting d

  settle-Proceeds :
      (a : Attempt N) (end : Option SessionEnd) (d : Cx)
      → is_some end ≡ true
      → Proceeds d.attempts_done (settle a end d)
  unfolding settle post
  settle-Proceeds a none d e = absurd (cc)
  settle-Proceeds a (some end) d e = conclude-Proceeds a (judge d end) (post (failure_calls end) d)

  -- Connections that end, and bring no corrections.
  pub record IsBarren (drive : N → Cx → Driven) : Type 0 where
    pub keeps : (n : N) (cx : Cx) → core (drive n cx).cx ≡ core cx
    pub ends : (n : N) (cx : Cx) → is_some (drive n cx).end ≡ true

  module _ (drive : N → Cx → Driven) (h : IsBarren drive) where
    IsBarren-IsConnection : IsConnection drive
    IsBarren-IsConnection = record { tracks = λ n cx. kept (h.keeps n cx) }

    run_outcome-Proceeds :
        (o : ConnectOutcome N) (a : Attempt N) (cx : Cx)
        → Proceeds cx.attempts_done (run_outcome drive o a cx)
    unfolding run_outcome
    run_outcome-Proceeds (connected n) a cx =
        let d = drive n cx in
        Proceeds-by (ap (λ c. c.attempts_done) (h.keeps n cx)) (settle a d.end d.cx)
          (settle-Proceeds a d.end d.cx (h.ends n cx))
    run_outcome-Proceeds connect_cancelled a cx = refl
    run_outcome-Proceeds (connect_failed e) a cx =
        settle-Proceeds a (some (failed (ascii "Connect failed: " ++ e))) cx refl

    begin_attempt-attempts : (cx : Cx) → (begin_attempt cx).attempts_done ≡ add32 cx.attempts_done 1
    unfolding begin_attempt post
    begin_attempt-attempts cx = refl

    turn_unless-Proceeds :
        (flag : Bool) (a : Attempt N) (cx : Cx)
        → Proceeds (add32 cx.attempts_done 1) (turn_unless drive flag a cx)
    unfolding turn_unless
    turn_unless-Proceeds true a cx = refl
    turn_unless-Proceeds false a cx =
        Proceeds-by (begin_attempt-attempts cx) (run_outcome drive a.outcome a (begin_attempt cx))
          (run_outcome-Proceeds a.outcome a (begin_attempt cx))

    turn-Proceeds :
        (a : Attempt N) (cx : Cx) → Proceeds (add32 cx.attempts_done 1) (turn drive a cx)
    unfolding turn
    turn-Proceeds a cx = turn_unless-Proceeds a.cancelled_before a cx

    -- What is left of the budget is no more than the attempts to come.
    record Suffices (cx : Cx) (left : ℕ) : Type 0 where
      pub disarmed : cx.alert_armed ≡ false
      pub machine : cx.job.max_attempts < u32_size
      pub small : suc cx.attempts_done < u32_size
      pub turns : 1 ≤ left
      pub budget : cx.job.max_attempts ≤ cx.attempts_done + left

    next-Suffices :
        (cx after : Cx) (left : ℕ)
        → Suffices cx (suc left)
        → Reconnects (core cx) (core after)
        → after.attempts_done ≡ add32 cx.attempts_done 1
        → Suffices after left
    next-Suffices cx after left s r e =
        let n : after.attempts_done ≡ suc cx.attempts_done = omega (arith, e, s.small) in
        let same : after.job.max_attempts ≡ cx.job.max_attempts =
          ap (λ j. j.max_attempts) r.same_job in
        record {
          disarmed = r.disarmed;
          machine = omega (arith, same, s.machine);
          small = omega (arith, r.budget, s.machine);
          turns = omega (arith, r.budget, s.budget, n);
          budget = omega (arith, same, s.budget, n);
        }

    follow_stops :
        {n : ℕ} {c : Core} (t : Turn) (next : Cx → Supervised)
        → Proceeds n t
        → OnAgain (Reconnects c) t
        → ((after : Cx)
            → Reconnects c (core after)
            → after.attempts_done ≡ n
            → is_some (next after).result ≡ true)
        → is_some (follow t next).result ≡ true
    follow_stops (over s) next p r k = p
    follow_stops (again after) next p r k = k after r p

    supervise-stops :
        (attempts : List (Attempt N)) (cx : Cx)
        → Suffices cx (length attempts)
        → is_some (supervise drive attempts cx).result ≡ true
    unfolding supervise
    supervise-stops [] cx s = absurd (omega (arith, s.turns))
    supervise-stops (a ∷ rest) cx s =
        follow_stops (turn drive a cx) (supervise drive rest) (turn-Proceeds a cx)
          (turn-Reconnects drive IsBarren-IsConnection a cx s.disarmed)
          (λ after r e. supervise-stops rest after (next-Suffices cx after (length rest) s r e))

    -- From the start of a run, while connections end and bring no corrections, the worker has stopped
    -- after at most as many attempts as its maximum allows, and after one if that is zero.
    pub supervise-gives_up :
        (attempts : List (Attempt N)) (cx : Cx)
        → cx.attempts_done ≡ 0
        → cx.alert_armed ≡ false
        → cx.job.max_attempts < u32_size
        → 1 ≤ length attempts
        → cx.job.max_attempts ≤ length attempts
        → is_some (supervise drive attempts cx).result ≡ true
    supervise-gives_up attempts cx z q m l k = supervise-stops attempts cx (record {
      disarmed = q;
      machine = m;
      small = omega (arith, z);
      turns = l;
      budget = omega (arith, k);
    })
