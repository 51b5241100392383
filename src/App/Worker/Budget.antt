-- ===== src/App/Worker/Budget.antt =====
-- crates/app/src/workers/ntrip.rs: the supervisor's attempt budget. The supervisor uses a connection
-- through the law `Connects` only.
use open_ntripclient.Base.{◌<◌, Bool, true, false, ◌&&◌, Option, ◌≡◌, refl, ap, ltb, ltb→lt}
use open_ntripclient.Base.Bytes.{Bytes}
use open_ntripclient.Ntrip.Config.{
  CloseReason, mountpoint_not_found, unknown_response, unauthorized, first_response_timeout,
  sourcetable_timeout, stream_silence, remote_closed, cancelled, stream_corrupt,
}
use open_ntripclient.App.Job.{enabled}
use open_ntripclient.App.Closes.{transient, should_reconnect}
use open_ntripclient.App.Worker.{
  Cx, SessionEnd, table_done, closed, failed, failed_permanent, post, add32,
}
use open_ntripclient.App.Worker.Attempts.{Core, core, Tracks, kept, healthy}
use open_ntripclient.App.Worker.Supervise.{
  Judged, stops, goes_on, judge, ring_bell, Turn, over, again, begin_attempt,
}

-- What holds if a judged connection may be retried.
abbrev pub JudgedWell : Cx → Judged → Type 0
JudgedWell cx (stops s) = Unit
JudgedWell cx (goes_on summary reconnectable was_transient) =
    reconnectable ≡ true
    → (enabled cx.job.reconnect ≡ true)
      × (cx.attempts_done < cx.job.max_attempts)
      × (was_transient ≡ true)

and_three : (a b c : Bool) → (a && b && c) ≡ true → (b ≡ true) × (c ≡ true) × (a ≡ true)
and_three true true true h = (refl, refl, refl)
and_three true true false h = absurd (cc)
and_three true false c h = absurd (cc)
and_three false b c h = absurd (cc)

should_reconnect-JudgedWell :
    (cx : Cx) (reason : CloseReason)
    → should_reconnect reason (enabled cx.job.reconnect) cx.attempts_done cx.job.max_attempts ≡ true
    → (enabled cx.job.reconnect ≡ true)
      × (cx.attempts_done < cx.job.max_attempts)
      × (transient reason ≡ true)
unfolding should_reconnect
should_reconnect-JudgedWell cx reason h =
    let (e, l, t) =
      and_three (transient reason) (enabled cx.job.reconnect)
        (ltb cx.attempts_done cx.job.max_attempts) h in
    (e, ltb→lt cx.attempts_done cx.job.max_attempts l, t)

pub judge-JudgedWell : (cx : Cx) (end : SessionEnd) → JudgedWell cx (judge cx end)
unfolding judge
judge-JudgedWell cx table_done = tt
judge-JudgedWell cx (failed msg) = λ h.
    let (l, t, e) =
      and_three true (enabled cx.job.reconnect) (ltb cx.attempts_done cx.job.max_attempts) h in
    (l, ltb→lt cx.attempts_done cx.job.max_attempts t, refl)
judge-JudgedWell cx (failed_permanent msg) = λ h. absurd (cc)
judge-JudgedWell cx (closed cancelled) = tt
judge-JudgedWell cx (closed unauthorized) = should_reconnect-JudgedWell cx unauthorized
judge-JudgedWell cx (closed first_response_timeout) =
    should_reconnect-JudgedWell cx first_response_timeout
judge-JudgedWell cx (closed sourcetable_timeout) =
    should_reconnect-JudgedWell cx sourcetable_timeout
judge-JudgedWell cx (closed stream_silence) = should_reconnect-JudgedWell cx stream_silence
judge-JudgedWell cx (closed remote_closed) = should_reconnect-JudgedWell cx remote_closed
judge-JudgedWell cx (closed (mountpoint_not_found t)) =
    should_reconnect-JudgedWell cx (mountpoint_not_found t)
judge-JudgedWell cx (closed (unknown_response raw)) =
    should_reconnect-JudgedWell cx (unknown_response raw)
judge-JudgedWell cx (closed (stream_corrupt e)) = should_reconnect-JudgedWell cx (stream_corrupt e)

-- A turn either counts a failed attempt, or a dropped stream, which frees the budget.
pub data Counted (cx after : Core) : Type 0 where
  barren :
      after.drops ≡ cx.drops → after.attempts_done ≡ add32 cx.attempts_done 1 → Counted cx after
  dropped : after.drops ≡ add32 cx.drops 1 → after.attempts_done ≡ 0 → Counted cx after

-- What holds where the supervisor goes on.
pub record Reconnects (cx after : Core) : Type 0 where
  pub same_job : after.job ≡ cx.job
  pub policy : enabled cx.job.reconnect ≡ true
  pub budget : after.attempts_done < cx.job.max_attempts
  pub disarmed : after.alert_armed ≡ false
  pub counted : Counted cx after

abbrev pub OnAgain : (Core → Type 0) → Turn → Type 0
OnAgain P (over s) = Unit
OnAgain P (again cx) = P (core cx)

-- A connection that ended, and how the bell rings for it.
pub ring_bell-Counted :
    (cx d : Cx) (armed : Bool) (audio : Option Bytes)
    → d.alert_armed ≡ armed
    → cx.alert_armed ≡ false
    → Tracks (begin_attempt cx) d
    → Counted (core cx) (core (ring_bell armed audio d))
      × ((ring_bell armed audio d).alert_armed ≡ false)
      × ((ring_bell armed audio d).job ≡ cx.job)
      × ((ring_bell armed audio d).attempts_done ≡ d.attempts_done)
unfolding ring_bell begin_attempt post
ring_bell-Counted cx d false audio e q (kept h) =
    (barren (ap (λ c. c.drops) h) (ap (λ c. c.attempts_done) h), e, ap (λ c. c.job) h, refl)
ring_bell-Counted cx d false audio e q (healthy h) =
    let t : d.alert_armed ≡ true = ap (λ c. c.alert_armed) h in absurd (cc)
ring_bell-Counted cx d true audio e q (kept h) =
    let t : d.alert_armed ≡ cx.alert_armed = ap (λ c. c.alert_armed) h in absurd (cc)
ring_bell-Counted cx d true audio e q (healthy h) = (
  dropped (ap (λ n. add32 n 1) (ap (λ c. c.drops) h)) (ap (λ c. c.attempts_done) h),
  refl,
  ap (λ c. c.job) h,
  refl,
)
