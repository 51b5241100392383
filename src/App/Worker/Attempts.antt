-- ===== src/App/Worker/Attempts.antt =====
-- crates/app/src/workers/ntrip.rs: a connection leaves the job and the drop count alone, and the
-- attempt budget too, or resets it and arms the alert.
use open_ntripclient.Base.{
  ℕ, ◌-◌, Bool, true, false, not, ◌&&◌, Option, none, some, List, [], ◌∷◌, ◌≡◌, refl, ◌∙◌, length,
  leb, Bool-cases, inl, inr, is_empty, ap, ◌||◌,
}
use open_ntripclient.Base.Bytes.{Bytes}
use open_ntripclient.Ntrip.Config.{
  Output, protocol_tx, protocol_rx, corrections, sourcetable, gga_due, close, CloseReason,
  mountpoint_not_found, unknown_response, unauthorized, first_response_timeout, sourcetable_timeout,
  stream_silence, remote_closed, cancelled, stream_corrupt,
}
use open_ntripclient.Ntrip.Session.{NtripSession}
use open_ntripclient.App.Queue.{PushOutcome, inactive, queued, dropped_oldest, push}
use open_ntripclient.Gnss.Frame.{feed}
use open_ntripclient.App.Job.{NtripJob, FloatText}
use open_ntripclient.App.Policy.{PositionTrouble, starved, refused}
use open_ntripclient.App.Bus.{RtcmBatch}
use open_ntripclient.App.Worker.{
  Cx, ConnState, Moment, post, note_overrun, is_due, first_data, report_batch, same_health,
  on_corrections, enqueue, batch_of, capture_calls, add64,
}
use open_ntripclient.App.Worker.Gga.{
  note_gga_miss, report_trouble, Sentence, ready, missing, write_gga, answer_gga, on_gga_due,
}
use open_ntripclient.App.Worker.Dispatch.{
  on_sourcetable, surface, post_verdict, on_close, dispatch_one, dispatch,
}

-- The supervisor's part of the state.
pub record Core : Type 0 where
  pub job : NtripJob
  pub drops : ℕ
  pub attempts_done : ℕ
  pub alert_armed : Bool

abbrev pub core : Cx → Core
core cx = record {
  job = cx.job;
  drops = cx.drops;
  attempts_done = cx.attempts_done;
  alert_armed = cx.alert_armed;
}

abbrev pub recovered : Cx → Core
recovered cx = record { job = cx.job; drops = cx.drops; attempts_done = 0; alert_armed = true }

-- Kept, or reset by a healthy stream.
pub data Tracks (cx cx' : Cx) : Type 0 where
  kept : core cx' ≡ core cx → Tracks cx cx'
  healthy : core cx' ≡ recovered cx → Tracks cx cx'

abbrev pub recover : Core → Core
recover c = record c { attempts_done = 0; alert_armed = true }

pub Tracks-then : {a b c : Cx} → Tracks a b → Tracks b c → Tracks a c
Tracks-then (kept h) (kept k) = kept (k ∙ h)
Tracks-then (kept h) (healthy k) = healthy (k ∙ ap recover h)
Tracks-then (healthy h) (kept k) = healthy (k ∙ h)
Tracks-then (healthy h) (healthy k) = healthy (k ∙ ap recover h)

pub Tracks-job : {cx cx' : Cx} → Tracks cx cx' → cx'.job ≡ cx.job
Tracks-job (kept h) = ap (λ c. c.job) h
Tracks-job (healthy h) = ap (λ c. c.job) h

pub note_overrun-core :
    (o : PushOutcome) (now : ℕ) (cx : Cx) → core (note_overrun o now cx) ≡ core cx
unfolding note_overrun post
note_overrun-core inactive now cx = refl
note_overrun-core queued now cx = refl
note_overrun-core (dropped_oldest n) now cx =
    elim (Bool-cases (is_due cx.last_overrun_event 1000 now)) [
      | inl e ↦ rw e refl
      | inr e ↦ rw e refl
    ]

pub enqueue-core : (now : ℕ) (bytes : Bytes) (cx : Cx) → core (enqueue now bytes cx) ≡ core cx
unfolding enqueue
enqueue-core now bytes cx =
    let pushed = push bytes cx.corr in
    note_overrun-core pushed.outcome now
      (record cx { total_bytes = add64 cx.total_bytes (length bytes); corr = pushed.queue })

pub report_batch-core :
    (before : ℕ) (batch : RtcmBatch) (cx : Cx) → core (report_batch before batch cx) ≡ core cx
unfolding report_batch post
report_batch-core before batch cx =
    elim (Bool-cases (
      not (is_empty batch.frames)
      || not (same_health (batch.crc_failures, batch.garbage_bytes) cx.last_health_posted))) [
        | inl e ↦ rw e refl
        | inr e ↦ rw e refl
      ]

pub report_trouble-core : (t : PositionTrouble) (cx : Cx) → core (report_trouble t cx) ≡ core cx
unfolding report_trouble post
report_trouble-core starved cx = elim (Bool-cases cx.starved_hint_logged) [
  | inl e ↦ rw e refl
  | inr e ↦ rw e refl
]
report_trouble-core refused cx = elim (Bool-cases cx.refused_hint_logged) [
  | inl e ↦ rw e refl
  | inr e ↦ rw e refl
]

pub note_gga_miss-core :
    (last : Option ℕ) (now : ℕ) (texts : Bytes × Bytes) (cx : Cx) (c : ConnState)
    → core (note_gga_miss last now texts cx c).cx ≡ core cx
unfolding note_gga_miss post
note_gga_miss-core none now texts cx c = refl
note_gga_miss-core (some prev) now texts cx c =
    elim (Bool-cases (not c.streaming && leb 10000 (now - prev))) [
      | inl e ↦ rw e refl
      | inr e ↦ rw e refl
    ]

pub write_gga-core :
    (sentence : Bytes) (error : Option Bytes) (now : ℕ) (cx : Cx) (c : ConnState) (s : NtripSession)
    → core (write_gga sentence error now cx c s).work.cx ≡ core cx
unfolding write_gga post
write_gga-core sentence none now cx c s = refl
write_gga-core sentence (some e) now cx c s = refl

pub answer_gga-core :
    (x : Sentence) (m : Moment) (cx : Cx) (c : ConnState) (s : NtripSession)
    → core (answer_gga x m cx c s).work.cx ≡ core cx
unfolding answer_gga
answer_gga-core (missing texts) m cx c s = note_gga_miss-core c.last_miss_note m.now texts cx c
answer_gga-core (ready sentence) m cx c s = write_gga-core sentence m.write_error m.now cx c s

pub surface-core : (reason : CloseReason) (cx : Cx) → core (surface reason cx) ≡ core cx
unfolding surface on_sourcetable post
surface-core (mountpoint_not_found table) cx = refl
surface-core (unknown_response []) cx = refl
surface-core (unknown_response (b ∷ bs)) cx = refl
surface-core unauthorized cx = refl
surface-core first_response_timeout cx = refl
surface-core sourcetable_timeout cx = refl
surface-core stream_silence cx = refl
surface-core remote_closed cx = refl
surface-core cancelled cx = refl
surface-core (stream_corrupt detail) cx = refl

pub post_verdict-core : (v : Option PositionTrouble) (cx : Cx) → core (post_verdict v cx) ≡ core cx
unfolding post_verdict post
post_verdict-core (some trouble) cx = report_trouble-core trouble cx
post_verdict-core none cx = refl

module _ (fixed : FloatText) where
  first_data-Tracks :
      (streaming : Bool) (m : Moment) (c : ConnState) (cx : Cx)
      → Tracks cx (first_data fixed streaming m c cx)
  unfolding first_data post
  first_data-Tracks true m c cx = kept refl
  first_data-Tracks false m c cx = healthy refl

  on_corrections-Tracks :
      (m : Moment) (bytes : Bytes) (cx : Cx) (c : ConnState)
      → Tracks cx (on_corrections fixed m bytes cx c).cx
  unfolding on_corrections post
  on_corrections-Tracks m bytes cx c =
      let healthy = first_data fixed c.streaming m c cx in
      let captured = post (capture_calls cx.job.capture bytes) (enqueue m.now bytes healthy) in
      Tracks-then (first_data-Tracks c.streaming m c cx) (
        kept (
          report_batch-core healthy.total_bytes (batch_of cx (feed c.deframer bytes)) captured
          ∙ enqueue-core m.now bytes healthy))

  pub on_close-core :
      (m : Moment) (reason : CloseReason) (cx : Cx) (c : ConnState)
      → core (on_close fixed m reason cx c).cx ≡ core cx
  unfolding on_close post
  on_close-core m reason cx c = post_verdict-core _ _ ∙ surface-core reason cx

  dispatch_one-Tracks :
      (m : Moment) (o : Output) (cx : Cx) (c : ConnState) (s : NtripSession)
      → Tracks cx (dispatch_one fixed m o cx c s).work.cx
  unfolding dispatch_one post on_sourcetable on_gga_due
  dispatch_one-Tracks m (protocol_tx line) cx c s = kept refl
  dispatch_one-Tracks m (protocol_rx line) cx c s = kept refl
  dispatch_one-Tracks m gga_due cx c s = kept (answer_gga-core _ m cx c s)
  dispatch_one-Tracks m (corrections bytes) cx c s = on_corrections-Tracks m bytes cx c
  dispatch_one-Tracks m (sourcetable raw) cx c s = kept refl
  dispatch_one-Tracks m (close reason) cx c s = kept (on_close-core m reason cx c)

  pub dispatch-Tracks :
      (m : Moment) (outs : List Output) (cx : Cx) (c : ConnState) (s : NtripSession)
      → Tracks cx (dispatch fixed m outs cx c s).work.cx
  unfolding dispatch
  dispatch-Tracks m [] cx c s = kept refl
  dispatch-Tracks m (o ∷ os) cx c s =
      let l = dispatch_one fixed m o cx c s in
      Tracks-then (dispatch_one-Tracks m o cx c s)
        (dispatch-Tracks m os l.work.cx l.work.conn l.session)
