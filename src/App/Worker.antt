-- ===== src/App/Worker.antt =====
-- crates/app/src/workers/ntrip.rs: the state of a worker, and what it does with correction bytes.
-- The hub is the list of the calls made to it. One handler reads the clock once.
pub mod Gga
pub mod Dispatch
pub mod Drive
pub mod Loop
pub mod Supervise
pub mod Attempts
pub mod Connection
pub mod Reports
pub mod Heard
pub mod Arrivals
pub mod Budget
pub mod Retries
pub mod Stops
pub mod Permanent
pub mod Answered
use open_ntripclient.Base.{
  ℕ, zero, suc, ◌+◌, ◌-◌, ◌%◌, Bool, true, false, not, ◌&&◌, ◌||◌, Option, none, some, List, [],
  ◌∷◌, ◌++◌, leb, ◌==◌, if◌then◌else◌, length, is_empty,
}
use open_ntripclient.Base.Bytes.{Bytes, ascii, decimal}
use open_ntripclient.Gnss.Decode.{Decoded}
use open_ntripclient.Gnss.Frame.{FrameEvent, frame, crc_error, garbage, Deframer, Fed, feed}
use open_ntripclient.Gnss.Messages.{decode}
use open_ntripclient.Ntrip.Config.{CloseReason}
use open_ntripclient.App.Queue.{
  u64_size, CorrQueue, push, PushOutcome, inactive, queued, dropped_oldest,
}
use open_ntripclient.App.Plot.{u32_size}
use open_ntripclient.App.Job.{
  has_manual, NtripJob, FloatText, manual, receiver, GgaSource, fmt_duration, gga_policy,
}
use open_ntripclient.App.Policy.{traffic_milestone, gga_plan, is_some_and}
use open_ntripclient.App.Bus.{
  HubCall, event, status, posted, log_cmd, RtcmBatch, ntrip, streaming, rtcm, rx_bytes, overruns,
  capture_data,
}

abbrev pub add32 : ℕ → ℕ → ℕ
add32 a b = (a + b) % u32_size

abbrev pub add64 : ℕ → ℕ → ℕ
add64 a b = (a + b) % u64_size

pub record Cx : Type 0 where
  pub job : NtripJob
  pub hub : List HubCall
  pub corr : CorrQueue
  pub attempts_done : ℕ
  pub drops : ℕ
  pub alert_armed : Bool
  pub total_bytes : ℕ
  pub frames_total : ℕ
  pub crc_base : ℕ
  pub garbage_base : ℕ
  pub last_health_posted : ℕ × ℕ
  pub last_overrun_event : Option ℕ
  pub gga_assumption_logged : Bool
  pub gga_off_warning_logged : Bool
  pub mount_encoding_logged : Bool
  pub starved_hint_logged : Bool
  pub refused_hint_logged : Bool

pub data SessionEnd : Type 0 where
  table_done : SessionEnd
  closed : CloseReason → SessionEnd
  failed failed_permanent : Bytes → SessionEnd

pub record ConnState : Type 0 where
  pub deframer : Deframer
  pub streaming : Bool
  pub connected_at : ℕ
  pub bytes_at_connect : ℕ
  pub gga_sent : ℕ
  pub last_miss_note : Option ℕ
  pub answered_at : Option ℕ
  pub starve_noted : Bool
  pub terminal : Option SessionEnd

-- What the outside world holds while a handler runs: the clock, the receiver's last GGA, the
-- sentence fabricated from the manual position, and the error of a GGA write.
pub record Moment : Type 0 where
  pub now : ℕ
  pub last_gga : Option Bytes
  pub fabricated : Bytes
  pub write_error : Option Bytes

unfoldable pub post : List HubCall → Cx → Cx
post calls cx = record cx { hub = cx.hub ++ calls }

abbrev pub is_some {ℓ} : {A : Type ℓ} → Option A → Bool
is_some none = false
is_some (some a) = true

-- The statistics of a frame: counted at its type's entry, or in a new one at the end.
unfoldable pub count_frame : ℕ → ℕ → List (ℕ × ℕ × ℕ) → List (ℕ × ℕ × ℕ)
count_frame ty wire_len [] = (ty, 1, wire_len) ∷ []
count_frame ty wire_len ((t, n, last) ∷ rest) =
    let counted = count_frame ty wire_len rest in
    if t == ty then (t, add32 n 1, wire_len) ∷ rest else (t, n, last) ∷ counted

abbrev pub is_displayed : ℕ → Bool
is_displayed ty = ty == 1005 || ty == 1006 || ty == 1008 || ty == 1029 || ty == 1033 || ty == 1230

abbrev pub decodes : Bool → Option Decoded → List Decoded
decodes true (some d) = d ∷ []
decodes _ _ = []

unfoldable pub note_frame : RtcmBatch → FrameEvent → RtcmBatch
unfolding count_frame decode
note_frame batch (frame ty payload) = record batch {
  frames = count_frame ty (length payload + 6) batch.frames;
  decoded = batch.decoded ++ decodes (is_displayed ty) (decode ty payload);
}
note_frame batch crc_error = batch
note_frame batch (garbage n) = batch

unfoldable pub note_frames : RtcmBatch → List FrameEvent → RtcmBatch
unfolding note_frame
note_frames batch [] = batch
note_frames batch (e ∷ es) = note_frames (note_frame batch e) es

abbrev pub empty_batch : RtcmBatch
empty_batch = record { frames = []; crc_failures = 0; garbage_bytes = 0; decoded = [] }

abbrev pub sum_frames : List (ℕ × ℕ × ℕ) → ℕ
sum_frames [] = 0
sum_frames ((t, n, last) ∷ rest) = n + sum_frames rest

abbrev pub is_due : Option ℕ → ℕ → ℕ → Bool
is_due none interval now = true
is_due (some t) interval now = leb interval (now - t)

-- The arms on the outcome of a push.
unfoldable pub note_overrun : PushOutcome → ℕ → Cx → Cx
unfolding post decimal
note_overrun inactive now cx = cx
note_overrun queued now cx = cx
note_overrun (dropped_oldest n) now cx =
    let told = post (posted (overruns n) ∷ []) cx in
    let line =
      ascii "Serial overrun: receiver link too slow, oldest corrections dropped ("
      ++ (decimal 20 n ++ ascii " total)") in
    if is_due cx.last_overrun_event 1000 now
    then post (event line ∷ []) (record told { last_overrun_event = some now })
    else told

module _ (fixed : FloatText) where
  unfoldable pub first_data : Bool → Moment → ConnState → Cx → Cx
  unfolding post fmt_duration gga_plan
  first_data true m conn cx = cx
  first_data false m conn cx =
      let job = cx.job in
      let plan =
        gga_plan job.transport job.gga_mode job.stream_requires_gga job.gga_source
          (is_some m.last_gga) (has_manual job) in
      let line =
        ascii "Receiving data (first data "
        ++ (fmt_duration fixed (m.now - conn.connected_at)
            ++ (ascii " after connect; " ++ (plan ++ ascii ")"))) in
      post (event line ∷ status (ntrip streaming) ∷ [])
        (record cx { attempts_done = 0; alert_armed = true })

abbrev pub milestone_calls : Option Bytes → List HubCall
milestone_calls none = []
milestone_calls (some line) = event line ∷ []

abbrev pub same_health : ℕ × ℕ → ℕ × ℕ → Bool
same_health (a, b) (c, d) = a == c && b == d

-- The inspector's report, its milestone, and the byte count, once the chunk is deframed.
unfoldable pub report_batch : ℕ → RtcmBatch → Cx → Cx
unfolding post traffic_milestone
report_batch before batch cx =
    let frames_total = add64 cx.frames_total (sum_frames batch.frames) in
    let milestone = traffic_milestone before cx.total_bytes frames_total batch.crc_failures in
    let counted = post (milestone_calls milestone) (record cx { frames_total = frames_total }) in
    let health : ℕ × ℕ = (batch.crc_failures, batch.garbage_bytes) in
    let reported =
      if not (is_empty batch.frames) || not (same_health health cx.last_health_posted)
      then post (posted (rtcm batch) ∷ []) (record counted { last_health_posted = health })
      else counted in
    post (posted (rx_bytes cx.total_bytes) ∷ []) reported

abbrev pub capture_calls : Bool → Bytes → List HubCall
capture_calls true bytes = log_cmd (capture_data bytes) ∷ []
capture_calls false bytes = []

pub record Worked : Type 0 where
  pub cx : Cx
  pub conn : ConnState

unfoldable pub enqueue : ℕ → Bytes → Cx → Cx
unfolding push note_overrun
enqueue now bytes cx =
    let pushed = push bytes cx.corr in
    note_overrun pushed.outcome now
      (record cx { total_bytes = add64 cx.total_bytes (length bytes); corr = pushed.queue })

unfoldable pub batch_of : Cx → Fed → RtcmBatch
unfolding note_frames
batch_of cx fed =
    let stats = note_frames empty_batch fed.events in
    record stats {
      crc_failures = add64 cx.crc_base fed.deframer.crc_failures;
      garbage_bytes = add64 cx.garbage_base fed.deframer.garbage_bytes;
    }

module _ (fixed : FloatText) where
  unfoldable pub on_corrections : Moment → Bytes → Cx → ConnState → Worked
  unfolding first_data enqueue post feed batch_of report_batch
  on_corrections m bytes cx conn =
      let healthy = first_data fixed conn.streaming m conn cx in
      let captured = post (capture_calls cx.job.capture bytes) (enqueue m.now bytes healthy) in
      let fed = feed conn.deframer bytes in
      record {
        cx = report_batch healthy.total_bytes (batch_of cx fed) captured;
        conn = record conn { streaming = true; deframer = fed.deframer };
      }
