-- ===== src/App/Worker/Reports.antt =====
-- crates/app/src/workers/ntrip.rs: which handlers report a byte count to the hub. Each correction
-- block is reported once, and nothing else is.
use open_ntripclient.Base.{
  ℕ, suc, ◌+◌, ◌-◌, Bool, true, false, not, ◌&&◌, ◌||◌, Option, none, some, List, [], ◌∷◌, ◌++◌,
  ◌≡◌, refl, ap, ◌∙◌, arith, leb, Bool-cases, inl, inr, is_empty,
}
use open_ntripclient.Base.Bytes.{Bytes, ascii}
use open_ntripclient.Ntrip.Config.{
  CloseReason, mountpoint_not_found, unknown_response, unauthorized, first_response_timeout,
  sourcetable_timeout, stream_silence, remote_closed, cancelled, stream_corrupt,
}
use open_ntripclient.Ntrip.Session.{NtripSession}
use open_ntripclient.App.Queue.{PushOutcome, inactive, queued, dropped_oldest, push}
use open_ntripclient.Gnss.Frame.{feed}
use open_ntripclient.App.Job.{FloatText}
use open_ntripclient.App.Policy.{PositionTrouble, starved, refused}
use open_ntripclient.App.Bus.{HubCall, posted, rx_bytes, RtcmBatch}
use open_ntripclient.App.Worker.{
  Cx, ConnState, Moment, post, note_overrun, is_due, first_data, report_batch, same_health,
  on_corrections, enqueue, batch_of, capture_calls, milestone_calls,
}
use open_ntripclient.App.Worker.Gga.{
  note_gga_miss, report_trouble, Sentence, ready, missing, write_gga, answer_gga, first_sent_calls,
}
use open_ntripclient.App.Worker.Dispatch.{
  on_sourcetable, surface, post_verdict, on_close, hint_calls, both,
}

abbrev pub report_of : HubCall → ℕ
report_of (posted (rx_bytes n)) = 1
report_of _ = 0

-- How many correction blocks were reported.
abbrev pub blocks_reported : List HubCall → ℕ
blocks_reported [] = 0
blocks_reported (c ∷ cs) = report_of c + blocks_reported cs

pub blocks_reported-append :
    (xs ys : List HubCall) → blocks_reported (xs ++ ys) ≡ blocks_reported xs + blocks_reported ys
blocks_reported-append [] ys = omega arith
blocks_reported-append (x ∷ xs) ys = omega (arith, blocks_reported-append xs ys)

pub quiet_calls :
    (hub calls : List HubCall)
    → blocks_reported calls ≡ 0
    → blocks_reported (hub ++ calls) ≡ blocks_reported hub
quiet_calls hub calls h = omega (arith, h, blocks_reported-append hub calls)

counted_call :
    (hub : List HubCall) (n : ℕ)
    → blocks_reported (hub ++ posted (rx_bytes n) ∷ []) ≡ suc (blocks_reported hub)
counted_call hub n = omega (arith, blocks_reported-append hub (posted (rx_bytes n) ∷ []))

note_overrun-blocks_reported :
    (o : PushOutcome) (now : ℕ) (cx : Cx)
    → blocks_reported (note_overrun o now cx).hub ≡ blocks_reported cx.hub
unfolding note_overrun post
note_overrun-blocks_reported inactive now cx = refl
note_overrun-blocks_reported queued now cx = refl
note_overrun-blocks_reported (dropped_oldest n) now cx =
    elim (Bool-cases (is_due cx.last_overrun_event 1000 now)) [
      | inl e ↦ rw e (quiet_calls _ _ refl ∙ quiet_calls cx.hub _ refl)
      | inr e ↦ rw e (quiet_calls cx.hub _ refl)
    ]

milestone_quiet : (o : Option Bytes) → blocks_reported (milestone_calls o) ≡ 0
milestone_quiet none = refl
milestone_quiet (some line) = refl

capture_quiet : (b : Bool) (bytes : Bytes) → blocks_reported (capture_calls b bytes) ≡ 0
capture_quiet true bytes = refl
capture_quiet false bytes = refl

report_batch-blocks_reported :
    (before : ℕ) (batch : RtcmBatch) (cx : Cx)
    → blocks_reported (report_batch before batch cx).hub ≡ suc (blocks_reported cx.hub)
unfolding report_batch post
report_batch-blocks_reported before batch cx =
    elim (Bool-cases (
      not (is_empty batch.frames)
      || not (same_health (batch.crc_failures, batch.garbage_bytes) cx.last_health_posted))) [
        | inl e ↦ rw e (
            counted_call _ _
            ∙ ap (λ n. suc n) (quiet_calls _ _ refl ∙ quiet_calls cx.hub _ (milestone_quiet _)))
        | inr e ↦
            rw e (counted_call _ _ ∙ ap (λ n. suc n) (quiet_calls cx.hub _ (milestone_quiet _)))
      ]

pub report_trouble-blocks_reported :
    (t : PositionTrouble) (cx : Cx)
    → blocks_reported (report_trouble t cx).hub ≡ blocks_reported cx.hub
unfolding report_trouble post
report_trouble-blocks_reported starved cx = elim (Bool-cases cx.starved_hint_logged) [
  | inl e ↦ rw e (quiet_calls cx.hub _ refl)
  | inr e ↦ rw e (quiet_calls _ _ refl ∙ quiet_calls cx.hub _ refl)
]
report_trouble-blocks_reported refused cx = elim (Bool-cases cx.refused_hint_logged) [
  | inl e ↦ rw e (quiet_calls cx.hub _ refl)
  | inr e ↦ rw e (quiet_calls _ _ refl ∙ quiet_calls cx.hub _ refl)
]

note_gga_miss-blocks_reported :
    (last : Option ℕ) (now : ℕ) (texts : Bytes × Bytes) (cx : Cx) (c : ConnState)
    → blocks_reported (note_gga_miss last now texts cx c).cx.hub ≡ blocks_reported cx.hub
unfolding note_gga_miss post
note_gga_miss-blocks_reported none now texts cx c = quiet_calls cx.hub _ refl
note_gga_miss-blocks_reported (some prev) now texts cx c =
    elim (Bool-cases (not c.streaming && leb 10000 (now - prev))) [
      | inl e ↦ rw e (quiet_calls cx.hub _ refl)
      | inr e ↦ rw e refl
    ]

first_sent_quiet :
    (b : Bool) (line : HubCall)
    → report_of line ≡ 0
    → blocks_reported (first_sent_calls b ++ line ∷ []) ≡ 0
first_sent_quiet true line h = omega (arith, h)
first_sent_quiet false line h = omega (arith, h)

write_gga-blocks_reported :
    (sentence : Bytes) (error : Option Bytes) (now : ℕ) (cx : Cx) (c : ConnState) (s : NtripSession)
    → blocks_reported (write_gga sentence error now cx c s).work.cx.hub ≡ blocks_reported cx.hub
unfolding write_gga post
write_gga-blocks_reported sentence none now cx c s =
    quiet_calls cx.hub _ (first_sent_quiet _ _ refl)
write_gga-blocks_reported sentence (some e) now cx c s = quiet_calls cx.hub _ refl

pub answer_gga-blocks_reported :
    (x : Sentence) (m : Moment) (cx : Cx) (c : ConnState) (s : NtripSession)
    → blocks_reported (answer_gga x m cx c s).work.cx.hub ≡ blocks_reported cx.hub
unfolding answer_gga
answer_gga-blocks_reported (missing texts) m cx c s =
    note_gga_miss-blocks_reported c.last_miss_note m.now texts cx c
answer_gga-blocks_reported (ready sentence) m cx c s =
    write_gga-blocks_reported sentence m.write_error m.now cx c s

pub on_sourcetable-blocks_reported :
    (raw what : Bytes) (cx : Cx)
    → blocks_reported (on_sourcetable raw what cx).hub ≡ blocks_reported cx.hub
unfolding on_sourcetable post
on_sourcetable-blocks_reported raw what cx = quiet_calls cx.hub _ refl

surface-blocks_reported :
    (reason : CloseReason) (cx : Cx)
    → blocks_reported (surface reason cx).hub ≡ blocks_reported cx.hub
unfolding surface post
surface-blocks_reported (mountpoint_not_found table) cx =
    on_sourcetable-blocks_reported table (ascii "Caster answered with its sourcetable") cx
surface-blocks_reported (unknown_response []) cx = refl
surface-blocks_reported (unknown_response (b ∷ bs)) cx = quiet_calls cx.hub _ refl
surface-blocks_reported unauthorized cx = refl
surface-blocks_reported first_response_timeout cx = refl
surface-blocks_reported sourcetable_timeout cx = refl
surface-blocks_reported stream_silence cx = refl
surface-blocks_reported remote_closed cx = refl
surface-blocks_reported cancelled cx = refl
surface-blocks_reported (stream_corrupt detail) cx = refl

post_verdict-blocks_reported :
    (v : Option PositionTrouble) (cx : Cx)
    → blocks_reported (post_verdict v cx).hub ≡ blocks_reported cx.hub
unfolding post_verdict post
post_verdict-blocks_reported (some trouble) cx = report_trouble-blocks_reported trouble cx
post_verdict-blocks_reported none cx = quiet_calls cx.hub _ refl

verdict_quiet :
    (line : Bytes) (o : Option (Bytes × Bytes)) → blocks_reported (both line ++ hint_calls o) ≡ 0
verdict_quiet line none = refl
verdict_quiet line (some (a, b)) = refl

module _ (fixed : FloatText) where
  first_data-blocks_reported :
      (streaming : Bool) (m : Moment) (c : ConnState) (cx : Cx)
      → blocks_reported (first_data fixed streaming m c cx).hub ≡ blocks_reported cx.hub
  unfolding first_data post
  first_data-blocks_reported true m c cx = refl
  first_data-blocks_reported false m c cx = quiet_calls cx.hub _ refl

  pub on_corrections-blocks_reported :
      (m : Moment) (bytes : Bytes) (cx : Cx) (c : ConnState)
      → blocks_reported (on_corrections fixed m bytes cx c).cx.hub ≡ suc (blocks_reported cx.hub)
  unfolding on_corrections post enqueue
  on_corrections-blocks_reported m bytes cx c =
      let healthy = first_data fixed c.streaming m c cx in
      let pushed = push bytes healthy.corr in
      report_batch-blocks_reported healthy.total_bytes (batch_of cx (feed c.deframer bytes)) _
      ∙ ap (λ n. suc n)
          (quiet_calls _ _ (capture_quiet cx.job.capture bytes)
            ∙ note_overrun-blocks_reported pushed.outcome m.now _
            ∙ first_data-blocks_reported c.streaming m c cx)

  pub on_close-blocks_reported :
      (m : Moment) (reason : CloseReason) (cx : Cx) (c : ConnState)
      → blocks_reported (on_close fixed m reason cx c).cx.hub ≡ blocks_reported cx.hub
  unfolding on_close post
  on_close-blocks_reported m reason cx c =
      post_verdict-blocks_reported _ _
      ∙ quiet_calls _ _ (verdict_quiet [] _)
      ∙ surface-blocks_reported reason cx
