-- ===== src/App/Worker/Heard.antt =====
-- crates/app/src/workers/ntrip.rs: what the loop of a connection does to the attempt budget, from one
-- state of the connection to a later one.
use open_ntripclient.Base.{
  ℕ, Bool, true, false, not, ◌&&◌, Option, none, some, List, [], ◌∷◌, ◌≡◌, ◌≤◌, ◌<◌, ◌-◌, leb, ap,
  sym, arith, refl, ◌∙◌, Bool-cases, Option-cases, inl, inr,
}
use open_ntripclient.Base.Bytes.{Bytes, ascii}
use open_ntripclient.Ntrip.Config.{
  Output, protocol_tx, protocol_rx, corrections, sourcetable, gga_due, close,
}
use open_ntripclient.Ntrip.Session.{NtripSession}
use open_ntripclient.Ntrip.Session.Events.{on_tick, cancel}
use open_ntripclient.App.Queue.{steps}
use open_ntripclient.App.Job.{FloatText}
use open_ntripclient.App.Policy.{starved}
use open_ntripclient.App.Worker.{
  Cx, ConnState, SessionEnd, Moment, post, first_data, capture_calls, enqueue, batch_of,
  on_corrections,
}
use open_ntripclient.Gnss.Frame.{feed}
use open_ntripclient.App.Worker.Attempts.{
  core, recover, answer_gga-core, on_close-core, enqueue-core, report_batch-core,
}
use open_ntripclient.App.Worker.Gga.{
  note_gga_miss, Sentence, ready, missing, write_gga, answer_gga, on_gga_due,
}
use open_ntripclient.App.Worker.Connection.{on_read-core, note_starving-core, finish-core}
use open_ntripclient.App.Worker.Reports.{
  blocks_reported, quiet_calls, report_trouble-blocks_reported, answer_gga-blocks_reported,
  on_sourcetable-blocks_reported, on_corrections-blocks_reported, on_close-blocks_reported,
}
use open_ntripclient.App.Worker.Dispatch.{dispatch_one, dispatch}
use open_ntripclient.App.Worker.Drive.{
  ReadResult, received, end_of_stream, timed_out, unexpected_eof, read_error, Round, on_read,
}
use open_ntripclient.App.Worker.Loop.{end_calls, finish, starves, note_starving, drive_loop}

-- From one state of a connection to a later one; the flags say whether it streamed. Without a report
-- all is as it was; the first report resets the budget and arms the alert; later ones do not.
pub data Heard (was is_now : Bool) (cx cx' : Cx) : Type 0 where
  silent :
      is_now ≡ was
      → blocks_reported cx'.hub ≡ blocks_reported cx.hub
      → core cx' ≡ core cx
      → Heard was is_now cx cx'
  woke :
      was ≡ false
      → is_now ≡ true
      → blocks_reported cx.hub < blocks_reported cx'.hub
      → core cx' ≡ recover (core cx)
      → Heard was is_now cx cx'
  went_on :
      was ≡ true
      → is_now ≡ true
      → blocks_reported cx.hub ≤ blocks_reported cx'.hub
      → core cx' ≡ core cx
      → Heard was is_now cx cx'

Heard-then : {b c d : Bool} {x y z : Cx} → Heard b c x y → Heard c d y z → Heard b d x z
Heard-then (silent e r h) (silent f q k) = silent (f ∙ e) (q ∙ r) (k ∙ h)
Heard-then (silent e r h) (woke f g q k) =
    woke (sym e ∙ f) g (omega (arith, r, q)) (k ∙ ap recover h)
Heard-then (silent e r h) (went_on f g q k) = went_on (sym e ∙ f) g (omega (arith, r, q)) (k ∙ h)
Heard-then (woke e f r h) (silent g q k) = woke e (g ∙ f) (omega (arith, r, q)) (k ∙ h)
Heard-then (woke e f r h) (woke g i q k) = absurd (cc)
Heard-then (woke e f r h) (went_on g i q k) = woke e i (omega (arith, r, q)) (k ∙ h)
Heard-then (went_on e f r h) (silent g q k) = went_on e (g ∙ f) (omega (arith, r, q)) (k ∙ h)
Heard-then (went_on e f r h) (woke g i q k) = absurd (cc)
Heard-then (went_on e f r h) (went_on g i q k) = went_on e i (omega (arith, r, q)) (k ∙ h)

note_gga_miss-streaming :
    (last : Option ℕ) (now : ℕ) (texts : Bytes × Bytes) (cx : Cx) (c : ConnState)
    → (note_gga_miss last now texts cx c).conn.streaming ≡ c.streaming
unfolding note_gga_miss
note_gga_miss-streaming none now texts cx c = refl
note_gga_miss-streaming (some prev) now texts cx c =
    elim (Bool-cases (not c.streaming && leb 10000 (now - prev))) [
      | inl e ↦ rw e refl
      | inr e ↦ rw e refl
    ]

write_gga-streaming :
    (sentence : Bytes) (error : Option Bytes) (now : ℕ) (cx : Cx) (c : ConnState) (s : NtripSession)
    → (write_gga sentence error now cx c s).work.conn.streaming ≡ c.streaming
unfolding write_gga
write_gga-streaming sentence none now cx c s = refl
write_gga-streaming sentence (some e) now cx c s = refl

answer_gga-streaming :
    (x : Sentence) (m : Moment) (cx : Cx) (c : ConnState) (s : NtripSession)
    → (answer_gga x m cx c s).work.conn.streaming ≡ c.streaming
unfolding answer_gga
answer_gga-streaming (missing texts) m cx c s =
    note_gga_miss-streaming c.last_miss_note m.now texts cx c
answer_gga-streaming (ready sentence) m cx c s =
    write_gga-streaming sentence m.write_error m.now cx c s

note_starving-streaming :
    (now : ℕ) (cx : Cx) (c : ConnState) → (note_starving now cx c).conn.streaming ≡ c.streaming
unfolding note_starving
note_starving-streaming now cx c = elim (Bool-cases (starves now cx c)) [
  | inl e ↦ rw e refl
  | inr e ↦ rw e refl
]

note_starving-blocks_reported :
    (now : ℕ) (cx : Cx) (c : ConnState)
    → blocks_reported (note_starving now cx c).cx.hub ≡ blocks_reported cx.hub
unfolding note_starving
note_starving-blocks_reported now cx c = elim (Bool-cases (starves now cx c)) [
  | inl e ↦ rw e (report_trouble-blocks_reported starved cx)
  | inr e ↦ rw e refl
]

on_read-blocks_reported :
    (x : ReadResult) (flag : Bool) (now : ℕ) (cx : Cx) (s : NtripSession)
    → blocks_reported (on_read x flag now cx s).cx.hub ≡ blocks_reported cx.hub
unfolding on_read post
on_read-blocks_reported (received bytes) flag now cx s = refl
on_read-blocks_reported timed_out flag now cx s = refl
on_read-blocks_reported end_of_stream true now cx s = refl
on_read-blocks_reported end_of_stream false now cx s = refl
on_read-blocks_reported unexpected_eof true now cx s = refl
on_read-blocks_reported unexpected_eof false now cx s = refl
on_read-blocks_reported (read_error e) true now cx s = refl
on_read-blocks_reported (read_error e) false now cx s = quiet_calls cx.hub _ refl

end_quiet : (b : Bool) → blocks_reported (end_calls b) ≡ 0
end_quiet true = refl
end_quiet false = refl

finish-blocks_reported :
    (end : SessionEnd) (c : ConnState) (cx : Cx)
    → blocks_reported (finish end c cx).cx.hub ≡ blocks_reported cx.hub
unfolding finish post
finish-blocks_reported end c cx = quiet_calls cx.hub _ (end_quiet cx.job.capture)

module _ (fixed : FloatText) where
  on_corrections-Heard :
      (m : Moment) (bytes : Bytes) (cx : Cx) (c : ConnState)
      → Heard c.streaming true cx (on_corrections fixed m bytes cx c).cx
  unfolding on_corrections post first_data
  on_corrections-Heard m bytes cx c =
      let healthy = first_data fixed c.streaming m c cx in
      let captured = post (capture_calls cx.job.capture bytes) (enqueue m.now bytes healthy) in
      let same : core (on_corrections fixed m bytes cx c).cx ≡ core healthy =
        report_batch-core healthy.total_bytes (batch_of cx (feed c.deframer bytes)) captured
        ∙ enqueue-core m.now bytes healthy in
      elim (Bool-cases c.streaming) [
        | inl t ↦
            went_on t refl (omega (arith, on_corrections-blocks_reported fixed m bytes cx c))
              (same ∙ ap (λ s. core (first_data fixed s m c cx)) t)
        | inr t ↦
            woke t refl (omega (arith, on_corrections-blocks_reported fixed m bytes cx c))
              (same ∙ ap (λ s. core (first_data fixed s m c cx)) t)
      ]

  dispatch_one-Heard :
      (m : Moment) (o : Output) (cx : Cx) (c : ConnState) (s : NtripSession)
      → let l = dispatch_one fixed m o cx c s in
        Heard c.streaming l.work.conn.streaming cx l.work.cx
  unfolding dispatch_one post on_gga_due
  dispatch_one-Heard m (protocol_tx line) cx c s = silent refl (quiet_calls cx.hub _ refl) refl
  dispatch_one-Heard m (protocol_rx line) cx c s = silent refl (quiet_calls cx.hub _ refl) refl
  dispatch_one-Heard m gga_due cx c s =
      silent (answer_gga-streaming _ m cx c s) (answer_gga-blocks_reported _ m cx c s)
        (answer_gga-core _ m cx c s)
  dispatch_one-Heard m (corrections bytes) cx c s = on_corrections-Heard m bytes cx c
  dispatch_one-Heard m (sourcetable raw) cx c s =
      silent refl (on_sourcetable-blocks_reported raw (ascii "Downloaded sourcetable") cx) refl
  dispatch_one-Heard m (close reason) cx c s =
      silent refl (on_close-blocks_reported fixed m reason cx c) (on_close-core fixed m reason cx c)

  dispatch-Heard :
      (m : Moment) (outs : List Output) (cx : Cx) (c : ConnState) (s : NtripSession)
      → let l = dispatch fixed m outs cx c s in Heard c.streaming l.work.conn.streaming cx l.work.cx
  unfolding dispatch
  dispatch-Heard m [] cx c s = silent refl refl refl
  dispatch-Heard m (o ∷ os) cx c s =
      let l = dispatch_one fixed m o cx c s in
      Heard-then (dispatch_one-Heard m o cx c s)
        (dispatch-Heard m os l.work.cx l.work.conn l.session)

  pub drive_loop-Heard :
      (rs : List Round) (outs : List Output) (cx : Cx) (c : ConnState) (s : NtripSession)
      → (is_now : Bool) × Heard c.streaming is_now cx (drive_loop fixed rs outs cx c s).cx
  unfolding drive_loop
  drive_loop-Heard [] outs cx c s = (c.streaming, silent refl refl refl)
  drive_loop-Heard (r ∷ rs) outs cx c s =
      let shared = record cx { corr = steps r.serial cx.corr } in
      let l = dispatch fixed r.moment outs shared c s in
      let read = on_read r.read r.is_cancelled_then r.read_at l.work.cx l.session in
      let ticked = on_tick read.session r.read_at read.out in
      let noted = note_starving r.read_at read.cx l.work.conn in
      let given : Heard c.streaming c.streaming cx shared = silent refl refl refl in
      let dispatched : Heard c.streaming l.work.conn.streaming cx l.work.cx =
        Heard-then given (dispatch-Heard r.moment outs shared c s) in
      elim (Option-cases l.work.conn.terminal) [
        | inl e ↦ elim (Bool-cases r.is_cancelled) [
          | inl f ↦
              let x = cancel l.session [] in
              let (b, rest) = drive_loop-Heard rs x.out l.work.cx l.work.conn x.session in
              rw (e, drive_loop) (rw (f, drive_loop) (b, Heard-then dispatched rest))
          | inr f ↦
              let waited : Heard l.work.conn.streaming noted.conn.streaming l.work.cx noted.cx =
                silent (note_starving-streaming r.read_at read.cx l.work.conn)
                  (note_starving-blocks_reported r.read_at read.cx l.work.conn
                    ∙ on_read-blocks_reported r.read r.is_cancelled_then r.read_at l.work.cx
                        l.session)
                  (note_starving-core r.read_at read.cx l.work.conn
                    ∙ on_read-core r.read r.is_cancelled_then r.read_at l.work.cx l.session) in
              let (b, rest) = drive_loop-Heard rs ticked.out noted.cx noted.conn ticked.session in
              rw (e, drive_loop)
                (rw (f, drive_loop) (b, Heard-then dispatched (Heard-then waited rest)))
        ]
        | inr (end, e) ↦
            let c' = record l.work.conn { terminal = none } in
            rw (e, drive_loop)
              (
                l.work.conn.streaming,
                Heard-then dispatched (
                    silent refl (finish-blocks_reported end c' l.work.cx)
                      (finish-core end c' l.work.cx)),
              )
      ]
