-- ===== src/App/Worker/Answered.antt =====
-- crates/app/src/workers/ntrip.rs with crates/ntrip-core/src/session.rs: a due GGA is answered, and
-- the session's timer set for the next one.
use open_ntripclient.Base.{
  ℕ, ◌+◌, Bool, true, false, ◌&&◌, Option, none, some, List, [], ◌∷◌, ◌++◌, ◌≡◌, refl, ap, ◌∙◌,
  if_cases, is_empty,
}
use open_ntripclient.Base.Bytes.{Bytes, crlf}
use open_ntripclient.Ntrip.Config.{
  Output, protocol_tx, protocol_rx, corrections, sourcetable, gga_due, close,
}
use open_ntripclient.Ntrip.Session.{
  Gga, disabled, idle, await_sent, due, enabled_to, NtripSession, gga_sent, gga_missed, Prelude,
  headers, resolved, Phase, status_line, http_headers, table, streaming, done, held_prelude,
  held_lines, flush_pending, emit_close,
}
use open_ntripclient.Ntrip.Session.Events.{
  Action, no_action, emit_gga_due, close_with, tick_action, act, on_tick,
}
use open_ntripclient.App.Job.{GgaSource, manual, receiver, has_manual, NtripJob, FloatText}
use open_ntripclient.App.Worker.{Cx, ConnState, Moment}
use open_ntripclient.App.Worker.Attempts.{Tracks-job, dispatch-Tracks}
use open_ntripclient.App.Worker.Gga.{
  position_available, sentence_for, write_gga, answer_gga, on_gga_due,
}
use open_ntripclient.App.Worker.Dispatch.{dispatch_one, dispatch}

-- The timer waits for no answer.
abbrev pub Runs : Gga → Type 0
Runs await_sent = ⊥
Runs _ = Unit

-- A GGA is due among the outputs.
abbrev pub asks : List Output → Bool
asks [] = false
asks (gga_due ∷ os) = true
asks (_ ∷ os) = asks os

abbrev pub was_written : Option Bytes → Bool
was_written none = true
was_written (some e) = false

-- The profile's position source has a position, and the write of the sentence succeeds.
abbrev pub sends : NtripJob → Moment → Bool
sends job m =
    position_available job.gga_source (has_manual job) m.last_gga && was_written m.write_error

-- In 10 s after a sentence that was sent, in 2 s after one that was missed.
abbrev pub next_due : Bool → ℕ → Gga
next_due true now = due (now + 10000)
next_due false now = due (now + 2000)

-- The timer after the outputs of a tick, from what the tick left.
abbrev pub Settled : Gga → Bool → ℕ → Gga → Type 0
Settled await_sent is_sent now g = g ≡ next_due is_sent now
Settled before is_sent now g = g ≡ before

Settled-same : (g : Gga) (is_sent : Bool) (now : ℕ) → Runs g → Settled g is_sent now g
Settled-same disabled is_sent now h = refl
Settled-same idle is_sent now h = refl
Settled-same await_sent is_sent now h = absurd h
Settled-same (due t) is_sent now h = refl

asks-append : (xs ys : List Output) → asks xs ≡ false → asks ys ≡ false → asks (xs ++ ys) ≡ false
asks-append [] ys h k = k
asks-append (protocol_tx line ∷ xs) ys h k = asks-append xs ys h k
asks-append (protocol_rx line ∷ xs) ys h k = asks-append xs ys h k
asks-append (corrections bytes ∷ xs) ys h k = asks-append xs ys h k
asks-append (sourcetable raw ∷ xs) ys h k = asks-append xs ys h k
asks-append (close reason ∷ xs) ys h k = asks-append xs ys h k
asks-append (gga_due ∷ xs) ys h k = absurd (cc)

held_prelude-asks : (p : Prelude) → asks (held_prelude p) ≡ false
held_prelude-asks resolved = refl
held_prelude-asks (headers line lines) =
    if_cases (λ x. asks x ≡ false) (is_empty line) (λ e. refl) (λ e. refl)

held_lines-asks : (p : Phase) → asks (held_lines p) ≡ false
held_lines-asks status_line = refl
held_lines-asks (http_headers h) = refl
held_lines-asks (table t) = refl
held_lines-asks (streaming st) = held_prelude-asks st.prelude
held_lines-asks done = refl

write_gga-next_due :
    (sentence : Bytes) (error : Option Bytes) (now : ℕ) (cx : Cx) (c : ConnState) (s : NtripSession)
    → s.gga ≡ await_sent
    → (write_gga sentence error now cx c s).session.gga ≡ next_due (was_written error) now
unfolding write_gga gga_sent gga_missed
write_gga-next_due sentence none now cx c s h = ap (λ g. enabled_to g (due (now + 10000))) h
write_gga-next_due sentence (some e) now cx c s h = ap (λ g. enabled_to g (due (now + 2000))) h

answer_gga-next_due :
    (source : GgaSource) (manual_set : Bool) (last : Option Bytes) (m : Moment) (cx : Cx)
    (c : ConnState) (s : NtripSession)
    → m.last_gga ≡ last
    → s.gga ≡ await_sent
    → (answer_gga (sentence_for source manual_set m) m cx c s).session.gga
      ≡ next_due (position_available source manual_set last && was_written m.write_error) m.now
unfolding answer_gga sentence_for gga_missed position_available
answer_gga-next_due manual false last m cx c s e h = ap (λ g. enabled_to g (due (m.now + 2000))) h
answer_gga-next_due manual true last m cx c s e h =
    write_gga-next_due m.fabricated m.write_error m.now cx c s h
answer_gga-next_due receiver manual_set none m cx c s e h =
    rw e (ap (λ g. enabled_to g (due (m.now + 2000))) h)
answer_gga-next_due receiver manual_set (some raw) m cx c s e h =
    rw e (write_gga-next_due (raw ++ crlf) m.write_error m.now cx c s h)

module _ (fixed : FloatText) where
  dispatch-unasked :
      (m : Moment) (outs : List Output) (cx : Cx) (c : ConnState) (s : NtripSession)
      → asks outs ≡ false
      → (dispatch fixed m outs cx c s).session ≡ s
  unfolding dispatch dispatch_one
  dispatch-unasked m [] cx c s h = refl
  dispatch-unasked m (protocol_tx line ∷ os) cx c s h = dispatch-unasked m os _ _ s h
  dispatch-unasked m (protocol_rx line ∷ os) cx c s h = dispatch-unasked m os _ _ s h
  dispatch-unasked m (corrections bytes ∷ os) cx c s h = dispatch-unasked m os _ _ s h
  dispatch-unasked m (sourcetable raw ∷ os) cx c s h = dispatch-unasked m os _ _ s h
  dispatch-unasked m (close reason ∷ os) cx c s h = dispatch-unasked m os _ _ s h
  dispatch-unasked m (gga_due ∷ os) cx c s h = absurd (cc)

  dispatch-append :
      (m : Moment) (xs ys : List Output) (cx : Cx) (c : ConnState) (s : NtripSession)
      → let l = dispatch fixed m xs cx c s in
        dispatch fixed m (xs ++ ys) cx c s ≡ dispatch fixed m ys l.work.cx l.work.conn l.session
  unfolding dispatch
  dispatch-append m [] ys cx c s = refl
  dispatch-append m (o ∷ os) ys cx c s =
      let l = dispatch_one fixed m o cx c s in
      dispatch-append m os ys l.work.cx l.work.conn l.session

  -- A due GGA behind other outputs.
  dispatch_due-next_due :
      (m : Moment) (outs : List Output) (cx : Cx) (c : ConnState) (s : NtripSession)
      → asks outs ≡ false
      → s.gga ≡ await_sent
      → (dispatch fixed m (outs ++ gga_due ∷ []) cx c s).session.gga
        ≡ next_due (sends cx.job m) m.now
  unfolding dispatch dispatch_one on_gga_due
  dispatch_due-next_due m outs cx c s h k =
      let l = dispatch fixed m outs cx c s in
      let same : l.work.cx.job ≡ cx.job = Tracks-job (dispatch-Tracks fixed m outs cx c s) in
      let still : l.session.gga ≡ await_sent =
        ap (λ x. x.gga) (dispatch-unasked m outs cx c s h) ∙ k in
      ap (λ x. x.session.gga) (dispatch-append m outs (gga_due ∷ []) cx c s)
      ∙ answer_gga-next_due l.work.cx.job.gga_source (has_manual l.work.cx.job) m.last_gga m
          l.work.cx l.work.conn l.session refl still
      ∙ ap (λ job. next_due (sends job m) m.now) same

  act-Settled :
      (a : Action) (out : List Output) (m : Moment) (cx : Cx) (c : ConnState) (s : NtripSession)
      → asks out ≡ false
      → Runs s.gga
      → let r = act a s out in
        Settled r.session.gga
          (sends cx.job m)
          m.now
          (dispatch fixed m r.out cx c r.session).session.gga
  unfolding act emit_close
  act-Settled no_action out m cx c s k h =
      rw (dispatch-unasked m out cx c s k) (Settled-same s.gga _ _ h)
  act-Settled (close_with reason) out m cx c s k h =
      let lines = held_lines s.phase ++ (close reason ∷ []) in
      let unasked : asks (out ++ lines) ≡ false =
        asks-append out lines k
          (asks-append (held_lines s.phase) _ (held_lines-asks s.phase) refl) in
      rw (dispatch-unasked m (out ++ lines) cx c (record s { closed = true; phase = done }) unasked)
        (Settled-same s.gga _ _ h)
  act-Settled emit_gga_due out m cx c s k h = dispatch_due-next_due m out cx c _ k refl

  -- Let the session's GGA timer wait for no answer, and none of the outputs queued in the session be
  -- a due GGA. When the worker has dispatched what a tick put out, a GGA that the tick made due is
  -- due again: 10 s after the moment of the dispatch if the position source had a position and the
  -- write succeeded, otherwise 2 s after it. Where the tick made none due, the timer is as it was.
  pub dispatch-on_tick :
      (s : NtripSession) (now : ℕ) (m : Moment) (cx : Cx) (c : ConnState)
      → asks s.pending ≡ false
      → Runs s.gga
      → let r = on_tick s now [] in
        Settled r.session.gga
          (sends cx.job m)
          m.now
          (dispatch fixed m r.out cx c r.session).session.gga
  unfolding on_tick flush_pending
  dispatch-on_tick s now m cx c k h =
      let r = flush_pending s [] in
      act-Settled (tick_action r.session.phase r.session now) r.out m cx c r.session k h
