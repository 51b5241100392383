-- ===== src/Ntrip/Session/CloseOnce.antt =====
-- crates/ntrip-core/src/session.rs: Close is emitted at most once, over every sequence of calls.
use open_ntripclient.Base.{
  ℕ, suc, ◌+◌, Bool, true, false, Option, none, some, List, [], ◌∷◌, ◌++◌, ◌≡◌, ◌≢◌, refl, ap, ◌∙◌,
  map, arith, Bool-cases, inl, inr, length,
}
use open_ntripclient.Base.Bytes.{Bytes}
use open_ntripclient.Ntrip.Config.{
  Output, protocol_tx, gga_due, SessionConfig, raw_tcp, ntrip, Transport,
}
use open_ntripclient.Ntrip.Request.{build}
use open_ntripclient.Ntrip.Session.{
  Phase, status_line, done, http_headers, table, streaming, NtripSession, reply, flush_pending, new,
  gga_sent, gga_missed, take_hdr_all, open_transport,
}
use open_ntripclient.Ntrip.Session.Closing.{
  closes, closes-append, flag, Counted, IsOpen, emit_close-Counted, Led, drive_loop-Led,
}
use open_ntripclient.Ntrip.Session.Headers.{Driven, drive_header}
use open_ntripclient.Ntrip.Session.Body.{finalize_table, ingest_body}
use open_ntripclient.Ntrip.Session.Events.{
  close_unknown, cap_check, is_flooded, after_drive, drive_bytes, bytes_in, on_bytes, Action,
  no_action, emit_gga_due, close_with, tick_action, act, on_tick, remote_close_in, on_remote_close,
  cancel_in, cancel, Event, bytes, tick, sent, missed, remote_close, cancel_request, handle,
  handle_all,
}
use open_ntripclient.Ntrip.Session.ClosingBody.{ingest_body-Counted, finalize_table-Counted}

-- A session that is not Done has emitted no Close.
Counted-IsOpen :
    (s : NtripSession) (out : List Output)
    → Counted (reply s out)
    → s.pending ≡ []
    → s.phase ≢ done
    → IsOpen s out
Counted-IsOpen s out h f live = elim (Bool-cases s.closed) [
  | inl e ↦ absurd (live (h.shut e))
  | inr e ↦
      let z : closes out + closes s.pending ≡ 0 = h.tally ∙ ap flag e in
      record { quiet = omega arith; flushed = f; unmarked = e }
]

close_unknown-Counted :
    (s : NtripSession) (out : List Output) → IsOpen s out → Counted (close_unknown s out)
unfolding close_unknown take_hdr_all
close_unknown-Counted s out h =
    emit_close-Counted _ _ out
      (record { quiet = h.quiet; flushed = h.flushed; unmarked = h.unmarked })

is_flooded-ne-done : (s : NtripSession) → is_flooded s ≡ true → s.phase ≢ done
is_flooded-ne-done s h d = ground arith

cap_check-Counted :
    (b : Bool) (s : NtripSession) (out : List Output)
    → is_flooded s ≡ b
    → Counted (reply s out)
    → s.pending ≡ []
    → Counted (cap_check b s out)
unfolding cap_check
cap_check-Counted true s out e h f =
    close_unknown-Counted s out (Counted-IsOpen s out h f (is_flooded-ne-done s e))
cap_check-Counted false s out e h f = h

after_drive-Counted :
    (d : Driven) (leftover : Option Bytes) → Led d leftover → Counted (after_drive d leftover)
unfolding after_drive ingest_body
after_drive-Counted d none h = cap_check-Counted (is_flooded d.session) d.session d.out refl h.0 h.1
after_drive-Counted d (some leftover) h =
    ingest_body-Counted d.session.phase d.session leftover d.out h

drive_bytes-Counted :
    (s : NtripSession) (input : Bytes) (now : ℕ) (out : List Output)
    → IsOpen s out
    → Counted (drive_bytes s input now out)
unfolding drive_bytes drive_header
drive_bytes-Counted s input now out h =
    let d = drive_header now (record s { hdr = s.hdr ++ input }) out in
    after_drive-Counted d d.leftover (
      drive_loop-Led (suc (length (s.hdr ++ input))) now (record s { hdr = s.hdr ++ input }) out
        (record { quiet = h.quiet; flushed = h.flushed; unmarked = h.unmarked }))

bytes_in-Counted :
    (p : Phase) (s : NtripSession) (input : Bytes) (now : ℕ) (out : List Output)
    → s.phase ≡ p
    → Counted (reply s out)
    → s.pending ≡ []
    → Counted (bytes_in p s input now out)
unfolding bytes_in ingest_body
bytes_in-Counted done s input now out e h f = h
bytes_in-Counted status_line s input now out e h f =
    let o = Counted-IsOpen s out h f (λ d. cc) in
    drive_bytes-Counted (record s { last_rx = now }) input now out
      (record { quiet = o.quiet; flushed = o.flushed; unmarked = o.unmarked })
bytes_in-Counted (http_headers info) s input now out e h f =
    let o = Counted-IsOpen s out h f (λ d. cc) in
    drive_bytes-Counted (record s { last_rx = now }) input now out
      (record { quiet = o.quiet; flushed = o.flushed; unmarked = o.unmarked })
bytes_in-Counted (table t) s input now out e h f =
    let o = Counted-IsOpen s out h f (λ d. cc) in
    ingest_body-Counted s.phase (record s { last_rx = now }) input out
      (record { quiet = o.quiet; flushed = o.flushed; unmarked = o.unmarked })
bytes_in-Counted (streaming t) s input now out e h f =
    let o = Counted-IsOpen s out h f (λ d. cc) in
    ingest_body-Counted s.phase (record s { last_rx = now }) input out
      (record { quiet = o.quiet; flushed = o.flushed; unmarked = o.unmarked })

act-Counted :
    (a : Action) (s : NtripSession) (now : ℕ) (out : List Output)
    → tick_action s.phase s now ≡ a
    → Counted (reply s out)
    → s.pending ≡ []
    → Counted (act a s out)
unfolding act
act-Counted no_action s now out e h f = h
act-Counted (close_with reason) s now out e h f =
    emit_close-Counted s reason out
      (Counted-IsOpen s out h f (λ d. unfold tick_action in ground arith))
act-Counted emit_gga_due s now out e h f =
    let q = closes-append out (gga_due ∷ []) in
    record { tally = omega (arith, h.tally); shut = h.shut; drained = h.drained }

remote_close_in-Counted :
    (p : Phase) (s : NtripSession) (out : List Output)
    → s.phase ≡ p
    → Counted (reply s out)
    → s.pending ≡ []
    → Counted (remote_close_in p s out)
unfolding remote_close_in finalize_table
remote_close_in-Counted done s out e h f = h
remote_close_in-Counted status_line s out e h f =
    close_unknown-Counted s out (Counted-IsOpen s out h f (λ d. cc))
remote_close_in-Counted (http_headers info) s out e h f =
    close_unknown-Counted s out (Counted-IsOpen s out h f (λ d. cc))
remote_close_in-Counted (table t) s out e h f =
    finalize_table-Counted s.phase s _ out (Counted-IsOpen s out h f (λ d. cc))
remote_close_in-Counted (streaming t) s out e h f =
    emit_close-Counted s _ out (Counted-IsOpen s out h f (λ d. cc))

cancel_in-Counted :
    (p : Phase) (s : NtripSession) (out : List Output)
    → s.phase ≡ p
    → Counted (reply s out)
    → s.pending ≡ []
    → Counted (cancel_in p s out)
unfolding cancel_in
cancel_in-Counted done s out e h f = h
cancel_in-Counted _ s out e h f = emit_close-Counted s _ out (Counted-IsOpen s out h f (λ d. cc))

flush_pending-Counted :
    (s : NtripSession) (out : List Output) → Counted (reply s out) → Counted (flush_pending s out)
unfolding flush_pending
flush_pending-Counted s out h = record {
  tally = omega (arith, closes-append out s.pending, h.tally);
  shut = h.shut;
  drained = λ _. refl;
}

pub handle-Counted :
    (s : NtripSession) (e : Event) (out : List Output)
    → Counted (reply s out)
    → Counted (handle s e out)
unfolding handle gga_sent gga_missed on_bytes on_tick on_remote_close cancel
handle-Counted s (bytes input now) out h =
    let r = flush_pending s out in
    bytes_in-Counted r.session.phase r.session input now r.out refl (flush_pending-Counted s out h)
      refl
handle-Counted s (tick now) out h =
    let r = flush_pending s out in
    act-Counted (tick_action r.session.phase r.session now) r.session now r.out refl
      (flush_pending-Counted s out h) refl
handle-Counted s (sent now) out h = record { tally = h.tally; shut = h.shut; drained = h.drained }
handle-Counted s (missed now) out h = record { tally = h.tally; shut = h.shut; drained = h.drained }
handle-Counted s remote_close out h =
    let r = flush_pending s out in
    remote_close_in-Counted r.session.phase r.session r.out refl (flush_pending-Counted s out h)
      refl
handle-Counted s cancel_request out h =
    let r = flush_pending s out in
    cancel_in-Counted r.session.phase r.session r.out refl (flush_pending-Counted s out h) refl

pub handle_all-Counted :
    (s : NtripSession) (es : List Event) (out : List Output)
    → Counted (reply s out)
    → Counted (handle_all s es out)
unfolding handle_all
handle_all-Counted s [] out h = h
handle_all-Counted s (e ∷ es) out h =
    let r = handle s e out in handle_all-Counted r.session es r.out (handle-Counted s e out h)

protocol_tx_quiet : (ls : List Bytes) → closes (map protocol_tx ls) ≡ 0
protocol_tx_quiet [] = refl
protocol_tx_quiet (l ∷ ls) = omega (arith, protocol_tx_quiet ls)

open_transport-Counted :
    (t : Transport) (cfg : SessionConfig) (s : NtripSession)
    → s.closed ≡ false
    → s.pending ≡ []
    → Counted (reply (open_transport t cfg s).session [])
open_transport-Counted raw_tcp cfg s c p = ground arith
open_transport-Counted ntrip cfg s c p = ground (arith, protocol_tx_quiet (build cfg).log_lines)

pub new-Counted : (cfg : SessionConfig) (start : ℕ) → Counted (reply (new cfg start).session [])
unfolding new
new-Counted cfg start = open_transport-Counted cfg.transport cfg _ refl refl

-- Over any calls, in any order, on a new session of any configuration, Close is emitted at most
-- once; it has been emitted if and only if the session is marked closed, and then it is Done.
pub close_once :
    (cfg : SessionConfig) (start : ℕ) (es : List Event)
    → let r = handle_all (new cfg start).session es [] in
      (closes r.out + closes r.session.pending ≡ flag r.session.closed)
      × (r.session.closed ≡ true → r.session.phase ≡ done)
close_once cfg start es =
    let c = handle_all-Counted (new cfg start).session es [] (new-Counted cfg start) in
    (c.tally, c.shut)
