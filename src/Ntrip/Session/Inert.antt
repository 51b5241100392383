-- ===== src/Ntrip/Session/Inert.antt =====
-- crates/ntrip-core/src/session.rs: what follows a Close.
use open_ntripclient.Base.{ℕ, true, List, [], ◌∷◌, ◌++◌, ◌≡◌, refl, ap, ◌∙◌, append-nil}
use open_ntripclient.Ntrip.Config.{Output, SessionConfig}
use open_ntripclient.Ntrip.Session.{
  done, NtripSession, Reply, reply, flush_pending, gga_sent, gga_missed, new,
}
use open_ntripclient.Ntrip.Session.CloseOnce.{handle_all-Counted, new-Counted}
use open_ntripclient.Ntrip.Session.Events.{
  on_bytes, bytes_in, on_tick, tick_action, act, remote_close_in, on_remote_close, cancel_in,
  cancel, Event, bytes, tick, sent, missed, remote_close, cancel_request, handle, handle_all,
}

-- The phase is Done, nothing is queued, and the outputs are `out`.
record IsInert (r : Reply) (out : List Output) : Type 0 where
  pub ended : r.session.phase ≡ done
  pub drained : r.session.pending ≡ []
  pub same : r.out ≡ out

flush_pending-IsInert :
    (s : NtripSession) (out : List Output)
    → IsInert (reply s out) out
    → IsInert (flush_pending s out) out
unfolding flush_pending
flush_pending-IsInert s out h = record {
  ended = h.ended;
  drained = refl;
  same = ap (λ p. out ++ p) h.drained ∙ append-nil out;
}

handle-IsInert :
    (s : NtripSession) (e : Event) (out : List Output)
    → IsInert (reply s out) out
    → IsInert (handle s e out) out
unfolding handle gga_sent gga_missed on_bytes on_tick on_remote_close cancel bytes_in act
    tick_action remote_close_in cancel_in
handle-IsInert s (bytes input now) out h =
    let f = flush_pending-IsInert s out h in
    rw (f.ended) record { ended = refl; drained = refl; same = f.same }
handle-IsInert s (tick now) out h =
    let f = flush_pending-IsInert s out h in
    rw (f.ended) record { ended = refl; drained = refl; same = f.same }
handle-IsInert s (sent now) out h = record { ended = h.ended; drained = h.drained; same = h.same }
handle-IsInert s (missed now) out h = record { ended = h.ended; drained = h.drained; same = h.same }
handle-IsInert s remote_close out h =
    let f = flush_pending-IsInert s out h in
    rw (f.ended) record { ended = refl; drained = refl; same = f.same }
handle-IsInert s cancel_request out h =
    let f = flush_pending-IsInert s out h in
    rw (f.ended) record { ended = refl; drained = refl; same = f.same }

handle_all-IsInert :
    (s : NtripSession) (es : List Event) (out : List Output)
    → IsInert (reply s out) out
    → IsInert (handle_all s es out) out
unfolding handle_all
handle_all-IsInert s [] out h = h
handle_all-IsInert s (e ∷ es) out h =
    let i = handle-IsInert s e out h in
    let r = handle s e out in
    let j =
      handle_all-IsInert r.session es r.out
        (record { ended = i.ended; drained = i.drained; same = refl }) in
    record { ended = j.ended; drained = j.drained; same = j.same ∙ i.same }

-- Once a session, of any configuration and after any calls, is marked closed, further calls in any
-- order emit nothing: the outputs stay the same.
pub close_is_final :
    (cfg : SessionConfig) (start : ℕ) (es later : List Event)
    → let r = handle_all (new cfg start).session es [] in
      r.session.closed ≡ true → (handle_all r.session later r.out).out ≡ r.out
close_is_final cfg start es later h =
    let r = handle_all (new cfg start).session es [] in
    let c = handle_all-Counted (new cfg start).session es [] (new-Counted cfg start) in
    (handle_all-IsInert r.session later r.out
      (record { ended = c.shut h; drained = c.drained h; same = refl })).same
