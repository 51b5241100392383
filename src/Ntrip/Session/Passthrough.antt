-- ===== src/Ntrip/Session/Passthrough.antt =====
-- crates/ntrip-core/src/session.rs: a raw TCP session passes its bytes through.
use open_ntripclient.Base.{
  ℕ, none, List, [], ◌∷◌, ◌++◌, ◌≡◌, refl, sym, ap, ◌∙◌, append-nil, append_assoc,
}
use open_ntripclient.Base.Bytes.{Bytes}
use open_ntripclient.Ntrip.Config.{
  Output, protocol_tx, protocol_rx, corrections, sourcetable, gga_due, close, SessionConfig,
  raw_tcp,
}
use open_ntripclient.Ntrip.Session.{streaming, resolved, NtripSession, Reply, flush_pending, new}
use open_ntripclient.Ntrip.Session.Body.{
  feed_payload, feed_stream_in, feed_stream, on_event, ingest_in, ingest_body,
}
use open_ntripclient.Ntrip.Session.Events.{on_bytes, bytes_in, Event, bytes, handle, handle_all}

-- What the caller is given as corrections, joined.
abbrev pub delivered : List Output → Bytes
delivered [] = []
delivered (corrections bs ∷ os) = bs ++ delivered os
delivered (_ ∷ os) = delivered os

-- A sequence of reads off the wire, each with its time.
abbrev pub Reads : Type 0
Reads = List (Bytes × ℕ)

abbrev pub events : Reads → List Event
events [] = []
events ((bs, now) ∷ rs) = bytes bs now ∷ events rs

abbrev pub received : Reads → Bytes
received [] = []
received ((bs, now) ∷ rs) = bs ++ received rs

delivered-append : (xs ys : List Output) → delivered (xs ++ ys) ≡ delivered xs ++ delivered ys
delivered-append [] ys = refl
delivered-append (corrections bs ∷ xs) ys =
    ap (λ t. bs ++ t) (delivered-append xs ys) ∙ sym (append_assoc bs (delivered xs) (delivered ys))
delivered-append (protocol_tx _ ∷ xs) ys = delivered-append xs ys
delivered-append (protocol_rx _ ∷ xs) ys = delivered-append xs ys
delivered-append (sourcetable _ ∷ xs) ys = delivered-append xs ys
delivered-append (gga_due ∷ xs) ys = delivered-append xs ys
delivered-append (close _ ∷ xs) ys = delivered-append xs ys

-- Streaming without a prelude or chunking, and nothing queued.
record IsPipe (s : NtripSession) : Type 0 where
  pub piping : s.phase ≡ streaming (record { prelude = resolved; chunked = none })
  pub drained : s.pending ≡ []

-- What one read does.
record Piped (r : Reply) (before bs : Bytes) : Type 0 where
  pub still : IsPipe r.session
  pub given : delivered r.out ≡ before ++ bs

ingest-Piped :
    (s : NtripSession) (bs : Bytes) (out : List Output)
    → IsPipe s
    → Piped
        (ingest_in (streaming (record { prelude = resolved; chunked = none })) s bs out)
        (delivered out)
        bs
unfolding ingest_in feed_stream feed_stream_in feed_payload on_event
ingest-Piped s [] out h = record {
  still = record { piping = refl; drained = h.drained };
  given = sym (append-nil (delivered out));
}
ingest-Piped s (b ∷ bs) out h = record {
  still = record { piping = refl; drained = h.drained };
  given =
      delivered-append out (corrections (b ∷ bs) ∷ [])
      ∙ ap (λ t. delivered out ++ t) (append-nil (b ∷ bs));
}

on_bytes-Piped :
    (s : NtripSession) (bs : Bytes) (now : ℕ) (out : List Output)
    → IsPipe s
    → Piped (on_bytes s bs now out) (delivered out) bs
unfolding on_bytes bytes_in ingest_body flush_pending
on_bytes-Piped s bs now out h =
    rw (h.piping, h.drained, append-nil out)
      (ingest-Piped
        (record s {
          pending = [];
          last_rx = now;
          phase = streaming (record { prelude = resolved; chunked = none });
        })
        bs out (record { piping = refl; drained = refl }))

passes :
    (s : NtripSession) (rs : Reads) (out : List Output)
    → IsPipe s
    → delivered (handle_all s (events rs) out).out ≡ delivered out ++ received rs
unfolding handle_all handle
passes s [] out p = sym (append-nil (delivered out))
passes s ((bs, now) ∷ rs) out p =
    let r = on_bytes s bs now out in
    let q = on_bytes-Piped s bs now out p in
    passes r.session rs r.out q.still
    ∙ ap (λ t. t ++ received rs) q.given
    ∙ append_assoc (delivered out) bs (received rs)

-- Whatever the reads are, a raw TCP session delivers as corrections exactly the bytes received.
pub raw_tcp_passthrough :
    (cfg : SessionConfig) (start : ℕ) (rs : Reads)
    → cfg.transport ≡ raw_tcp
    → delivered (handle_all (new cfg start).session (events rs) []).out ≡ received rs
unfolding new
raw_tcp_passthrough cfg start rs h =
    rw (h) (passes _ rs [] (record { piping = refl; drained = refl }))
