-- ===== src/Ntrip/Session/ClosingBody.antt =====
-- crates/ntrip-core/src/session.rs: the handling of body bytes emits at most one Close.
use open_ntripclient.Base.{
  ℕ, suc, Bool, true, false, Option, none, some, List, [], ◌∷◌, ◌++◌, ◌≡◌, refl, ◌∙◌, arith, drop,
}
use open_ntripclient.Base.Bytes.{Bytes}
use open_ntripclient.Ntrip.Chunked.{Decoder, feed}
use open_ntripclient.Ntrip.Config.{Output, protocol_rx, corrections, sourcetable, CloseReason}
use open_ntripclient.Ntrip.Session.{
  Phase, done, table, streaming, Prelude, headers, resolved, NtripSession, BodyEvent, nothing,
  table_complete, chunk_stream_end, corrupt,
}
use open_ntripclient.Ntrip.Session.Closing.{
  closes, closes-append, Counted, IsOpen, IsOpen-Counted, emit_close-Counted,
}
use open_ntripclient.Ntrip.Session.IcyPrelude.{
  Consumed, PreludeStep, need_more, payload, ByteKind, breaking, line_end, in_line, LineKind, blank,
  header, not_header, byte_kind, complete_line, consume_byte, consume_from, consume_prelude,
}
use open_ntripclient.Ntrip.Session.Body.{
  feed_payload, after_prelude, feed_stream_in, feed_stream, close_after_table, finalize_body,
  finalize_in, finalize_table, on_event, ingest_in, feed_table,
}

-- The scanner logs header lines alone, so it adds no Close.
abbrev Quiet : (Bytes → ℕ → List Output → Consumed) → Type 0
Quiet again =
    (line : Bytes) (lines : ℕ) (out : List Output) → closes (again line lines out).out ≡ closes out

module _ (again : Bytes → ℕ → List Output → Consumed) (ih : Quiet again) where
  complete_line_quiet :
      (k : LineKind) (line : Bytes) (lines i : ℕ) (out : List Output)
      → closes (complete_line k again line lines i out).out ≡ closes out
  unfolding complete_line
  complete_line_quiet blank line lines i out = refl
  complete_line_quiet header line lines i out =
      ih _ _ _ ∙ omega (arith, closes-append out (protocol_rx _ ∷ []))
  complete_line_quiet not_header line lines i out = refl

  consume_byte_quiet :
      (k : ByteKind) (line : Bytes) (lines i b : ℕ) (out : List Output)
      → closes (consume_byte k again line lines i b out).out ≡ closes out
  unfolding consume_byte
  consume_byte_quiet breaking line lines i b out = refl
  consume_byte_quiet line_end line lines i b out = complete_line_quiet _ line lines i out
  consume_byte_quiet in_line line lines i b out = ih _ _ _

consume_from_quiet :
    (line : Bytes) (lines i : ℕ) (bs : Bytes) (out : List Output)
    → closes (consume_from line lines i bs out).out ≡ closes out
unfolding consume_from
consume_from_quiet line lines i [] out = refl
consume_from_quiet line lines i (b ∷ bs) out =
    consume_byte_quiet _ (λ line' lines' out'. consume_from_quiet line' lines' (suc i) bs out')
      (byte_kind line b) line lines i b out

feed_payload_quiet :
    (d : Option Decoder) (bs : Bytes) (out : List Output)
    → closes (feed_payload d bs out).out ≡ closes out
unfolding feed_payload
feed_payload_quiet d [] out = refl
feed_payload_quiet none (b ∷ bs) out = omega (arith, closes-append out (corrections (b ∷ bs) ∷ []))
feed_payload_quiet (some d) (b ∷ bs) out =
    ground
      (arith, closes-append out (corrections (feed d (b ∷ bs) []).out ∷ []), closes-append out [])

after_prelude_quiet :
    (d : Option Decoder) (input : Bytes) (c : Consumed) (step : PreludeStep)
    → closes (after_prelude d input c step).out ≡ closes c.out
unfolding after_prelude
after_prelude_quiet d input c need_more = refl
after_prelude_quiet d input c (payload replay from) =
    feed_payload_quiet d (replay ++ drop from input) c.out

feed_stream_quiet :
    (p : Prelude) (d : Option Decoder) (input : Bytes) (out : List Output)
    → closes (feed_stream_in p d input out).out ≡ closes out
unfolding feed_stream_in consume_prelude
feed_stream_quiet resolved d input out = feed_payload_quiet d input out
feed_stream_quiet (headers line lines) d input out =
    let c = consume_from line lines 0 input out in
    after_prelude_quiet d input c c.step ∙ consume_from_quiet line lines 0 input out

close_after_table-Counted :
    (reason : Option CloseReason) (s : NtripSession) (out : List Output)
    → IsOpen s out
    → Counted (close_after_table reason s out)
unfolding close_after_table
close_after_table-Counted none s out h = IsOpen-Counted s out h
close_after_table-Counted (some reason) s out h = emit_close-Counted s reason out h

finalize_body-Counted :
    (b : Bool) (s : NtripSession) (body : Bytes) (reason : Option CloseReason) (out : List Output)
    → IsOpen s out
    → Counted (finalize_body b s body reason out)
unfolding finalize_body
finalize_body-Counted true s body reason out h = emit_close-Counted s _ out h
finalize_body-Counted false s body reason out h = close_after_table-Counted reason s _ (record {
  quiet = omega (arith, h.quiet, closes-append out (sourcetable body ∷ []));
  flushed = h.flushed;
  unmarked = h.unmarked;
})

pub finalize_table-Counted :
    (p : Phase) (s : NtripSession) (reason : Option CloseReason) (out : List Output)
    → IsOpen s out
    → Counted (finalize_in p s reason out)
finalize_table-Counted (table t) s reason out h =
    finalize_body-Counted s.mountpoint_requested (record s { phase = done }) t.body reason out
      (record { quiet = h.quiet; flushed = h.flushed; unmarked = h.unmarked })
finalize_table-Counted _ s reason out h = IsOpen-Counted s out h

on_event-Counted :
    (e : BodyEvent) (s : NtripSession) (out : List Output)
    → IsOpen s out
    → Counted (on_event e s out)
unfolding on_event finalize_table
on_event-Counted nothing s out h = IsOpen-Counted s out h
on_event-Counted table_complete s out h = finalize_table-Counted s.phase s none out h
on_event-Counted (corrupt detail) s out h = emit_close-Counted s _ out h
on_event-Counted chunk_stream_end s out h = emit_close-Counted s _ out h

pub ingest_body-Counted :
    (p : Phase) (s : NtripSession) (input : Bytes) (out : List Output)
    → IsOpen s out
    → Counted (ingest_in p s input out)
unfolding ingest_in feed_stream
ingest_body-Counted (table t) s input out h =
    on_event-Counted _ (record s { phase = table (feed_table t input).table }) out
      (record { quiet = h.quiet; flushed = h.flushed; unmarked = h.unmarked })
ingest_body-Counted (streaming st) s input out h =
    let f = feed_stream_in st.prelude st.chunked input out in
    on_event-Counted f.event (record s { phase = streaming f.stream }) f.out
      (record {
        quiet = feed_stream_quiet st.prelude st.chunked input out ∙ h.quiet;
        flushed = h.flushed;
        unmarked = h.unmarked;
      })
ingest_body-Counted _ s input out h = IsOpen-Counted s out h
