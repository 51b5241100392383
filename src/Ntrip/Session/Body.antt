-- ===== src/Ntrip/Session/Body.antt =====
-- crates/ntrip-core/src/session.rs: body bytes in the Table and Streaming phases. The fuel of
-- `scan_end_line` is the body's length plus one; each round takes a line.
use open_ntripclient.Base.{
  ℕ, zero, suc, ◌+◌, ◌-◌, Bool, true, false, Option, none, some, List, [], ◌∷◌, ◌++◌, ◌==◌,
  if◌then◌else◌, is_empty, take, drop, length, min,
}
use open_ntripclient.Base.Bytes.{Bytes, ascii, strip_cr, trim_ascii, eq_ignore_ascii_case}
use open_ntripclient.Ntrip.Chunked.{ChunkError, Decoder, feed, find_lf, is_done}
use open_ntripclient.Ntrip.Config.{
  CloseReason, mountpoint_not_found, stream_corrupt, remote_closed, Output, corrections,
  sourcetable,
}
use open_ntripclient.Ntrip.Session.{
  TableMode, direct, chunked, TableState, Prelude, headers, resolved, StreamState, Phase, done,
  table, streaming, BodyEvent, nothing, table_complete, chunk_stream_end, corrupt, NtripSession,
  Reply, reply, emit_close,
}
use open_ntripclient.Ntrip.Session.IcyPrelude.{
  PreludeStep, need_more, payload, Consumed, consume_prelude,
}

-- Where the end line's LF is passed, if it was found, and the new scan cursor.
pub record Scanned : Type 0 where
  pub found : Option ℕ
  pub scan : ℕ

abbrev pub is_end_line : Bytes → Bool
is_end_line line = eq_ignore_ascii_case (trim_ascii (strip_cr line)) (ascii "ENDSOURCETABLE")

-- The flag says that the complete line, of the length `rel`, is the end line.
unfoldable pub scan_line : Bool → (ℕ → Scanned) → ℕ → ℕ → Scanned
scan_line true again scan rel = record { found = some (suc (scan + rel)); scan = scan }
scan_line false again scan rel = again (suc (scan + rel))

unfoldable pub scan_at : (ℕ → Scanned) → Bytes → ℕ → Option ℕ → Scanned
unfolding eq_ignore_ascii_case trim_ascii strip_cr scan_line
scan_at again body scan none = record { found = none; scan = scan }
scan_at again body scan (some rel) =
    scan_line (is_end_line (take rel (drop scan body))) again scan rel

unfoldable pub scan_loop : ℕ → Bytes → ℕ → Scanned
unfolding scan_at find_lf
scan_loop zero body scan = record { found = none; scan = scan }
scan_loop (suc fuel) body scan = scan_at (scan_loop fuel body) body scan (find_lf (drop scan body))

unfoldable pub scan_end_line : Bytes → ℕ → Scanned
unfolding scan_loop
scan_end_line body scan = scan_loop (suc (length body)) body scan

pub record TableFed : Type 0 where
  pub table : TableState
  pub event : BodyEvent

abbrev pub table_fed : TableState → Bytes → ℕ → TableMode → BodyEvent → TableFed
table_fed t body scan mode event = record {
  table = record t { body = body; scan = scan; mode = mode };
  event = event;
}

-- The search for the end line in the extended body; `otherwise` is the event when there is none.
unfoldable pub end_or : TableState → Bytes → TableMode → BodyEvent → Scanned → TableFed
end_or t body mode otherwise s = elim s.found [
  | some n ↦ table_fed t (take n body) s.scan mode table_complete
  | none ↦ table_fed t body s.scan mode otherwise
]

abbrev pub direct_take : Option ℕ → Bytes → ℕ
direct_take none input = length input
direct_take (some left) input = min left (length input)

abbrev pub direct_left : Option ℕ → ℕ → Option ℕ
direct_left none n = none
direct_left (some left) n = some (left - n)

abbrev pub when_delimited : Option ℕ → BodyEvent
when_delimited none = nothing
when_delimited (some left) = if left == 0 then table_complete else nothing

abbrev pub after_feed : Decoder → BodyEvent → Option ChunkError → BodyEvent
after_feed d ended (some e) = corrupt e
after_feed d ended none = if is_done d then ended else nothing

unfoldable pub feed_table_in : TableMode → TableState → Bytes → TableFed
unfolding end_or scan_end_line feed
feed_table_in (direct remaining) t input =
    let n = direct_take remaining input in
    let body = t.body ++ take n input in
    let left = direct_left remaining n in
    end_or t body (direct left) (when_delimited left) (scan_end_line body t.scan)
feed_table_in (chunked d) t input =
    let f = feed d input [] in
    let body = t.body ++ f.out in
    end_or t body (chunked f.decoder) (after_feed f.decoder table_complete f.error)
      (scan_end_line body t.scan)

unfoldable pub feed_table : TableState → Bytes → TableFed
unfolding feed_table_in
feed_table t input = feed_table_in t.mode t input

pub record StreamFed : Type 0 where
  pub stream : StreamState
  pub out : List Output
  pub event : BodyEvent

abbrev pub stream_fed : Prelude → Option Decoder → List Output → BodyEvent → StreamFed
stream_fed prelude decoder out event = record {
  stream = record { prelude = prelude; chunked = decoder };
  out = out;
  event = event;
}

abbrev pub corrections_of : Bytes → List Output
corrections_of bytes = if is_empty bytes then [] else corrections bytes ∷ []

-- Payload bytes, the prelude being resolved.
unfoldable pub feed_payload : Option Decoder → Bytes → List Output → StreamFed
unfolding feed
feed_payload decoder [] out = stream_fed resolved decoder out nothing
feed_payload none (b ∷ bs) out = stream_fed resolved none (out ++ corrections (b ∷ bs) ∷ []) nothing
feed_payload (some d) (b ∷ bs) out =
    let f = feed d (b ∷ bs) [] in
    stream_fed resolved (some f.decoder) (out ++ corrections_of f.out)
      (after_feed f.decoder chunk_stream_end f.error)

unfoldable pub after_prelude : Option Decoder → Bytes → Consumed → PreludeStep → StreamFed
unfolding feed_payload
after_prelude decoder input c need_more = stream_fed (headers c.line c.lines) decoder c.out nothing
after_prelude decoder input c (payload replay from) =
    feed_payload decoder (replay ++ drop from input) c.out

unfoldable pub feed_stream_in : Prelude → Option Decoder → Bytes → List Output → StreamFed
unfolding after_prelude consume_prelude feed_payload
feed_stream_in resolved decoder input out = feed_payload decoder input out
feed_stream_in (headers line lines) decoder input out =
    let c = consume_prelude line lines input out in after_prelude decoder input c c.step

unfoldable pub feed_stream : StreamState → Bytes → List Output → StreamFed
unfolding feed_stream_in
feed_stream s input out = feed_stream_in s.prelude s.chunked input out

-- `close_after` is `some` when a remote close forced the end.
unfoldable pub close_after_table : Option CloseReason → NtripSession → List Output → Reply
unfolding emit_close
close_after_table none s out = reply s out
close_after_table (some reason) s out = emit_close s reason out

-- The arms on `self.mountpoint_requested`, the phase being Done already.
unfoldable pub finalize_body :
    Bool → NtripSession → Bytes → Option CloseReason → List Output → Reply
unfolding emit_close close_after_table
finalize_body true s body close_after out = emit_close s (mountpoint_not_found body) out
finalize_body false s body close_after out =
    close_after_table close_after s (out ++ sourcetable body ∷ [])

-- The phase is Table where this is called.
abbrev pub finalize_in : Phase → NtripSession → Option CloseReason → List Output → Reply
finalize_in (table t) s close_after out =
    finalize_body s.mountpoint_requested (record s { phase = done }) t.body close_after out
finalize_in _ s close_after out = reply s out

unfoldable pub finalize_table : NtripSession → Option CloseReason → List Output → Reply
unfolding finalize_body
finalize_table s close_after out = finalize_in s.phase s close_after out

unfoldable pub on_event : BodyEvent → NtripSession → List Output → Reply
unfolding finalize_table emit_close
on_event nothing s out = reply s out
on_event table_complete s out = finalize_table s none out
on_event (corrupt detail) s out = emit_close s (stream_corrupt detail) out
on_event chunk_stream_end s out = emit_close s remote_closed out

unfoldable pub ingest_in : Phase → NtripSession → Bytes → List Output → Reply
unfolding feed_table feed_stream on_event
ingest_in (table t) s input out =
    let f = feed_table t input in on_event f.event (record s { phase = table f.table }) out
ingest_in (streaming st) s input out =
    let f = feed_stream st input out in
    on_event f.event (record s { phase = streaming f.stream }) f.out
ingest_in _ s input out = reply s out

unfoldable pub ingest_body : NtripSession → Bytes → List Output → Reply
unfolding ingest_in
ingest_body s input out = ingest_in s.phase s input out
