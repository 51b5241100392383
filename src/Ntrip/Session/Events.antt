-- ===== src/Ntrip/Session/Events.antt =====
-- crates/ntrip-core/src/session.rs: the handlers that the caller of a session calls.
use open_ntripclient.Base.{
  ℕ, ◌-◌, Bool, true, false, ◌&&◌, Option, none, some, List, [], ◌∷◌, ◌++◌, ltb, leb, if◌then◌else◌,
  length,
}
use open_ntripclient.Base.Bytes.{Bytes}
use open_ntripclient.Ntrip.Config.{
  CloseReason, unknown_response, first_response_timeout, sourcetable_timeout, stream_silence,
  remote_closed, cancelled, Output, gga_due,
}
use open_ntripclient.Ntrip.Session.{
  hdr_cap, silence_timeout_ms, Phase, status_line, done, http_headers, table, streaming, Gga,
  await_sent, due, NtripSession, Reply, reply, flush_pending, emit_close, gga_sent, gga_missed,
  take_hdr_all,
}
use open_ntripclient.Ntrip.Session.Headers.{Driven, drive_header}
use open_ntripclient.Ntrip.Session.Body.{finalize_table, ingest_body}

abbrev pub is_header_phase : Phase → Bool
is_header_phase status_line = true
is_header_phase (http_headers _) = true
is_header_phase _ = false

unfoldable pub close_unknown : NtripSession → List Output → Reply
unfolding emit_close take_hdr_all
close_unknown s out =
    let raw = take_hdr_all s in emit_close raw.session (unknown_response raw.bytes) out

-- Still unclassified, and past the cap.
abbrev pub is_flooded : NtripSession → Bool
is_flooded s = is_header_phase s.phase && ltb hdr_cap (length s.hdr)

unfoldable pub cap_check : Bool → NtripSession → List Output → Reply
unfolding close_unknown
cap_check true s out = close_unknown s out
cap_check false s out = reply s out

unfoldable pub after_drive : Driven → Option Bytes → Reply
unfolding ingest_body cap_check
after_drive d (some leftover) = ingest_body d.session leftover d.out
after_drive d none = cap_check (is_flooded d.session) d.session d.out

-- The bytes joined the header buffer.
unfoldable pub drive_bytes : NtripSession → Bytes → ℕ → List Output → Reply
unfolding drive_header after_drive
drive_bytes s input now out =
    let d = drive_header now (record s { hdr = s.hdr ++ input }) out in after_drive d d.leftover

unfoldable pub bytes_in : Phase → NtripSession → Bytes → ℕ → List Output → Reply
unfolding drive_bytes ingest_body
bytes_in status_line s input now out = drive_bytes (record s { last_rx = now }) input now out
bytes_in (http_headers _) s input now out = drive_bytes (record s { last_rx = now }) input now out
bytes_in (table _) s input now out = ingest_body (record s { last_rx = now }) input out
bytes_in (streaming _) s input now out = ingest_body (record s { last_rx = now }) input out
bytes_in done s input now out = reply s out

unfoldable pub on_bytes : NtripSession → Bytes → ℕ → List Output → Reply
unfolding bytes_in flush_pending
on_bytes s input now out =
    let r = flush_pending s out in bytes_in r.session.phase r.session input now r.out

abbrev pub gga_is_due : Gga → ℕ → Bool
gga_is_due (due at) now = leb at now
gga_is_due _ now = false

-- What `on_tick` decides before it acts.
pub data Action : Type 0 where
  no_action emit_gga_due : Action
  close_with : CloseReason → Action

abbrev pub close_at : ℕ → ℕ → CloseReason → Action
close_at deadline now reason = if leb deadline now then close_with reason else no_action

unfoldable pub tick_action : Phase → NtripSession → ℕ → Action
tick_action done s now = no_action
tick_action status_line s now = close_at s.first_deadline now first_response_timeout
tick_action (http_headers _) s now = close_at s.first_deadline now first_response_timeout
tick_action (table t) s now = close_at t.deadline now sourcetable_timeout
tick_action (streaming _) s now =
    if leb silence_timeout_ms (now - s.last_rx)
    then close_with stream_silence
    else if gga_is_due s.gga now
    then emit_gga_due
    else no_action

unfoldable pub act : Action → NtripSession → List Output → Reply
unfolding emit_close
act no_action s out = reply s out
act (close_with reason) s out = emit_close s reason out
act emit_gga_due s out = reply (record s { gga = await_sent }) (out ++ gga_due ∷ [])

unfoldable pub on_tick : NtripSession → ℕ → List Output → Reply
unfolding tick_action act flush_pending
on_tick s now out =
    let r = flush_pending s out in act (tick_action r.session.phase r.session now) r.session r.out

unfoldable pub remote_close_in : Phase → NtripSession → List Output → Reply
unfolding close_unknown finalize_table emit_close
remote_close_in done s out = reply s out
remote_close_in status_line s out = close_unknown s out
remote_close_in (http_headers _) s out = close_unknown s out
remote_close_in (table _) s out = finalize_table s (some remote_closed) out
remote_close_in (streaming _) s out = emit_close s remote_closed out

unfoldable pub on_remote_close : NtripSession → List Output → Reply
unfolding remote_close_in flush_pending
on_remote_close s out =
    let r = flush_pending s out in remote_close_in r.session.phase r.session r.out

unfoldable pub cancel_in : Phase → NtripSession → List Output → Reply
unfolding emit_close
cancel_in done s out = reply s out
cancel_in _ s out = emit_close s cancelled out

unfoldable pub cancel : NtripSession → List Output → Reply
unfolding cancel_in flush_pending
cancel s out = let r = flush_pending s out in cancel_in r.session.phase r.session r.out

-- What a caller may do with a session.
pub data Event : Type 0 where
  bytes : Bytes → ℕ → Event
  tick : ℕ → Event
  sent : ℕ → Event
  missed : ℕ → Event
  remote_close cancel_request : Event

unfoldable pub handle : NtripSession → Event → List Output → Reply
unfolding on_bytes on_tick gga_sent gga_missed on_remote_close cancel
handle s (bytes input now) out = on_bytes s input now out
handle s (tick now) out = on_tick s now out
handle s (sent now) out = reply (gga_sent s now) out
handle s (missed now) out = reply (gga_missed s now) out
handle s remote_close out = on_remote_close s out
handle s cancel_request out = cancel s out

unfoldable pub handle_all : NtripSession → List Event → List Output → Reply
unfolding handle
handle_all s [] out = reply s out
handle_all s (e ∷ es) out = let r = handle s e out in handle_all r.session es r.out
