-- ===== src/App/Closes.antt =====
-- crates/app/src/workers/ntrip.rs: which closes a reconnect can ride out, and what the logs say of
-- a close.
use open_ntripclient.Base.{
  ℕ, Bool, true, false, not, ◌&&◌, ◌||◌, List, [], ◌∷◌, ◌++◌, ltb, ◌==◌, if◌then◌else◌, length,
}
use open_ntripclient.Base.Bytes.{Bytes, ascii, decimal, eq_ignore_ascii_case, format_02x, lf}
use open_ntripclient.Ntrip.Chunked.{
  ChunkError, line_too_long, empty_size, size_overflow, bad_size_character, expected_crlf,
}
use open_ntripclient.Ntrip.Config.{
  CloseReason, unauthorized, first_response_timeout, sourcetable_timeout, stream_silence,
  remote_closed, cancelled, mountpoint_not_found, unknown_response, stream_corrupt, auto_reconnect,
}
use open_ntripclient.Ntrip.Sourcetable.{StrRecord, parse}
use open_ntripclient.App.Job.{FloatText, fmt_duration}

-- `raw.contains(&b)`
abbrev pub has_byte : ℕ → Bytes → Bool
has_byte b [] = false
has_byte b (c ∷ cs) = c == b || has_byte b cs

unfoldable pub transient : CloseReason → Bool
unfolding auto_reconnect
transient (unknown_response raw) = not (has_byte lf raw)
transient first_response_timeout = auto_reconnect first_response_timeout
transient sourcetable_timeout = auto_reconnect sourcetable_timeout
transient stream_silence = auto_reconnect stream_silence
transient (stream_corrupt detail) = auto_reconnect (stream_corrupt detail)
transient remote_closed = auto_reconnect remote_closed
transient unauthorized = auto_reconnect unauthorized
transient cancelled = auto_reconnect cancelled
transient (mountpoint_not_found t) = auto_reconnect (mountpoint_not_found t)

unfoldable pub should_reconnect : CloseReason → Bool → ℕ → ℕ → Bool
unfolding transient
should_reconnect reason auto_reconnect attempts_done max_attempts =
    transient reason && auto_reconnect && ltb attempts_done max_attempts

abbrev pub any_lists : Bytes → List StrRecord → Bool
any_lists mountpoint [] = false
any_lists mountpoint (s ∷ ss) =
    eq_ignore_ascii_case s.mountpoint mountpoint || any_lists mountpoint ss

unfoldable pub lists : Bytes → Bytes → Bool
unfolding parse eq_ignore_ascii_case
lists sourcetable mountpoint = any_lists mountpoint (parse sourcetable).strs

-- The decoder's detail messages.
abbrev pub detail_text : ChunkError → Bytes
detail_text line_too_long = ascii "chunk framing line exceeds 4096 bytes"
detail_text empty_size = ascii "empty chunk size line"
detail_text size_overflow = ascii "chunk size overflows u64"
detail_text (bad_size_character b) = ascii "invalid chunk size character 0x" ++ format_02x b
detail_text (expected_crlf b) = ascii "expected CRLF after chunk data, got byte 0x" ++ format_02x b

abbrev pub not_found_text : Bool → Bytes → Bytes
not_found_text true mountpoint =
    ascii "The caster answered with its sourcetable, not the stream. '"
    ++ (mountpoint ++ ascii "' is listed, so check User and Password.")
not_found_text false mountpoint =
    ascii "Mountpoint '"
    ++ (mountpoint ++ ascii "' not found: the caster returned its sourcetable instead")

abbrev pub unknown_text : Bytes → Bytes
unknown_text [] = ascii "Connection closed before any response from the caster"
unknown_text (b ∷ bs) =
    ascii "Unexpected response from caster (" ++ (decimal 20 (length (b ∷ bs)) ++ ascii " bytes)")

unfoldable pub close_summary : CloseReason → Bytes → Bytes
unfolding lists decimal
close_summary unauthorized mountpoint = ascii "Invalid username or password"
close_summary (mountpoint_not_found table) mountpoint =
    not_found_text (lists table mountpoint) mountpoint
close_summary (unknown_response raw) mountpoint = unknown_text raw
close_summary first_response_timeout mountpoint =
    ascii "Connection timed out: no response from the caster"
close_summary sourcetable_timeout mountpoint = ascii "Sourcetable download timed out"
close_summary stream_silence mountpoint = ascii "Data timeout: no data received for 30 seconds"
close_summary (stream_corrupt detail) mountpoint = ascii "Stream corrupted: " ++ detail_text detail
close_summary remote_closed mountpoint = ascii "Connection closed by the caster"
close_summary cancelled mountpoint = ascii "Disconnected by user"

unfoldable pub fmt_bytes : FloatText → ℕ → Bytes
unfolding decimal
fmt_bytes fixed n =
    if ltb n 1000
    then decimal 20 n ++ ascii " B"
    else if ltb n 1000000
    then fixed 1 n 1000 ++ ascii " kB"
    else fixed 1 n 1000000 ++ ascii " MB"

unfoldable pub close_event_line : FloatText → CloseReason → Bytes → ℕ → ℕ → Bytes
unfolding close_summary fmt_duration fmt_bytes
close_event_line fixed reason mountpoint connected_for bytes_received =
    let base = close_summary reason mountpoint in
    let after = ascii " (after " ++ fmt_duration fixed connected_for in
    if ltb 0 bytes_received
    then base ++ (after ++ (ascii ", " ++ (fmt_bytes fixed bytes_received ++ ascii " received)")))
    else base ++ (after ++ ascii ")")
