-- ===== src/Ntrip/Session/Headers.antt =====
-- crates/ntrip-core/src/session.rs: the status line and the header block. The fuel of
-- `drive_header` is the length of the header buffer plus one; each round takes a line.
use open_ntripclient.Base.{
  ℕ, zero, suc, ◌+◌, ◌-◌, ◌*◌, Bool, true, false, not, ◌&&◌, ◌||◌, Option, none, some, List, [],
  ◌∷◌, ◌++◌, ltb, ◌==◌, if◌then◌else◌, is_empty, take, drop, position, length,
}
use open_ntripclient.Base.Bytes.{
  Bytes, ascii, is_ascii_digit, trim_ascii, to_ascii_uppercase, to_ascii_lowercase, equal,
  starts_with, contains,
}
use open_ntripclient.Ntrip.Chunked.{u64_limit, fresh}
use open_ntripclient.Ntrip.Config.{unauthorized, unknown_response, Output, protocol_rx}
use open_ntripclient.Ntrip.Session.{
  HttpInfo, TableMode, direct, chunked, headers, resolved, Phase, status_line, http_headers, table,
  NtripSession, Reply, emit_close, enter_streaming, take_hdr_consumed, take_hdr_leftover, NextLine,
  next_line, table_timeout_ms,
}

-- `leftover` is `some` when the session has entered a body phase.
pub record Driven : Type 0 where
  pub session : NtripSession
  pub out : List Output
  pub leftover : Option Bytes

abbrev pub driven : NtripSession → List Output → Option Bytes → Driven
driven s out leftover = record { session = s; out = out; leftover = leftover }

abbrev pub closing : Reply → Driven
closing r = driven r.session r.out none

abbrev pub reject : NtripSession → List Output → Driven
reject s out =
    let raw = take_hdr_consumed s in
    closing (emit_close raw.session (unknown_response raw.bytes) out)

abbrev pub new_table : TableMode → ℕ → Phase
new_table mode now =
    table (record { body = []; scan = 0; mode = mode; deadline = now + table_timeout_ms })

-- The arms on `self.mountpoint_requested`.
unfoldable pub on_icy : Bool → ℕ → NtripSession → List Output → Driven
on_icy false now s out = reject s out
on_icy true now s out =
    let leftover = take_hdr_leftover s in
    driven (enter_streaming leftover.session now (headers [] 0) none) out (some leftover.bytes)

unfoldable pub on_sourcetable : ℕ → NtripSession → List Output → Driven
on_sourcetable now s out =
    let leftover = take_hdr_leftover s in
    let s' = leftover.session in
    driven (record s' { phase = new_table (direct none) now }) out (some leftover.bytes)

-- `str::parse::<u64>().ok()` on the digits, then on the text with its optional sign.
unfoldable pub parse_digits : ℕ → Bytes → Option ℕ
parse_digits n [] = some n
parse_digits n (c ∷ cs) =
    let m = n * 10 + (c - 48) in
    if is_ascii_digit c && ltb m u64_limit then parse_digits m cs else none

unfoldable pub parse_u64 : Bytes → Option ℕ
unfolding parse_digits
parse_u64 [] = none
parse_u64 (c ∷ cs) =
    if c == b'+' then (if is_empty cs then none else parse_digits 0 cs) else parse_digits 0 (c ∷ cs)

abbrev pub set_header : HttpInfo → Bytes → Bytes → HttpInfo
set_header info name value =
    if equal name (ascii "content-type")
    then record info { content_type = to_ascii_lowercase value }
    else if equal name (ascii "content-length")
    then record info { content_length = parse_u64 value }
    else if equal name (ascii "transfer-encoding")
    then record info { chunked = contains (to_ascii_lowercase value) (ascii "chunked") }
    else info

-- `line.split_once(':')`, and the header's effect.
abbrev pub apply_header_at : HttpInfo → Bytes → Option ℕ → HttpInfo
apply_header_at info line none = info
apply_header_at info line (some colon) =
    set_header info (to_ascii_lowercase (trim_ascii (take colon line)))
      (trim_ascii (drop (suc colon) line))

unfoldable pub apply_header : HttpInfo → Bytes → HttpInfo
unfolding equal trim_ascii contains parse_u64
apply_header info line = apply_header_at info line (position (λ c. c == b':') line)

abbrev pub table_mode : Option ℕ → Bool → TableMode
table_mode (some n) te_chunked = direct (some n)
table_mode none te_chunked = if te_chunked then chunked fresh else direct none

-- What the declared status and headers make of the response, in the order of the tests.
pub data Verdict : Type 0 where
  denied refused as_table as_stream : Verdict

unfoldable pub verdict : Bool → HttpInfo → Verdict
unfolding contains trim_ascii
verdict mountpoint_requested info =
    let status = to_ascii_uppercase (trim_ascii info.status) in
    let is_table =
      not mountpoint_requested || contains info.content_type (ascii "gnss/sourcetable") in
    if contains status (ascii " 401")
    then denied
    else if not (contains status (ascii " 200"))
    then refused
    else if is_table
    then as_table
    else as_stream

unfoldable pub on_verdict : Verdict → ℕ → HttpInfo → NtripSession → List Output → Driven
on_verdict denied now info s out = closing (emit_close s unauthorized out)
on_verdict refused now info s out = reject s out
on_verdict as_table now info s out =
    let leftover = take_hdr_leftover s in
    let s' = leftover.session in
    driven (record s' { phase = new_table (table_mode info.content_length info.chunked) now }) out
      (some leftover.bytes)
on_verdict as_stream now info s out =
    let leftover = take_hdr_leftover s in
    driven
      (enter_streaming leftover.session now resolved (if info.chunked then some fresh else none))
      out (some leftover.bytes)

-- The blank line after the headers.
unfoldable pub classify_http : ℕ → HttpInfo → NtripSession → List Output → Driven
unfolding verdict on_verdict
classify_http now info s out = on_verdict (verdict s.mountpoint_requested info) now info s out

abbrev pub new_http : Bytes → HttpInfo
new_http line = record { status = line; content_type = []; content_length = none; chunked = false }

abbrev pub Drive : Type 0
Drive = NtripSession → List Output → Driven

pub data StatusKind : Type 0 where
  icy sourcetable_ok http other : StatusKind

unfoldable pub status_kind : Bytes → StatusKind
unfolding starts_with trim_ascii
status_kind line =
    let upper = to_ascii_uppercase (trim_ascii line) in
    if starts_with upper (ascii "ICY 200")
    then icy
    else if starts_with upper (ascii "SOURCETABLE 200")
    then sourcetable_ok
    else if starts_with upper (ascii "HTTP/1.")
    then http
    else other

abbrev pub log_rx : List Output → Bytes → List Output
log_rx out line = out ++ protocol_rx line ∷ []

-- One round of the loop, on the line taken and the session after it. `again` is the next round.
unfoldable pub on_status_line : Drive → StatusKind → ℕ → Bytes → NtripSession → List Output → Driven
unfolding on_icy on_sourcetable
on_status_line again icy now line s out = on_icy s.mountpoint_requested now s (log_rx out line)
on_status_line again sourcetable_ok now line s out = on_sourcetable now s (log_rx out line)
on_status_line again http now line s out =
    again (record s { phase = http_headers (new_http line) }) (log_rx out line)
on_status_line again other now line s out = reject s out

-- The flag says that the line is blank.
unfoldable pub on_header_line :
    Drive → Bool → ℕ → HttpInfo → Bytes → NtripSession → List Output → Driven
unfolding classify_http apply_header
on_header_line again true now info line s out = classify_http now info s out
on_header_line again false now info line s out =
    again (record s { phase = http_headers (apply_header info line) }) (log_rx out line)

-- The other phases are unreachable: `on_bytes` calls `drive_header` in these two alone.
unfoldable pub drive_line : Drive → ℕ → Phase → Bytes → NtripSession → List Output → Driven
unfolding on_status_line on_header_line status_kind trim_ascii
drive_line again now status_line line s out = on_status_line again (status_kind line) now line s out
drive_line again now (http_headers info) line s out =
    on_header_line again (is_empty (trim_ascii line)) now info line s out
drive_line again now _ line s out = driven s out none

-- `let line = self.next_line()?`
unfoldable pub drive_next : Drive → ℕ → Option NextLine → NtripSession → List Output → Driven
unfolding drive_line
drive_next again now none s out = driven s out none
drive_next again now (some l) s out = drive_line again now s.phase l.line l.session out

unfoldable pub drive_loop : ℕ → ℕ → Drive
unfolding drive_next next_line
drive_loop zero now s out = driven s out none
drive_loop (suc fuel) now s out = drive_next (drive_loop fuel now) now (next_line s) s out

unfoldable pub drive_header : ℕ → NtripSession → List Output → Driven
unfolding drive_loop
drive_header now s out = drive_loop (suc (length s.hdr)) now s out
