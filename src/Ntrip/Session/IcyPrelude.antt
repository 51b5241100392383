-- ===== src/Ntrip/Session/IcyPrelude.antt =====
-- crates/ntrip-core/src/session.rs: `consume_prelude`, the scanner of what an ICY caster sends
-- between its status line and the corrections.
use open_ntripclient.Base.{
  ℕ, suc, Bool, true, false, not, ◌&&◌, ◌||◌, Option, none, some, List, [], ◌∷◌, ◌++◌, ltb, leb,
  ◌==◌, if◌then◌else◌, is_empty, take, position, length, last,
}
use open_ntripclient.Base.Bytes.{
  Bytes, ascii, cr, lf, within, is_ascii_alphanumeric, strip_cr, all_bytes,
}
use open_ntripclient.Base.Utf8.{from_utf8_lossy}
use open_ntripclient.Ntrip.Config.{Output, protocol_rx}

abbrev pub prelude_line_cap : ℕ
prelude_line_cap = 256

abbrev pub prelude_max_lines : ℕ
prelude_max_lines = 32

-- `payload replay from`: consumption is over; payload is `replay`, then the data from `from` on.
pub data PreludeStep : Type 0 where
  need_more : PreludeStep
  payload : Bytes → ℕ → PreludeStep

pub record Consumed : Type 0 where
  pub line : Bytes
  pub lines : ℕ
  pub out : List Output
  pub step : PreludeStep

abbrev pub consumed : Bytes → ℕ → List Output → PreludeStep → Consumed
consumed line lines out step = record { line = line; lines = lines; out = out; step = step }

abbrev is_one_of : Bytes → ℕ → Bool
is_one_of [] c = false
is_one_of (x ∷ xs) c = c == x || is_one_of xs c

unfoldable pub is_tchar : ℕ → Bool
is_tchar c = is_ascii_alphanumeric c || is_one_of (ascii "!#$%&'*+-.^_`|~") c

abbrev shaped_at : Bytes → Option ℕ → Bool
shaped_at txt none = false
shaped_at txt (some colon) = leb 1 colon && all_bytes is_tchar (take colon txt)

unfoldable pub header_shaped : Bytes → Bool
unfolding is_tchar
header_shaped txt = shaped_at txt (position (λ c. c == b':') txt)

abbrev pub ends_with_cr : Bytes → Bool
ends_with_cr line = elim (last line) [ none ↦ false | some c ↦ c == cr ]

unfoldable pub breaks_line : Bytes → ℕ → Bool
breaks_line line b =
    if b == lf
    then false
    else if ends_with_cr line
    then true
    else if b == cr
    then false
    else not (b == 9 || within 0x20 0x7e b) || leb prelude_line_cap (length line)

abbrev Scanner : Type 0
Scanner = Bytes → ℕ → List Output → Consumed

-- What a byte does to the line, and what a complete line is.
pub data ByteKind : Type 0 where
  breaking line_end in_line : ByteKind

pub data LineKind : Type 0 where
  blank header not_header : LineKind

unfoldable pub byte_kind : Bytes → ℕ → ByteKind
unfolding breaks_line
byte_kind line b = if breaks_line line b then breaking else if b == lf then line_end else in_line

unfoldable pub line_kind : Bytes → ℕ → LineKind
unfolding header_shaped
line_kind txt lines =
    if is_empty txt
    then blank
    else if ltb lines prelude_max_lines && header_shaped txt
    then header
    else not_header

-- The line is complete, LF excluded; the LF has the index `i`.
unfoldable pub complete_line : LineKind → Scanner → Bytes → ℕ → ℕ → List Output → Consumed
unfolding strip_cr
complete_line blank again line lines i out = consumed [] lines out (payload [] (suc i))
complete_line header again line lines i out =
    again [] (suc lines) (out ++ protocol_rx (from_utf8_lossy (strip_cr line)) ∷ [])
complete_line not_header again line lines i out =
    consumed [] lines out (payload (line ++ lf ∷ []) (suc i))

-- One round of the loop, at the byte `b` with the index `i`. `again` is the next round.
unfoldable pub consume_byte : ByteKind → Scanner → Bytes → ℕ → ℕ → ℕ → List Output → Consumed
unfolding complete_line line_kind strip_cr
consume_byte breaking again line lines i b out = consumed [] lines out (payload line i)
consume_byte line_end again line lines i b out =
    complete_line (line_kind (strip_cr line) lines) again line lines i out
consume_byte in_line again line lines i b out = again (line ++ b ∷ []) lines out

-- The loop from the index `i` on, whose bytes are left to read.
unfoldable pub consume_from : Bytes → ℕ → ℕ → Bytes → List Output → Consumed
unfolding byte_kind consume_byte
consume_from line lines i [] out = consumed line lines out need_more
consume_from line lines i (b ∷ bs) out =
    consume_byte (byte_kind line b) (λ line' lines' out'. consume_from line' lines' (suc i) bs out')
      line lines i b out

unfoldable pub consume_prelude : Bytes → ℕ → Bytes → List Output → Consumed
unfolding consume_from
consume_prelude line lines input out = consume_from line lines 0 input out
