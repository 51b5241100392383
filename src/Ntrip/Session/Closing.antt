-- ===== src/Ntrip/Session/Closing.antt =====
-- crates/ntrip-core/src/session.rs: Close is emitted at most once, ever.
use open_ntripclient.Base.{
  ℕ, zero, suc, ◌+◌, Bool, true, false, Option, none, some, List, [], ◌∷◌, ◌++◌, ◌≡◌, refl, arith,
  is_empty, drop,
}
use open_ntripclient.Base.Bytes.{Bytes, trim_ascii}
use open_ntripclient.Ntrip.Chunked.{find_lf}
use open_ntripclient.Ntrip.Config.{Output, protocol_rx, close, CloseReason}
use open_ntripclient.Ntrip.Session.{
  Phase, status_line, done, http_headers, table, streaming, HttpInfo, Prelude, headers, resolved,
  NtripSession, Reply, reply, held_prelude, held_lines, emit_close, line_at, next_line,
  enter_streaming, take_hdr_consumed, take_hdr_leftover,
}
use open_ntripclient.Ntrip.Session.Headers.{
  Driven, closing, reject, on_icy, on_sourcetable, Verdict, denied, refused, as_table, as_stream,
  on_verdict, StatusKind, icy, sourcetable_ok, http, other, status_kind, log_rx, on_status_line,
  on_header_line, drive_line, drive_next, drive_loop,
}

abbrev pub closes_of : Output → ℕ
closes_of (close _) = 1
closes_of _ = 0

-- How many Close outputs there are.
abbrev pub closes : List Output → ℕ
closes [] = 0
closes (o ∷ os) = closes_of o + closes os

abbrev pub flag : Bool → ℕ
flag true = 1
flag false = 0

pub closes-append : (xs ys : List Output) → closes (xs ++ ys) ≡ closes xs + closes ys
closes-append [] ys = omega arith
closes-append (x ∷ xs) ys = omega (arith, closes-append xs ys)

-- The outputs so far and those that are queued hold one Close if the session is marked closed,
-- else none; and a closed session is Done, with nothing queued.
pub record Counted (r : Reply) : Type 0 where
  pub tally : closes r.out + closes r.session.pending ≡ flag r.session.closed
  pub shut : r.session.closed ≡ true → r.session.phase ≡ done
  pub drained : r.session.closed ≡ true → r.session.pending ≡ []

-- No Close yet, and nothing queued.
pub record IsOpen (s : NtripSession) (out : List Output) : Type 0 where
  pub quiet : closes out ≡ 0
  pub flushed : s.pending ≡ []
  pub unmarked : s.closed ≡ false

pub IsOpen-Counted : (s : NtripSession) (out : List Output) → IsOpen s out → Counted (reply s out)
IsOpen-Counted s out h = ground arith

held_lines_quiet : (p : Phase) → closes (held_lines p) ≡ 0
held_lines_quiet status_line = refl
held_lines_quiet done = refl
held_lines_quiet (http_headers _) = refl
held_lines_quiet (table _) = refl
held_lines_quiet (streaming s) = held (s.prelude)
  where
    held : (p : Prelude) → closes (held_prelude p) ≡ 0
    held (headers line lines) = ground arith
    held resolved = refl

pub emit_close-Counted :
    (s : NtripSession) (reason : CloseReason) (out : List Output)
    → IsOpen s out
    → Counted (emit_close s reason out)
unfolding emit_close
emit_close-Counted s reason out h = ground (
  arith,
  closes-append out (held_lines s.phase ++ (close reason ∷ [])),
  closes-append (held_lines s.phase) (close reason ∷ []),
  held_lines_quiet s.phase,
)

-- The outcome of the header loop: open still if there is a leftover.
abbrev pub Led : Driven → Option Bytes → Type 0
Led d none = Counted (reply d.session d.out) × (d.session.pending ≡ [])
Led d (some leftover) = IsOpen d.session d.out

emit_close-Led :
    (s : NtripSession) (reason : CloseReason) (out : List Output)
    → IsOpen s out
    → Led (closing (emit_close s reason out)) none
unfolding emit_close
emit_close-Led s reason out h = (emit_close-Counted s reason out h, h.flushed)

abbrev pub IsLed : Driven → Type 0
IsLed d = Led d d.leftover

rx_quiet : (out : List Output) (line : Bytes) → closes out ≡ 0 → closes (log_rx out line) ≡ 0
rx_quiet out line h = omega (arith, closes-append out (protocol_rx line ∷ []))

reject-Led : (s : NtripSession) (out : List Output) → IsOpen s out → IsLed (reject s out)
unfolding take_hdr_consumed
reject-Led s out h =
    emit_close-Led _ _ out (record { quiet = h.quiet; flushed = h.flushed; unmarked = h.unmarked })

on_icy-Led :
    (b : Bool) (now : ℕ) (s : NtripSession) (out : List Output)
    → IsOpen s out
    → IsLed (on_icy b now s out)
unfolding on_icy take_hdr_leftover enter_streaming
on_icy-Led false now s out h = reject-Led s out h
on_icy-Led true now s out h = record { quiet = h.quiet; flushed = h.flushed; unmarked = h.unmarked }

on_sourcetable-Led :
    (now : ℕ) (s : NtripSession) (out : List Output)
    → IsOpen s out
    → IsLed (on_sourcetable now s out)
unfolding on_sourcetable take_hdr_leftover
on_sourcetable-Led now s out h = record {
  quiet = h.quiet;
  flushed = h.flushed;
  unmarked = h.unmarked;
}

on_verdict-Led :
    (v : Verdict) (now : ℕ) (info : HttpInfo) (s : NtripSession) (out : List Output)
    → IsOpen s out
    → IsLed (on_verdict v now info s out)
unfolding on_verdict take_hdr_leftover enter_streaming
on_verdict-Led denied now info s out h = emit_close-Led s _ out h
on_verdict-Led refused now info s out h = reject-Led s out h
on_verdict-Led as_table now info s out h = record {
  quiet = h.quiet;
  flushed = h.flushed;
  unmarked = h.unmarked;
}
on_verdict-Led as_stream now info s out h = record {
  quiet = h.quiet;
  flushed = h.flushed;
  unmarked = h.unmarked;
}

-- What the next round of the loop is given: an open session.
abbrev pub Leads : (NtripSession → List Output → Driven) → Type 0
Leads again = (s : NtripSession) (out : List Output) → IsOpen s out → IsLed (again s out)

module _ (again : NtripSession → List Output → Driven) (ih : Leads again) (now : ℕ) where
  on_status_line-Led :
      (k : StatusKind) (line : Bytes) (s : NtripSession) (out : List Output)
      → IsOpen s out
      → IsLed (on_status_line again k now line s out)
  unfolding on_status_line
  on_status_line-Led icy line s out h =
      on_icy-Led s.mountpoint_requested now s _
        (record { quiet = rx_quiet out line h.quiet; flushed = h.flushed; unmarked = h.unmarked })
  on_status_line-Led sourcetable_ok line s out h =
      on_sourcetable-Led now s _
        (record { quiet = rx_quiet out line h.quiet; flushed = h.flushed; unmarked = h.unmarked })
  on_status_line-Led http line s out h =
      ih _ _
        (record { quiet = rx_quiet out line h.quiet; flushed = h.flushed; unmarked = h.unmarked })
  on_status_line-Led other line s out h = reject-Led s out h

  on_header_line-Led :
      (blank : Bool) (info : HttpInfo) (line : Bytes) (s : NtripSession) (out : List Output)
      → IsOpen s out
      → IsLed (on_header_line again blank now info line s out)
  unfolding on_header_line
  on_header_line-Led true info line s out h = on_verdict-Led _ now info s out h
  on_header_line-Led false info line s out h =
      ih _ _
        (record { quiet = rx_quiet out line h.quiet; flushed = h.flushed; unmarked = h.unmarked })

  drive_line-Led :
      (p : Phase) (line : Bytes) (s : NtripSession) (out : List Output)
      → IsOpen s out
      → IsLed (drive_line again now p line s out)
  unfolding drive_line
  drive_line-Led status_line line s out h = on_status_line-Led (status_kind line) line s out h
  drive_line-Led (http_headers info) line s out h =
      on_header_line-Led (is_empty (trim_ascii line)) info line s out h
  drive_line-Led _ line s out h = (IsOpen-Counted s out h, h.flushed)

  drive_next-Led :
      (rel : Option ℕ) (s : NtripSession) (out : List Output)
      → IsOpen s out
      → IsLed (drive_next again now (line_at s rel) s out)
  unfolding drive_next
  drive_next-Led none s out h = (IsOpen-Counted s out h, h.flushed)
  drive_next-Led (some rel) s out h =
      drive_line-Led s.phase _ _ out
        (record { quiet = h.quiet; flushed = h.flushed; unmarked = h.unmarked })

pub drive_loop-Led : (fuel now : ℕ) → Leads (drive_loop fuel now)
unfolding drive_loop
drive_loop-Led zero now s out h = (IsOpen-Counted s out h, h.flushed)
drive_loop-Led (suc fuel) now s out h =
    unfold next_line in
    drive_next-Led (drive_loop fuel now) (drive_loop-Led fuel now) now
      (find_lf (drop s.hdr_pos s.hdr)) s out h
