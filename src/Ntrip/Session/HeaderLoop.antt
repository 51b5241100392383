-- ===== src/Ntrip/Session/HeaderLoop.antt =====
-- crates/ntrip-core/src/session.rs: `drive_header` takes every complete line.
use open_ntripclient.Base.{
  ℕ, zero, suc, ◌-◌, ◌<◌, Bool, true, false, Option, none, some, List, [], ◌∷◌, ◌≡◌, refl, arith,
  Option-cases, Bool-cases, inl, inr, is_empty, length, drop, length-drop, ◌==◌,
}
use open_ntripclient.Base.Bytes.{Bytes, trim_ascii, lf}
use open_ntripclient.Ntrip.Chunked.{find_lf}
use open_ntripclient.Ntrip.Config.{Output}
use open_ntripclient.Ntrip.Session.{
  Phase, status_line, done, http_headers, table, streaming, HttpInfo, NtripSession, emit_close,
  line_at, next_line,
}
use open_ntripclient.Ntrip.Session.Events.{is_header_phase}
use open_ntripclient.Ntrip.Session.Headers.{
  Driven, Verdict, denied, refused, as_table, as_stream, on_icy, on_sourcetable, on_verdict,
  StatusKind, icy, sourcetable_ok, http, other, status_kind, on_status_line, on_header_line,
  classify_http, drive_line, drive_next, drive_loop, drive_header,
}

pub find_lf-lt : (bs : Bytes) (rel : ℕ) → find_lf bs ≡ some rel → rel < length bs
unfolding find_lf
find_lf-lt [] rel h = absurd (cc)
find_lf-lt (b ∷ bs) rel h = elim (Bool-cases (b == lf)) [
  | inl e ↦ let q : some 0 ≡ some rel = rw e at h in ground arith
  | inr e ↦ elim (Option-cases (find_lf bs)) [
    | inl f ↦ absurd (cc)
    | inr (k, f) ↦ let ih = find_lf-lt bs k f in ground (arith, ih)
  ]
]

-- How many bytes of the header buffer are not passed yet.
abbrev unread : NtripSession → ℕ
unread s = length s.hdr - s.hdr_pos

-- When the loop ends without a leftover and the session still waits for a header line, the buffer
-- has no complete line.
IsDry : Driven → Type 0
IsDry d = d.leftover ≡ none → is_header_phase d.session.phase ≡ true → next_line d.session ≡ none

left_header : (d : Driven) → is_header_phase d.session.phase ≡ false → IsDry d
unfolding IsDry
left_header d e n h = absurd (cc)

has_leftover : (d : Driven) (bytes : Bytes) → d.leftover ≡ some bytes → IsDry d
unfolding IsDry
has_leftover d bytes e n h = absurd (cc)

on_icy-IsDry :
    (b : Bool) (now : ℕ) (s : NtripSession) (out : List Output) → IsDry (on_icy b now s out)
unfolding on_icy emit_close
on_icy-IsDry false now s out = left_header _ refl
on_icy-IsDry true now s out = has_leftover _ _ refl

on_verdict-IsDry :
    (v : Verdict) (now : ℕ) (info : HttpInfo) (s : NtripSession) (out : List Output)
    → IsDry (on_verdict v now info s out)
unfolding on_verdict emit_close
on_verdict-IsDry denied now info s out = left_header _ refl
on_verdict-IsDry refused now info s out = left_header _ refl
on_verdict-IsDry as_table now info s out = has_leftover _ _ refl
on_verdict-IsDry as_stream now info s out = has_leftover _ _ refl

-- What the next round does, with the bytes that the lines so far have left unread.
abbrev Dries : ℕ → (NtripSession → List Output → Driven) → Type 0
Dries fuel again = (s : NtripSession) (out : List Output) → unread s < fuel → IsDry (again s out)

module _ (fuel : ℕ) (again : NtripSession → List Output → Driven) (ih : Dries fuel again)
    (now : ℕ) where
  on_status_line-IsDry :
      (k : StatusKind) (line : Bytes) (s : NtripSession) (out : List Output)
      → unread s < fuel
      → IsDry (on_status_line again k now line s out)
  unfolding on_status_line on_sourcetable emit_close
  on_status_line-IsDry icy line s out h = on_icy-IsDry s.mountpoint_requested now s _
  on_status_line-IsDry sourcetable_ok line s out h = has_leftover _ _ refl
  on_status_line-IsDry http line s out h = ih _ _ h
  on_status_line-IsDry other line s out h = left_header _ refl

  on_header_line-IsDry :
      (blank : Bool) (info : HttpInfo) (line : Bytes) (s : NtripSession) (out : List Output)
      → unread s < fuel
      → IsDry (on_header_line again blank now info line s out)
  unfolding on_header_line classify_http
  on_header_line-IsDry true info line s out h = on_verdict-IsDry _ now info s out
  on_header_line-IsDry false info line s out h = ih _ _ h

  drive_line-IsDry :
      (p : Phase) (line : Bytes) (s : NtripSession) (out : List Output)
      → s.phase ≡ p
      → unread s < fuel
      → IsDry (drive_line again now p line s out)
  unfolding drive_line
  drive_line-IsDry status_line line s out e h = on_status_line-IsDry (status_kind line) line s out h
  drive_line-IsDry (http_headers info) line s out e h =
      on_header_line-IsDry (is_empty (trim_ascii line)) info line s out h
  drive_line-IsDry done line s out e h = left_header _ (rw e refl)
  drive_line-IsDry (table t) line s out e h = left_header _ (rw e refl)
  drive_line-IsDry (streaming t) line s out e h = left_header _ (rw e refl)

  drive_next-IsDry :
      (rel : Option ℕ) (s : NtripSession) (out : List Output)
      → find_lf (drop s.hdr_pos s.hdr) ≡ rel
      → unread s < suc fuel
      → IsDry (drive_next again now (line_at s rel) s out)
  unfolding drive_next IsDry next_line
  drive_next-IsDry none s out e h = λ n p. rw e refl
  drive_next-IsDry (some rel) s out e h =
      drive_line-IsDry s.phase _ _ out refl
        (omega (arith, find_lf-lt (drop s.hdr_pos s.hdr) rel e, length-drop s.hdr_pos s.hdr))

drive_loop-IsDry : (fuel now : ℕ) → Dries fuel (drive_loop fuel now)
unfolding drive_loop next_line
drive_loop-IsDry zero now s out h = absurd (omega arith)
drive_loop-IsDry (suc fuel) now s out h =
    drive_next-IsDry fuel (drive_loop fuel now) (drive_loop-IsDry fuel now) now
      (find_lf (drop s.hdr_pos s.hdr)) s out refl h

-- The header loop ends, and takes every complete line: when it returns no leftover and the session
-- still waits for a status line or a header, the header buffer has no complete line left.
pub next_line-drive_header :
    (now : ℕ) (s : NtripSession) (out : List Output)
    → let d = drive_header now s out in
      d.leftover ≡ none → is_header_phase d.session.phase ≡ true → next_line d.session ≡ none
unfolding drive_header IsDry
next_line-drive_header now s out = drive_loop-IsDry (suc (length s.hdr)) now s out (omega arith)
