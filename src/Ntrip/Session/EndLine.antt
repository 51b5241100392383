-- ===== src/Ntrip/Session/EndLine.antt =====
-- crates/ntrip-core/src/session.rs: the search for the line that ends a sourcetable.
use open_ntripclient.Base.{
  ℕ, zero, suc, ◌+◌, ◌-◌, ◌<◌, Bool, true, false, Option, none, some, ◌≡◌, refl, sym, ◌∙◌, arith,
  length, drop, take, length-drop,
}
use open_ntripclient.Base.Bytes.{
  Bytes, ascii, equal, eq_ignore_ascii_case, strip_cr, to_ascii_lowercase, trim_ascii,
}
use open_ntripclient.Ntrip.Chunked.{find_lf}
use open_ntripclient.Ntrip.Session.Body.{
  Scanned, is_end_line, scan_line, scan_at, scan_loop, scan_end_line,
}
use open_ntripclient.Ntrip.Session.HeaderLoop.{find_lf-lt}

-- The line names the end of the table, in any letter case, between white space.
unfoldable pub ends_table : Bytes → Bool
unfolding equal trim_ascii strip_cr
ends_table line = equal (to_ascii_lowercase (trim_ascii (strip_cr line))) (ascii "endsourcetable")

ends_table-is_end_line : (line : Bytes) → is_end_line line ≡ ends_table line
unfolding ends_table eq_ignore_ascii_case
ends_table-is_end_line line = refl

-- Between the two cursors stand complete lines, none of which ends the table.
pub data Passes (body : Bytes) : ℕ → ℕ → Type 0 where
  here : {scan : ℕ} → Passes body scan scan
  over :
      {scan rel last : ℕ}
      → find_lf (drop scan body) ≡ some rel
      → ends_table (take rel (drop scan body)) ≡ false
      → Passes body (suc (scan + rel)) last
      → Passes body scan last

-- `n` is just behind a complete line that ends the table, which begins at the cursor `scan`.
pub record IsEnd (body : Bytes) (scan n : ℕ) : Type 0 where
  pub line_length : ℕ
  pub complete : find_lf (drop scan body) ≡ some line_length
  pub behind : n ≡ suc (scan + line_length)
  pub ends : ends_table (take line_length (drop scan body)) ≡ true

-- Nothing complete is left unread, or the end line is at the cursor.
abbrev pub Rests : Bytes → Option ℕ → ℕ → Type 0
Rests body none scan = find_lf (drop scan body) ≡ none
Rests body (some n) scan = IsEnd body scan n

-- The outcome of a search from the cursor `start`.
abbrev pub Searched : Bytes → ℕ → Scanned → Type 0
Searched body start r = Passes body start r.scan × Rests body r.found r.scan

abbrev Searches : Bytes → ℕ → (ℕ → Scanned) → Type 0
Searches body fuel again = (scan : ℕ) → length body - scan < fuel → Searched body scan (again scan)

scan_line-Searched :
    (body : Bytes) (fuel : ℕ) (again : ℕ → Scanned)
    → Searches body fuel again
    → (b : Bool) (scan rel : ℕ) → find_lf (drop scan body) ≡ some rel
    → is_end_line (take rel (drop scan body)) ≡ b
    → length body - scan < suc fuel
    → Searched body scan (scan_line b again scan rel)
unfolding scan_line
scan_line-Searched body fuel again ih true scan rel e t h = (
  here,
  record {
    line_length = rel;
    complete = e;
    behind = refl;
    ends = sym (ends_table-is_end_line (take rel (drop scan body))) ∙ t;
  },
)
scan_line-Searched body fuel again ih false scan rel e t h =
    let (passed, rests) =
      ih (suc (scan + rel))
        (omega (arith, find_lf-lt (drop scan body) rel e, length-drop scan body)) in
    (over e (sym (ends_table-is_end_line (take rel (drop scan body))) ∙ t) passed, rests)

scan_at-Searched :
    (body : Bytes) (fuel : ℕ) (again : ℕ → Scanned)
    → Searches body fuel again
    → (rel : Option ℕ) (scan : ℕ) → find_lf (drop scan body) ≡ rel
    → length body - scan < suc fuel
    → Searched body scan (scan_at again body scan rel)
unfolding scan_at
scan_at-Searched body fuel again ih none scan e h = (here, e)
scan_at-Searched body fuel again ih (some rel) scan e h =
    scan_line-Searched body fuel again ih (is_end_line (take rel (drop scan body))) scan rel e refl
      h

scan_loop-Searched : (body : Bytes) (fuel : ℕ) → Searches body fuel (scan_loop fuel body)
unfolding scan_loop
scan_loop-Searched body zero scan h = absurd (omega arith)
scan_loop-Searched body (suc fuel) scan h =
    scan_at-Searched body fuel (scan_loop fuel body) (scan_loop-Searched body fuel)
      (find_lf (drop scan body)) scan refl h

-- From any cursor the search ends. It passes over complete lines only, none of which ends the table.
-- If it finds nothing, no complete line is left behind the new cursor; if it gives a position, this
-- is just behind a complete line at the cursor that ends the table.
pub scan_end_line-Searched :
    (body : Bytes) (scan : ℕ) → Searched body scan (scan_end_line body scan)
unfolding scan_end_line
scan_end_line-Searched body scan = scan_loop-Searched body (suc (length body)) scan (omega arith)
