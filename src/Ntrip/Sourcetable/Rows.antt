-- ===== src/Ntrip/Sourcetable/Rows.antt =====
-- crates/ntrip-core/src/sourcetable.rs: no row is lost.
use open_ntripclient.Base.{
  Bool, List, [], ◌∷◌, ◌++◌, map, ◌≡◌, refl, ap, sym, ◌∙◌, if◌then◌else◌, append_assoc, append-nil,
}
use open_ntripclient.Base.Bytes.{Bytes, ascii, strip_cr, lf}
use open_ntripclient.Base.Text.{split}
use open_ntripclient.Base.Utf8.{from_utf8_lossy}
use open_ntripclient.Ntrip.Sourcetable.Kinds.{
  same_kind, names, is_verbatim, kind_of-str, kind_of-cas, kind_of-net, kind_of-other,
}
use open_ntripclient.Ntrip.Sourcetable.{
  semicolon, SourceTable, empty_table, parse_str, parse_cas, parse_net, Kind, skipped, str, cas,
  net, other, kind_of, push_row, parse_line, parse_lines, parse,
}

-- The lines of a kind, without their CR.
abbrev pub rows : Kind → List Bytes → List Bytes
rows k [] = []
rows k (line ∷ lines) =
    let rest = rows k lines in
    if same_kind k (kind_of (strip_cr line)) then strip_cr line ∷ rest else rest

-- The lines that pass a test, without their CR.
abbrev pub selected : (Bytes → Bool) → List Bytes → List Bytes
selected test [] = []
selected test (line ∷ lines) =
    let rest = selected test lines in if test (strip_cr line) then strip_cr line ∷ rest else rest

selected-rows :
    (test : Bytes → Bool) (k : Kind)
    → ((line : Bytes) → same_kind k (kind_of line) ≡ test line)
    → (lines : List Bytes) → rows k lines ≡ selected test lines
selected-rows test k h [] = refl
selected-rows test k h (line ∷ lines) = rw (h (strip_cr line), selected-rows test k h lines) refl

abbrev pub fields : Bytes → List Bytes
fields line = split semicolon line

-- What a table has beyond another when the lines were parsed into it.
pub record IsFolded (lines : List Bytes) (before after : SourceTable) : Type 0 where
  pub streams : after.strs ≡ before.strs ++ map (λ l. parse_str (fields l)) (rows str lines)
  pub casters : after.casters ≡ before.casters ++ map (λ l. parse_cas (fields l)) (rows cas lines)
  pub networks :
      after.networks ≡ before.networks ++ map (λ l. parse_net (fields l)) (rows net lines)
  pub verbatim : after.unparsed ≡ before.unparsed ++ rows other lines

push_row-IsFolded :
    (k : Kind) (line : Bytes) (lines : List Bytes) (t after : SourceTable)
    → kind_of (strip_cr line) ≡ k
    → IsFolded lines (push_row k (strip_cr line) t) after
    → IsFolded (line ∷ lines) t after
unfolding push_row
push_row-IsFolded skipped line lines t after e h = record {
  streams = rw e (h.streams);
  casters = rw e (h.casters);
  networks = rw e (h.networks);
  verbatim = rw e (h.verbatim);
}
push_row-IsFolded str line lines t after e h = record {
  streams = rw e (h.streams ∙ append_assoc t.strs (_ ∷ []) _);
  casters = rw e (h.casters);
  networks = rw e (h.networks);
  verbatim = rw e (h.verbatim);
}
push_row-IsFolded cas line lines t after e h = record {
  streams = rw e (h.streams);
  casters = rw e (h.casters ∙ append_assoc t.casters (_ ∷ []) _);
  networks = rw e (h.networks);
  verbatim = rw e (h.verbatim);
}
push_row-IsFolded net line lines t after e h = record {
  streams = rw e (h.streams);
  casters = rw e (h.casters);
  networks = rw e (h.networks ∙ append_assoc t.networks (_ ∷ []) _);
  verbatim = rw e (h.verbatim);
}
push_row-IsFolded other line lines t after e h = record {
  streams = rw e (h.streams);
  casters = rw e (h.casters);
  networks = rw e (h.networks);
  verbatim = rw e (h.verbatim ∙ append_assoc t.unparsed (_ ∷ []) _);
}

parse_lines-IsFolded :
    (lines : List Bytes) (t : SourceTable) → IsFolded lines t (parse_lines lines t)
unfolding parse_lines parse_line
parse_lines-IsFolded [] t = record {
  streams = sym (append-nil t.strs);
  casters = sym (append-nil t.casters);
  networks = sym (append-nil t.networks);
  verbatim = sym (append-nil t.unparsed);
}
parse_lines-IsFolded (line ∷ lines) t =
    push_row-IsFolded (kind_of (strip_cr line)) line lines t _ refl
      (parse_lines-IsFolded lines (parse_line line t))

-- The table of the lines: a record of each row that bears its name, and the other lines verbatim.
pub record IsParsed (lines : List Bytes) (t : SourceTable) : Type 0 where
  pub streams : t.strs ≡ map (λ l. parse_str (fields l)) (selected (names (ascii "STR")) lines)
  pub casters : t.casters ≡ map (λ l. parse_cas (fields l)) (selected (names (ascii "CAS")) lines)
  pub networks : t.networks ≡ map (λ l. parse_net (fields l)) (selected (names (ascii "NET")) lines)
  pub verbatim : t.unparsed ≡ selected is_verbatim lines

-- The table parsed from any bytes has, in the lines' order, a record of the fields of each line that
-- is STR, CAS or NET or begins with that and a semicolon, and verbatim each other line but the blank
-- ones and the end line.
pub parse-IsParsed : (raw : Bytes) → IsParsed (split lf (from_utf8_lossy raw)) (parse raw)
unfolding parse
parse-IsParsed raw =
    let lines = split lf (from_utf8_lossy raw) in
    let h = parse_lines-IsFolded lines empty_table in
    record {
      streams = h.streams ∙ ap (map _) (selected-rows _ str kind_of-str lines);
      casters = h.casters ∙ ap (map _) (selected-rows _ cas kind_of-cas lines);
      networks = h.networks ∙ ap (map _) (selected-rows _ net kind_of-net lines);
      verbatim = h.verbatim ∙ selected-rows _ other kind_of-other lines;
    }
