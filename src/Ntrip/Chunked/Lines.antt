-- ===== src/Ntrip/Chunked/Lines.antt =====
-- `take_line` of crates/ntrip-core/src/chunked.rs against the byte-wise machine.
use open_ntripclient.Base.{
  ℕ, suc, ◌≤◌, ◌<◌, true, false, Option, none, some, [], ◌∷◌, ◌++◌, ◌≡◌, ltb, ◌==◌, if◌then◌else◌,
  length, take, arith, append-nil, append_assoc, Bool-cases, ltb→lt, inl, inr, length-append,
  length-drop,
}
use mathlib.Core.Option
use open_ntripclient.Base.Bytes.{Bytes, lf}
use open_ntripclient.Ntrip.Chunked.{
  line_too_long, Result, ok, err, State, max_line, TakenLine, find_lf, cut_line, take_line,
}
use open_ntripclient.Ntrip.Chunked.Bytewise.{Run, failed, run_at, push_line, ◌>>=◌, step, run}

abbrev ended : Bytes → Bytes → TakenLine
ended line rest =
    if ltb max_line (length line)
    then record { line = line; rest = rest; taken = err line_too_long }
    else record { line = []; rest = rest; taken = ok (some line) }

take_line-lf :
    (line bs : Bytes) (b : ℕ) → (b == lf) ≡ true → take_line line (b ∷ bs) ≡ ended line bs
unfolding take_line
take_line-lf line bs b h = rw (h, take_line, find_lf) (rw append-nil)

cut_line-suc :
    (line bs : Bytes) (b : ℕ) (o : Option ℕ)
    → cut_line line (b ∷ bs) (Option.map suc o) ≡ cut_line (line ++ b ∷ []) bs o
unfolding cut_line
cut_line-suc line bs b none = rw append_assoc
cut_line-suc line bs b (some n) = rw append_assoc

take_line-ne :
    (line bs : Bytes) (b : ℕ)
    → (b == lf) ≡ false
    → take_line line (b ∷ bs) ≡ take_line (line ++ b ∷ []) bs
unfolding take_line
take_line-ne line bs b h = rw (h, take_line, find_lf) (cut_line-suc line bs b (find_lf bs))

cut_line_long :
    (line bs : Bytes) (o : Option ℕ)
    → max_line < length line
    → (cut_line line bs o).taken ≡ err line_too_long
unfolding cut_line
cut_line_long line bs none h = ground (arith, length-append line bs)
cut_line_long line bs (some n) h = ground (arith, length-append line (take n bs))

-- A line that is too long when the search for LF begins stays too long.
take_line_long :
    (line bs : Bytes) → max_line < length line → (take_line line bs).taken ≡ err line_too_long
take_line_long line bs h = unfold take_line in cut_line_long line bs (find_lf bs) h

-- What the machine does with the outcome of `take_line`, in a state that reads lines.
abbrev pub taken_run :
    State → (Bytes → Bytes → Run) → TakenLine → Result (Option Bytes) → Bytes → Run
taken_run k finish t (err e) out = failed out e
taken_run k finish t (ok none) out = run_at k t.line out
taken_run k finish t (ok (some l)) out = finish l out >>= λ d o. run d t.rest o

module _ (k : State) (finish : Bytes → Bytes → Run)
    (at_lf : (line : Bytes) (b : ℕ) (out : Bytes)
      → (b == lf) ≡ true
      → step k line b out
        ≡ (if ltb max_line (length line) then failed out line_too_long else finish line out))
    (at_other : (line : Bytes) (b : ℕ) (out : Bytes)
      → (b == lf) ≡ false
      → step k line b out ≡ push_line k line b out) where
  pub run-take_line :
      (line rest out : Bytes)
      → length line ≤ max_line
      → run (record { state = k; line = line }) rest out
        ≡ taken_run k finish (take_line line rest) (take_line line rest).taken out
  unfolding run
  run-take_line line [] out h =
      let e : ltb max_line (length line) ≡ false = ground arith in
      unfold take_line in rw append-nil (rw e)
  run-take_line line (b ∷ bs) out h = elim (Bool-cases (b == lf)) [
    | inl q ↦ rw (take_line-lf line bs b q) (
        rw (at_lf line b out q) (let e : ltb max_line (length line) ≡ false = ground arith in rw e))
    | inr q ↦ rw (take_line-ne line bs b q) (
        rw (at_other line b out q) (elim (Bool-cases (ltb max_line (length (line ++ b ∷ [])))) [
          | inl long ↦ rw (long, take_line_long (line ++ b ∷ []) bs (ltb→lt _ _ long))
          | inr short ↦ rw short (run-take_line (line ++ b ∷ []) bs out (ground arith))
        ]))
  ]

cut_line-some :
    (line bs l : Bytes) (b : ℕ) (o : Option ℕ)
    → (cut_line line (b ∷ bs) o).taken ≡ ok (some l)
    → ((cut_line line (b ∷ bs) o).line ≡ []) × (length (cut_line line (b ∷ bs) o).rest ≤ length bs)
unfolding cut_line
cut_line-some line bs l b none h = ground arith
cut_line-some line bs l b (some n) h = ground (arith, length-drop n bs)

-- A completed line leaves no partial line, and takes at least one byte.
pub take_line-some :
    (line bs l : Bytes) (b : ℕ)
    → (take_line line (b ∷ bs)).taken ≡ ok (some l)
    → ((take_line line (b ∷ bs)).line ≡ []) × (length (take_line line (b ∷ bs)).rest ≤ length bs)
unfolding take_line
take_line-some line bs l b = cut_line-some line bs l b (find_lf (b ∷ bs))
