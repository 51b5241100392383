-- ===== src/Ntrip/Chunked/Bytewise.antt =====
-- An independent description of the decoder of crates/ntrip-core/src/chunked.rs: a machine that
-- takes one byte at a time, with no slices, no lookahead and no loop over the input.
use open_ntripclient.Base.{
  ℕ, ◌-◌, true, false, Option, none, some, [], ◌∷◌, ◌++◌, ◌≡◌, refl, sym, ◌∙◌, ltb, ◌==◌,
  if◌then◌else◌, length, not, ◌&&◌,
}
use open_ntripclient.Base.Bytes.{Bytes, cr, lf}
use open_ntripclient.Ntrip.Chunked.{
  ChunkError, line_too_long, expected_crlf, Result, ok, err, State, size_line, trailers, done,
  in_data, crlf_after_data, Decoder, Fed, max_line, parse_size_line, is_blank_trailer, after_size,
}

-- `running` is a decoder that takes more; `failed` has the payload before the error. A failed
-- decoder must not be fed again, so its state is not part of the outcome.
pub data Run : Type 0 where
  running : Decoder → Bytes → Run
  failed : Bytes → ChunkError → Run

infixl 5 ◌>>=◌
abbrev pub ◌>>=◌ : Run → (Decoder → Bytes → Run) → Run
running d out >>= k = k d out
failed out e >>= k = failed out e

abbrev pub run_at : State → Bytes → Bytes → Run
run_at state line out = running (record { state = state; line = line }) out

-- A byte that is not LF joins the line.
abbrev pub push_line : State → Bytes → ℕ → Bytes → Run
push_line state line b out =
    if ltb max_line (length (line ++ b ∷ []))
    then failed out line_too_long
    else run_at state (line ++ b ∷ []) out

abbrev pub end_size_line : Result ℕ → Bytes → Run
end_size_line (ok size) out = run_at (after_size size) [] out
end_size_line (err e) out = failed out e

unfoldable pub step : State → Bytes → ℕ → Bytes → Run
step size_line line b out =
    if b == lf
    then (if ltb max_line (length line)
        then failed out line_too_long
        else end_size_line (parse_size_line line) out)
    else push_line size_line line b out
step (in_data left) line b out =
    run_at (if left - 1 == 0 then crlf_after_data false else in_data (left - 1)) line
      (out ++ b ∷ [])
step (crlf_after_data seen) line b out =
    if not seen && b == cr
    then run_at (crlf_after_data true) line out
    else if b == lf
    then run_at size_line line out
    else failed out (expected_crlf b)
step trailers line b out =
    if b == lf
    then (if ltb max_line (length line)
        then failed out line_too_long
        else run_at (if is_blank_trailer line then done else trailers) [] out)
    else push_line trailers line b out
step done line b out = run_at done line out

unfoldable pub run : Decoder → Bytes → Bytes → Run
unfolding step
run d [] out = running d out
run d (b ∷ bs) out = step d.state d.line b out >>= λ d' out'. run d' bs out'

bind_step :
    {f g : Decoder → Bytes → Run} (r : Run)
    → ((d : Decoder) (out : Bytes) → f d out ≡ g d out)
    → (r >>= f) ≡ (r >>= g)
bind_step (running d out) h = h d out
bind_step (failed out e) h = refl

bind-bind :
    (r : Run) (f g : Decoder → Bytes → Run) → ((r >>= f) >>= g) ≡ (r >>= λ d out. f d out >>= g)
bind-bind (running d out) f g = refl
bind-bind (failed out e) f g = refl

pub run-append :
    (d : Decoder) (xs ys out : Bytes)
    → run d (xs ++ ys) out ≡ (run d xs out >>= λ d' out'. run d' ys out')
unfolding run
run-append d [] ys out = refl
run-append d (b ∷ bs) ys out =
    bind_step (step d.state d.line b out) (λ d' out'. run-append d' bs ys out')
    ∙ sym (bind-bind (step d.state d.line b out) _ _)

-- What a caller of `feed` can go on with.
abbrev pub observed : Decoder → Bytes → Option ChunkError → Run
observed d out none = running d out
observed d out (some e) = failed out e

abbrev pub observe : Fed → Run
observe f = observed f.decoder f.out f.error
