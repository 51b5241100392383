-- ===== src/Ntrip/Chunked/Split.antt =====
-- What a caller of the decoder of crates/ntrip-core/src/chunked.rs relies on: packets may be cut
-- anywhere, and the memory that is held stays bounded.
use open_ntripclient.Base.{
  ℕ, ◌-◌, ◌≤◌, Bool, true, false, Option, none, some, List, [], ◌∷◌, ◌++◌, ◌≡◌, refl, sym, ◌∙◌, ltb,
  ◌==◌, if◌then◌else◌, length, arith, not, ◌&&◌,
}
use mathlib.Core.List.{flatten}
use open_ntripclient.Base.Bytes.{Bytes, cr, lf}
use open_ntripclient.Ntrip.Chunked.{
  ChunkError, Result, ok, err, State, size_line, trailers, done, in_data, crlf_after_data, Decoder,
  max_line, parse_size_line, is_blank_trailer, feed,
}
use open_ntripclient.Ntrip.Chunked.Bytewise.{
  Run, running, failed, ◌>>=◌, step, run, observed, observe, run-append, end_size_line, push_line,
}
use open_ntripclient.Ntrip.Chunked.Refine.{
  IsPositive, IsValid, feed-run, if_zero-IsPositive, blank-IsPositive,
}

-- Unless the run failed, its decoder is valid.
abbrev pub EndsValid : Run → Type 0
EndsValid (running d out) = IsValid d
EndsValid (failed out e) = Unit

end_size_line-IsValid : (r : Result ℕ) (out : Bytes) → EndsValid (end_size_line r out)
end_size_line-IsValid (ok n) out = record {
  positive = if_zero-IsPositive n trailers tt;
  bounded = omega arith;
}
end_size_line-IsValid (err e) out = tt

if-EndsValid :
    (c : Bool) (r q : Run)
    → (c ≡ true → EndsValid r)
    → (c ≡ false → EndsValid q)
    → EndsValid (if c then r else q)
if-EndsValid true r q f g = f refl
if-EndsValid false r q f g = g refl

bind-EndsValid :
    (r : Run) (k : Decoder → Bytes → Run)
    → EndsValid r
    → ((d : Decoder) (out : Bytes) → IsValid d → EndsValid (k d out))
    → EndsValid (r >>= k)
bind-EndsValid (running d out) k h f = f d out h
bind-EndsValid (failed out e) k h f = tt

push_line-IsValid :
    (k : State) (line : Bytes) (b : ℕ) (out : Bytes)
    → IsPositive k
    → EndsValid (push_line k line b out)
push_line-IsValid k line b out p =
    if-EndsValid (ltb max_line (length (line ++ b ∷ []))) _ _ (λ e. tt)
      (λ e. record { positive = p; bounded = ground arith })

step-IsValid :
    (state : State) (line : Bytes) (b : ℕ) (out : Bytes)
    → IsPositive state
    → length line ≤ max_line
    → EndsValid (step state line b out)
unfolding step
step-IsValid size_line line b out p k =
    if-EndsValid (b == lf) _ _
      (λ e.
        if-EndsValid (ltb max_line (length line)) _ _ (λ f. tt)
          (λ f. end_size_line-IsValid (parse_size_line line) out))
      (λ e. push_line-IsValid size_line line b out tt)
step-IsValid trailers line b out p k =
    if-EndsValid (b == lf) _ _
      (λ e.
        if-EndsValid (ltb max_line (length line)) _ _ (λ f. tt)
          (λ f. record {
            positive = blank-IsPositive (is_blank_trailer line);
            bounded = omega arith;
          }))
      (λ e. push_line-IsValid trailers line b out tt)
step-IsValid done line b out p k = record { positive = tt; bounded = k }
step-IsValid (in_data left) line b out p k = record {
  positive = if_zero-IsPositive (left - 1) (crlf_after_data false) tt;
  bounded = k;
}
step-IsValid (crlf_after_data seen) line b out p k =
    if-EndsValid (not seen && b == cr) _ _ (λ e. record { positive = tt; bounded = k })
      (λ e. if-EndsValid (b == lf) _ _ (λ f. record { positive = tt; bounded = k }) (λ f. tt))

run-IsValid : (d : Decoder) (input out : Bytes) → IsValid d → EndsValid (run d input out)
unfolding run
run-IsValid d [] out v = v
run-IsValid d (b ∷ bs) out v =
    bind-EndsValid (step d.state d.line b out) _
      (step-IsValid d.state d.line b out v.positive v.bounded)
      (λ d' out' v'. run-IsValid d' bs out' v')

bind_congr :
    {f g : Decoder → Bytes → Run} (r : Run)
    → EndsValid r
    → ((d : Decoder) (out : Bytes) → IsValid d → f d out ≡ g d out)
    → (r >>= f) ≡ (r >>= g)
bind_congr (running d out) h e = e d out h
bind_congr (failed out x) h e = refl

-- Decoding two packets one after the other, the second only if the first did not fail, has the
-- outcome of decoding them as one, from any valid decoder: the same payload, error and decoder.
pub feed-append :
    (d : Decoder) (xs ys out : Bytes)
    → IsValid d
    → observe (feed d (xs ++ ys) out)
      ≡ (observe (feed d xs out) >>= λ d' out'. observe (feed d' ys out'))
feed-append d xs ys out v =
    feed-run d (xs ++ ys) out v
    ∙ run-append d xs ys out
    ∙ rw (feed-run d xs out v) (
        bind_congr (run d xs out) (run-IsValid d xs out v)
          (λ d' out' v'. sym (feed-run d' ys out' v')))

pub observed-none :
    (d : Decoder) (out : Bytes) (e : Option ChunkError)
    → e ≡ none
    → EndsValid (observed d out e)
    → IsValid d
observed-none d out none h p = p
observed-none d out (some e) h p = absurd (cc)

-- A feed that does not fail leaves a valid decoder: the partial line that it holds is at most 4096
-- bytes, and a chunk that it is inside of has bytes left.
pub feed-IsValid :
    (d : Decoder) (input out : Bytes)
    → IsValid d
    → (feed d input out).error ≡ none
    → IsValid (feed d input out).decoder
feed-IsValid d input out v e =
    observed-none (feed d input out).decoder (feed d input out).out (feed d input out).error e
      (rw (feed-run d input out v) (run-IsValid d input out v))

-- The packets of a connection, fed in turn until one fails.
pub feed_all : Decoder → List Bytes → Bytes → Run
feed_all d [] out = running d out
feed_all d (p ∷ ps) out = observe (feed d p out) >>= λ d' out'. feed_all d' ps out'

feed_all-flatten :
    (d : Decoder) (ps : List Bytes) (out : Bytes)
    → IsValid d
    → feed_all d ps out ≡ run d (flatten ps) out
unfolding feed_all flatten
feed_all-flatten d [] out v = unfold run in refl
feed_all-flatten d (p ∷ ps) out v =
    rw (feed-run d p out v) (
      bind_congr (run d p out) (run-IsValid d p out v)
        (λ d' out' v'. feed_all-flatten d' ps out' v'))
    ∙ sym (run-append d p (flatten ps) out)

-- Any two ways to cut the same bytes into packets give the same payload, error and decoder.
pub feed_all_split :
    (d : Decoder) (ps qs : List Bytes) (out : Bytes)
    → IsValid d
    → flatten ps ≡ flatten qs
    → feed_all d ps out ≡ feed_all d qs out
feed_all_split d ps qs out v e =
    feed_all-flatten d ps out v ∙ rw e (sym (feed_all-flatten d qs out v))
