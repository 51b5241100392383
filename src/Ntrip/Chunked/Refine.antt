-- ===== src/Ntrip/Chunked/Refine.antt =====
-- The loop of `feed` (crates/ntrip-core/src/chunked.rs) does what the byte-wise machine does.
use open_ntripclient.Base.{
  ℕ, zero, suc, ◌-◌, ◌≤◌, min, Bool, true, false, Option, none, some, [], ◌∷◌, ◌++◌, ◌≡◌, ◌≢◌, refl,
  sym, ◌∙◌, ltb, ◌==◌, if◌then◌else◌, length, take, drop, arith, append-nil, append_assoc, not,
  ◌&&◌, Bool-cases, inl, inr, length-drop,
}
use open_ntripclient.Base.Bytes.{Bytes, cr, lf}
use open_ntripclient.Ntrip.Chunked.{
  line_too_long, Result, ok, err, State, size_line, trailers, done, in_data, crlf_after_data,
  Decoder, Fed, max_line, parse_size_line, is_blank_trailer, TakenLine, take_line, end_size,
  on_size_line, on_trailer_line, feed_round, feed_loop, feed,
}
use open_ntripclient.Ntrip.Chunked.Bytewise.{
  Run, failed, run_at, push_line, end_size_line, ◌>>=◌, step, run, observe,
}
use open_ntripclient.Ntrip.Chunked.Lines.{taken_run, take_line-some, run-take_line}

-- What every reachable decoder has: a chunk whose data is awaited is not empty, and the line
-- carried along keeps the bound.
abbrev pub IsPositive : State → Type 0
IsPositive (in_data left) = left ≢ 0
IsPositive _ = Unit

pub record IsValid (d : Decoder) : Type 0 where
  pub positive : IsPositive d.state
  pub bounded : length d.line ≤ max_line

abbrev pub left_state : ℕ → State
left_state left = if left == 0 then crlf_after_data false else in_data left

pub run-in_data :
    (left : ℕ) (line rest out : Bytes)
    → left ≢ 0
    → run (record { state = in_data left; line = line }) rest out ≡ (
        let n = min left (length rest) in
        run
          (record { state = left_state (left - n); line = line })
          (drop n rest)
          (out ++ take n rest))
unfolding run
run-in_data zero line rest out h = absurd (h refl)
run-in_data (suc l) line [] out h =
    let e : min (suc l) 0 ≡ 0 = omega arith in
    let z : suc l - 0 ≡ suc l = omega arith in
    let nz : (suc l == 0) ≡ false = ground arith in rw (e, append-nil, z, nz)
run-in_data (suc zero) line (b ∷ bs) out h =
    let e : min 1 (suc (length bs)) ≡ 1 = omega arith in rw e
run-in_data (suc (suc l)) line (b ∷ bs) out h =
    let e : min (suc (suc l)) (suc (length bs)) ≡ suc (min (suc l) (length bs)) = omega arith in
    let d : suc (suc l) - suc (min (suc l) (length bs)) ≡ suc l - min (suc l) (length bs) =
      omega arith in
    let one : suc (suc l) - 1 ≡ suc l = omega arith in
    let nz : (suc l == 0) ≡ false = ground arith in
    rw (e, d, one, nz)
      (run-in_data (suc l) line bs (out ++ b ∷ []) (λ z. absurd (omega arith)) ∙ rw append_assoc)

-- `again` does what the machine does, on what is left of the input.
abbrev Follows : ℕ → (Decoder → Bytes → Bytes → Fed) → Type 0
Follows fuel again =
    (d : Decoder) (rest out : Bytes)
    → length rest ≤ fuel
    → IsValid d
    → observe (again d rest out) ≡ run d rest out

abbrev pub size_finish : Bytes → Bytes → Run
size_finish line out = end_size_line (parse_size_line line) out

abbrev pub trailer_finish : Bytes → Bytes → Run
trailer_finish line out = run_at (if is_blank_trailer line then done else trailers) [] out

pub if_zero-IsPositive :
    (n : ℕ) (s : State) → IsPositive s → IsPositive (if n == 0 then s else in_data n)
if_zero-IsPositive n s h = elim (Bool-cases (n == 0)) [
  | inl e ↦ rw e h
  | inr e ↦ rw e (λ z. absurd (ground arith))
]

pub blank-IsPositive : (b : Bool) → IsPositive (if b then done else trailers)
blank-IsPositive true = tt
blank-IsPositive false = tt

pub run-done :
    (line rest out : Bytes)
    → run (record { state = done; line = line }) rest out ≡ run_at done line out
unfolding run
run-done line [] out = refl
run-done line (b ∷ bs) out = run-done line bs out

pub size_line-lf :
    (line : Bytes) (b : ℕ) (out : Bytes)
    → (b == lf) ≡ true
    → step size_line line b out
      ≡ (if ltb max_line (length line) then failed out line_too_long else size_finish line out)
unfolding step
size_line-lf line b out h = rw h

pub size_line-ne :
    (line : Bytes) (b : ℕ) (out : Bytes)
    → (b == lf) ≡ false
    → step size_line line b out ≡ push_line size_line line b out
unfolding step
size_line-ne line b out h = rw h

pub trailers-lf :
    (line : Bytes) (b : ℕ) (out : Bytes)
    → (b == lf) ≡ true
    → step trailers line b out
      ≡ (if ltb max_line (length line) then failed out line_too_long else trailer_finish line out)
unfolding step
trailers-lf line b out h = rw h

pub trailers-ne :
    (line : Bytes) (b : ℕ) (out : Bytes)
    → (b == lf) ≡ false
    → step trailers line b out ≡ push_line trailers line b out
unfolding step
trailers-ne line b out h = rw h

module _ {fuel : ℕ} (again : Decoder → Bytes → Bytes → Fed) (ih : Follows fuel again) where
  on_size :
      (r : Result ℕ) (t : TakenLine) (out : Bytes)
      → t.line ≡ []
      → length t.rest ≤ fuel
      → observe (end_size again r t out) ≡ (end_size_line r out >>= λ d o. run d t.rest o)
  unfolding end_size
  on_size (err e) t out h k = refl
  on_size (ok n) t out h k = rw h (
      ih _ t.rest out k
        (record { positive = if_zero-IsPositive n trailers tt; bounded = omega arith }))

  on_size_line-run :
      (t : TakenLine) (taken : Result (Option Bytes)) (out : Bytes)
      → ((l : Bytes) → taken ≡ ok (some l) → (t.line ≡ []) × (length t.rest ≤ fuel))
      → observe (on_size_line again t taken out) ≡ taken_run size_line size_finish t taken out
  unfolding on_size_line
  on_size_line-run t (err e) out h = refl
  on_size_line-run t (ok none) out h = refl
  on_size_line-run t (ok (some l)) out h =
      on_size (parse_size_line l) t out (h l refl).0 (h l refl).1

  on_trailer_line-run :
      (t : TakenLine) (taken : Result (Option Bytes)) (out : Bytes)
      → ((l : Bytes) → taken ≡ ok (some l) → (t.line ≡ []) × (length t.rest ≤ fuel))
      → observe (on_trailer_line again t taken out) ≡ taken_run trailers trailer_finish t taken out
  unfolding on_trailer_line
  on_trailer_line-run t (err e) out h = refl
  on_trailer_line-run t (ok none) out h = refl
  on_trailer_line-run t (ok (some l)) out h = rw (h l refl).0 (
      ih _ t.rest out (h l refl).1
        (record { positive = blank-IsPositive (is_blank_trailer l); bounded = omega arith }))

  round_lines :
      (line bs l : Bytes) (b : ℕ)
      → length bs ≤ fuel
      → (take_line line (b ∷ bs)).taken ≡ ok (some l)
      → ((take_line line (b ∷ bs)).line ≡ []) × (length (take_line line (b ∷ bs)).rest ≤ fuel)
  round_lines line bs l b h e =
      let (empty, fewer) = take_line-some line bs l b e in (empty, omega arith)

  feed_round-run :
      (state : State) (line : Bytes) (b : ℕ) (bs out : Bytes)
      → length bs ≤ fuel
      → IsPositive state
      → length line ≤ max_line
      → observe (feed_round again state line b bs out)
        ≡ run (record { state = state; line = line }) (b ∷ bs) out
  unfolding feed_round
  feed_round-run size_line line b bs out h p k =
      let t = take_line line (b ∷ bs) in
      on_size_line-run t t.taken out (λ l. round_lines line bs l b h)
      ∙ sym (run-take_line size_line size_finish size_line-lf size_line-ne line (b ∷ bs) out k)
  feed_round-run trailers line b bs out h p k =
      let t = take_line line (b ∷ bs) in
      on_trailer_line-run t t.taken out (λ l. round_lines line bs l b h)
      ∙ sym (run-take_line trailers trailer_finish trailers-lf trailers-ne line (b ∷ bs) out k)
  feed_round-run done line b bs out h p k = sym (run-done line (b ∷ bs) out)
  feed_round-run (in_data left) line b bs out h p k =
      let n = min left (length (b ∷ bs)) in
      let positive : left ≢ 0 = p in
      ih _ _ _ (rw length-drop (omega arith)) (record {
        positive = if_zero-IsPositive (left - n) (crlf_after_data false) tt;
        bounded = k;
      })
      ∙ sym (run-in_data left line (b ∷ bs) out p)
  feed_round-run (crlf_after_data seen) line b bs out h p k =
      elim (Bool-cases (not seen && b == cr)) [
        | inl e ↦ rw e (unfold run in rw e (ih _ bs out h (record { positive = tt; bounded = k })))
        | inr e ↦ rw e (elim (Bool-cases (b == lf)) [
          | inl f ↦
              rw f (unfold run in rw (e, f) (ih _ bs out h (record { positive = tt; bounded = k })))
          | inr f ↦ rw f (unfold run in rw (e, f))
        ])
      ]

feed_loop-run : (fuel : ℕ) → Follows fuel (feed_loop fuel)
unfolding feed_loop run
feed_loop-run fuel d [] out h v = refl
feed_loop-run zero d (b ∷ bs) out h v = absurd (omega arith)
feed_loop-run (suc fuel) d (b ∷ bs) out h v =
    feed_round-run (feed_loop fuel) (feed_loop-run fuel) d.state d.line b bs out (omega arith)
      v.positive v.bounded

-- From every valid decoder, `feed` ends, with the outcome of the byte-wise machine.
pub feed-run :
    (d : Decoder) (input out : Bytes) → IsValid d → observe (feed d input out) ≡ run d input out
unfolding feed
feed-run d input out v = feed_loop-run (length input) d input out (omega arith) v
