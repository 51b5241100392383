-- ===== src/Ntrip/Chunked/Framing.antt =====
-- The grammar of a chunked body (RFC 9112), bare LF line ends included, and the decoder of
-- crates/ntrip-core/src/chunked.rs on it.
use open_ntripclient.Base.{
  ℕ, suc, ◌-◌, ◌≤◌, min, Bool, true, false, none, some, List, [], ◌∷◌, ◌++◌, ◌≡◌, ◌≢◌, refl, ap,
  ◌∙◌, ltb, ◌==◌, if◌then◌else◌, length, arith, append-nil, append_assoc, ◌&&◌, drop, last, ==_iff,
  Bool-cases, inl, inr, length-append, take_of_append, drop_of_append,
}
use open_ntripclient.Base.Bytes.{Bytes, cr, lf}
use open_ntripclient.Ntrip.Chunked.{
  ok, size_line, trailers, done, find_lf, take_line, crlf_after_data, Decoder, max_line,
  parse_size_line, is_blank_trailer, after_size, feed, fresh,
}
use open_ntripclient.Ntrip.Chunked.Bytewise.{run_at, step, run, observe}
use open_ntripclient.Ntrip.Chunked.SizeLine.{IsSizeLine, parse_size_line-IsSizeLine}
use open_ntripclient.Ntrip.Chunked.Lines.{run-take_line}
use open_ntripclient.Ntrip.Chunked.Refine.{
  feed-run, run-done, size_line-lf, size_line-ne, trailers-lf, trailers-ne, size_finish,
  trailer_finish, run-in_data,
}

pub record IsLine (l : Bytes) : Type 0 where
  pub one_line : find_lf l ≡ none
  pub bounded : length l ≤ max_line

pub data IsEol : Bytes → Type 0 where
  with_cr : IsEol (cr ∷ lf ∷ [])
  bare : IsEol (lf ∷ [])

-- Trailer fields up to a blank line.
pub data IsTrailerPart : Bytes → Type 0 where
  blank : {eol : Bytes} → IsEol eol → IsTrailerPart eol
  field :
      {l rest : Bytes}
      → IsLine l
      → l ≢ []
      → l ≢ cr ∷ []
      → IsTrailerPart rest
      → IsTrailerPart (l ++ (lf ∷ rest))

-- `IsBody body payload`: chunks that hold the payload, each behind its size in hexadecimal, a chunk
-- of size 0, and a trailer part.
pub data IsBody : Bytes → Bytes → Type 0 where
  last_chunk :
      {l trailer : Bytes}
      → IsLine l
      → IsSizeLine l 0
      → IsTrailerPart trailer
      → IsBody (l ++ (lf ∷ trailer)) []
  chunk :
      {l chunk_data eol rest payload : Bytes}
      → IsLine l
      → IsSizeLine l (length chunk_data)
      → chunk_data ≢ []
      → IsEol eol
      → IsBody rest payload
      → IsBody (l ++ (lf ∷ (chunk_data ++ (eol ++ rest)))) (chunk_data ++ payload)

find_lf-append : (l rest : Bytes) → find_lf l ≡ none → find_lf (l ++ (lf ∷ rest)) ≡ some (length l)
unfolding find_lf
find_lf-append [] rest h = refl
find_lf-append (c ∷ l) rest h = ground (arith, find_lf-append l rest)

drop-suc-append :
    {A : Type 0} (x : A) (xs ys : List A) → drop (suc (length xs)) (xs ++ (x ∷ ys)) ≡ ys
drop-suc-append x [] ys = refl
drop-suc-append x (y ∷ xs) ys = drop-suc-append x xs ys

take_line-append :
    {l : Bytes} (rest : Bytes)
    → IsLine l
    → take_line [] (l ++ (lf ∷ rest)) ≡ record { line = []; rest = rest; taken = ok (some l) }
unfolding take_line
take_line-append {l} rest h =
    let e : ltb max_line (length l) ≡ false = ground (arith, h.bounded) in
    rw (find_lf-append l rest h.one_line, take_line)
      (rw (take_of_append l (lf ∷ rest), drop-suc-append lf l rest, e))

run-size :
    {l : Bytes} (rest out : Bytes) {n : ℕ}
    → IsLine l
    → parse_size_line l ≡ ok n
    → run fresh (l ++ (lf ∷ rest)) out ≡ run (record { state = after_size n; line = [] }) rest out
run-size {l} rest out h e =
    run-take_line size_line size_finish size_line-lf size_line-ne [] (l ++ (lf ∷ rest)) out
      (omega arith)
    ∙ rw (take_line-append rest h) (rw e)

last-cons : (c : ℕ) (l : Bytes) → (d : ℕ) × (last (c ∷ l) ≡ some d)
last-cons c [] = (c, refl)
last-cons c (d ∷ l) = last-cons d l

and_false : (b : Bool) → (b && false) ≡ false
and_false true = refl
and_false false = refl

is_blank_trailer-field : (l : Bytes) → l ≢ [] → l ≢ cr ∷ [] → is_blank_trailer l ≡ false
is_blank_trailer-field [] h k = absurd (h refl)
is_blank_trailer-field (c ∷ []) h k = elim (Bool-cases (c == cr)) [
  | inl e ↦ absurd (k (ap (λ x. x ∷ []) ((==_iff c cr).0 e)))
  | inr e ↦ rw e
]
is_blank_trailer-field (c ∷ d ∷ l) h k =
    let (x, e) = last-cons d l in rw (e, is_blank_trailer) (and_false (x == cr))

abbrev in_trailers : Decoder
in_trailers = record { state = trailers; line = [] }

run-trailer :
    {l : Bytes} (rest out : Bytes)
    → IsLine l
    → run in_trailers (l ++ (lf ∷ rest)) out
      ≡ run (record { state = if is_blank_trailer l then done else trailers; line = [] }) rest out
run-trailer {l} rest out h =
    run-take_line trailers trailer_finish trailers-lf trailers-ne [] (l ++ (lf ∷ rest)) out
      (omega arith)
    ∙ rw (take_line-append rest h)

run-IsTrailerPart :
    {t : Bytes} (junk out : Bytes)
    → IsTrailerPart t
    → run in_trailers (t ++ junk) out ≡ run_at done [] out
run-IsTrailerPart junk out (blank with_cr) =
    run-trailer {l = cr ∷ []} junk out
      (record { one_line = unfold find_lf in refl; bounded = omega arith })
    ∙ run-done [] junk out
run-IsTrailerPart junk out (blank bare) =
    run-trailer {l = []} junk out
      (record { one_line = unfold find_lf in refl; bounded = omega arith })
    ∙ run-done [] junk out
run-IsTrailerPart junk out (field {l} {rest} line h k t) = rw append_assoc (
    run-trailer (rest ++ junk) out line
    ∙ rw (is_blank_trailer-field l h k) (run-IsTrailerPart junk out t))

run-eol :
    {eol : Bytes} (rest out : Bytes)
    → IsEol eol
    → run (record { state = crlf_after_data false; line = [] }) (eol ++ rest) out
      ≡ run fresh rest out
unfolding run step
run-eol rest out with_cr = refl
run-eol rest out bare = refl

run-data :
    (c rest out : Bytes)
    → c ≢ []
    → run (record { state = after_size (length c); line = [] }) (c ++ rest) out
      ≡ run (record { state = crlf_after_data false; line = [] }) rest (out ++ c)
run-data [] rest out h = absurd (h refl)
run-data (x ∷ c) rest out h =
    let n : min (suc (length c)) (length ((x ∷ c) ++ rest)) ≡ suc (length c) =
      omega (arith, length-append c rest) in
    let z : suc (length c) - suc (length c) ≡ 0 = omega arith in
    let nz : (suc (length c) == 0) ≡ false = ground arith in
    rw nz (
      run-in_data (suc (length c)) [] ((x ∷ c) ++ rest) out (λ e. absurd (omega arith))
      ∙ rw (n, z, take_of_append c rest, drop_of_append c rest))

run-IsBody :
    {body payload : Bytes} (junk out : Bytes)
    → IsBody body payload
    → run fresh (body ++ junk) out ≡ run_at done [] (out ++ payload)
run-IsBody junk out (last_chunk {l} {trailer} line size t) = rw append_assoc (
    run-size (trailer ++ junk) out line (parse_size_line-IsSizeLine size)
    ∙ rw append-nil (run-IsTrailerPart junk out t))
run-IsBody junk out (chunk {l} {chunk_data = c} {eol} {rest} {payload} line size ne e b) =
    rw append_assoc (
      run-size ((c ++ (eol ++ rest)) ++ junk) out line (parse_size_line-IsSizeLine size)
      ∙ rw (append_assoc c, append_assoc eol)
          (run-data c (eol ++ (rest ++ junk)) out ne
            ∙ run-eol (rest ++ junk) (out ++ c) e
            ∙ run-IsBody junk (out ++ c) b
            ∙ rw append_assoc))

-- A well-formed body decodes to its payload, appended to what was there, and leaves the decoder
-- done; what comes behind the body is ignored.
pub feed-IsBody :
    {body payload : Bytes} (junk out : Bytes)
    → IsBody body payload
    → observe (feed fresh (body ++ junk) out) ≡ run_at done [] (out ++ payload)
feed-IsBody {body} junk out b =
    feed-run fresh (body ++ junk) out (record { positive = tt; bounded = omega arith })
    ∙ run-IsBody junk out b
