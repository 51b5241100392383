-- ===== src/Ntrip/Chunked/SizeLine.antt =====
-- The size line of a chunk (RFC 9112) and its parser in crates/ntrip-core/src/chunked.rs.
use open_ntripclient.Base.{
  ℕ, ◌+◌, ◌*◌, ◌<◌, ◌^◌, false, Option, none, some, [], ◌∷◌, ◌++◌, ◌≡◌, refl, ap, ◌∙◌, arith, ◌==◌,
  if◌then◌else◌, length, position, last, init, is_empty, take_of_append, last-concat, Bool-cases,
  inl, inr,
}
use open_ntripclient.Base.Bytes.{
  Bytes, cr, is_ascii_whitespace, trim_ascii, trim_ascii_start, trim_ascii_end, strip_cr,
  strip_cr-append_cr,
}
use open_ntripclient.Ntrip.Chunked.{
  Result, ok, err, empty_size, hex_digit, push_digit, parse_hex, strip_extensions, parse_size_line,
  ◌>>=◌,
}

pub data IsHexDigit : ℕ → ℕ → Type 0 where
  decimal : {d : ℕ} → d < 10 → IsHexDigit (b'0' + d) d
  lower : {k : ℕ} → k < 6 → IsHexDigit (b'a' + k) (10 + k)
  upper : {k : ℕ} → k < 6 → IsHexDigit (b'A' + k) (10 + k)

-- `IsNumeral hex n`: the hexadecimal digits of `n`, the most significant first.
pub data IsNumeral : Bytes → ℕ → Type 0 where
  first_digit : {c d : ℕ} → IsHexDigit c d → IsNumeral (c ∷ []) d
  next_digit :
      {hex : Bytes} {c d n : ℕ}
      → IsNumeral hex n
      → IsHexDigit c d
      → IsNumeral (hex ++ c ∷ []) (16 * n + d)

-- The line of a size below 2 ^ 64, its LF taken off: digits, then nothing, a CR, or a semicolon and
-- extensions.
pub data IsSizeLine : Bytes → ℕ → Type 0 where
  with_lf : {hex : Bytes} {n : ℕ} → IsNumeral hex n → n < 2 ^ 64 → IsSizeLine hex n
  with_crlf : {hex : Bytes} {n : ℕ} → IsNumeral hex n → n < 2 ^ 64 → IsSizeLine (hex ++ cr ∷ []) n
  extended :
      {hex : Bytes} {n : ℕ} (ext : Bytes)
      → IsNumeral hex n
      → n < 2 ^ 64
      → IsSizeLine (hex ++ b';' ∷ ext) n

hex_digit-IsHexDigit : {c d : ℕ} → IsHexDigit c d → hex_digit c ≡ ok d
hex_digit-IsHexDigit (decimal h) = ground (arith, h)
hex_digit-IsHexDigit (lower h) = ground (arith, h)
hex_digit-IsHexDigit (upper h) = ground (arith, h)

bind_assoc :
    {A B C : Type 0} (r : Result A) (f : A → Result B) (g : B → Result C)
    → (r >>= λ a. f a >>= g) ≡ (r >>= f >>= g)
bind_assoc (ok a) f g = refl
bind_assoc (err e) f g = refl

bind_cong :
    {A B : Type 0} (r : Result A) (f g : A → Result B)
    → ((a : A) → f a ≡ g a)
    → (r >>= f) ≡ (r >>= g)
bind_cong (ok a) f g h = h a
bind_cong (err e) f g h = refl

bind_ok : {A : Type 0} (r : Result A) → (r >>= λ a. ok a) ≡ r
bind_ok (ok a) = refl
bind_ok (err e) = refl

parse_hex-append :
    (size c : ℕ) (xs : Bytes)
    → parse_hex size (xs ++ c ∷ []) ≡ (parse_hex size xs >>= λ m. hex_digit c >>= push_digit m)
unfolding parse_hex
parse_hex-append size c [] =
    bind_cong (hex_digit c) _ (push_digit size) (λ d. bind_ok (push_digit size d))
parse_hex-append size c (x ∷ xs) =
    let push = λ (m : ℕ). hex_digit c >>= push_digit m in
    let rest = λ (d : ℕ). push_digit size d >>= λ next. parse_hex next xs in
    bind_cong (hex_digit x) _ (λ d. rest d >>= push)
      (λ d.
        bind_cong (push_digit size d) _ _ (λ next. parse_hex-append next c xs)
        ∙ bind_assoc (push_digit size d) (λ next. parse_hex next xs) push)
    ∙ bind_assoc (hex_digit x) rest push

push_digit-ok : (n d : ℕ) → 16 * n + d < 2 ^ 64 → push_digit n d ≡ ok (16 * n + d)
unfolding push_digit
push_digit-ok n d h = ground (arith, h)

parse_hex-IsNumeral : {hex : Bytes} {n : ℕ} → IsNumeral hex n → n < 2 ^ 64 → parse_hex 0 hex ≡ ok n
unfolding parse_hex
parse_hex-IsNumeral (first_digit {c} {d} h) b =
    rw (hex_digit-IsHexDigit h) (rw (push_digit-ok 0 d (omega (arith, b))) (ap ok (omega arith)))
parse_hex-IsNumeral (next_digit {hex} {c} {d} {n} k h) b =
    parse_hex-append 0 c hex
    ∙ rw (parse_hex-IsNumeral k (omega (arith, b)))
        (rw (hex_digit-IsHexDigit h) (push_digit-ok n d b))

-- Bytes that the parser keeps.
abbrev ArePlain : Bytes → Type 0
ArePlain [] = Unit
ArePlain (c ∷ cs) = (is_ascii_whitespace c ≡ false) × ((c == b';') ≡ false) × ArePlain cs

plain_digit : {c d : ℕ} → IsHexDigit c d → (is_ascii_whitespace c ≡ false) × ((c == b';') ≡ false)
plain_digit (decimal h) = (ground (arith, h), ground (arith, h))
plain_digit (lower h) = (ground (arith, h), ground (arith, h))
plain_digit (upper h) = (ground (arith, h), ground (arith, h))

ArePlain-append : (xs ys : Bytes) → ArePlain xs → ArePlain ys → ArePlain (xs ++ ys)
ArePlain-append [] ys h k = k
ArePlain-append (x ∷ xs) ys (a, b, h) k = (a, b, ArePlain-append xs ys h k)

IsNumeral-ArePlain : {hex : Bytes} {n : ℕ} → IsNumeral hex n → ArePlain hex
IsNumeral-ArePlain (first_digit h) = let (a, b) = plain_digit h in (a, b, tt)
IsNumeral-ArePlain (next_digit {hex} {c} k h) =
    let (a, b) = plain_digit h in ArePlain-append hex (c ∷ []) (IsNumeral-ArePlain k) (a, b, tt)

strip_cr-concat : (xs : Bytes) (c : ℕ) → (c == cr) ≡ false → strip_cr (xs ++ c ∷ []) ≡ xs ++ c ∷ []
unfolding strip_cr
strip_cr-concat xs c h = rw (last-concat xs c, strip_cr) (rw h refl)

not_cr : {c d : ℕ} → IsHexDigit c d → (c == cr) ≡ false
not_cr (decimal h) = ground (arith, h)
not_cr (lower h) = ground (arith, h)
not_cr (upper h) = ground (arith, h)

strip_cr-IsNumeral : {hex : Bytes} {n : ℕ} → IsNumeral hex n → strip_cr hex ≡ hex
strip_cr-IsNumeral (first_digit {c} h) = strip_cr-concat [] c (not_cr h)
strip_cr-IsNumeral (next_digit {hex} {c} k h) = strip_cr-concat hex c (not_cr h)

last-append : (xs ys : Bytes) (y : ℕ) → last (xs ++ y ∷ ys) ≡ last (y ∷ ys)
last-append [] ys y = refl
last-append (x ∷ []) ys y = refl
last-append (x ∷ z ∷ xs) ys y = last-append (z ∷ xs) ys y

init-append : (xs ys : Bytes) (y : ℕ) → init (xs ++ y ∷ ys) ≡ xs ++ init (y ∷ ys)
init-append [] ys y = refl
init-append (x ∷ []) ys y = refl
init-append (x ∷ z ∷ xs) ys y = ap (λ l. x ∷ l) (init-append (z ∷ xs) ys y)

strip_cr-last :
    (hex ext : Bytes) (e : ℕ) (l : Option ℕ)
    → last (e ∷ ext) ≡ l
    → (ext' : Bytes) × (strip_cr (hex ++ b';' ∷ e ∷ ext) ≡ hex ++ b';' ∷ ext')
unfolding strip_cr
strip_cr-last hex ext e none h =
    (e ∷ ext, rw (last-append hex (e ∷ ext) b';', strip_cr) (rw h refl))
strip_cr-last hex ext e (some c) h = elim (Bool-cases (c == cr)) [
  | inl f ↦ (
    init (e ∷ ext),
    rw (last-append hex (e ∷ ext) b';', strip_cr) (rw h (rw f (init-append hex (e ∷ ext) b';'))),
  )
  | inr f ↦ (e ∷ ext, rw (last-append hex (e ∷ ext) b';', strip_cr) (rw h (rw f refl)))
]

-- A CR at the end of the extensions is taken off, and nothing before them.
strip_cr-extended :
    (hex ext : Bytes) → (ext' : Bytes) × (strip_cr (hex ++ b';' ∷ ext) ≡ hex ++ b';' ∷ ext')
unfolding strip_cr
strip_cr-extended hex [] = ([], rw (last-append hex [] b';', strip_cr) refl)
strip_cr-extended hex (e ∷ ext) = strip_cr-last hex ext e (last (e ∷ ext)) refl

position_plain : (hex : Bytes) → ArePlain hex → position (λ b. b == b';') hex ≡ none
position_plain [] h = refl
position_plain (c ∷ cs) (a, b, h) = rw b (rw (position_plain cs h) refl)

position_extended :
    (hex ext : Bytes)
    → ArePlain hex
    → position (λ b. b == b';') (hex ++ b';' ∷ ext) ≡ some (length hex)
position_extended [] ext h = refl
position_extended (c ∷ cs) ext (a, b, h) = rw b (rw (position_extended cs ext h) refl)

trim_ascii_end-ArePlain : (hex : Bytes) → ArePlain hex → trim_ascii_end hex ≡ hex
unfolding trim_ascii_end
trim_ascii_end-ArePlain [] h = refl
trim_ascii_end-ArePlain (c ∷ []) (a, b, h) = rw a refl
trim_ascii_end-ArePlain (c ∷ d ∷ cs) (a, b, h) =
    rw (trim_ascii_end-ArePlain (d ∷ cs) h, trim_ascii_end) refl

trim_ascii-ArePlain : (hex : Bytes) → ArePlain hex → trim_ascii hex ≡ hex
unfolding trim_ascii trim_ascii_start
trim_ascii-ArePlain [] h = trim_ascii_end-ArePlain [] tt
trim_ascii-ArePlain (c ∷ cs) h = rw (h.0) (trim_ascii_end-ArePlain (c ∷ cs) h)

concat_not_empty : (xs : Bytes) (c : ℕ) → is_empty (xs ++ c ∷ []) ≡ false
concat_not_empty [] c = refl
concat_not_empty (x ∷ xs) c = refl

not_empty : {hex : Bytes} {n : ℕ} → IsNumeral hex n → is_empty hex ≡ false
not_empty (first_digit h) = refl
not_empty (next_digit {hex} {c} k h) = concat_not_empty hex c

-- The parser from the line without its CR on.
abbrev parse_stripped : Bytes → Result ℕ
unfolding trim_ascii strip_extensions parse_hex
parse_stripped l =
    let hex = trim_ascii (strip_extensions l) in
    if is_empty hex then err empty_size else parse_hex 0 hex

parse_numeral :
    {hex : Bytes} {n : ℕ} (l : Bytes)
    → strip_extensions l ≡ hex
    → IsNumeral hex n
    → n < 2 ^ 64
    → parse_stripped l ≡ ok n
unfolding parse_stripped
parse_numeral {hex} l e k b =
    rw (e, parse_stripped)
      (rw (trim_ascii-ArePlain hex (IsNumeral-ArePlain k), parse_stripped)
        (rw (not_empty k) (parse_hex-IsNumeral k b)))

strip_extensions-IsNumeral : {hex : Bytes} {n : ℕ} → IsNumeral hex n → strip_extensions hex ≡ hex
unfolding strip_extensions
strip_extensions-IsNumeral {hex} k =
    rw (position_plain hex (IsNumeral-ArePlain k), strip_extensions) refl

strip_extensions-extended :
    {hex : Bytes} {n : ℕ} (ext : Bytes)
    → IsNumeral hex n
    → strip_extensions (hex ++ b';' ∷ ext) ≡ hex
unfolding strip_extensions
strip_extensions-extended {hex} ext k =
    rw (position_extended hex ext (IsNumeral-ArePlain k), strip_extensions)
      (take_of_append hex (b';' ∷ ext))

-- The size that the parser reads off a size line is the size meant.
pub parse_size_line-IsSizeLine :
    {line : Bytes} {n : ℕ} → IsSizeLine line n → parse_size_line line ≡ ok n
unfolding parse_size_line
parse_size_line-IsSizeLine (with_lf {hex} k b) =
    ap parse_stripped (strip_cr-IsNumeral k) ∙ parse_numeral hex (strip_extensions-IsNumeral k) k b
parse_size_line-IsSizeLine (with_crlf {hex} k b) =
    ap parse_stripped (strip_cr-append_cr hex)
    ∙ parse_numeral hex (strip_extensions-IsNumeral k) k b
parse_size_line-IsSizeLine (extended {hex} ext k b) =
    let (ext', e) = strip_cr-extended hex ext in
    ap parse_stripped e ∙ parse_numeral (hex ++ b';' ∷ ext') (strip_extensions-extended ext' k) k b
