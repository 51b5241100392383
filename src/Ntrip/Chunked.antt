-- ===== src/Ntrip/Chunked.antt =====
-- crates/ntrip-core/src/chunked.rs: the incremental decoder of chunked transfer coding. `feed`
-- walks the rest of the input where the source walks an index; its fuel is the input's length.
-- A detail message of the source is a constructor of `ChunkError`.
pub mod Bytewise
pub mod Lines
pub mod Refine
pub mod Split
pub mod SizeLine
pub mod Framing
use open_ntripclient.Base.{
  ℕ, zero, suc, ◌+◌, ◌-◌, ◌*◌, ◌^◌, min, Bool, true, false, not, ◌&&◌, Option, none, some, List, [],
  ◌∷◌, ◌++◌, ltb, leb, ◌==◌, if◌then◌else◌, length, take, drop, position, last, init, is_empty,
}
use open_ntripclient.Base.Bytes.{Bytes, within, cr, lf, trim_ascii, strip_cr}

abbrev pub max_line : ℕ
max_line = 4096

abbrev pub u64_limit : ℕ
u64_limit = 2 ^ 64

pub data ChunkError : Type 0 where
  line_too_long empty_size size_overflow : ChunkError
  bad_size_character expected_crlf : ℕ → ChunkError

pub data Result {ℓ} (A : Type ℓ) : Type ℓ where
  ok : A → Result A
  err : ChunkError → Result A

pub data State : Type 0 where
  size_line trailers done : State
  in_data : ℕ → State
  crlf_after_data : Bool → State

pub record Decoder : Type 0 where
  pub state : State
  pub line : Bytes

-- `Decoder::default()`
abbrev pub fresh : Decoder
fresh = record { state = size_line; line = [] }

abbrev pub is_done_state : State → Bool
is_done_state done = true
is_done_state _ = false

abbrev pub is_done : Decoder → Bool
is_done d = is_done_state d.state

pub record TakenLine : Type 0 where
  pub line : Bytes
  pub rest : Bytes
  pub taken : Result (Option Bytes)

-- `iter().position(|&b| b == b'\n')`
unfoldable pub find_lf : Bytes → Option ℕ
find_lf = position (λ b. b == lf)

-- The arms of `take_line`, on where the line ends.
unfoldable pub cut_line : Bytes → Bytes → Option ℕ → TakenLine
cut_line line rest none =
    let line' = line ++ rest in
    record {
      line = line';
      rest = [];
      taken = if ltb max_line (length line') then err line_too_long else ok none;
    }
cut_line line rest (some rel) =
    let line' = line ++ take rel rest in
    let rest' = drop (suc rel) rest in
    if ltb max_line (length line')
    then record { line = line'; rest = rest'; taken = err line_too_long }
    else record { line = []; rest = rest'; taken = ok (some line') }

unfoldable pub take_line : Bytes → Bytes → TakenLine
unfolding cut_line find_lf
take_line line rest = cut_line line rest (find_lf rest)

abbrev pub hex_digit : ℕ → Result ℕ
hex_digit b =
    if within b'0' b'9' b
    then ok (b - b'0')
    else if within b'a' b'f' b
    then ok (b - b'a' + 10)
    else if within b'A' b'F' b
    then ok (b - b'A' + 10)
    else err (bad_size_character b)

-- `checked_mul(16)`, then `checked_add`, on a u64.
unfoldable pub push_digit : ℕ → ℕ → Result ℕ
push_digit size digit =
    if ltb (size * 16) u64_limit
    then (if ltb (size * 16 + digit) u64_limit then ok (size * 16 + digit) else err size_overflow)
    else err size_overflow

infixl 5 ◌>>=◌
abbrev ◌>>=◌ {ℓ κ} : {A : Type ℓ} {B : Type κ} → Result A → (A → Result B) → Result B
ok a >>= f = f a
err e >>= f = err e

unfoldable pub parse_hex : ℕ → Bytes → Result ℕ
unfolding push_digit
parse_hex size [] = ok size
parse_hex size (b ∷ bs) = do digit ← hex_digit b; next ← push_digit size digit; parse_hex next bs

-- The line up to the first `;`.
unfoldable pub strip_extensions : Bytes → Bytes
strip_extensions l = elim (position (λ b. b == b';') l) [ none ↦ l | some p ↦ take p l ]

unfoldable pub parse_size_line : Bytes → Result ℕ
unfolding parse_hex strip_extensions strip_cr trim_ascii
parse_size_line line =
    let hex = trim_ascii (strip_extensions (strip_cr line)) in
    if is_empty hex then err empty_size else parse_hex 0 hex

-- A trailer line that is empty, or a lone CR.
abbrev pub is_blank_trailer : Bytes → Bool
is_blank_trailer line = elim (last line) [ none ↦ true | some c ↦ c == cr && is_empty (init line) ]

abbrev pub after_size : ℕ → State
after_size size = if size == 0 then trailers else in_data size

-- What `feed` leaves: the decoder, the payload appended to `out`, and the error if it failed.
pub record Fed : Type 0 where
  pub decoder : Decoder
  pub out : Bytes
  pub error : Option ChunkError

abbrev pub fed : State → Bytes → Bytes → Option ChunkError → Fed
fed state line out error = record {
  decoder = record { state = state; line = line };
  out = out;
  error = error;
}

abbrev Feed : Type 0
Feed = Decoder → Bytes → Bytes → Fed

-- The arms of the `match` on a taken line; `again` is the next round of the loop.
end_size : Feed → Result ℕ → TakenLine → Bytes → Fed
end_size again (err e) t out = fed size_line t.line out (some e)
end_size again (ok size) t out =
    again (record { state = after_size size; line = t.line }) t.rest out

on_size_line : Feed → TakenLine → Result (Option Bytes) → Bytes → Fed
unfolding end_size
on_size_line again t (err e) out = fed size_line t.line out (some e)
on_size_line again t (ok none) out = fed size_line t.line out none
on_size_line again t (ok (some line)) out = end_size again (parse_size_line line) t out

on_trailer_line : Feed → TakenLine → Result (Option Bytes) → Bytes → Fed
on_trailer_line again t (err e) out = fed trailers t.line out (some e)
on_trailer_line again t (ok none) out = fed trailers t.line out none
on_trailer_line again t (ok (some line)) out =
    again (record { state = if is_blank_trailer line then done else trailers; line = t.line })
      t.rest out

-- One round of the loop, at a rest that begins with `b`.
unfoldable pub feed_round : Feed → State → Bytes → ℕ → Bytes → Bytes → Fed
unfolding on_size_line on_trailer_line
feed_round again size_line line b bs out =
    let t = take_line line (b ∷ bs) in on_size_line again t t.taken out
feed_round again (in_data left) line b bs out =
    let n = min left (length (b ∷ bs)) in
    let left' = left - n in
    again
      (record { state = if left' == 0 then crlf_after_data false else in_data left'; line = line })
      (drop n (b ∷ bs)) (out ++ take n (b ∷ bs))
feed_round again (crlf_after_data seen) line b bs out =
    if not seen && b == cr
    then again (record { state = crlf_after_data true; line = line }) bs out
    else if b == lf
    then again (record { state = size_line; line = line }) bs out
    else fed (crlf_after_data seen) line out (some (expected_crlf b))
feed_round again trailers line b bs out =
    let t = take_line line (b ∷ bs) in on_trailer_line again t t.taken out
feed_round again done line b bs out = fed done line out none

unfoldable pub feed_loop : ℕ → Decoder → Bytes → Bytes → Fed
unfolding feed_round
feed_loop fuel d [] out = record { decoder = d; out = out; error = none }
feed_loop zero d (b ∷ bs) out = record { decoder = d; out = out; error = none }
feed_loop (suc fuel) d (b ∷ bs) out = feed_round (feed_loop fuel) d.state d.line b bs out

unfoldable pub feed : Decoder → Bytes → Bytes → Fed
unfolding feed_loop
feed d input out = feed_loop (length input) d input out
