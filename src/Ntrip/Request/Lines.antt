-- ===== src/Ntrip/Request/Lines.antt =====
-- The shape of the request of crates/ntrip-core/src/request.rs as a server reads it: no string of
-- the configuration can add a line or a token.
use native.Mathlib.Nat.{pow-suc}
use open_ntripclient.Base.{
  ℕ, zero, suc, ◌/◌, ◌^◌, ◌<◌, Bool, true, false, not, ◌&&◌, List, [], ◌∷◌, ◌++◌, ◌≡◌, refl, ap,
  ◌∙◌, ltb, ◌==◌, if◌then◌else◌, arith, all_below, all_below-lt, append-nil, append_assoc,
  Bool-cases, inl, inr, is_empty,
}
use open_ntripclient.Base.Bytes.{
  Bytes, ascii, cr, lf, within, keep, all_bytes, all_bytes-append, all_bytes-keep, all_bytes_weaken,
  strip_cr, strip_cr-append_cr, decimal,
}
use open_ntripclient.Base.Bits.{◌>>>◌, bit_and_low}
use open_ntripclient.Ntrip.Base64.{symbol, sextet, word, encode_chunk, encode}
use open_ntripclient.Base.Bytes.{AreBytes}
use open_ntripclient.Ntrip.Config.{NtripVersion, v1, v2, SessionConfig}
use open_ntripclient.Ntrip.Request.{
  is_ascii_control, clean_header, encode_byte, encode_mountpoint, credentials, auth_line, get_line,
  host_line, lines_for, lines, join_wire, build,
}

-- How a server reads a request: lines end at LF, and lose a CR before it.
unfoldable pub read_lines : Bytes → Bytes → List Bytes
unfolding strip_cr
read_lines line [] = []
read_lines line (b ∷ bs) =
    if b == lf then strip_cr line ∷ read_lines [] bs else read_lines (line ++ b ∷ []) bs

abbrev pub in_line : ℕ → Bool
in_line b = not (b == lf)

abbrev pub AllLines : List Bytes → Type 0
AllLines [] = Unit
AllLines (l ∷ ls) = (all_bytes in_line l ≡ true) × AllLines ls

and_parts : (a b : Bool) → (a && b) ≡ true → (a ≡ true) × (b ≡ true)
and_parts a b h = ground arith

read_lines-line :
    (l line rest : Bytes)
    → all_bytes in_line l ≡ true
    → read_lines line (l ++ (cr ∷ lf ∷ rest)) ≡ (line ++ l) ∷ read_lines [] rest
unfolding read_lines
read_lines-line [] line rest h =
    rw append-nil (ap (λ l. l ∷ read_lines [] rest) (strip_cr-append_cr line))
read_lines-line (b ∷ l) line rest h =
    let (x, y) = and_parts (in_line b) (all_bytes in_line l) h in
    let e : (b == lf) ≡ false = ground arith in
    rw e (read_lines-line l (line ++ b ∷ []) rest y ∙ rw append_assoc)

read_lines-join_wire :
    (ls : List Bytes) → AllLines ls → read_lines [] (join_wire ls) ≡ ls ++ ([] ∷ [])
read_lines-join_wire [] h = unfold read_lines strip_cr in refl
read_lines-join_wire (l ∷ ls) h =
    read_lines-line l [] (join_wire ls) h.0 ∙ ap (◌∷◌ l) (read_lines-join_wire ls h.1)

symbol_table : all_below 64 (λ i. in_line (symbol i)) ≡ true
unfolding all_below
symbol_table = refl

lt_pow : (n : ℕ) → n < 2 ^ n
lt_pow zero = omega arith
lt_pow (suc n) = omega (arith, pow-suc 2 n, lt_pow n)

sextet-lt : (n k : ℕ) → sextet n k < 64
sextet-lt n k = omega (arith, bit_and_low (n >>> k) 6 (n >>> k) (lt_pow (n >>> k)))

symbol-in_line : (n k : ℕ) → in_line (symbol (sextet n k)) ≡ true
symbol-in_line n k =
    all_below-lt 64 (λ i. in_line (symbol i)) (sextet n k) symbol_table (sextet-lt n k)

-- A base64 text has no LF, whatever was encoded.
encode_chunk-in_line : (c : Bytes) → all_bytes in_line (encode_chunk c) ≡ true
unfolding encode_chunk
encode_chunk-in_line c = ground (
  arith,
  symbol-in_line (word c) 18,
  symbol-in_line (word c) 12,
  symbol-in_line (word c) 6,
  symbol-in_line (word c) 0,
)

encode-in_line : (bs : Bytes) → all_bytes in_line (encode bs) ≡ true
unfolding encode
encode-in_line [] = refl
encode-in_line (a ∷ []) = encode_chunk-in_line (a ∷ [])
encode-in_line (a ∷ b ∷ []) = encode_chunk-in_line (a ∷ b ∷ [])
encode-in_line (a ∷ b ∷ c ∷ rest) =
    all_bytes-append in_line (encode_chunk (a ∷ b ∷ c ∷ [])) (encode rest)
      (encode_chunk-in_line (a ∷ b ∷ c ∷ [])) (encode-in_line rest)

clean_header-in_line : (s : Bytes) → all_bytes in_line (clean_header s) ≡ true
unfolding clean_header
clean_header-in_line s =
    all_bytes_weaken (λ c. not (is_ascii_control c)) in_line
      (keep (λ c. not (is_ascii_control c)) s) (λ b h. ground arith)
      (all_bytes-keep (λ c. not (is_ascii_control c)) s)

encode_byte-in_line : (b : ℕ) → all_bytes in_line (encode_byte b) ≡ true
encode_byte-in_line b = ground arith

encode_mountpoint-in_line : (s : Bytes) → all_bytes in_line (encode_mountpoint s) ≡ true
unfolding encode_mountpoint
encode_mountpoint-in_line [] = refl
encode_mountpoint-in_line (b ∷ bs) =
    all_bytes-append in_line (encode_byte b) (encode_mountpoint bs) (encode_byte-in_line b)
      (encode_mountpoint-in_line bs)

decimal-in_line : (fuel n : ℕ) → all_bytes in_line (decimal fuel n) ≡ true
unfolding decimal
decimal-in_line zero n = refl
decimal-in_line (suc fuel) n = elim (Bool-cases (ltb n 10)) [
  | inl e ↦ rw e (ground arith)
  | inr e ↦ rw e (
      all_bytes-append in_line (decimal fuel (n / 10)) _ (decimal-in_line fuel (n / 10))
        (ground arith))
]

auth_line-in_line : (cfg : SessionConfig) → all_bytes in_line (auth_line cfg) ≡ true
unfolding auth_line
auth_line-in_line cfg = encode-in_line (credentials cfg)

get_line-in_line :
    (cfg : SessionConfig) (v : Bytes)
    → all_bytes in_line v ≡ true
    → all_bytes in_line (get_line cfg v) ≡ true
get_line-in_line cfg v h =
    all_bytes-append in_line (encode_mountpoint cfg.mountpoint) (ascii " HTTP/1." ++ v)
      (encode_mountpoint-in_line cfg.mountpoint) h

host_line-in_line : (cfg : SessionConfig) → all_bytes in_line (host_line cfg) ≡ true
host_line-in_line cfg =
    all_bytes-append in_line (clean_header cfg.host) (b':' ∷ decimal 5 cfg.port)
      (clean_header-in_line cfg.host) (decimal-in_line 5 cfg.port)

auth_lines-AllLines :
    (empty : Bool) (cfg : SessionConfig) (ls : List Bytes)
    → AllLines ls
    → AllLines ((if not empty then auth_line cfg ∷ [] else []) ++ ls)
auth_lines-AllLines true cfg ls h = h
auth_lines-AllLines false cfg ls h = (auth_line-in_line cfg, h)

lines_for-AllLines : (v : NtripVersion) (cfg : SessionConfig) → AllLines (lines_for v cfg)
lines_for-AllLines v1 cfg = (
  get_line-in_line cfg (ascii "0") refl,
  (
    clean_header-in_line cfg.user_agent,
    (refl, (refl, rw append-nil at (auth_lines-AllLines (is_empty cfg.username) cfg [] tt))),
  ),
)
lines_for-AllLines v2 cfg = (
  get_line-in_line cfg (ascii "1") refl,
  (
    host_line-in_line cfg,
    (
      refl,
      (
        clean_header-in_line cfg.user_agent,
        (
          refl,
          auth_lines-AllLines (is_empty cfg.username) cfg (ascii "Connection: close" ∷ [])
              (refl, tt),
        ),
      ),
    ),
  ),
)

-- Whatever the strings of the configuration hold, a server that cuts the wire bytes at line ends
-- reads the lines that the client meant, in order, and then the empty line: nothing can forge one.
pub read_lines-build :
    (cfg : SessionConfig) → read_lines [] (build cfg).wire ≡ lines cfg ++ ([] ∷ [])
unfolding build
read_lines-build cfg = read_lines-join_wire (lines cfg) (lines_for-AllLines cfg.version cfg)

-- Visible ASCII: no space, no control character, nothing beyond 0x7e.
abbrev pub is_visible : ℕ → Bool
is_visible = within 0x21 0x7e

encode_byte-is_visible : (b : ℕ) → b < 256 → all_bytes is_visible (encode_byte b) ≡ true
encode_byte-is_visible b h = ground arith

encode_byte_of_visible : (b : ℕ) → is_visible b ≡ true → encode_byte b ≡ b ∷ []
encode_byte_of_visible b h = ground arith

-- The target of the request line is visible ASCII, whatever bytes the mountpoint has, so the line
-- has three tokens; and a mountpoint that is visible ASCII already is sent as it is.
pub encode_mountpoint-is_visible :
    (m : Bytes)
    → AreBytes m
    → (all_bytes is_visible (encode_mountpoint m) ≡ true)
      × (all_bytes is_visible m ≡ true → encode_mountpoint m ≡ m)
unfolding encode_mountpoint
encode_mountpoint-is_visible [] h = (refl, λ _. refl)
encode_mountpoint-is_visible (b ∷ bs) (hb, h) =
    let (visible, same) = encode_mountpoint-is_visible bs h in
    (
      all_bytes-append is_visible (encode_byte b) (encode_mountpoint bs)
          (encode_byte-is_visible b hb) visible,
      λ v.
          let (x, y) = and_parts (is_visible b) (all_bytes is_visible bs) v in
          rw (encode_byte_of_visible b x, same y),
    )
