-- ===== src/Ntrip/Base64.antt =====
-- crates/ntrip-core/src/base64.rs: the base64 encoder of the Basic credential.
pub mod RoundTrip
use Prim.Native.Nat.{bit_and, bit_or}
use open_ntripclient.Base.{ℕ, List, [], ◌∷◌, ◌++◌, get_or, length, ltb, if◌then◌else◌}
use open_ntripclient.Base.Bytes.{Bytes, ascii}
use open_ntripclient.Base.Bits.{◌<<<◌, ◌>>>◌}

abbrev pub alphabet : Bytes
alphabet = ascii "ABCDEFGHIJKLMNOPQRSTUVWXYZabcdefghijklmnopqrstuvwxyz0123456789+/"

abbrev pub symbol : ℕ → ℕ
symbol i = get_or alphabet i 0

-- The 24-bit word of a chunk of 1 to 3 bytes; an absent byte reads as 0.
abbrev pub word : Bytes → ℕ
word chunk = bit_or (bit_or (get_or chunk 0 0 <<< 16) (get_or chunk 1 0 <<< 8)) (get_or chunk 2 0)

abbrev pub sextet : ℕ → ℕ → ℕ
sextet n k = bit_and (n >>> k) 63

-- The four characters that the loop pushes for a chunk.
unfoldable pub encode_chunk : Bytes → Bytes
encode_chunk chunk =
    let n = word chunk in
    symbol (sextet n 18)
    ∷ symbol (sextet n 12)
    ∷ (if ltb 1 (length chunk) then symbol (sextet n 6) else b'=')
    ∷ (if ltb 2 (length chunk) then symbol (sextet n 0) else b'=')
    ∷ []

-- `input.chunks(3)`, chunk by chunk.
unfoldable pub encode : Bytes → Bytes
unfolding encode_chunk
encode [] = []
encode (a ∷ []) = encode_chunk (a ∷ [])
encode (a ∷ b ∷ []) = encode_chunk (a ∷ b ∷ [])
encode (a ∷ b ∷ c ∷ rest) = encode_chunk (a ∷ b ∷ c ∷ []) ++ encode rest
