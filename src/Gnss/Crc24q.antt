-- ===== src/Gnss/Crc24q.antt =====
-- crates/gnss/src/rtcm/crc24q.rs: the frame check. A u32 is cut to 32 bits where it is shifted.
use Prim.Native.Nat.{bit_and, bit_xor}
use open_ntripclient.Base.{ℕ, zero, suc, ◌%◌, ◌^◌, List, [], ◌∷◌, ◌==◌, if◌then◌else◌, get_or}
use open_ntripclient.Base.Bits.{◌<<<◌, ◌>>>◌}
use open_ntripclient.Base.Bytes.{Bytes}

abbrev pub poly : ℕ
poly = 0x1864CFB

abbrev pub shl_u32 : ℕ → ℕ → ℕ
shl_u32 x k = (x <<< k) % 2 ^ 32

-- One bit of an entry.
unfoldable pub shift_bit : ℕ → ℕ
shift_bit crc = let c = shl_u32 crc 1 in if bit_and c 0x1000000 == 0 then c else bit_xor c poly

unfoldable pub shift_bits : ℕ → ℕ → ℕ
unfolding shift_bit
shift_bits zero crc = crc
shift_bits (suc bits) crc = shift_bits bits (shift_bit crc)

unfoldable pub table_entry : ℕ → ℕ
unfolding shift_bits
table_entry i = bit_and (shift_bits 8 (shl_u32 i 16)) 0xFFFFFF

-- The entries from `i` on, as many as `count`.
unfoldable pub entries_from : ℕ → ℕ → List ℕ
unfolding table_entry
entries_from zero i = []
entries_from (suc count) i = table_entry i ∷ entries_from count (suc i)

unfoldable pub build_table : List ℕ
unfolding entries_from
build_table = entries_from 256 0

unfoldable pub crc_byte : ℕ → ℕ → ℕ
unfolding build_table
crc_byte crc b =
    let index = bit_and (bit_xor (crc >>> 16) b) 0xFF in
    bit_and (bit_xor (shl_u32 crc 8) (get_or build_table index 0)) 0xFFFFFF

unfoldable pub crc_from : ℕ → Bytes → ℕ
unfolding crc_byte
crc_from crc [] = crc
crc_from crc (b ∷ bs) = crc_from (crc_byte crc b) bs

unfoldable pub crc24q : Bytes → ℕ
unfolding crc_from
crc24q bs = crc_from 0 bs
