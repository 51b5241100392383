-- ===== src/Gnss/Frame.antt =====
-- crates/gnss/src/rtcm/frame.rs: the RTCM 3 deframer. Where the source walks `pos` in the buffer,
-- the model walks the rest of it; the fuel is that rest's length, of which each round takes a byte.
-- A sum of a u64 counter wraps around.
pub mod Layout
pub mod Accounting
pub mod Held
pub mod Extend
pub mod Agreement
pub mod Split
pub mod Encoding
pub mod Delivery
use Prim.Native.Nat.{bit_and, bit_or}
use open_ntripclient.Base.{
  ℕ, zero, suc, ◌+◌, ◌%◌, Bool, true, false, not, List, [], ◌∷◌, ◌++◌, ltb, leb, ◌==◌,
  if◌then◌else◌, length, take, drop, get_or,
}
use open_ntripclient.Base.Bits.{◌<<<◌, ◌>>>◌}
use open_ntripclient.Base.Bytes.{Bytes}
use open_ntripclient.Gnss.Crc24q.{crc24q}

pub data FrameEvent : Type 0 where
  frame : ℕ → Bytes → FrameEvent
  crc_error : FrameEvent
  garbage : ℕ → FrameEvent

pub record Deframer : Type 0 where
  pub crc_failures : ℕ
  pub garbage_bytes : ℕ
  pub buf : Bytes

-- `Deframer::new()`
abbrev pub empty : Deframer
empty = record { crc_failures = 0; garbage_bytes = 0; buf = [] }

-- The loop's state: the counters, the garbage run, the unconsumed bytes, and the events so far.
pub record Scan : Type 0 where
  pub crc_failures : ℕ
  pub garbage_bytes : ℕ
  pub run : ℕ
  pub rest : Bytes
  pub events : List FrameEvent

-- What stands at the front of the rest: nothing that can be judged yet, a byte to discard, a
-- candidate that is incomplete, or a complete one with the given payload length.
pub data Look : Type 0 where
  wait discard incomplete : Look
  candidate : ℕ → Look

abbrev pub payload_length : ℕ → ℕ → ℕ
payload_length after low = bit_or (bit_and after 0x03 <<< 8) low

-- A candidate, its two sync bytes seen; `available` is how many bytes there are.
unfoldable pub look_length : ℕ → ℕ → Bytes → Look
look_length available after [] = incomplete
look_length available after (low ∷ _) =
    let len = payload_length after low in
    if ltb available (3 + len + 3) then incomplete else candidate len

unfoldable pub look : Bytes → Look
unfolding look_length
look [] = wait
look (b ∷ []) = if b == 0xD3 then wait else discard
look (b ∷ after ∷ tail) =
    if not (b == 0xD3)
    then discard
    else if not (bit_and after 0xFC == 0)
    then discard
    else look_length (length (b ∷ after ∷ tail)) after tail

-- What a u64 keeps of a sum.
abbrev pub wrap64 : ℕ → ℕ
wrap64 n = n % 0x10000000000000000

unfoldable pub flush_run : ℕ → Scan → Scan
flush_run zero s = s
flush_run (suc n) s = record s {
  garbage_bytes = wrap64 (s.garbage_bytes + suc n);
  run = 0;
  events = s.events ++ garbage (suc n) ∷ [];
}

-- `if run > 0`
abbrev pub flush : Scan → Scan
flush s = flush_run s.run s

abbrev pub skip_byte : Scan → Scan
skip_byte s = record s { run = suc s.run; rest = drop 1 s.rest }

abbrev pub stated_crc : ℕ → Bytes → ℕ
stated_crc len rest =
    bit_or (bit_or (get_or rest (3 + len) 0 <<< 16) (get_or rest (4 + len) 0 <<< 8))
      (get_or rest (5 + len) 0)

abbrev pub message_type : Bytes → ℕ
message_type payload =
    if leb 2 (length payload)
    then bit_or (get_or payload 0 0 <<< 4) (get_or payload 1 0 >>> 4)
    else 0

abbrev pub payload_of : ℕ → Bytes → Bytes
payload_of len rest = take len (drop 3 rest)

-- The arms on the CRC, the garbage before the candidate being flushed.
unfoldable pub judge : Bool → ℕ → Scan → Scan
judge true len s = record s {
  rest = drop (3 + len + 3) s.rest;
  events = s.events ++ frame (message_type (payload_of len s.rest)) (payload_of len s.rest) ∷ [];
}
judge false len s =
    skip_byte
      (record s { crc_failures = wrap64 (s.crc_failures + 1); events = s.events ++ crc_error ∷ [] })

unfoldable pub crc_holds : ℕ → Bytes → Bool
unfolding crc24q
crc_holds len rest = crc24q (take (3 + len) rest) == stated_crc len rest

-- One round of the loop. `again` is the next round.
unfoldable pub scan_round : (Scan → Scan) → Look → Scan → Scan
unfolding judge crc_holds flush_run
scan_round again wait s = s
scan_round again discard s = again (skip_byte s)
scan_round again incomplete s = flush s
scan_round again (candidate len) s = again (judge (crc_holds len s.rest) len (flush s))

unfoldable pub scan_loop : ℕ → Scan → Scan
unfolding scan_round look
scan_loop zero s = s
scan_loop (suc fuel) s = scan_round (scan_loop fuel) (look s.rest) s

abbrev pub start : Deframer → Bytes → Scan
start d bytes = record {
  crc_failures = d.crc_failures;
  garbage_bytes = d.garbage_bytes;
  run = 0;
  rest = d.buf ++ bytes;
  events = [];
}

unfoldable pub scan : Deframer → Bytes → Scan
unfolding scan_loop flush_run
scan d bytes = flush (scan_loop (length (d.buf ++ bytes)) (start d bytes))

-- The deframer afterwards, and what it called `on_event` with.
pub record Fed : Type 0 where
  pub deframer : Deframer
  pub events : List FrameEvent

unfoldable pub feed : Deframer → Bytes → Fed
unfolding scan
feed d bytes =
    let s = scan d bytes in
    record {
      deframer = record {
        crc_failures = s.crc_failures;
        garbage_bytes = s.garbage_bytes;
        buf = s.rest;
      };
      events = s.events;
    }
