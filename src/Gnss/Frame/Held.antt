-- ===== src/Gnss/Frame/Held.antt =====
-- crates/gnss/src/rtcm/frame.rs: what the deframer holds between feeds is bounded.
use Prim.Native.Nat.{bit_and}
use open_ntripclient.Base.{
  ℕ, zero, suc, ◌+◌, ◌%◌, ◌≤◌, ◌<◌, Bool, true, false, not, [], ◌∷◌, ◌++◌, ◌≡◌, arith, ltb, ◌==◌,
  if◌then◌else◌, if_cases, length, drop, length-drop,
}
use open_ntripclient.Base.Bits.{bit_or_disjoint, bit_and_low}
use open_ntripclient.Base.Bytes.{Bytes}
use open_ntripclient.Base.Bytes.{AreBytes}
use open_ntripclient.Gnss.Frame.{
  Deframer, Scan, Look, wait, discard, incomplete, candidate, payload_length, look_length, look,
  flush, judge, crc_holds, scan_round, scan_loop, start, scan, feed,
}
use open_ntripclient.Gnss.Frame.Accounting.{Fits, look-Fits, flush_run_rest}

AreBytes-append : (xs ys : Bytes) → AreBytes xs → AreBytes ys → AreBytes (xs ++ ys)
AreBytes-append [] ys h k = k
AreBytes-append (x ∷ xs) ys h k = (h.0, AreBytes-append xs ys h.1 k)

AreBytes-drop : (n : ℕ) (xs : Bytes) → AreBytes xs → AreBytes (drop n xs)
AreBytes-drop zero xs h = h
AreBytes-drop (suc n) [] h = tt
AreBytes-drop (suc n) (x ∷ xs) h = AreBytes-drop n xs h.1

-- The length field has ten bits.
payload_length-lt : (after low : ℕ) → after < 256 → low < 256 → payload_length after low < 1024
payload_length-lt after low h k =
    let m : bit_and after 3 ≡ after % 4 = bit_and_low 8 2 after h in
    rw m (let d = bit_or_disjoint 2 8 (after % 4) low (omega arith) k in omega (arith, d))

-- What is waited for is less than a frame of the greatest size.
abbrev Waits : Look → ℕ → Type 0
Waits wait n = n ≤ 1028
Waits incomplete n = n ≤ 1028
Waits _ n = Unit

discard-Waits : (c : Bool) (l : Look) (n : ℕ) → Waits l n → Waits (if c then discard else l) n
discard-Waits true l n h = tt
discard-Waits false l n h = h

look_length-Waits :
    (available after : ℕ) (tail : Bytes)
    → after < 256
    → AreBytes tail
    → available ≡ 2 + length tail
    → Waits (look_length available after tail) available
unfolding look_length
look_length-Waits available after [] h k e = omega arith
look_length-Waits available after (low ∷ tail) h k e =
    let len = payload_length after low in
    if_cases (λ l. Waits l available) (ltb available (3 + len + 3))
      (λ g. ground (arith, payload_length-lt after low h k.0)) (λ g. tt)

look-Waits : (rest : Bytes) → AreBytes rest → Waits (look rest) (length rest)
unfolding look
look-Waits [] h = omega arith
look-Waits (b ∷ []) h = if_cases (λ l. Waits l 1) (b == 0xD3) (λ e. omega arith) (λ e. tt)
look-Waits (b ∷ after ∷ tail) h =
    let n = length (b ∷ after ∷ tail) in
    discard-Waits (not (b == 0xD3)) _ n (
      discard-Waits (not (bit_and after 0xFC == 0)) (look_length n after tail) n
        (look_length-Waits n after tail h.1.0 h.1.1 (omega arith)))

-- What is left is held until the next feed.
record IsHeld (rest : Bytes) : Type 0 where
  pub small : length rest ≤ 1028
  pub are_bytes : AreBytes rest

abbrev Ends : ℕ → (Scan → Scan) → Type 0
Ends fuel again = (s : Scan) → length s.rest ≤ fuel → AreBytes s.rest → IsHeld (again s).rest

module _ (fuel : ℕ) (again : Scan → Scan) (ih : Ends fuel again) where
  judge-IsHeld :
      (b : Bool) (len : ℕ) (s : Scan)
      → length s.rest ≤ suc fuel
      → 3 + len + 3 ≤ length s.rest
      → AreBytes s.rest
      → IsHeld (again (judge b len s)).rest
  unfolding judge
  judge-IsHeld true len s h k v =
      ih _ (omega (arith, length-drop (3 + len + 3) s.rest)) (AreBytes-drop (3 + len + 3) s.rest v)
  judge-IsHeld false len s h k v =
      ih _ (omega (arith, length-drop 1 s.rest)) (AreBytes-drop 1 s.rest v)

  scan_round-IsHeld :
      (l : Look) (s : Scan)
      → length s.rest ≤ suc fuel
      → AreBytes s.rest
      → Fits l (length s.rest)
      → Waits l (length s.rest)
      → IsHeld (scan_round again l s).rest
  unfolding scan_round
  scan_round-IsHeld wait s h v f w = record { small = w; are_bytes = v }
  scan_round-IsHeld discard s h v f w =
      ih _ (omega (arith, length-drop 1 s.rest)) (AreBytes-drop 1 s.rest v)
  scan_round-IsHeld incomplete s h v f w =
      rw (flush_run_rest s.run s) record { small = w; are_bytes = v }
  scan_round-IsHeld (candidate len) s h v f w =
      let e = flush_run_rest s.run s in
      judge-IsHeld (crc_holds len s.rest) len (flush s) (rw e h) (rw e f) (rw e v)

scan_loop-IsHeld : (fuel : ℕ) → Ends fuel (scan_loop fuel)
unfolding scan_loop
scan_loop-IsHeld zero s h v = record { small = omega arith; are_bytes = v }
scan_loop-IsHeld (suc fuel) s h v =
    scan_round-IsHeld fuel (scan_loop fuel) (scan_loop-IsHeld fuel) (look s.rest) s h v
      (look-Fits s.rest) (look-Waits s.rest v)

-- Whatever bytes are held and fed, the loop ends, and then fewer bytes are held than a frame of the
-- greatest size has, 1029; they are bytes again.
pub length-feed :
    (d : Deframer) (bytes : Bytes)
    → AreBytes d.buf
    → AreBytes bytes
    → (length (feed d bytes).deframer.buf < 1029) × AreBytes (feed d bytes).deframer.buf
unfolding feed scan
length-feed d bytes h k =
    let total = length (d.buf ++ bytes) in
    let s = scan_loop total (start d bytes) in
    let e =
      scan_loop-IsHeld total (start d bytes) (omega arith) (AreBytes-append d.buf bytes h k) in
    rw (flush_run_rest s.run s) (omega (arith, e.small), e.are_bytes)
