-- ===== src/Gnss/Frame/Accounting.antt =====
-- crates/gnss/src/rtcm/frame.rs: every consumed byte is accounted for exactly once.
use Prim.Native.Nat.{bit_and}
use open_ntripclient.Base.{
  if◌then◌else◌, ℕ, zero, suc, ◌+◌, ◌≤◌, Bool, true, false, not, List, [], ◌∷◌, ◌++◌, ◌≡◌, refl,
  arith, ltb, ◌==◌, if_cases, length, take, drop, subst, ap, ◌∙◌, ◌%◌, ◌^◌, ◌<◌,
}
use open_ntripclient.Base.Bytes.{Bytes}
use open_ntripclient.Gnss.Frame.{
  FrameEvent, frame, crc_error, garbage, Deframer, Scan, Look, wait, discard, incomplete, candidate,
  payload_length, message_type, look_length, look, wrap64, flush_run, flush, skip_byte, judge,
  crc_holds, scan_round, scan_loop, start, scan, feed,
}
use open_ntripclient.Gnss.Frame.Layout.{
  Reads, nil_of_length, IsLaidOut, flush-IsLaidOut, skip-IsLaidOut, failure-IsLaidOut,
  frame-IsLaidOut,
}

abbrev pub garbage_of : FrameEvent → ℕ
garbage_of (garbage n) = n
garbage_of _ = 0

abbrev pub discarded : List FrameEvent → ℕ
discarded [] = 0
discarded (e ∷ es) = garbage_of e + discarded es

abbrev pub failure_of : FrameEvent → ℕ
failure_of crc_error = 1
failure_of _ = 0

abbrev pub failures : List FrameEvent → ℕ
failures [] = 0
failures (e ∷ es) = failure_of e + failures es

discarded-append : (xs ys : List FrameEvent) → discarded (xs ++ ys) ≡ discarded xs + discarded ys
discarded-append [] ys = omega arith
discarded-append (x ∷ xs) ys = omega (arith, discarded-append xs ys)

failures-append : (xs ys : List FrameEvent) → failures (xs ++ ys) ≡ failures xs + failures ys
failures-append [] ys = omega arith
failures-append (x ∷ xs) ys = omega (arith, failures-append xs ys)

-- What is seen is there.
abbrev pub Fits : Look → ℕ → Type 0
Fits discard n = 1 ≤ n
Fits (candidate len) n = 3 + len + 3 ≤ n
Fits _ n = Unit

discard-Fits : (c : Bool) (l : Look) (n : ℕ) → 1 ≤ n → Fits l n → Fits (if c then discard else l) n
discard-Fits true l n k h = k
discard-Fits false l n k h = h

look_length-Fits :
    (available after : ℕ) (tail : Bytes) → Fits (look_length available after tail) available
unfolding look_length
look_length-Fits available after [] = tt
look_length-Fits available after (low ∷ tail) =
    if_cases (λ l. Fits l available) (ltb available (3 + payload_length after low + 3)) (λ g. tt)
      (λ g. ground arith)

pub look-Fits : (rest : Bytes) → Fits (look rest) (length rest)
unfolding look
look-Fits [] = tt
look-Fits (b ∷ []) = if_cases (λ l. Fits l 1) (b == 0xD3) (λ e. tt) (λ e. omega arith)
look-Fits (b ∷ after ∷ tail) =
    let n = length (b ∷ after ∷ tail) in
    discard-Fits (not (b == 0xD3)) _ n (omega arith) (
      discard-Fits (not (bit_and after 0xFC == 0)) (look_length n after tail) n (omega arith)
        (look_length-Fits n after tail))

-- The events, the run and the rest make up the input, and the counters count the events.
record IsBalanced (d : Deframer) (input : Bytes) (s : Scan) : Type 0 where
  pub laid_out : IsLaidOut input s.events s.run s.rest
  pub all_garbage : s.garbage_bytes ≡ wrap64 (d.garbage_bytes + discarded s.events)
  pub all_failures : s.crc_failures ≡ wrap64 (d.crc_failures + failures s.events)

pub flush_run_zero : (n : ℕ) (s : Scan) → s.run ≡ n → (flush_run n s).run ≡ 0
unfolding flush_run
flush_run_zero zero s e = e
flush_run_zero (suc n) s e = refl

pub flush_run_rest : (n : ℕ) (s : Scan) → (flush_run n s).rest ≡ s.rest
unfolding flush_run
flush_run_rest zero s = refl
flush_run_rest (suc n) s = refl

module _ (d : Deframer) (input : Bytes) where
  flush_run-IsBalanced :
      (n : ℕ) (s : Scan) → s.run ≡ n → IsBalanced d input s → IsBalanced d input (flush_run n s)
  unfolding flush_run
  flush_run-IsBalanced zero s e h = h
  flush_run-IsBalanced (suc n) s e h =
      let g = garbage (suc n) ∷ [] in
      record {
        laid_out =
            flush-IsLaidOut input s.events (suc n) s.rest
              (subst (λ r. IsLaidOut input s.events r s.rest) e h.laid_out);
        all_garbage = omega (arith, h.all_garbage, discarded-append s.events g);
        all_failures = omega (arith, h.all_failures, failures-append s.events g);
      }

  skip_byte-IsBalanced :
      (s : Scan) → 1 ≤ length s.rest → IsBalanced d input s → IsBalanced d input (skip_byte s)
  skip_byte-IsBalanced s k h = record {
    laid_out = skip-IsLaidOut input s.events s.run s.rest k h.laid_out;
    all_garbage = h.all_garbage;
    all_failures = h.all_failures;
  }

  judge-IsBalanced :
      (b : Bool) (len : ℕ) (s : Scan)
      → s.run ≡ 0
      → 3 + len + 3 ≤ length s.rest
      → IsBalanced d input s
      → IsBalanced d input (judge b len s)
  unfolding judge
  judge-IsBalanced true len s r k h =
      let p = take len (drop 3 s.rest) in
      let e = frame (message_type p) p ∷ [] in
      record {
        laid_out = frame-IsLaidOut input s.events len (message_type p) s.run s.rest r k h.laid_out;
        all_garbage = omega (arith, h.all_garbage, discarded-append s.events e);
        all_failures = omega (arith, h.all_failures, failures-append s.events e);
      }
  judge-IsBalanced false len s r k h =
      let e = crc_error ∷ [] in
      skip_byte-IsBalanced
        (record s { crc_failures = wrap64 (s.crc_failures + 1); events = s.events ++ e })
        (omega arith)
        (record {
          laid_out = failure-IsLaidOut input s.events s.run s.rest h.laid_out;
          all_garbage = omega (arith, h.all_garbage, discarded-append s.events e);
          all_failures = omega (arith, h.all_failures, failures-append s.events e);
        })

  scan_round-IsBalanced :
      (again : Scan → Scan)
      → ((s : Scan) → IsBalanced d input s → IsBalanced d input (again s))
      → (l : Look) (s : Scan) → Fits l (length s.rest)
      → IsBalanced d input s
      → IsBalanced d input (scan_round again l s)
  unfolding scan_round
  scan_round-IsBalanced again ih wait s k h = h
  scan_round-IsBalanced again ih discard s k h = ih _ (skip_byte-IsBalanced s k h)
  scan_round-IsBalanced again ih incomplete s k h = flush_run-IsBalanced s.run s refl h
  scan_round-IsBalanced again ih (candidate len) s k h = ih _ (
      judge-IsBalanced (crc_holds len s.rest) len (flush s) (flush_run_zero s.run s refl)
        (rw (flush_run_rest s.run s) k) (flush_run-IsBalanced s.run s refl h))

  scan_loop-IsBalanced :
      (fuel : ℕ) (s : Scan) → IsBalanced d input s → IsBalanced d input (scan_loop fuel s)
  unfolding scan_loop
  scan_loop-IsBalanced zero s h = h
  scan_loop-IsBalanced (suc fuel) s h =
      scan_round-IsBalanced (scan_loop fuel) (scan_loop-IsBalanced fuel) (look s.rest) s
        (look-Fits s.rest) h

-- Let the two counters be below 2 ^ 64. The bytes held before a feed, followed by those fed, are laid
-- out by its events, in order and without a gap: garbage runs, and frames with the payload that they
-- report; what is left of them is held after it. And the two counters have grown, modulo 2 ^ 64, by
-- what the events say.
pub feed_accounting :
    (d : Deframer) (bytes : Bytes)
    → d.garbage_bytes < 0x10000000000000000
    → d.crc_failures < 0x10000000000000000
    → let f = feed d bytes in
      Reads f.events (d.buf ++ bytes) f.deframer.buf
      × (f.deframer.garbage_bytes ≡ (d.garbage_bytes + discarded f.events) % 2 ^ 64)
      × (f.deframer.crc_failures ≡ (d.crc_failures + failures f.events) % 2 ^ 64)
unfolding feed scan
feed_accounting d bytes below_g below_c =
    let input = d.buf ++ bytes in
    let s = scan_loop (length input) (start d bytes) in
    let h = scan_loop-IsBalanced d input (length input) (start d bytes) (record {
      laid_out = record { skipped = []; run_length = refl; reads = refl };
      all_garbage = omega (arith, below_g);
      all_failures = omega (arith, below_c);
    }) in
    let f = flush_run-IsBalanced d input s.run s refl h in
    let none_skipped =
      nil_of_length f.laid_out.skipped (f.laid_out.run_length ∙ flush_run_zero s.run s refl) in
    let e = (flush s).events in
    (
      subst (Reads e input) (ap (λ x. x ++ (flush s).rest) none_skipped) f.laid_out.reads,
      f.all_garbage,
      f.all_failures,
    )
