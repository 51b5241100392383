-- ===== src/Gnss/Frame/Split.antt =====
-- crates/gnss/src/rtcm/frame.rs: how the input is cut into feeds does not change what is found.
use open_ntripclient.Base.{
  ℕ, zero, suc, ◌+◌, ◌-◌, ◌≤◌, List, [], ◌++◌, ◌≡◌, refl, sym, ap, ◌∙◌, arith, length, drop,
  append_assoc, append-nil, length-append, length-drop,
}
use open_ntripclient.Base.Bytes.{Bytes}
use open_ntripclient.Gnss.Frame.{
  FrameEvent, Deframer, Scan, Look, wait, discard, incomplete, candidate, look, flush, skip_byte,
  judge, crc_holds, scan_round, scan_loop, start, scan, feed,
}
use open_ntripclient.Gnss.Frame.Accounting.{Fits, look-Fits, flush_run_rest, flush_run_zero}
use open_ntripclient.Gnss.Frame.Agreement.{
  findings, settled, Agrees, Agrees-refl, flush_run-Agrees, flush-Agrees, judge_shorter,
  scan_loop-Agrees,
}
use open_ntripclient.Gnss.Frame.Extend.{
  Stays, look-Stays, extend, crc_holds-append, skip_byte-extend, judge-extend, flush_run-extend,
}

Agrees-of :
    (before : List FrameEvent) (s s' t : Scan) → s ≡ s' → Agrees before s' t → Agrees before s t
Agrees-of before s s' t e h = rw e h

Agrees-trans :
    (before : List FrameEvent) (s t u : Scan)
    → Agrees [] s t
    → Agrees before t u
    → Agrees before s u
Agrees-trans before s t u h k = record {
  same_rest = h.same_rest ∙ k.same_rest;
  same_garbage = h.same_garbage ∙ k.same_garbage;
  same_failures = h.same_failures ∙ k.same_failures;
  same_findings = h.same_findings ∙ k.same_findings;
}

-- A round that is decided already, with more input behind it.
discard_extend :
    (n : ℕ) (s : Scan) (ys : Bytes)
    → look (s.rest ++ ys) ≡ discard
    → 1 ≤ length s.rest
    → scan_loop (suc n) (extend s ys) ≡ scan_loop n (extend (skip_byte s) ys)
unfolding scan_loop scan_round
discard_extend n s ys e k = rw e (ap (scan_loop n) (skip_byte-extend s ys k))

candidate_extend :
    (n len : ℕ) (s : Scan) (ys : Bytes)
    → look (s.rest ++ ys) ≡ candidate len
    → 3 + len + 3 ≤ length s.rest
    → scan_loop (suc n) (extend s ys)
      ≡ scan_loop n (extend (judge (crc_holds len s.rest) len (flush s)) ys)
unfolding scan_loop scan_round
candidate_extend n len s ys e k = rw e (
    ap (scan_loop n) (
      ap (λ b. judge b len (flush (extend s ys))) (crc_holds-append len s.rest ys k)
      ∙ ap (judge (crc_holds len s.rest) len) (flush_run-extend s.run s ys)
      ∙ judge-extend (crc_holds len s.rest) len (flush s) ys (rw (flush_run_rest s.run s) k)))

-- Scanning on from where the loop stopped is scanning from the start.
abbrev Resumes : ℕ → Bytes → Type 0
Resumes n ys =
    (k m : ℕ) (s : Scan)
    → length s.rest ≤ n
    → length (s.rest ++ ys) ≤ k
    → length ((scan_loop n s).rest ++ ys) ≤ m
    → Agrees [] (scan_loop k (extend s ys)) (scan_loop m (extend (scan_loop n s) ys))

module _ (n : ℕ) (ys : Bytes) (ih : Resumes n ys) where
  scan_round-Resumes :
      (l : Look) (k m : ℕ) (s : Scan)
      → Stays l (look (s.rest ++ ys))
      → Fits l (length s.rest)
      → length s.rest ≤ suc n
      → length (s.rest ++ ys) ≤ k
      → length ((scan_round (scan_loop n) l s).rest ++ ys) ≤ m
      → Agrees []
          (scan_loop k (extend s ys))
          (scan_loop m (extend (scan_round (scan_loop n) l s) ys))
  unfolding scan_round
  scan_round-Resumes wait k m s e f a b c =
      scan_loop-Agrees [] k m (extend s ys) (extend s ys) b c (Agrees-refl (extend s ys))
  scan_round-Resumes incomplete k m s e f a b c =
      let g = flush_run-Agrees s.run s refl in
      scan_loop-Agrees [] k m (extend s ys) (extend (flush s) ys) b c (record {
        same_rest = ap (λ r. r ++ ys) (sym g.same_rest);
        same_garbage = sym g.same_garbage;
        same_failures = sym g.same_failures;
        same_findings = sym g.same_findings;
      })
  scan_round-Resumes discard zero m s e f a b c = absurd (omega (arith, length-append s.rest ys))
  scan_round-Resumes discard (suc k) m s e f a b c =
      Agrees-of [] _ _ _ (discard_extend k s ys e f) (
        ih k m (skip_byte s) (omega (arith, length-drop 1 s.rest))
          (omega (
            arith,
            length-append s.rest ys,
            length-append (drop 1 s.rest) ys,
            length-drop 1 s.rest,
          ))
          c)
  scan_round-Resumes (candidate len) zero m s e f a b c =
      absurd (omega (arith, length-append s.rest ys))
  scan_round-Resumes (candidate len) (suc k) m s e f a b c =
      let t = judge (crc_holds len s.rest) len (flush s) in
      let w = length-append s.rest ys in
      let b' : length s.rest ≤ suc (k - length ys) = omega arith in
      Agrees-of [] _ _ _ (candidate_extend k len s ys e f) (
        ih k m t (judge_shorter n (crc_holds len s.rest) len s a f)
          (omega (
            arith,
            length-append t.rest ys,
            judge_shorter (k - length ys) (crc_holds len s.rest) len s b' f,
          ))
          c)

scan_loop-Resumes : (n : ℕ) (ys : Bytes) → Resumes n ys
unfolding scan_loop
scan_loop-Resumes zero ys k m s a b c =
    scan_loop-Agrees [] k m (extend s ys) (extend s ys) b c (Agrees-refl (extend s ys))
scan_loop-Resumes (suc n) ys k m s a b c =
    scan_round-Resumes n ys (scan_loop-Resumes n ys) (look s.rest) k m s (look-Stays s.rest ys)
      (look-Fits s.rest) a b c

abbrev left : Scan → Deframer
left s = record { crc_failures = s.crc_failures; garbage_bytes = s.garbage_bytes; buf = s.rest }

left-Agrees :
    (before : List FrameEvent) (s t : Scan)
    → Agrees before s t
    → s.run ≡ 0
    → t.run ≡ 0
    → left s ≡ left t
left-Agrees before s t h a b =
    let g : s.garbage_bytes ≡ t.garbage_bytes =
      ap (λ r. settled r s.garbage_bytes) (sym a)
      ∙ h.same_garbage
      ∙ ap (λ r. settled r t.garbage_bytes) b in
    rw (h.same_rest, h.same_failures, g) refl

-- The loop on the joined input, and the loop on the second input after the first was fed.
resumed :
    (d : Deframer) (xs ys : Bytes)
    → let f = scan d xs in
      Agrees
        (findings f.events)
        (scan_loop (length (d.buf ++ (xs ++ ys))) (start d (xs ++ ys)))
        (scan_loop (length (f.rest ++ ys)) (start (left f) ys))
unfolding scan
resumed d xs ys =
    let s = start d xs in
    let s1 = scan_loop (length (d.buf ++ xs)) s in
    let f = flush s1 in
    let g = flush_run-Agrees s1.run s1 refl in
    let z = flush_run_zero s1.run s1 refl in
    let n = length (d.buf ++ (xs ++ ys)) in
    let m = length (s1.rest ++ ys) in
    let e : (d.buf ++ xs) ++ ys ≡ d.buf ++ (xs ++ ys) = append_assoc d.buf xs ys in
    let l : length ((d.buf ++ xs) ++ ys) ≡ n = ap (λ r. length r) e in
    let first : Agrees [] (scan_loop n (start d (xs ++ ys))) (scan_loop n (extend s ys)) =
      scan_loop-Agrees [] n n (start d (xs ++ ys)) (extend s ys) (omega arith) (omega (arith, l))
        (record {
          same_rest = sym e;
          same_garbage = refl;
          same_failures = refl;
          same_findings = refl;
        }) in
    let second : Agrees [] (scan_loop n (extend s ys)) (scan_loop m (extend s1 ys)) =
      scan_loop-Resumes (length (d.buf ++ xs)) ys n m s (omega arith) (omega (arith, l))
        (omega arith) in
    let third : Agrees (findings f.events) (extend s1 ys) (start (left f) ys) = record {
      same_rest = ap (λ r. r ++ ys) (sym g.same_rest);
      same_garbage = sym g.same_garbage ∙ ap (λ r. settled r f.garbage_bytes) z;
      same_failures = sym g.same_failures;
      same_findings = sym g.same_findings ∙ sym (append-nil (findings f.events));
    } in
    Agrees-trans _ _ _ _ first (
      Agrees-trans _ _ _ _ second (
        scan_loop-Agrees (findings f.events) m (length (f.rest ++ ys)) (extend s1 ys)
          (start (left f) ys) (omega arith) (omega arith) third))

-- Feeding two inputs in turn leaves the same deframer, its counters included, as feeding them
-- joined, and finds the same frames and CRC failures in the same order; only where the runs of
-- garbage are reported may differ.
pub feed_split :
    (d : Deframer) (xs ys : Bytes)
    → let f = feed d xs in
      let g = feed f.deframer ys in
      let h = feed d (xs ++ ys) in
      (h.deframer ≡ g.deframer) × (findings h.events ≡ findings f.events ++ findings g.events)
unfolding feed
feed_split d xs ys =
    let f = scan d xs in
    let s = scan_loop (length (d.buf ++ (xs ++ ys))) (start d (xs ++ ys)) in
    let t = scan_loop (length (f.rest ++ ys)) (start (left f) ys) in
    let h = flush-Agrees (findings f.events) s t (resumed d xs ys) in
    unfold scan in
    (
      left-Agrees (findings f.events) (flush s) (flush t) h (flush_run_zero s.run s refl)
          (flush_run_zero t.run t refl),
      h.same_findings,
    )
