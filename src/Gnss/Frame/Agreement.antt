-- ===== src/Gnss/Frame/Agreement.antt =====
-- crates/gnss/src/rtcm/frame.rs: states of the loop that go on alike.
use open_ntripclient.Base.{
  ℕ, zero, suc, ◌+◌, ◌≤◌, Bool, true, false, List, [], ◌∷◌, ◌++◌, ◌≡◌, refl, sym, ap, ◌∙◌, arith,
  length, drop, append_assoc, append-nil, length-drop,
}
use open_ntripclient.Base.Bytes.{Bytes}
use open_ntripclient.Gnss.Frame.{
  FrameEvent, frame, crc_error, garbage, Scan, Look, wait, discard, incomplete, candidate, look,
  wrap64, flush_run, flush, skip_byte, judge, crc_holds, scan_round, scan_loop,
}
use open_ntripclient.Gnss.Frame.Accounting.{Fits, look-Fits, flush_run_rest}

-- The frames and the CRC failures, in order. Where a garbage run is reported depends on the feeds.
abbrev pub findings : List FrameEvent → List FrameEvent
findings [] = []
findings (garbage n ∷ es) = findings es
findings (frame t p ∷ es) = frame t p ∷ findings es
findings (crc_error ∷ es) = crc_error ∷ findings es

findings-append : (xs ys : List FrameEvent) → findings (xs ++ ys) ≡ findings xs ++ findings ys
findings-append [] ys = refl
findings-append (garbage n ∷ xs) ys = findings-append xs ys
findings-append (frame t p ∷ xs) ys = ap (◌∷◌ (frame t p)) (findings-append xs ys)
findings-append (crc_error ∷ xs) ys = ap (◌∷◌ crc_error) (findings-append xs ys)

-- The garbage counter once the run is flushed.
abbrev pub settled : ℕ → ℕ → ℕ
settled zero g = g
settled (suc n) g = wrap64 (g + suc n)

settled-suc : (m n g h : ℕ) → settled m g ≡ settled n h → settled (suc m) g ≡ settled (suc n) h
settled-suc zero zero g h e = omega (arith, e)
settled-suc zero (suc n) g h e = omega (arith, e)
settled-suc (suc m) zero g h e = omega (arith, e)
settled-suc (suc m) (suc n) g h e = omega (arith, e)

-- Two states that go on alike, the first with `before` found already. Garbage counts the same whether
-- it is flushed or in the run.
pub record Agrees (before : List FrameEvent) (s t : Scan) : Type 0 where
  pub same_rest : s.rest ≡ t.rest
  pub same_garbage : settled s.run s.garbage_bytes ≡ settled t.run t.garbage_bytes
  pub same_failures : s.crc_failures ≡ t.crc_failures
  pub same_findings : findings s.events ≡ before ++ findings t.events

pub Agrees-refl : (s : Scan) → Agrees [] s s
Agrees-refl s = record {
  same_rest = refl;
  same_garbage = refl;
  same_failures = refl;
  same_findings = refl;
}

pub flush_run-Agrees : (n : ℕ) (s : Scan) → s.run ≡ n → Agrees [] (flush_run n s) s
unfolding flush_run
flush_run-Agrees zero s e = Agrees-refl s
flush_run-Agrees (suc n) s e = record {
  same_rest = refl;
  same_garbage = ap (λ r. settled r s.garbage_bytes) (sym e);
  same_failures = refl;
  same_findings = findings-append s.events (garbage (suc n) ∷ []) ∙ append-nil (findings s.events);
}

nil_of_length : (r : Bytes) → length r ≤ 0 → r ≡ []
nil_of_length [] h = refl
nil_of_length (b ∷ r) h = absurd (omega arith)

look_nil : look [] ≡ wait
unfolding look
look_nil = refl

pub judge_shorter :
    (n : ℕ) (b : Bool) (len : ℕ) (s : Scan)
    → length s.rest ≤ suc n
    → 3 + len + 3 ≤ length s.rest
    → length (judge b len (flush s)).rest ≤ n
unfolding judge
judge_shorter n true len s h k =
    rw (flush_run_rest s.run s) (omega (arith, length-drop (3 + len + 3) s.rest))
judge_shorter n false len s h k = rw (flush_run_rest s.run s) (omega (arith, length-drop 1 s.rest))

module _ (before : List FrameEvent) where
  pub flush-Agrees : (s t : Scan) → Agrees before s t → Agrees before (flush s) (flush t)
  flush-Agrees s t h =
      let f = flush_run-Agrees s.run s refl in
      let g = flush_run-Agrees t.run t refl in
      record {
        same_rest = f.same_rest ∙ h.same_rest ∙ sym g.same_rest;
        same_garbage = f.same_garbage ∙ h.same_garbage ∙ sym g.same_garbage;
        same_failures = f.same_failures ∙ h.same_failures ∙ sym g.same_failures;
        same_findings =
            f.same_findings ∙ h.same_findings ∙ ap (λ es. before ++ es) (sym g.same_findings);
      }

  push-Agrees :
      (e : FrameEvent) (xs ys : List FrameEvent)
      → findings xs ≡ before ++ findings ys
      → findings (xs ++ e ∷ []) ≡ before ++ findings (ys ++ e ∷ [])
  push-Agrees e xs ys h =
      findings-append xs (e ∷ [])
      ∙ ap (λ es. es ++ findings (e ∷ [])) h
      ∙ append_assoc before (findings ys) (findings (e ∷ []))
      ∙ ap (λ es. before ++ es) (sym (findings-append ys (e ∷ [])))

  skip_byte-Agrees : (s t : Scan) → Agrees before s t → Agrees before (skip_byte s) (skip_byte t)
  skip_byte-Agrees s t h = record {
    same_rest = ap (λ r. drop 1 r) h.same_rest;
    same_garbage = settled-suc s.run t.run s.garbage_bytes t.garbage_bytes h.same_garbage;
    same_failures = h.same_failures;
    same_findings = h.same_findings;
  }

  judge-Agrees :
      (b : Bool) (len : ℕ) (s t : Scan)
      → Agrees before s t
      → Agrees before (judge b len s) (judge b len t)
  unfolding judge
  judge-Agrees true len s t h = record {
    same_rest = ap (λ r. drop (3 + len + 3) r) h.same_rest;
    same_garbage = h.same_garbage;
    same_failures = h.same_failures;
    same_findings = rw (h.same_rest) (push-Agrees _ s.events t.events h.same_findings);
  }
  judge-Agrees false len s t h =
      skip_byte-Agrees
        (record s {
          crc_failures = wrap64 (s.crc_failures + 1);
          events = s.events ++ crc_error ∷ [];
        })
        (record t {
          crc_failures = wrap64 (t.crc_failures + 1);
          events = t.events ++ crc_error ∷ [];
        })
        (record {
          same_rest = h.same_rest;
          same_garbage = h.same_garbage;
          same_failures = ap (λ n. wrap64 (n + 1)) h.same_failures;
          same_findings = push-Agrees crc_error s.events t.events h.same_findings;
        })

  judges-Agrees :
      (b b' : Bool) (len : ℕ) (s t : Scan)
      → b ≡ b'
      → Agrees before s t
      → Agrees before (judge b len s) (judge b' len t)
  judges-Agrees b b' len s t e h = rw e (judge-Agrees b' len s t h)

  scan_round-Agrees :
      (n m : ℕ) (go go' : Scan → Scan)
      → ((s t : Scan)
          → length s.rest ≤ n
          → length t.rest ≤ m
          → Agrees before s t
          → Agrees before (go s) (go' t))
      → (l : Look) (s t : Scan) → length s.rest ≤ suc n
      → length t.rest ≤ suc m
      → Fits l (length s.rest)
      → Agrees before s t
      → Agrees before (scan_round go l s) (scan_round go' l t)
  unfolding scan_round
  scan_round-Agrees n m go go' ih wait s t a b f h = h
  scan_round-Agrees n m go go' ih discard s t a b f h =
      ih _ _ (omega (arith, length-drop 1 s.rest)) (omega (arith, length-drop 1 t.rest))
        (skip_byte-Agrees s t h)
  scan_round-Agrees n m go go' ih incomplete s t a b f h = flush-Agrees s t h
  scan_round-Agrees n m go go' ih (candidate len) s t a b f h =
      let k : 3 + len + 3 ≤ length t.rest = rw (sym h.same_rest) f in
      ih _ _ (judge_shorter n (crc_holds len s.rest) len s a f)
        (judge_shorter m (crc_holds len t.rest) len t b k)
        (judges-Agrees (crc_holds len s.rest) (crc_holds len t.rest) len (flush s) (flush t)
          (ap (λ r. crc_holds len r) h.same_rest) (flush-Agrees s t h))

  -- Enough fuel, of any amount, gives the same outcome.
  pub scan_loop-Agrees :
      (n m : ℕ) (s t : Scan)
      → length s.rest ≤ n
      → length t.rest ≤ m
      → Agrees before s t
      → Agrees before (scan_loop n s) (scan_loop m t)
  unfolding scan_loop
  scan_loop-Agrees zero zero s t a b h = h
  scan_loop-Agrees zero (suc m) s t a b h =
      let e : t.rest ≡ [] = nil_of_length t.rest (omega (arith, ap (λ r. length r) h.same_rest)) in
      let l : look t.rest ≡ wait = ap look e ∙ look_nil in rw l h
  scan_loop-Agrees (suc n) zero s t a b h =
      let e : s.rest ≡ [] = nil_of_length s.rest (omega (arith, ap (λ r. length r) h.same_rest)) in
      let l : look s.rest ≡ wait = ap look e ∙ look_nil in rw l h
  scan_loop-Agrees (suc n) (suc m) s t a b h =
      let l : look t.rest ≡ look s.rest = ap look (sym h.same_rest) in
      rw l (
        scan_round-Agrees n m (scan_loop n) (scan_loop m) (scan_loop-Agrees n m) (look s.rest) s t a
          b (look-Fits s.rest) h)
