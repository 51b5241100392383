-- ===== src/Gnss/Frame/Delivery.antt =====
-- crates/gnss/src/rtcm/frame.rs: an intact frame is delivered, with garbage before it or not.
use open_ntripclient.Base.{
  ℕ, zero, suc, ◌≤◌, ◌<◌, Bool, true, false, not, List, [], ◌∷◌, ◌++◌, ◌≡◌, refl, ap, ◌∙◌, arith,
  ◌==◌, length, drop,
}
use open_ntripclient.Base.Bytes.{Bytes, all_bytes}
use open_ntripclient.Gnss.Frame.{
  FrameEvent, frame, Deframer, Scan, wait, discard, look, flush, skip_byte, message_type,
  scan_round, scan_loop, start, scan, feed,
}
use open_ntripclient.Gnss.Frame.Agreement.{findings, flush_run-Agrees}
use open_ntripclient.Gnss.Frame.Encoding.{encode_frame, scan_round-encode_frame}
use open_ntripclient.Gnss.Frame.Split.{feed_split}

abbrev pub not_sync : ℕ → Bool
not_sync b = not (b == 0xD3)

look-not_sync : (b : ℕ) (bs : Bytes) → not_sync b ≡ true → look (b ∷ bs) ≡ discard
unfolding look
look-not_sync b [] h = let e : (b == 0xD3) ≡ false = ground arith in rw e refl
look-not_sync b (c ∷ bs) h = rw h refl

scan_loop-nil : (fuel : ℕ) (s : Scan) → s.rest ≡ [] → scan_loop fuel s ≡ s
unfolding scan_loop scan_round
scan_loop-nil zero s h = refl
scan_loop-nil (suc fuel) s h =
    let l : look s.rest ≡ wait = ap look h ∙ unfold look in refl in rw l refl

-- Nothing is found, and nothing is left.
record IsSpent (s : Scan) (found : List FrameEvent) : Type 0 where
  pub all_read : s.rest ≡ []
  pub same : findings s.events ≡ found

scan_loop-IsSpent :
    (fuel : ℕ) (rest : Bytes) (s : Scan)
    → s.rest ≡ rest
    → length rest ≤ fuel
    → all_bytes not_sync rest ≡ true
    → IsSpent (scan_loop fuel s) (findings s.events)
unfolding scan_loop scan_round
scan_loop-IsSpent fuel [] s e h k =
    rw (scan_loop-nil fuel s e) (record { all_read = e; same = refl })
scan_loop-IsSpent zero (b ∷ bs) s e h k = absurd (omega arith)
scan_loop-IsSpent (suc fuel) (b ∷ bs) s e h k =
    let l : look s.rest ≡ discard = ap look e ∙ look-not_sync b bs (ground arith) in
    rw l
      (scan_loop-IsSpent fuel bs (skip_byte s) (ap (λ r. drop 1 r) e) (omega arith) (ground arith))

flush-IsSpent : (s : Scan) (found : List FrameEvent) → IsSpent s found → IsSpent (flush s) found
flush-IsSpent s found h =
    let f = flush_run-Agrees s.run s refl in
    record { all_read = f.same_rest ∙ h.all_read; same = f.same_findings ∙ h.same }

feed_garbage :
    (d : Deframer) (junk : Bytes)
    → d.buf ≡ []
    → all_bytes not_sync junk ≡ true
    → (findings (feed d junk).events ≡ []) × ((feed d junk).deframer.buf ≡ [])
unfolding feed scan
feed_garbage d junk e h =
    let n = length (d.buf ++ junk) in
    let i : d.buf ++ junk ≡ junk = ap (λ b. b ++ junk) e in
    let s =
      flush-IsSpent _ _
        (scan_loop-IsSpent n junk (start d junk) i (omega (arith, ap (λ r. length r) i)) h) in
    (s.same, s.all_read)

scan_loop-encode_frame :
    (fuel : ℕ) (payload : Bytes) (s : Scan)
    → 1 ≤ fuel
    → length payload < 1024
    → s.run ≡ 0
    → s.rest ≡ encode_frame payload
    → IsSpent (scan_loop fuel s) (findings (s.events ++ frame (message_type payload) payload ∷ []))
scan_loop-encode_frame zero payload s f h r e = absurd (omega arith)
scan_loop-encode_frame (suc fuel) payload s f h r e =
    let t = record s {
      rest = [];
      events = s.events ++ frame (message_type payload) payload ∷ [];
    } in
    rw (scan_round-encode_frame fuel payload s h r e)
      (rw (scan_loop-nil fuel t refl) (record { all_read = refl; same = refl }))

encode_frame_long : (payload : Bytes) → 1 ≤ length (encode_frame payload)
unfolding encode_frame
encode_frame_long payload = omega arith

feed-encode_frame :
    (d : Deframer) (payload : Bytes)
    → d.buf ≡ []
    → length payload < 1024
    → let f = feed d (encode_frame payload) in
      (findings f.events ≡ frame (message_type payload) payload ∷ []) × (f.deframer.buf ≡ [])
unfolding feed scan
feed-encode_frame d payload e h =
    let bytes = encode_frame payload in
    let i : d.buf ++ bytes ≡ bytes = ap (λ b. b ++ bytes) e in
    let n = length (d.buf ++ bytes) in
    let s = flush-IsSpent _ _ (
      scan_loop-encode_frame n payload (start d bytes)
        (omega (arith, ap (λ r. length r) i, encode_frame_long payload)) h refl i) in
    (s.same, s.all_read)

-- Behind any garbage that holds no sync byte, an intact frame of any payload that fits is found,
-- nothing else is, and nothing is held afterwards, if nothing was held before.
pub feed_resync :
    (d : Deframer) (junk payload : Bytes)
    → d.buf ≡ []
    → all_bytes not_sync junk ≡ true
    → length payload < 1024
    → let f = feed d (junk ++ encode_frame payload) in
      (findings f.events ≡ frame (message_type payload) payload ∷ []) × (f.deframer.buf ≡ [])
feed_resync d junk payload e h k =
    let (same, found) = feed_split d junk (encode_frame payload) in
    let (none_found, none_held) = feed_garbage d junk e h in
    let (frame_found, held) = feed-encode_frame (feed d junk).deframer payload none_held k in
    (
      found
          ∙ ap (λ es. es ++ findings (feed (feed d junk).deframer (encode_frame payload)).events)
              none_found
          ∙ frame_found,
      ap (λ (x : Deframer). x.buf) same ∙ held,
    )
