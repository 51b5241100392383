-- ===== src/Gnss/Frame/Layout.antt =====
-- crates/gnss/src/rtcm/frame.rs: which bytes of the input the events stand for.
use open_ntripclient.Base.{
  ℕ, suc, ◌+◌, ◌≤◌, List, [], ◌∷◌, ◌++◌, ◌≡◌, refl, sym, ap, ◌∙◌, arith, subst, length, take, drop,
  length-take, length-drop, length-append, drop_of_append, append_assoc,
}
use open_ntripclient.Base.Bytes.{Bytes}
use open_ntripclient.Gnss.Frame.{FrameEvent, frame, crc_error, garbage}

-- Read from the front, the events use up the input but for the bytes held: a garbage run is so many
-- bytes; a frame is three bytes, its payload, and three more; a CRC failure takes none of its own.
abbrev pub Reads : List FrameEvent → Bytes → Bytes → Type 0
Reads [] input held = input ≡ held
Reads (crc_error ∷ es) input held = Reads es input held
Reads (garbage n ∷ es) input held = (n ≤ length input) × Reads es (drop n input) held
Reads (frame _ payload ∷ es) input held =
    (3 + length payload + 3 ≤ length input)
    × (payload ≡ take (length payload) (drop 3 input))
    × Reads es (drop (3 + length payload + 3) input) held

pub Reads-append :
    (xs ys : List FrameEvent) (input mid held : Bytes)
    → Reads xs input mid
    → Reads ys mid held
    → Reads (xs ++ ys) input held
Reads-append [] ys input mid held h k = subst (λ x. Reads ys x held) (sym h) k
Reads-append (crc_error ∷ xs) ys input mid held h k = Reads-append xs ys input mid held h k
Reads-append (garbage n ∷ xs) ys input mid held h k =
    (h.0, Reads-append xs ys (drop n input) mid held h.1 k)
Reads-append (frame t p ∷ xs) ys input mid held (l, e, h) k =
    (l, e, Reads-append xs ys (drop (3 + length p + 3) input) mid held h k)

-- The events so far, a garbage run that is not reported yet, and the rest.
pub record IsLaidOut (input : Bytes) (events : List FrameEvent) (run : ℕ) (rest : Bytes)
    : Type 0 where
  pub skipped : Bytes
  pub run_length : length skipped ≡ run
  pub reads : Reads events input (skipped ++ rest)

pub nil_of_length : (r : Bytes) → length r ≡ 0 → r ≡ []
nil_of_length [] h = refl
nil_of_length (b ∷ r) h = absurd (omega (arith, h))

module _ (input : Bytes) (events : List FrameEvent) where
  pub flush-IsLaidOut :
      (run : ℕ) (rest : Bytes)
      → IsLaidOut input events run rest
      → IsLaidOut input (events ++ garbage run ∷ []) 0 rest
  flush-IsLaidOut run rest h =
      let held = h.skipped ++ rest in
      let fits : run ≤ length held = omega (arith, h.run_length, length-append h.skipped rest) in
      let left : drop run held ≡ rest =
        ap (λ n. drop n held) (sym h.run_length) ∙ drop_of_append h.skipped rest in
      record {
        skipped = [];
        run_length = refl;
        reads = Reads-append events (garbage run ∷ []) input held rest h.reads (fits, left);
      }

  pub skip-IsLaidOut :
      (run : ℕ) (rest : Bytes)
      → 1 ≤ length rest
      → IsLaidOut input events run rest
      → IsLaidOut input events (suc run) (drop 1 rest)
  skip-IsLaidOut run [] k h = absurd (omega arith)
  skip-IsLaidOut run (b ∷ rest) k h = record {
    skipped = h.skipped ++ b ∷ [];
    run_length = omega (arith, h.run_length, length-append h.skipped (b ∷ []));
    reads = subst (Reads events input) (sym (append_assoc h.skipped (b ∷ []) rest)) h.reads;
  }

  pub failure-IsLaidOut :
      (run : ℕ) (rest : Bytes)
      → IsLaidOut input events run rest
      → IsLaidOut input (events ++ crc_error ∷ []) run rest
  failure-IsLaidOut run rest h = record {
    skipped = h.skipped;
    run_length = h.run_length;
    reads = Reads-append events (crc_error ∷ []) input _ _ h.reads refl;
  }

  pub frame-IsLaidOut :
      (len ty run : ℕ) (rest : Bytes)
      → run ≡ 0
      → 3 + len + 3 ≤ length rest
      → IsLaidOut input events run rest
      → IsLaidOut input
          (events ++ frame ty (take len (drop 3 rest)) ∷ [])
          run
          (drop (3 + len + 3) rest)
  frame-IsLaidOut len ty run rest z l h =
      let payload = take len (drop 3 rest) in
      let whole : length payload ≡ len =
        omega (arith, l, length-take len (drop 3 rest), length-drop 3 rest) in
      let front : h.skipped ++ rest ≡ rest =
        ap (λ x. x ++ rest) (nil_of_length h.skipped (omega (arith, z, h.run_length))) in
      record {
        skipped = [];
        run_length = sym z;
        reads =
            Reads-append events (frame ty payload ∷ []) input rest (drop (3 + len + 3) rest)
              (subst (Reads events input) front h.reads)
              (
                omega (arith, whole, l),
                ap (λ n. take n (drop 3 rest)) (sym whole),
                ap (λ n. drop (3 + n + 3) rest) whole,
              );
      }
