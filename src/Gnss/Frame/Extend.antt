-- ===== src/Gnss/Frame/Extend.antt =====
-- crates/gnss/src/rtcm/frame.rs: what more input does not change of a round of the loop.
use Prim.Native.Nat.{bit_and}
use open_ntripclient.Base.{
  ℕ, zero, suc, ◌+◌, ◌≤◌, Bool, true, false, not, [], ◌∷◌, ◌++◌, ◌≡◌, refl, arith, ltb, ◌==◌,
  if◌then◌else◌, Bool-cases, inl, inr, length, drop, length-append, length-drop, take-append_le,
  drop-append_le, get_or-append_lt,
}
use open_ntripclient.Base.Bytes.{Bytes}
use open_ntripclient.Gnss.Frame.{
  Scan, Look, discard, candidate, payload_length, look_length, look, flush_run, skip_byte, judge,
  crc_holds, payload_of,
}

-- A verdict on the front stays, with more input behind it; waiting may end.
abbrev pub Stays : Look → Look → Type 0
Stays discard l = l ≡ discard
Stays (candidate len) l = l ≡ candidate len
Stays _ l = Unit

discard-Stays :
    (c : Bool) (l l' : Look)
    → Stays l l'
    → Stays (if c then discard else l) (if c then discard else l')
discard-Stays true l l' h = refl
discard-Stays false l l' h = h

look_length-Stays :
    (n m after : ℕ) (tail ys : Bytes)
    → n ≤ m
    → Stays (look_length n after tail) (look_length m after (tail ++ ys))
unfolding look_length
look_length-Stays n m after [] ys h = tt
look_length-Stays n m after (low ∷ tail) ys h =
    let size = 3 + payload_length after low + 3 in
    elim (Bool-cases (ltb n size)) [
      | inl e ↦ rw e tt
      | inr e ↦ let e' : ltb m size ≡ false = ground arith in rw (e, e') refl
    ]

pub look-Stays : (rest ys : Bytes) → Stays (look rest) (look (rest ++ ys))
unfolding look
look-Stays [] ys = tt
look-Stays (b ∷ []) ys = elim (Bool-cases (b == 0xD3)) [
  | inl e ↦ rw e tt
  | inr e ↦ rw e (alone b ys e)
]
  where
    alone : (b : ℕ) (ys : Bytes) → (b == 0xD3) ≡ false → look (b ∷ ys) ≡ discard
    alone b [] e = rw e refl
    alone b (y ∷ ys) e = rw e refl
look-Stays (b ∷ after ∷ tail) ys =
    let n = length (b ∷ after ∷ tail) in
    let m = length (b ∷ after ∷ (tail ++ ys)) in
    discard-Stays (not (b == 0xD3)) _ _ (
      discard-Stays (not (bit_and after 0xFC == 0)) (look_length n after tail)
        (look_length m after (tail ++ ys))
        (look_length-Stays n m after tail ys (omega (arith, length-append tail ys))))

-- The state with more input.
abbrev pub extend : Scan → Bytes → Scan
extend s ys = record s { rest = s.rest ++ ys }

pub crc_holds-append :
    (len : ℕ) (rest ys : Bytes)
    → 3 + len + 3 ≤ length rest
    → crc_holds len (rest ++ ys) ≡ crc_holds len rest
unfolding crc_holds
crc_holds-append len rest ys h =
    rw
      (
        take-append_le (3 + len) rest ys (omega arith),
        get_or-append_lt rest ys (3 + len) 0 (omega arith),
        get_or-append_lt rest ys (4 + len) 0 (omega arith),
        get_or-append_lt rest ys (5 + len) 0 (omega arith),
      )
      refl

payload_of-append :
    (len : ℕ) (rest ys : Bytes)
    → 3 + len + 3 ≤ length rest
    → payload_of len (rest ++ ys) ≡ payload_of len rest
payload_of-append len rest ys h =
    rw (drop-append_le 3 rest ys (omega arith))
      (take-append_le len (drop 3 rest) ys (omega (arith, length-drop 3 rest)))

pub skip_byte-extend :
    (s : Scan) (ys : Bytes) → 1 ≤ length s.rest → skip_byte (extend s ys) ≡ extend (skip_byte s) ys
skip_byte-extend s ys h = rw (drop-append_le 1 s.rest ys h) refl

pub judge-extend :
    (b : Bool) (len : ℕ) (s : Scan) (ys : Bytes)
    → 3 + len + 3 ≤ length s.rest
    → judge b len (extend s ys) ≡ extend (judge b len s) ys
unfolding judge
judge-extend true len s ys h =
    rw (drop-append_le (3 + len + 3) s.rest ys h, payload_of-append len s.rest ys h) refl
judge-extend false len s ys h = rw (drop-append_le 1 s.rest ys (omega arith)) refl

pub flush_run-extend :
    (n : ℕ) (s : Scan) (ys : Bytes) → flush_run n (extend s ys) ≡ extend (flush_run n s) ys
unfolding flush_run
flush_run-extend zero s ys = refl
flush_run-extend (suc n) s ys = refl
