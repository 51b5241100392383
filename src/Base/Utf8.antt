-- ===== src/Base/Utf8.antt =====
-- `String::from_utf8_lossy` of Rust's standard library: each maximal part of an ill-formed
-- sequence becomes U+FFFD.
use open_ntripclient.Base.Bytes.{Bytes, within, all_bytes}
use open_ntripclient.Base.Tests.{leb, ◌==◌, if◌then◌else◌}
use Prim.Native.Nat.{ℕ, ◌-◌}
use mathlib.Core.Bool.{true}
use mathlib.Core.List.{[], ◌∷◌, ◌++◌}
use mathlib.Core.Path.{◌≡◌, refl}
use native.Mathlib.Omega.{arith}

-- A sequence that has begun: its bytes, how many are missing, and the range of the next one.
record Scan : Type 0 where
  emit : Bytes
  need : ℕ
  lo : ℕ
  hi : ℕ
  held : Bytes

abbrev replacement : Bytes
replacement = 0xef ∷ 0xbf ∷ 0xbd ∷ []

abbrev emitted : Bytes → Scan
emitted s = record { emit = s; need = 0; lo = 0; hi = 0; held = [] }

abbrev begun : ℕ → ℕ → ℕ → ℕ → Scan
begun b need lo hi = record { emit = []; need = need; lo = lo; hi = hi; held = b ∷ [] }

scan_first : ℕ → Scan
scan_first b =
    if leb b 0x7f
    then emitted (b ∷ [])
    else if within 0xc2 0xdf b
    then begun b 1 0x80 0xbf
    else if b == 0xe0
    then begun b 2 0xa0 0xbf
    else if b == 0xed
    then begun b 2 0x80 0x9f
    else if within 0xe1 0xef b
    then begun b 2 0x80 0xbf
    else if b == 0xf0
    then begun b 3 0x90 0xbf
    else if within 0xf1 0xf3 b
    then begun b 3 0x80 0xbf
    else if b == 0xf4
    then begun b 3 0x80 0x8f
    else emitted replacement

scan_next : Scan → ℕ → Scan
unfolding scan_first
scan_next s b =
    let first = scan_first b in
    if s.need == 0
    then first
    else if within s.lo s.hi b
    then (if s.need == 1
        then emitted (s.held ++ b ∷ [])
        else record { emit = []; need = s.need - 1; lo = 0x80; hi = 0xbf; held = s.held ++ b ∷ [] })
    else record first { emit = replacement ++ first.emit }

lossy_from : Scan → Bytes → Bytes
unfolding scan_next
lossy_from s [] = if s.need == 0 then [] else replacement
lossy_from s (b ∷ bs) = let t = scan_next s b in t.emit ++ lossy_from t bs

unfoldable pub from_utf8_lossy : Bytes → Bytes
unfolding lossy_from
from_utf8_lossy s = lossy_from (emitted []) s

scan_next-ascii :
    (s : Bytes) (b : ℕ) → leb b 0x7f ≡ true → scan_next (emitted s) b ≡ emitted (b ∷ [])
unfolding scan_next
scan_next-ascii s b h = rw h

lossy_from-ascii :
    (p s : Bytes) → all_bytes (λ b. leb b 0x7f) s ≡ true → lossy_from (emitted p) s ≡ s
unfolding lossy_from
lossy_from-ascii p [] h = refl
lossy_from-ascii p (b ∷ bs) h = ground (arith, scan_next-ascii p b, lossy_from-ascii (b ∷ []) bs)

-- ASCII is read as it is.
pub from_utf8_lossy_ascii :
    (s : Bytes) → all_bytes (λ b. leb b 0x7f) s ≡ true → from_utf8_lossy s ≡ s
unfolding from_utf8_lossy
from_utf8_lossy_ascii s h = lossy_from-ascii [] s h
