-- ===== src/Base/Bytes.antt =====
-- Byte strings. A `String` of the program is the list of its UTF-8 bytes; the functions are those
-- of Rust's standard library on `[u8]` and `str` that the program calls.
use Prim.Native.Nat.{◌<◌, ℕ, zero, suc, ◌+◌, ◌-◌, ◌/◌, ◌%◌}
use Prim.Native.Char.{code}
use Prim.Native.String.{String}
use mathlib.Core.Bool.{Bool, true, false, ◌&&◌, ◌||◌}
use mathlib.Core.List.{List, [], ◌∷◌, ◌++◌, map}
use open_ntripclient.Base.Tests.{ltb, leb, ◌==◌, if◌then◌else◌, Bool-cases}
use open_ntripclient.Base.Lists.{last, init, last-concat, init-concat}
use mathlib.Core.Path.{◌≡◌, refl}
use mathlib.Core.Logic.{inl, inr}
use native.Mathlib.Omega.{arith}
use mathlib.Core.Option.{none, some}

abbrev pub Bytes : Type 0
Bytes = List ℕ

-- The bytes of an ASCII literal.
abbrev pub ascii : String → Bytes
ascii String.[] = []
ascii (String.◌∷◌ c s) = code c ∷ ascii s

abbrev pub within : ℕ → ℕ → ℕ → Bool
within lo hi c = leb lo c && leb c hi

abbrev pub cr : ℕ
cr = 13

abbrev pub lf : ℕ
lf = 10

abbrev pub crlf : Bytes
crlf = cr ∷ lf ∷ []

-- `u8::is_ascii_whitespace`: space, tab, LF, form feed and CR.
abbrev pub is_ascii_whitespace : ℕ → Bool
is_ascii_whitespace c = c == 32 || c == 9 || c == 10 || c == 12 || c == 13

abbrev pub is_ascii_digit : ℕ → Bool
is_ascii_digit = within b'0' b'9'

abbrev pub is_ascii_alphanumeric : ℕ → Bool
is_ascii_alphanumeric c = is_ascii_digit c || within b'a' b'z' c || within b'A' b'Z' c

unfoldable pub trim_ascii_start : Bytes → Bytes
trim_ascii_start [] = []
trim_ascii_start (c ∷ cs) =
    let rest = trim_ascii_start cs in if is_ascii_whitespace c then rest else c ∷ cs

unfoldable pub trim_ascii_end : Bytes → Bytes
trim_ascii_end [] = []
trim_ascii_end (c ∷ cs) = elim (trim_ascii_end cs) [
  | [] ↦ if is_ascii_whitespace c then [] else c ∷ []
  | d ∷ ds ↦ c ∷ d ∷ ds
]

unfoldable pub trim_ascii : Bytes → Bytes
unfolding trim_ascii_start trim_ascii_end
trim_ascii s = trim_ascii_end (trim_ascii_start s)

abbrev pub ascii_upper : ℕ → ℕ
ascii_upper c = if within b'a' b'z' c then c - 32 else c

abbrev pub ascii_lower : ℕ → ℕ
ascii_lower c = if within b'A' b'Z' c then c + 32 else c

abbrev pub to_ascii_uppercase : Bytes → Bytes
to_ascii_uppercase = map ascii_upper

abbrev pub to_ascii_lowercase : Bytes → Bytes
to_ascii_lowercase = map ascii_lower

unfoldable pub equal : Bytes → Bytes → Bool
equal [] [] = true
equal (x ∷ xs) (y ∷ ys) = x == y && equal xs ys
equal _ _ = false

unfoldable pub eq_ignore_ascii_case : Bytes → Bytes → Bool
unfolding equal
eq_ignore_ascii_case a b = equal (to_ascii_lowercase a) (to_ascii_lowercase b)

unfoldable pub starts_with : Bytes → Bytes → Bool
starts_with s [] = true
starts_with [] (p ∷ ps) = false
starts_with (c ∷ cs) (p ∷ ps) = c == p && starts_with cs ps

-- `haystack.contains(needle)`
unfoldable pub contains : Bytes → Bytes → Bool
unfolding starts_with
contains [] p = starts_with [] p
contains (c ∷ cs) p = starts_with (c ∷ cs) p || contains cs p

-- A line without its last byte, if that byte is CR.
unfoldable pub strip_cr : Bytes → Bytes
strip_cr l = elim (last l) [ some c ↦ if c == cr then init l else l | none ↦ l ]

-- The bytes that pass a test, in order.
unfoldable pub keep : (ℕ → Bool) → Bytes → Bytes
keep test [] = []
keep test (c ∷ cs) = if test c then c ∷ keep test cs else keep test cs

abbrev pub hex_upper : ℕ → ℕ
hex_upper d = if leb 10 d then d + 55 else d + 48

-- `{:02X}` of a byte.
abbrev pub format_02x : ℕ → Bytes
format_02x b = hex_upper (b / 16) ∷ hex_upper (b % 16) ∷ []

-- `{}` of a number below `10 ^ fuel`: its decimal digits, most significant first.
unfoldable pub decimal : ℕ → ℕ → Bytes
decimal zero n = []
decimal (suc fuel) n =
    let rest = decimal fuel (n / 10) in
    if ltb n 10 then (n + 48) ∷ [] else rest ++ (n % 10 + 48) ∷ []

-- `iter().all(test)`
abbrev pub all_bytes : (ℕ → Bool) → Bytes → Bool
all_bytes test [] = true
all_bytes test (c ∷ cs) = test c && all_bytes test cs

pub all_bytes-append :
    (test : ℕ → Bool) (xs ys : Bytes)
    → all_bytes test xs ≡ true
    → all_bytes test ys ≡ true
    → all_bytes test (xs ++ ys) ≡ true
all_bytes-append test [] ys h k = k
all_bytes-append test (x ∷ xs) ys h k = ground (arith, all_bytes-append test xs ys)

pub all_bytes-keep : (test : ℕ → Bool) (xs : Bytes) → all_bytes test (keep test xs) ≡ true
unfolding keep
all_bytes-keep test [] = refl
all_bytes-keep test (x ∷ xs) = elim (Bool-cases (test x)) [
  | inl e ↦ rw e (rw e (all_bytes-keep test xs))
  | inr e ↦ rw e (all_bytes-keep test xs)
]

pub all_bytes_weaken :
    (p q : ℕ → Bool) (xs : Bytes)
    → ((b : ℕ) → p b ≡ true → q b ≡ true)
    → all_bytes p xs ≡ true
    → all_bytes q xs ≡ true
all_bytes_weaken p q [] f h = refl
all_bytes_weaken p q (x ∷ xs) f h = ground (arith, f x, all_bytes_weaken p q xs f)

pub strip_cr-append_cr : (l : Bytes) → strip_cr (l ++ cr ∷ []) ≡ l
unfolding strip_cr
strip_cr-append_cr l = rw (last-concat l cr, strip_cr) (init-concat l cr)

-- Every item is a byte.
abbrev pub AreBytes : Bytes → Type 0
AreBytes [] = Unit
AreBytes (b ∷ bs) = (b < 256) × AreBytes bs
