-- ===== src/Base/Text.antt =====
-- Rust's `str` functions that go by characters or by a separator, on the UTF-8 bytes.
use Prim.Native.Nat.{ℕ}
use mathlib.Core.Bool.{Bool, true, false, not, ◌&&◌, ◌||◌}
use mathlib.Core.List.{List, [], ◌∷◌, ◌++◌}
use mathlib.Core.Path.{◌≡◌, refl, ap, sym, ◌∙◌}
use mathlib.Core.Logic.{inl, inr}
use native.Mathlib.Omega.{arith}
use open_ntripclient.Base.Tests.{◌==◌, if◌then◌else◌, Bool-cases}
use open_ntripclient.Base.Bytes.{Bytes, within, all_bytes}

-- A byte in front of the pieces of what follows it.
abbrev pub glue : ℕ → List Bytes → List Bytes
glue b [] = (b ∷ []) ∷ []
glue b (f ∷ fs) = (b ∷ f) ∷ fs

-- `split(sep)`, of a one-byte separator.
unfoldable pub split : ℕ → Bytes → List Bytes
split sep [] = [] ∷ []
split sep (b ∷ bs) = let rest = split sep bs in if b == sep then [] ∷ rest else glue b rest

-- `join(sep)`
unfoldable pub join : ℕ → List Bytes → Bytes
join sep [] = []
join sep (f ∷ []) = f
join sep (f ∷ g ∷ fs) = f ++ sep ∷ join sep (g ∷ fs)

abbrev pub is_continuation : Bytes → Bool
is_continuation [] = false
is_continuation (b ∷ bs) = within 0x80 0xbf b

-- The characters, each as its bytes.
unfoldable pub chars : Bytes → List Bytes
chars [] = []
chars (b ∷ bs) = let rest = chars bs in if is_continuation bs then glue b rest else (b ∷ []) ∷ rest

-- `char::is_whitespace`: the characters with the Unicode property White_Space.
unfoldable pub is_whitespace : Bytes → Bool
is_whitespace (b ∷ []) = within 9 13 b || b == 32
is_whitespace (a ∷ b ∷ []) = a == 0xc2 && (b == 0x85 || b == 0xa0)
is_whitespace (a ∷ b ∷ c ∷ []) =
    (a == 0xe1 && b == 0x9a && c == 0x80)
    || (a == 0xe2 && b == 0x80 && (within 0x80 0x8a c || c == 0xa8 || c == 0xa9 || c == 0xaf))
    || (a == 0xe2 && b == 0x81 && c == 0x9f)
    || (a == 0xe3 && b == 0x80 && c == 0x80)
is_whitespace _ = false

unfoldable pub trim_chars_start : List Bytes → List Bytes
unfolding is_whitespace
trim_chars_start [] = []
trim_chars_start (c ∷ cs) =
    let rest = trim_chars_start cs in if is_whitespace c then rest else c ∷ cs

unfoldable pub trim_chars_end : List Bytes → List Bytes
unfolding is_whitespace
trim_chars_end [] = []
trim_chars_end (c ∷ cs) = elim (trim_chars_end cs) [
  | [] ↦ if is_whitespace c then [] else c ∷ []
  | d ∷ ds ↦ c ∷ d ∷ ds
]

abbrev pub concat : List Bytes → Bytes
concat [] = []
concat (c ∷ cs) = c ++ concat cs

-- `str::trim`
unfoldable pub trim : Bytes → Bytes
unfolding chars trim_chars_start trim_chars_end
trim s = concat (trim_chars_end (trim_chars_start (chars s)))

-- `str::trim_end`
unfoldable pub trim_end : Bytes → Bytes
unfolding chars trim_chars_end
trim_end s = concat (trim_chars_end (chars s))

-- `str::split_whitespace`: the runs of other characters.
unfoldable pub words_of : List Bytes → Bytes → List Bytes
unfolding is_whitespace
words_of [] word = elim word [ [] ↦ [] | b ∷ bs ↦ (b ∷ bs) ∷ [] ]
words_of (c ∷ cs) word =
    let next = words_of cs [] in
    let more = words_of cs (word ++ c) in
    if is_whitespace c then elim word [ [] ↦ next | b ∷ bs ↦ (b ∷ bs) ∷ next ] else more

unfoldable pub split_whitespace : Bytes → List Bytes
unfolding chars words_of
split_whitespace s = words_of (chars s) []

-- Nowhere the byte.
abbrev pub Lacks : ℕ → Bytes → Type 0
Lacks sep [] = Unit
Lacks sep (b ∷ bs) = ((b == sep) ≡ false) × Lacks sep bs

==_same : (a : ℕ) → (a == a) ≡ true
==_same a = ground arith

pub split-Lacks :
    (sep : ℕ) (f rest : Bytes) → Lacks sep f → split sep (f ++ sep ∷ rest) ≡ f ∷ split sep rest
unfolding split
split-Lacks sep [] rest h = rw (==_same sep) refl
split-Lacks sep (b ∷ bs) rest h = rw (h.0) (ap (glue b) (split-Lacks sep bs rest h.1))

glue-join : (sep b : ℕ) (fs : List Bytes) → join sep (glue b fs) ≡ b ∷ join sep fs
unfolding join
glue-join sep b [] = refl
glue-join sep b (f ∷ []) = refl
glue-join sep b (f ∷ g ∷ fs) = refl

-- `split` gives at least one piece.
pub split-some : (sep : ℕ) (s : Bytes) → (f : Bytes) × (fs : List Bytes) × (split sep s ≡ f ∷ fs)
unfolding split
split-some sep [] = ([], [], refl)
split-some sep (b ∷ bs) = elim (Bool-cases (b == sep)) [
  | inl e ↦ ([], split sep bs, rw e refl)
  | inr e ↦ let (f, fs, h) = split-some sep bs in (b ∷ f, fs, rw e (ap (glue b) h))
]

pub join-split : (sep : ℕ) (s : Bytes) → join sep (split sep s) ≡ s
unfolding split join
join-split sep [] = refl
join-split sep (b ∷ bs) = elim (Bool-cases (b == sep)) [
  | inl e ↦
      let (f, fs, h) = split-some sep bs in
      let same : b ≡ sep = ground arith in
      rw e (
        rw (same) (
          ap (λ l. join sep ([] ∷ l)) h
          ∙ ap (λ l. sep ∷ join sep l) (sym h)
          ∙ ap (◌∷◌ sep) (join-split sep bs)))
  | inr e ↦ rw e (glue-join sep b (split sep bs) ∙ ap (◌∷◌ b) (join-split sep bs))
]

-- A test of a concrete text.
pub all_bytes-Lacks : (sep : ℕ) (f : Bytes) → all_bytes (λ b. not (b == sep)) f ≡ true → Lacks sep f
all_bytes-Lacks sep [] h = tt
all_bytes-Lacks sep (b ∷ bs) h = (ground arith, all_bytes-Lacks sep bs (ground arith))
