-- ===== src/Ntrip/Sourcetable/Kinds.antt =====
-- crates/ntrip-core/src/sourcetable.rs: which line is a row of which kind, told from its first bytes.
use open_ntripclient.Base.{
  ℕ, Bool, true, false, not, ◌&&◌, ◌||◌, List, [], ◌∷◌, ◌++◌, ◌≡◌, refl, ap, ◌∙◌, sym, arith, ◌==◌,
  if◌then◌else◌, Bool-cases, inl, inr, is_empty, ==_iff, get_or,
}
use open_ntripclient.Base.Bytes.{
  Bytes, ascii, equal, eq_ignore_ascii_case, trim_ascii, trim_ascii_start, trim_ascii_end,
  is_ascii_whitespace, starts_with, ascii_lower, to_ascii_lowercase,
}
use open_ntripclient.Base.Text.{split, glue}
use open_ntripclient.Ntrip.Sourcetable.{
  semicolon, field, Kind, skipped, str, cas, net, other, kind_of_name, kind_of,
}

-- The line is the name, or begins with the name and a semicolon.
unfoldable pub names : Bytes → Bytes → Bool
unfolding equal starts_with
names name line = equal line name || starts_with line (name ++ semicolon ∷ [])

-- A blank line, or the line that ends the table.
unfoldable pub is_dropped : Bytes → Bool
unfolding trim_ascii equal
is_dropped line =
    let text = trim_ascii line in
    is_empty text || equal (to_ascii_lowercase text) (ascii "endsourcetable")

unfoldable pub is_verbatim : Bytes → Bool
unfolding names is_dropped
is_verbatim line =
    not (names (ascii "STR") line || names (ascii "CAS") line || names (ascii "NET") line)
    && not (is_dropped line)

-- The first field of a row.
abbrev first : Bytes → Bytes
first [] = []
first (b ∷ bs) = let rest = first bs in if b == semicolon then [] else b ∷ rest

field-glue : (b : ℕ) (fs : List Bytes) → field (glue b fs) 0 ≡ b ∷ field fs 0
unfolding field
field-glue b [] = refl
field-glue b (f ∷ fs) = refl

first-split : (line : Bytes) → field (split semicolon line) 0 ≡ first line
unfolding field split
first-split [] = refl
first-split (b ∷ bs) = elim (Bool-cases (b == semicolon)) [
  | inl e ↦ rw (e, split) refl
  | inr e ↦ rw (e, split) ((field-glue b (split semicolon bs) ∙ ap (λ x. b ∷ x) (first-split bs)))
]

abbrev LacksSemicolon : Bytes → Type 0
LacksSemicolon [] = Unit
LacksSemicolon (c ∷ cs) = ((c == semicolon) ≡ false) × LacksSemicolon cs

names-first : (name line : Bytes) → LacksSemicolon name → equal (first line) name ≡ names name line
unfolding names equal starts_with
names-first [] [] h = refl
names-first (c ∷ cs) [] h = refl
names-first [] (b ∷ bs) h = elim (Bool-cases (b == semicolon)) [
  | inl e ↦ rw e refl
  | inr e ↦ rw e refl
]
names-first (c ∷ cs) (b ∷ bs) h = elim (Bool-cases (b == semicolon)) [
  | inl e ↦ ground (arith, h.0)
  | inr e ↦
      let ih = names-first cs bs h.1 in
      elim (Bool-cases (b == c)) [ inl f ↦ rw e (rw f ih) | inr f ↦ rw e (rw f refl) ]
]

-- A row's first byte is that of its name.
names-head : (c : ℕ) (cs line : Bytes) → names (c ∷ cs) line ≡ true → get_or line 0 0 ≡ c
unfolding names equal starts_with
names-head c cs [] h = absurd (cc)
names-head c cs (b ∷ bs) h = elim (Bool-cases (b == c)) [
  | inl e ↦ (==_iff b c).0 e
  | inr e ↦ let t : false ≡ true = rw e at h in absurd (cc)
]

end_kept :
    (b : ℕ) (bs r : Bytes)
    → is_ascii_whitespace b ≡ false
    → trim_ascii_end bs ≡ r
    → (t : Bytes) × (trim_ascii_end (b ∷ bs) ≡ b ∷ t)
unfolding trim_ascii_end
end_kept b bs [] h e = ([], rw (e, trim_ascii_end) (rw h refl))
end_kept b bs (d ∷ ds) h e = (d ∷ ds, rw (e, trim_ascii_end) refl)

head_kept :
    (b : ℕ) (bs : Bytes)
    → is_ascii_whitespace b ≡ false
    → (t : Bytes) × (trim_ascii (b ∷ bs) ≡ b ∷ t)
unfolding trim_ascii trim_ascii_start
head_kept b bs h = let (t, e) = end_kept b bs (trim_ascii_end bs) h refl in (t, rw h e)

dropped-head :
    (b : ℕ) (bs : Bytes)
    → is_ascii_whitespace b ≡ false
    → (ascii_lower b == b'e') ≡ false
    → is_dropped (b ∷ bs) ≡ false
unfolding is_dropped equal
dropped-head b bs h k = let (t, e) = head_kept b bs h in rw (e, is_dropped) (rw k refl)

-- A named row is not dropped.
names-is_dropped :
    (c : ℕ) (cs line : Bytes)
    → is_ascii_whitespace c ≡ false
    → (ascii_lower c == b'e') ≡ false
    → names (c ∷ cs) line ≡ true
    → is_dropped line ≡ false
names-is_dropped c cs [] h k n =
    let t : false ≡ true = unfold names equal starts_with in n in absurd (cc)
names-is_dropped c cs (b ∷ bs) h k n =
    let e : b ≡ c = names-head c cs (b ∷ bs) n in
    dropped-head b bs (ap is_ascii_whitespace e ∙ h) (ap (λ x. ascii_lower x == b'e') e ∙ k)

abbrev pick : Bool → Bool → Bool → Bool → Kind
pick s a b d = if s then skipped else if a then str else if b then cas else if d then net else other

kind_of-pick :
    (line : Bytes)
    → kind_of line
      ≡ pick
          (is_dropped line)
          (names (ascii "STR") line)
          (names (ascii "CAS") line)
          (names (ascii "NET") line)
unfolding kind_of kind_of_name is_dropped eq_ignore_ascii_case
kind_of-pick line = rw first-split (
    rw (names-first (ascii "STR") line (refl, (refl, (refl, tt)))) (
      rw (names-first (ascii "CAS") line (refl, (refl, (refl, tt))))
        (rw (names-first (ascii "NET") line (refl, (refl, (refl, tt)))) refl)))

abbrev pub same_kind : Kind → Kind → Bool
same_kind skipped skipped = true
same_kind str str = true
same_kind cas cas = true
same_kind net net = true
same_kind other other = true
same_kind _ _ = false

pick-str : (s a b d : Bool) → (a ≡ true → s ≡ false) → same_kind str (pick s a b d) ≡ a
pick-str true true b d h = absurd (let e = h refl in cc)
pick-str true false b d h = refl
pick-str false true b d h = refl
pick-str false false true d h = refl
pick-str false false false true h = refl
pick-str false false false false h = refl

pick-cas :
    (s a b d : Bool)
    → (b ≡ true → s ≡ false)
    → (b ≡ true → a ≡ false)
    → same_kind cas (pick s a b d) ≡ b
pick-cas true a true d h k = absurd (let e = h refl in cc)
pick-cas true a false d h k = refl
pick-cas false true true d h k = absurd (let e = k refl in cc)
pick-cas false true false d h k = refl
pick-cas false false true d h k = refl
pick-cas false false false true h k = refl
pick-cas false false false false h k = refl

pick-net :
    (s a b d : Bool)
    → (d ≡ true → s ≡ false)
    → (d ≡ true → a ≡ false)
    → (d ≡ true → b ≡ false)
    → same_kind net (pick s a b d) ≡ d
pick-net true a b true h k l = absurd (let e = h refl in cc)
pick-net true a b false h k l = refl
pick-net false true b true h k l = absurd (let e = k refl in cc)
pick-net false true b false h k l = refl
pick-net false false true true h k l = absurd (let e = l refl in cc)
pick-net false false true false h k l = refl
pick-net false false false true h k l = refl
pick-net false false false false h k l = refl

pick-other : (s a b d : Bool) → same_kind other (pick s a b d) ≡ (not (a || b || d) && not s)
pick-other true true b d = refl
pick-other true false true d = refl
pick-other true false false true = refl
pick-other true false false false = refl
pick-other false true b d = refl
pick-other false false true d = refl
pick-other false false false true = refl
pick-other false false false false = refl

-- Two names that begin with different bytes.
names_apart :
    (c d : ℕ) (cs ds line : Bytes)
    → (c == d) ≡ false
    → names (c ∷ cs) line ≡ true
    → names (d ∷ ds) line ≡ false
names_apart c d cs ds line h n = elim (Bool-cases (names (d ∷ ds) line)) [
  | inl e ↦
      let same : c ≡ d = sym (names-head c cs line n) ∙ names-head d ds line e in
      absurd (ground (arith, h, same))
  | inr e ↦ e
]

pub kind_of-str : (line : Bytes) → same_kind str (kind_of line) ≡ names (ascii "STR") line
kind_of-str line =
    ap (same_kind str) (kind_of-pick line)
    ∙ pick-str _ (names (ascii "STR") line) _ _ (names-is_dropped b'S' (ascii "TR") line refl refl)

pub kind_of-cas : (line : Bytes) → same_kind cas (kind_of line) ≡ names (ascii "CAS") line
kind_of-cas line =
    ap (same_kind cas) (kind_of-pick line)
    ∙ pick-cas _ _ (names (ascii "CAS") line) _ (names-is_dropped b'C' (ascii "AS") line refl refl)
        (names_apart b'C' b'S' (ascii "AS") (ascii "TR") line refl)

pub kind_of-net : (line : Bytes) → same_kind net (kind_of line) ≡ names (ascii "NET") line
kind_of-net line =
    ap (same_kind net) (kind_of-pick line)
    ∙ pick-net _ _ _ (names (ascii "NET") line) (names-is_dropped b'N' (ascii "ET") line refl refl)
        (names_apart b'N' b'S' (ascii "ET") (ascii "TR") line refl)
        (names_apart b'N' b'C' (ascii "ET") (ascii "AS") line refl)

pub kind_of-other : (line : Bytes) → same_kind other (kind_of line) ≡ is_verbatim line
unfolding is_verbatim
kind_of-other line = ap (same_kind other) (kind_of-pick line) ∙ pick-other _ _ _ _
