-- ===== src/App/Profiles/Free.antt =====
-- crates/app/src/profiles.rs: the search for a free suffix ends with one, so that a rename lands.
use open_ntripclient.Base.{
  ℕ, zero, suc, ◌+◌, ◌-◌, ◌*◌, ◌/◌, ◌%◌, ◌^◌, ◌≤◌, ◌<◌, Bool, true, false, ◌||◌, Option, none, some,
  List, [], ◌∷◌, ◌++◌, ◌≡◌, refl, ap, sym, ◌∙◌, arith, ltb, leb, if◌then◌else◌, if_cases,
  Bool-cases, inl, inr, length, get_elem?, drop, drop_of_append, is_empty,
}
use native.Mathlib.Nat.{pow-succ'}
use open_ntripclient.Base.Bytes.{Bytes, equal, decimal}
use open_ntripclient.Base.Text.{trim}
use open_ntripclient.App.Profiles.{
  Profile, Settings, is_taken, suffixed, find_free, or_profile, unique_name,
}
use open_ntripclient.App.Profiles.Edit.{rename_to, rename}
use open_ntripclient.App.Profiles.Names.{equal→≡, hit, hit_other, uses}

-- The number that decimal digits stand for.
abbrev value : ℕ → Bytes → ℕ
value acc [] = acc
value acc (c ∷ cs) = value (acc * 10 + (c - 48)) cs

value-append :
    (acc : ℕ) (xs : Bytes) (c : ℕ) → value acc (xs ++ c ∷ []) ≡ value acc xs * 10 + (c - 48)
value-append acc [] c = refl
value-append acc (x ∷ xs) c = value-append (acc * 10 + (x - 48)) xs c

value-decimal : (n k : ℕ) → k < 10 ^ n → value 0 (decimal n k) ≡ k
unfolding decimal
value-decimal zero k h = omega (arith, h)
value-decimal (suc n) k h = elim (Bool-cases (ltb k 10)) [
  | inl e ↦ rw (e, decimal) (omega arith)
  | inr e ↦
      let fits : k / 10 < 10 ^ n =
        let grown : 10 ^ suc n ≡ 10 * 10 ^ n = pow-succ' 10 n in omega (arith, h, grown) in
      rw (e, decimal)
        (value-append 0 (decimal n (k / 10)) (k % 10 + 48)
          ∙ omega (arith, value-decimal n (k / 10) fits))
]

suffixed_injective :
    (d : Bytes) (j k : ℕ) → j < 10 ^ 10 → k < 10 ^ 10 → suffixed d j ≡ suffixed d k → j ≡ k
suffixed_injective d j k g h e =
    let spaced : b' ' ∷ decimal 10 j ≡ b' ' ∷ decimal 10 k =
      sym (drop_of_append d (b' ' ∷ decimal 10 j))
      ∙ ap (drop (length d)) e
      ∙ drop_of_append d (b' ' ∷ decimal 10 k) in
    sym (value-decimal 10 j g) ∙ ap (value 0) (ap (drop 1) spaced) ∙ value-decimal 10 k h

-- How many of the candidates from `k` on are the name, and how many profiles they name.
abbrev hits : ℕ → ℕ → Bytes → Bytes → ℕ
hits zero k d x = 0
hits (suc fuel) k d x = hit (suffixed d k) x + hits fuel (suc k) d x

abbrev named : ℕ → ℕ → Bytes → List Profile → ℕ
named zero k d ps = 0
named (suc fuel) k d ps = uses (suffixed d k) ps + named fuel (suc k) d ps

later_hits :
    (fuel j k : ℕ) (d : Bytes) → j < k → k + fuel ≤ 10 ^ 10 → hits fuel k d (suffixed d j) ≡ 0
later_hits zero j k d l b = refl
later_hits (suc fuel) j k d l b = elim (Bool-cases (equal (suffixed d j) (suffixed d k))) [
  | inl e ↦
      let same =
        suffixed_injective d j k (omega (arith, l, b)) (omega (arith, b))
          (equal→≡ (suffixed d j) (suffixed d k) e) in
      absurd (omega (arith, same, l))
  | inr e ↦ omega (
    arith,
    hit_other (suffixed d k) (suffixed d j) e,
    later_hits fuel j (suc k) d (omega (arith, l)) (omega (arith, b)),
  )
]

hits_once : (fuel k : ℕ) (d x : Bytes) → k + fuel ≤ 10 ^ 10 → hits fuel k d x ≤ 1
hits_once zero k d x b = omega arith
hits_once (suc fuel) k d x b = elim (Bool-cases (equal x (suffixed d k))) [
  | inl e ↦
      let one : hit (suffixed d k) x ≡ 1 = rw e refl in
      let none_later : hits fuel (suc k) d x ≡ 0 =
        ap (hits fuel (suc k) d) (equal→≡ x (suffixed d k) e)
        ∙ later_hits fuel k (suc k) d (omega arith) (omega (arith, b)) in
      omega (arith, one, none_later)
  | inr e ↦
      omega (arith, hit_other (suffixed d k) x e, hits_once fuel (suc k) d x (omega (arith, b)))
]

named-cons :
    (fuel k : ℕ) (d : Bytes) (p : Profile) (ps : List Profile)
    → named fuel k d (p ∷ ps) ≡ hits fuel k d p.name + named fuel k d ps
named-cons zero k d p ps = refl
named-cons (suc fuel) k d p ps = omega (arith, named-cons fuel (suc k) d p ps)

named-nil : (fuel k : ℕ) (d : Bytes) → named fuel k d [] ≡ 0
named-nil zero k d = refl
named-nil (suc fuel) k d = omega (arith, named-nil fuel (suc k) d)

named_within :
    (fuel k : ℕ) (d : Bytes) (ps : List Profile)
    → k + fuel ≤ 10 ^ 10
    → named fuel k d ps ≤ length ps
named_within fuel k d [] b = omega (arith, named-nil fuel k d)
named_within fuel k d (p ∷ ps) b =
    omega (arith, named-cons fuel k d p ps, hits_once fuel k d p.name b, named_within fuel k d ps b)

right_of : (a b : Bool) → (a || b) ≡ true → a ≡ false → b ≡ true
right_of true b h e = absurd (cc)
right_of false b h e = h

taken_uses :
    (x : Bytes) (skip : Option ℕ) (ps : List Profile) → is_taken x skip ps ≡ true → 1 ≤ uses x ps
unfolding is_taken
taken_uses x skip [] h = absurd (cc)
taken_uses x none (p ∷ ps) h = elim (Bool-cases (equal p.name x)) [
  | inl e ↦ let one : hit x p.name ≡ 1 = rw e refl in omega (arith, one)
  | inr e ↦ omega (arith, taken_uses x none ps (right_of (equal p.name x) (is_taken x none ps) h e))
]
taken_uses x (some zero) (p ∷ ps) h = omega (arith, taken_uses x none ps h)
taken_uses x (some (suc i)) (p ∷ ps) h = elim (Bool-cases (equal p.name x)) [
  | inl e ↦ let one : hit x p.name ≡ 1 = rw e refl in omega (arith, one)
  | inr e ↦
      omega
        (arith, taken_uses x (some i) ps (right_of (equal p.name x) (is_taken x (some i) ps) h e))
]

-- A search that fails has seen a profile of each candidate.
abbrev is_found : Option Bytes → Bool
is_found none = false
is_found (some x) = true

if_found :
    (c : Bool) (rest : Option Bytes) (x : Bytes)
    → is_found (if c then rest else some x) ≡ false
    → (c ≡ true) × (is_found rest ≡ false)
if_found true rest x h = (refl, h)
if_found false rest x h = absurd (cc)

search_fails :
    (fuel k : ℕ) (d : Bytes) (skip : Option ℕ) (ps : List Profile)
    → is_found (find_free fuel k d skip ps) ≡ false
    → fuel ≤ named fuel k d ps
unfolding find_free
search_fails zero k d skip ps h = omega arith
search_fails (suc fuel) k d skip ps h =
    let (t, r) =
      if_found (is_taken (suffixed d k) skip ps) (find_free fuel (suc k) d skip ps) (suffixed d k)
        h in
    omega (arith, taken_uses (suffixed d k) skip ps t, search_fails fuel (suc k) d skip ps r)

unique_name_found :
    (s : Settings) (desired : Bytes) (skip : Option ℕ)
    → length s.profiles + 3 ≤ 10 ^ 10
    → is_found (unique_name s desired skip) ≡ true
unfolding unique_name
unique_name_found s desired skip b =
    let name = or_profile (trim desired) in
    let n = length s.profiles in
    if_cases (λ (o : Option Bytes). is_found o ≡ true) (is_taken name skip s.profiles)
      (λ t. elim (Bool-cases (is_found (find_free (suc n) 2 name skip s.profiles))) [
        | inl e ↦ e
        | inr e ↦ absurd (
            omega (
              arith,
              search_fails (suc n) 2 name skip s.profiles e,
              named_within (suc n) 2 name s.profiles (omega (arith, b)),
            ))
      ])
      (λ t. refl)

rename_to_found :
    (s : Settings) (at i : ℕ) (ps : List Profile) (n : Option Bytes)
    → suc i ≤ length ps
    → is_found n ≡ true
    → (rename_to s at (get_elem? ps i) n).answer ≡ true
unfolding rename_to
rename_to_found s at i [] n l f = absurd (omega arith)
rename_to_found s at i (p ∷ ps) none l f = absurd (cc)
rename_to_found s at zero (p ∷ ps) (some name) l f = refl
rename_to_found s at (suc i) (p ∷ ps) (some name) l f =
    rename_to_found s at i ps (some name) (omega arith) f

-- A rename of a profile that exists, to a name that is not blank, lands: the search for a free suffix
-- ends, with at most 2 ^ 32 - 4 profiles, whose suffixes fit 32 bits.
pub rename_lands :
    (s : Settings) (i : ℕ) (name : Bytes)
    → suc i ≤ length s.profiles
    → is_empty (trim name) ≡ false
    → length s.profiles + 4 ≤ 2 ^ 32
    → (rename s i name).answer ≡ true
unfolding rename
rename_lands s i name l e b =
    let few : length s.profiles + 3 ≤ 10 ^ 10 = omega (arith, b) in
    let inside : leb (length s.profiles) i ≡ false = ground arith in
    rw (inside, rename)
      (rw (e, rename)
        (rename_to_found s i i s.profiles (unique_name s name (some i)) l
          (unique_name_found s name (some i) few)))
