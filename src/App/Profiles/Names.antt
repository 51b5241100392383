-- ===== src/App/Profiles/Names.antt =====
-- crates/app/src/profiles.rs: how often a name stands in a list of profiles, through each change.
use open_ntripclient.Base.{
  ℕ, zero, suc, ◌+◌, ◌≤◌, Bool, true, false, ◌||◌, Option, none, some, List, [], ◌∷◌, ◌≡◌, refl, ap,
  ◌∙◌, arith, ◌==◌, if◌then◌else◌, Bool-cases, inl, inr, get_elem?,
}
use open_ntripclient.Base.Bytes.{Bytes, equal}
use open_ntripclient.App.Profiles.{insert_at, remove_at, set_at, Profile, is_taken}

pub equal_same : (x : Bytes) → equal x x ≡ true
unfolding equal
equal_same [] = refl
equal_same (b ∷ bs) = ground (arith, equal_same bs)

pub equal→≡ : (x y : Bytes) → equal x y ≡ true → x ≡ y
unfolding equal
equal→≡ [] [] h = refl
equal→≡ [] (y ∷ ys) h = absurd (cc)
equal→≡ (x ∷ xs) [] h = absurd (cc)
equal→≡ (x ∷ xs) (y ∷ ys) h = elim (Bool-cases (x == y)) [
  | inl e ↦
      let rest = equal→≡ xs ys (ground arith) in
      let first : x ≡ y = ground arith in ap (λ b. b ∷ xs) first ∙ ap (◌∷◌ y) rest
  | inr e ↦ absurd (ground arith)
]

abbrev pub hit : Bytes → Bytes → ℕ
hit name x = if equal x name then 1 else 0

-- How many profiles have the name.
abbrev pub uses : Bytes → List Profile → ℕ
uses name [] = 0
uses name (p ∷ ps) = hit name p.name + uses name ps

pub hit_same : (name : Bytes) → hit name name ≡ 1
hit_same name = rw (equal_same name) refl

pub uses-insert_at :
    (name : Bytes) (i : ℕ) (p : Profile) (ps : List Profile)
    → uses name (insert_at i p ps) ≡ hit name p.name + uses name ps
unfolding insert_at
uses-insert_at name zero p ps = refl
uses-insert_at name (suc i) p [] = refl
uses-insert_at name (suc i) p (q ∷ qs) = omega (arith, uses-insert_at name i p qs)

abbrev hit_in : Bytes → Option Profile → ℕ
hit_in name none = 0
hit_in name (some p) = hit name p.name

pub uses-remove_at :
    (name : Bytes) (i : ℕ) (p : Profile) (ps : List Profile)
    → get_elem? ps i ≡ some p
    → hit name p.name + uses name (remove_at i ps) ≡ uses name ps
unfolding remove_at
uses-remove_at name i p [] e = absurd (cc)
uses-remove_at name zero p (q ∷ qs) e = omega (arith, ap (hit_in name) e)
uses-remove_at name (suc i) p (q ∷ qs) e = omega (arith, uses-remove_at name i p qs e)

pub uses-set_at :
    (name : Bytes) (i : ℕ) (p r : Profile) (ps : List Profile)
    → get_elem? ps i ≡ some p
    → uses name (set_at i r ps) ≡ hit name r.name + uses name (remove_at i ps)
unfolding set_at remove_at
uses-set_at name i p r [] e = absurd (cc)
uses-set_at name zero p r (q ∷ qs) e = refl
uses-set_at name (suc i) p r (q ∷ qs) e = omega (arith, uses-set_at name i p r qs e)

neither_of : (a b : Bool) → (a || b) ≡ false → (a ≡ false) × (b ≡ false)
neither_of true b h = absurd (cc)
neither_of false b h = (refl, h)

pub hit_other : (name x : Bytes) → equal x name ≡ false → hit name x ≡ 0
hit_other name x e = rw e refl

-- A name that is not taken is used nowhere, or only by the profile to skip.
pub uses-is_taken :
    (name : Bytes) (ps : List Profile) → is_taken name none ps ≡ false → uses name ps ≡ 0
unfolding is_taken
uses-is_taken name [] h = refl
uses-is_taken name (p ∷ ps) h =
    let (e, k) = neither_of (equal p.name name) (is_taken name none ps) h in
    omega (arith, hit_other name p.name e, uses-is_taken name ps k)

pub uses_others :
    (name : Bytes) (i : ℕ) (ps : List Profile)
    → is_taken name (some i) ps ≡ false
    → uses name (remove_at i ps) ≡ 0
unfolding is_taken remove_at
uses_others name i [] h = refl
uses_others name zero (p ∷ ps) h = uses-is_taken name ps h
uses_others name (suc i) (p ∷ ps) h =
    let (e, k) = neither_of (equal p.name name) (is_taken name (some i) ps) h in
    omega (arith, hit_other name p.name e, uses_others name i ps k)

pub uses_found :
    (i : ℕ) (p : Profile) (ps : List Profile) → get_elem? ps i ≡ some p → 1 ≤ uses p.name ps
uses_found i p ps e = omega (arith, uses-remove_at p.name i p ps e, hit_same p.name)
