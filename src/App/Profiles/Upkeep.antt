-- ===== src/App/Profiles/Upkeep.antt =====
-- crates/app/src/profiles.rs: every operation keeps the settings' names in order.
use open_ntripclient.Base.{
  ℕ, zero, suc, ◌+◌, ◌≤◌, Bool, Option, none, some, List, [], ◌∷◌, ◌≡◌, refl, ap, sym, ◌∙◌, arith,
  if_cases, Bool-cases, inl, inr, length, get_elem?,
}
use open_ntripclient.Base.Bytes.{Bytes, equal}
use open_ntripclient.Base.Text.{trim}
use open_ntripclient.App.Profiles.{
  remove_at, set_at, Profile, Settings, is_taken, unique_name, Checked, ok, problem,
}
use open_ntripclient.App.Profiles.Edit.{find_named, restore, save_from, rename_to}
use open_ntripclient.App.Profiles.Names.{
  equal→≡, hit, hit_same, uses, uses-insert_at, uses-remove_at, uses-set_at, uses_others, hit_other,
}
use open_ntripclient.App.Profiles.{find_free, suffixed, or_profile}
use open_ntripclient.App.Profiles.Normal.{IsNormal, join_unique, IsFree}

-- The profile found has the name.
abbrev pub IsNamed : Bytes → Option Profile → Type 0
IsNamed name none = Unit
IsNamed name (some p) = p.name ≡ name

find_named-IsNamed : (name : Bytes) (ps : List Profile) → IsNamed name (find_named name ps)
unfolding find_named
find_named-IsNamed name [] = tt
find_named-IsNamed name (p ∷ ps) = elim (Bool-cases (equal p.name name)) [
  | inl e ↦ rw (e, find_named) (equal→≡ p.name name e)
  | inr e ↦ rw (e, find_named) (find_named-IsNamed name ps)
]

module _ (differs : Profile → Profile → Bool) where
  uses-restore :
      (o : Option Profile) (src : ℕ) (current : Profile) (ps : List Profile) (name : Bytes)
      → IsNamed current.name o
      → get_elem? ps src ≡ some current
      → uses name (restore differs o src current ps) ≡ uses name ps
  unfolding restore
  uses-restore none src current ps name n e = refl
  uses-restore (some original) src current ps name n e =
      if_cases (λ l. uses name l ≡ uses name ps) (differs original current)
        (λ _.
          uses-set_at name src current original ps e
          ∙ ap (λ x. hit name x + uses name (remove_at src ps)) n
          ∙ uses-remove_at name src current ps e)
        (λ _. refl)

  pub save_from-IsNormal :
      (s saved : Settings) (src : ℕ) (o : Option Profile) (c : Checked Bytes)
      → get_elem? s.profiles src ≡ o
      → IsFree s c
      → IsNormal s
      → IsNormal (save_from differs s saved src o c).settings
  unfolding save_from
  save_from-IsNormal s saved src o (problem why) e f h = h
  save_from-IsNormal s saved src none (ok name) e f h = h
  save_from-IsNormal s saved src (some current) (ok name) e f h =
      let found = find_named current.name saved.profiles in
      let restored = restore differs found src current s.profiles in
      let same : (x : Bytes) → uses x restored ≡ uses x s.profiles = λ x.
        uses-restore found src current s.profiles x (find_named-IsNamed current.name saved.profiles)
          e in
      let p = record current { name = name } in
      record {
        unique = λ x. rw (uses-insert_at x (suc src) p restored) (
            join_unique x name (uses x restored)
              (λ n. same x ∙ ap (λ y. uses y s.profiles) (sym n) ∙ f)
              (omega (arith, same x, h.unique x)));
        active = omega (arith, uses-insert_at name (suc src) p restored, hit_same name);
      }

-- A name that is free but for the profile to skip.
abbrev pub FreeBut : ℕ → List Profile → Option Bytes → Type 0
FreeBut i ps none = Unit
FreeBut i ps (some name) = uses name (remove_at i ps) ≡ 0

find_free-FreeBut :
    (fuel k i : ℕ) (desired : Bytes) (ps : List Profile)
    → FreeBut i ps (find_free fuel k desired (some i) ps)
unfolding find_free
find_free-FreeBut zero k i desired ps = tt
find_free-FreeBut (suc fuel) k i desired ps =
    elim (Bool-cases (is_taken (suffixed desired k) (some i) ps)) [
      | inl e ↦ rw (e, find_free) (find_free-FreeBut fuel (suc k) i desired ps)
      | inr e ↦ rw (e, find_free) (uses_others (suffixed desired k) i ps e)
    ]

pub unique_name-FreeBut :
    (s : Settings) (desired : Bytes) (i : ℕ) → FreeBut i s.profiles (unique_name s desired (some i))
unfolding unique_name
unique_name-FreeBut s desired i =
    let name = or_profile (trim desired) in
    elim (Bool-cases (is_taken name (some i) s.profiles)) [
      | inl e ↦
          rw (e, unique_name) (find_free-FreeBut (suc (length s.profiles)) 2 i name s.profiles)
      | inr e ↦ rw (e, unique_name) (uses_others name i s.profiles e)
    ]

pub rename_to-IsNormal :
    (s : Settings) (i : ℕ) (o : Option Profile) (n : Option Bytes)
    → get_elem? s.profiles i ≡ o
    → FreeBut i s.profiles n
    → IsNormal s
    → IsNormal (rename_to s i o n).settings
unfolding rename_to
rename_to-IsNormal s i none n e f h = h
rename_to-IsNormal s i (some p) none e f h = h
rename_to-IsNormal s i (some p) (some name) e f h =
    let renamed = record p { name = name } in
    let ps = s.profiles in
    record {
      unique = λ x. rw (uses-set_at x i p renamed ps e) (
          join_unique x name (uses x (remove_at i ps))
            (λ n. ap (λ y. uses y (remove_at i ps)) (sym n) ∙ f)
            (omega (arith, uses-remove_at x i p ps e, h.unique x)));
      active =
          if_cases (λ a. 1 ≤ uses a (set_at i renamed ps)) (equal p.name s.active_profile)
            (λ _. omega (arith, uses-set_at name i p renamed ps e, hit_same name))
            (λ g. omega (
              arith,
              uses-set_at s.active_profile i p renamed ps e,
              hit_other s.active_profile p.name g,
              uses-remove_at s.active_profile i p ps e,
              h.active,
            ));
    }
