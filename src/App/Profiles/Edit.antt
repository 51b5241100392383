-- ===== src/App/Profiles/Edit.antt =====
-- crates/app/src/profiles.rs: the operations that change the list of profiles or its active one.
use open_ntripclient.Base.{
  ℕ, suc, Bool, true, false, ◌||◌, Option, none, some, List, [], ◌∷◌, leb, ◌==◌, if◌then◌else◌,
  is_empty, length, get_elem?, position,
}
use open_ntripclient.Base.Bytes.{Bytes, equal}
use open_ntripclient.Base.Text.{trim}
use open_ntripclient.App.Profiles.{
  insert_at, remove_at, set_at, blank, Checked, ok, problem, Profile, default_profile, Settings,
  unique_name, check_name,
}

-- The settings afterwards, and what the caller gets.
pub record Edited (A : Type 0) : Type 0 where
  pub settings : Settings
  pub answer : A

abbrev pub edited : {A : Type 0} → Settings → A → Edited A
edited s a = record { settings = s; answer = a }

-- `remove(from)` and `insert(to, p)`.
unfoldable pub shift : ℕ → Option Profile → ℕ → Settings → Edited Bool
unfolding remove_at insert_at
shift from none to s = edited s false
shift from (some p) to s =
    edited (record s { profiles = insert_at to p (remove_at from s.profiles) }) true

unfoldable pub move_profile : Settings → ℕ → ℕ → Edited Bool
unfolding shift
move_profile s from to =
    let n = length s.profiles in
    if leb n from || leb n to || from == to
    then edited s false
    else shift from (get_elem? s.profiles from) to s

unfoldable pub push_named : Settings → Checked Bytes → Edited (Checked ℕ)
unfolding insert_at
push_named s (problem why) = edited s (problem why)
push_named s (ok name) =
    edited
      (record s {
        profiles =
            insert_at (length s.profiles) (record default_profile { name = name }) s.profiles;
      })
      (ok (length s.profiles))

unfoldable pub add_named : Settings → Bytes → Edited (Checked ℕ)
unfolding check_name push_named
add_named s name = push_named s (check_name s none name)

unfoldable pub duplicate_as : Settings → ℕ → Option Profile → Checked Bytes → Edited (Checked ℕ)
unfolding insert_at
duplicate_as s i src (problem why) = edited s (problem why)
duplicate_as s i none (ok name) = edited s (problem blank)
duplicate_as s i (some src) (ok name) =
    edited (record s { profiles = insert_at (suc i) (record src { name = name }) s.profiles })
      (ok (suc i))

unfoldable pub duplicate_named : Settings → ℕ → Bytes → Edited (Checked ℕ)
unfolding check_name duplicate_as
duplicate_named s i name = duplicate_as s i (get_elem? s.profiles i) (check_name s none name)

abbrev pub or_zero : Option ℕ → ℕ
or_zero none = 0
or_zero (some i) = i

unfoldable pub active_index : Settings → ℕ
unfolding equal
active_index s = or_zero (position (λ p. equal p.name s.active_profile) s.profiles)

unfoldable pub find_named : Bytes → List Profile → Option Profile
unfolding equal
find_named name [] = none
find_named name (p ∷ ps) =
    let rest = find_named name ps in if equal p.name name then some p else rest

module _ (differs : Profile → Profile → Bool) where
  -- Back to the file's version, if it has one that differs.
  unfoldable pub restore : Option Profile → ℕ → Profile → List Profile → List Profile
  unfolding set_at
  restore none src current ps = ps
  restore (some original) src current ps =
      if differs original current then set_at src original ps else ps

  -- Without any profile the source's index panics; no settings whose names are in order are without
  -- one.
  unfoldable pub save_from :
      Settings → Settings → ℕ → Option Profile → Checked Bytes → Edited (Checked ℕ)
  unfolding find_named restore insert_at
  save_from s saved src current (problem why) = edited s (problem why)
  save_from s saved src none (ok name) = edited s (problem blank)
  save_from s saved src (some current) (ok name) =
      let restored = restore (find_named current.name saved.profiles) src current s.profiles in
      edited
        (record {
          active_profile = name;
          profiles = insert_at (suc src) (record current { name = name }) restored;
        })
        (ok (suc src))

  unfoldable pub save_as : Settings → Settings → Bytes → Edited (Checked ℕ)
  unfolding check_name active_index save_from
  save_as s saved name =
      save_from s saved (active_index s) (get_elem? s.profiles (active_index s))
        (check_name s none name)

unfoldable pub rename_to : Settings → ℕ → Option Profile → Option Bytes → Edited Bool
unfolding set_at equal
rename_to s i (some p) (some name) =
    edited
      (record {
        active_profile = if equal p.name s.active_profile then name else s.active_profile;
        profiles = set_at i (record p { name = name }) s.profiles;
      })
      true
rename_to s i _ _ = edited s false

unfoldable pub rename : Settings → ℕ → Bytes → Edited Bool
unfolding trim unique_name rename_to
rename s i new_name =
    if leb (length s.profiles) i || is_empty (trim new_name)
    then edited s false
    else rename_to s i (get_elem? s.profiles i) (unique_name s new_name (some i))

unfoldable pub activate_profile : Settings → Option Profile → Edited Bool
unfolding equal
activate_profile s none = edited s false
activate_profile s (some p) =
    if equal s.active_profile p.name
    then edited s false
    else edited (record s { active_profile = p.name }) true

unfoldable pub activate : Settings → ℕ → Edited Bool
unfolding activate_profile
activate s i = activate_profile s (get_elem? s.profiles i)

abbrev pub first_name : Bytes → List Profile → Bytes
first_name name [] = name
first_name name (p ∷ ps) = p.name

unfoldable pub remove_found : Settings → ℕ → Option Profile → Edited Bool
unfolding equal remove_at
remove_found s i none = edited s false
remove_found s i (some p) =
    let rest = remove_at i s.profiles in
    edited
      (record {
        active_profile =
            if equal p.name s.active_profile
            then first_name s.active_profile rest
            else s.active_profile;
        profiles = rest;
      })
      true

unfoldable pub remove : Settings → ℕ → Edited Bool
unfolding remove_found
remove s i =
    if leb (length s.profiles) 1 || leb (length s.profiles) i
    then edited s false
    else remove_found s i (get_elem? s.profiles i)
