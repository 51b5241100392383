-- ===== src/App/Profiles/Normal.antt =====
-- crates/app/src/profiles.rs: the names stay unique, and the active one stays among them.
use open_ntripclient.Base.{
  ℕ, zero, suc, ◌+◌, ◌≤◌, Bool, Option, none, some, List, [], ◌∷◌, ◌≡◌, ap, sym, ◌∙◌, arith,
  if_cases, Bool-cases, inl, inr, length, get_elem?, is_empty,
}
use open_ntripclient.Base.Bytes.{Bytes, equal}
use open_ntripclient.Base.Text.{trim}
use open_ntripclient.App.Profiles.{
  insert_at, remove_at, Profile, Settings, is_taken, check_name, Checked, ok, problem,
}
use open_ntripclient.App.Profiles.Edit.{
  Edited, shift, push_named, duplicate_as, activate_profile, first_name, remove_found,
}
use open_ntripclient.App.Profiles.Names.{
  equal→≡, hit, hit_same, uses, uses-insert_at, uses-remove_at, uses-is_taken, uses_found,
  hit_other,
}

-- No two profiles share a name, and one has the active name; so there is one.
pub record IsNormal (s : Settings) : Type 0 where
  pub unique : (name : Bytes) → uses name s.profiles ≤ 1
  pub active : 1 ≤ uses s.active_profile s.profiles

-- A name that joins names which do not have it.
pub join_unique : (name new : Bytes) (n : ℕ) → (new ≡ name → n ≡ 0) → n ≤ 1 → hit name new + n ≤ 1
join_unique name new n z l = elim (Bool-cases (equal new name)) [
  | inl e ↦ rw e (omega (arith, z (equal→≡ new name e)))
  | inr e ↦ rw e (omega (arith, l))
]

insert_fresh :
    (i : ℕ) (p : Profile) (ps : List Profile)
    → uses p.name ps ≡ 0
    → ((name : Bytes) → uses name ps ≤ 1)
    → (name : Bytes) → uses name (insert_at i p ps) ≤ 1
insert_fresh i p ps fresh u name =
    rw (uses-insert_at name i p ps)
      (join_unique name p.name (uses name ps) (λ e. ap (λ x. uses x ps) (sym e) ∙ fresh) (u name))

pub insert-IsNormal :
    (i : ℕ) (p : Profile) (s : Settings)
    → uses p.name s.profiles ≡ 0
    → IsNormal s
    → IsNormal (record s { profiles = insert_at i p s.profiles })
insert-IsNormal i p s fresh h = record {
  unique = insert_fresh i p s.profiles fresh h.unique;
  active = omega (arith, h.active, uses-insert_at s.active_profile i p s.profiles);
}

-- A free name, as the check found it.
abbrev pub IsFree : Settings → Checked Bytes → Type 0
IsFree s (ok name) = uses name s.profiles ≡ 0
IsFree s (problem why) = Unit

pub check_name-IsFree : (s : Settings) (name : Bytes) → IsFree s (check_name s none name)
unfolding check_name
check_name-IsFree s name = elim (Bool-cases (is_empty (trim name))) [
  | inl e ↦ rw (e, check_name) tt
  | inr e ↦ elim (Bool-cases (is_taken (trim name) none s.profiles)) [
    | inl f ↦ rw (e, check_name) (rw (f, check_name) tt)
    | inr f ↦ rw (e, check_name) (rw (f, check_name) (uses-is_taken (trim name) s.profiles f))
  ]
]

pub push_named-IsNormal :
    (s : Settings) (c : Checked Bytes)
    → IsFree s c
    → IsNormal s
    → IsNormal (push_named s c).settings
unfolding push_named
push_named-IsNormal s (problem why) f h = h
push_named-IsNormal s (ok name) f h = insert-IsNormal _ _ s f h

pub duplicate_as-IsNormal :
    (s : Settings) (i : ℕ) (src : Option Profile) (c : Checked Bytes)
    → IsFree s c
    → IsNormal s
    → IsNormal (duplicate_as s i src c).settings
unfolding duplicate_as
duplicate_as-IsNormal s i src (problem why) f h = h
duplicate_as-IsNormal s i none (ok name) f h = h
duplicate_as-IsNormal s i (some src) (ok name) f h = insert-IsNormal (suc i) _ s f h

pub shift-IsNormal :
    (s : Settings) (from to : ℕ) (o : Option Profile)
    → get_elem? s.profiles from ≡ o
    → IsNormal s
    → IsNormal (shift from o to s).settings
unfolding shift
shift-IsNormal s from to none e h = h
shift-IsNormal s from to (some p) e h =
    let same : (name : Bytes)
        → uses name (insert_at to p (remove_at from s.profiles)) ≡ uses name s.profiles =
      λ name.
        uses-insert_at name to p (remove_at from s.profiles)
        ∙ uses-remove_at name from p s.profiles e in
    record {
      unique = λ name. omega (arith, same name, h.unique name);
      active = omega (arith, same s.active_profile, h.active);
    }

pub activate_profile-IsNormal :
    (s : Settings) (i : ℕ) (o : Option Profile)
    → get_elem? s.profiles i ≡ o
    → IsNormal s
    → IsNormal (activate_profile s o).settings
unfolding activate_profile
activate_profile-IsNormal s i none e h = h
activate_profile-IsNormal s i (some p) e h =
    if_cases (λ (r : Edited Bool). IsNormal r.settings) (equal s.active_profile p.name) (λ _. h)
      (λ _. record { unique = h.unique; active = uses_found i p s.profiles e })

remaining :
    (i : ℕ) (name : Bytes) (ps : List Profile)
    → 2 ≤ length ps
    → 1 ≤ uses (first_name name (remove_at i ps)) (remove_at i ps)
unfolding remove_at
remaining i name [] l = absurd (omega arith)
remaining i name (p ∷ []) l = absurd (omega arith)
remaining zero name (p ∷ q ∷ qs) l = omega (arith, hit_same q.name)
remaining (suc i) name (p ∷ q ∷ qs) l = omega (arith, hit_same p.name)

pub remove_found-IsNormal :
    (s : Settings) (i : ℕ) (o : Option Profile)
    → get_elem? s.profiles i ≡ o
    → 2 ≤ length s.profiles
    → IsNormal s
    → IsNormal (remove_found s i o).settings
unfolding remove_found
remove_found-IsNormal s i none e l h = h
remove_found-IsNormal s i (some p) e l h =
    let fewer : (name : Bytes)
        → hit name p.name + uses name (remove_at i s.profiles) ≡ uses name s.profiles =
      λ name. uses-remove_at name i p s.profiles e in
    record {
      unique = λ name. omega (arith, fewer name, h.unique name);
      active =
          if_cases (λ a. 1 ≤ uses a (remove_at i s.profiles)) (equal p.name s.active_profile)
            (λ _. remaining i s.active_profile s.profiles l)
            (λ f.
              omega (arith, fewer s.active_profile, h.active, hit_other s.active_profile p.name f));
    }
