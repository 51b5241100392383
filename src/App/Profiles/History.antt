-- ===== src/App/Profiles/History.antt =====
-- crates/app/src/profiles.rs: any sequence of operations.
use open_ntripclient.Base.{
  ℕ, Bool, true, false, ◌||◌, List, [], ◌∷◌, ◌≡◌, refl, arith, leb, ◌==◌, if_cases, length,
  is_empty,
}
use open_ntripclient.Base.Bytes.{Bytes}
use open_ntripclient.Base.Text.{trim}
use open_ntripclient.App.Profiles.{Profile, Settings}
use open_ntripclient.App.Profiles.Edit.{
  Edited, move_profile, add_named, duplicate_named, active_index, save_as, rename, activate, remove,
}
use open_ntripclient.App.Profiles.Normal.{
  IsNormal, check_name-IsFree, push_named-IsNormal, duplicate_as-IsNormal, shift-IsNormal,
  activate_profile-IsNormal, remove_found-IsNormal,
}
use open_ntripclient.App.Profiles.Upkeep.{
  save_from-IsNormal, rename_to-IsNormal, unique_name-FreeBut,
}

-- What the user may do to the profiles; a `save_as` comes with the settings file's content.
pub data Edit : Type 0 where
  adding : Bytes → Edit
  duplicating renaming : ℕ → Bytes → Edit
  saving_as : Settings → Bytes → Edit
  moving : ℕ → ℕ → Edit
  activating removing : ℕ → Edit

module _ (differs : Profile → Profile → Bool) where
  abbrev pub apply : Settings → Edit → Settings
  unfolding add_named duplicate_named rename save_as move_profile activate remove
  apply s (adding name) = (add_named s name).settings
  apply s (duplicating i name) = (duplicate_named s i name).settings
  apply s (renaming i name) = (rename s i name).settings
  apply s (saving_as saved name) = (save_as differs s saved name).settings
  apply s (moving from to) = (move_profile s from to).settings
  apply s (activating i) = (activate s i).settings
  apply s (removing i) = (remove s i).settings

  abbrev pub apply_all : Settings → List Edit → Settings
  apply_all s [] = s
  apply_all s (e ∷ es) = apply_all (apply s e) es

  rename-IsNormal :
      (s : Settings) (i : ℕ) (name : Bytes) → IsNormal s → IsNormal (rename s i name).settings
  unfolding rename
  rename-IsNormal s i name h =
      if_cases (λ (r : Edited Bool). IsNormal r.settings)
        (leb (length s.profiles) i || is_empty (trim name)) (λ _. h)
        (λ _. rename_to-IsNormal s i _ _ refl (unique_name-FreeBut s name i) h)

  move_profile-IsNormal :
      (s : Settings) (from to : ℕ) → IsNormal s → IsNormal (move_profile s from to).settings
  unfolding move_profile
  move_profile-IsNormal s from to h =
      let n = length s.profiles in
      if_cases (λ (r : Edited Bool). IsNormal r.settings) (leb n from || leb n to || from == to)
        (λ _. h) (λ _. shift-IsNormal s from to _ refl h)

  not_alone : (a b : Bool) → (a || b) ≡ false → a ≡ false
  not_alone true b h = absurd (cc)
  not_alone false b h = refl

  remove-IsNormal : (s : Settings) (i : ℕ) → IsNormal s → IsNormal (remove s i).settings
  unfolding remove
  remove-IsNormal s i h =
      let n = length s.profiles in
      if_cases (λ (r : Edited Bool). IsNormal r.settings) (leb n 1 || leb n i) (λ _. h)
        (λ e.
          let many : leb n 1 ≡ false = not_alone (leb n 1) (leb n i) e in
          remove_found-IsNormal s i _ refl (ground arith) h)

  apply-IsNormal : (s : Settings) (e : Edit) → IsNormal s → IsNormal (apply s e)
  unfolding apply add_named duplicate_named save_as activate
  apply-IsNormal s (adding name) h = push_named-IsNormal s _ (check_name-IsFree s name) h
  apply-IsNormal s (duplicating i name) h =
      duplicate_as-IsNormal s i _ _ (check_name-IsFree s name) h
  apply-IsNormal s (renaming i name) h = rename-IsNormal s i name h
  apply-IsNormal s (saving_as saved name) h =
      save_from-IsNormal differs s saved (active_index s) _ _ refl (check_name-IsFree s name) h
  apply-IsNormal s (moving from to) h = move_profile-IsNormal s from to h
  apply-IsNormal s (activating i) h = activate_profile-IsNormal s i _ refl h
  apply-IsNormal s (removing i) h = remove-IsNormal s i h

  -- After any operations on the profiles, whatever their arguments, no two profiles share a name, and
  -- there is one that has the active name, if it was so before.
  pub apply_all-IsNormal : (es : List Edit) (s : Settings) → IsNormal s → IsNormal (apply_all s es)
  apply_all-IsNormal [] s h = h
  apply_all-IsNormal (e ∷ es) s h = apply_all-IsNormal es (apply s e) (apply-IsNormal s e h)
