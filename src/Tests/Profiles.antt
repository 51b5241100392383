-- ===== src/Tests/Profiles.antt =====
-- Runs of the operations on profiles (crates/app/src/profiles.rs).
use open_ntripclient.Base.{Bool, true, none, [], ◌∷◌, ◌≡◌, refl, arith}
use open_ntripclient.Base.Bytes.{Bytes, ascii, equal}
use open_ntripclient.Base.Text.{trim}
use open_ntripclient.App.Profiles.{
  Profile, default_profile, Settings, check_name, suggest_name, taken, problem,
}
use open_ntripclient.App.Profiles.Edit.{rename, remove}
use open_ntripclient.App.Profiles.Normal.{IsNormal, join_unique}
use open_ntripclient.App.Profiles.Free.{rename_lands}
use open_ntripclient.App.Profiles.History.{
  adding, renaming, saving_as, removing, apply_all, apply_all-IsNormal,
}

abbrev named : Bytes → Profile
named name = record default_profile { name = name }

abbrev two_rigs : Settings
two_rigs = record {
  active_profile = ascii "Rig";
  profiles = named (ascii "Rig") ∷ named (ascii "Rig 2") ∷ named (ascii "Base") ∷ [];
}

rename_run :
    (rename two_rigs 2 (ascii " Rig ")).settings.profiles
    ≡ named (ascii "Rig") ∷ named (ascii "Rig 2") ∷ named (ascii "Rig 3") ∷ []
unfolding rename
rename_run = refl

taken_run : check_name two_rigs none (ascii "Base ") ≡ problem taken
unfolding check_name
taken_run = refl

remove_run : (remove two_rigs 0).settings.active_profile ≡ ascii "Rig 2"
unfolding remove
remove_run = refl

suggest_run :
    suggest_name (record default_profile { host = ascii "caster "; mountpoint = ascii "MT1" }) none
    ≡ ascii "MT1 @ caster"
unfolding suggest_name
suggest_run = refl

rename_lands_example : (rename two_rigs 2 (ascii "Rig")).answer ≡ true
unfolding trim
rename_lands_example = rename_lands two_rigs 2 (ascii "Rig") (omega arith) refl (omega arith)

abbrev one_rig : Settings
one_rig = record { active_profile = ascii "Rig"; profiles = named (ascii "Rig") ∷ [] }

one_rig-IsNormal : IsNormal one_rig
unfolding equal
one_rig-IsNormal = record {
  unique = λ name. join_unique name (ascii "Rig") 0 (λ e. refl) (omega arith);
  active = omega arith;
}

abbrev always : Profile → Profile → Bool
always p q = true

apply_all-IsNormal_example : IsNormal (
    apply_all always one_rig (
      adding (ascii "Base")
      ∷ renaming 1 (ascii "Rig")
      ∷ saving_as one_rig (ascii "New")
      ∷ removing 0
      ∷ []))
apply_all-IsNormal_example =
    apply_all-IsNormal always
      (adding (ascii "Base")
        ∷ renaming 1 (ascii "Rig")
        ∷ saving_as one_rig (ascii "New")
        ∷ removing 0
        ∷ [])
      one_rig one_rig-IsNormal
