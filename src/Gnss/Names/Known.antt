-- ===== src/Gnss/Names/Known.antt =====
-- crates/gnss/src/rtcm/decode.rs: which message types have a name.
use open_ntripclient.Base.{ℕ, Bool, true, false, Option, none, some, ◌≡◌, arith}
use open_ntripclient.Base.Bytes.{Bytes}
use open_ntripclient.Gnss.Names.{constellation_of, msm_constellation, msm_name_at, msm_name}

abbrev pub is_some : Option Bytes → Bool
is_some none = false
is_some (some _) = true

-- The header decoder and the name table recognise the same message types as MSM: one has a
-- constellation if and only if it has an MSM name.
pub msm_name-msm_constellation : (t : ℕ) → is_some (msm_name t) ≡ is_some (msm_constellation t)
unfolding msm_name msm_name_at msm_constellation constellation_of
msm_name-msm_constellation t = ground arith
