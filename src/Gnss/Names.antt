-- ===== src/Gnss/Names.antt =====
-- crates/gnss/src/rtcm/decode.rs: the names of message types.
pub mod Known
use open_ntripclient.Base.{
  ℕ, zero, suc, ◌-◌, ◌/◌, ◌%◌, Bool, true, false, ◌&&◌, ◌||◌, not, Option, none, some, List, [],
  ◌∷◌, ltb, ◌==◌, if◌then◌else◌, get_or,
}
use open_ntripclient.Base.Bytes.{Bytes, ascii, within}

-- The arms of the match on `t / 10`.
unfoldable pub constellation_of : ℕ → Option Bytes
constellation_of d =
    if d == 107
    then some (ascii "GPS")
    else if d == 108
    then some (ascii "GLONASS")
    else if d == 109
    then some (ascii "Galileo")
    else if d == 110
    then some (ascii "SBAS")
    else if d == 111
    then some (ascii "QZSS")
    else if d == 112
    then some (ascii "BeiDou")
    else if d == 113
    then some (ascii "NavIC")
    else none

unfoldable pub msm_constellation : ℕ → Option Bytes
unfolding constellation_of
msm_constellation t = if not (within 1 7 (t % 10)) then none else constellation_of (t / 10)

abbrev pub msm_names : List (List Bytes)
msm_names =
    (ascii "GPS MSM1"
      ∷ ascii "GPS MSM2"
      ∷ ascii "GPS MSM3"
      ∷ ascii "GPS MSM4"
      ∷ ascii "GPS MSM5"
      ∷ ascii "GPS MSM6"
      ∷ ascii "GPS MSM7"
      ∷ [])
    ∷ (ascii "GLONASS MSM1"
        ∷ ascii "GLONASS MSM2"
        ∷ ascii "GLONASS MSM3"
        ∷ ascii "GLONASS MSM4"
        ∷ ascii "GLONASS MSM5"
        ∷ ascii "GLONASS MSM6"
        ∷ ascii "GLONASS MSM7"
        ∷ [])
    ∷ (ascii "Galileo MSM1"
        ∷ ascii "Galileo MSM2"
        ∷ ascii "Galileo MSM3"
        ∷ ascii "Galileo MSM4"
        ∷ ascii "Galileo MSM5"
        ∷ ascii "Galileo MSM6"
        ∷ ascii "Galileo MSM7"
        ∷ [])
    ∷ (ascii "SBAS MSM1"
        ∷ ascii "SBAS MSM2"
        ∷ ascii "SBAS MSM3"
        ∷ ascii "SBAS MSM4"
        ∷ ascii "SBAS MSM5"
        ∷ ascii "SBAS MSM6"
        ∷ ascii "SBAS MSM7"
        ∷ [])
    ∷ (ascii "QZSS MSM1"
        ∷ ascii "QZSS MSM2"
        ∷ ascii "QZSS MSM3"
        ∷ ascii "QZSS MSM4"
        ∷ ascii "QZSS MSM5"
        ∷ ascii "QZSS MSM6"
        ∷ ascii "QZSS MSM7"
        ∷ [])
    ∷ (ascii "BeiDou MSM1"
        ∷ ascii "BeiDou MSM2"
        ∷ ascii "BeiDou MSM3"
        ∷ ascii "BeiDou MSM4"
        ∷ ascii "BeiDou MSM5"
        ∷ ascii "BeiDou MSM6"
        ∷ ascii "BeiDou MSM7"
        ∷ [])
    ∷ (ascii "NavIC MSM1"
        ∷ ascii "NavIC MSM2"
        ∷ ascii "NavIC MSM3"
        ∷ ascii "NavIC MSM4"
        ∷ ascii "NavIC MSM5"
        ∷ ascii "NavIC MSM6"
        ∷ ascii "NavIC MSM7"
        ∷ [])
    ∷ []

-- The index into the table, once `checked_sub` has succeeded.
unfoldable pub msm_name_at : ℕ → ℕ → Option Bytes
msm_name_at c n =
    if ltb 6 c || not (within 1 7 n) then none else some (get_or (get_or msm_names c []) (n - 1) [])

unfoldable pub msm_name : ℕ → Option Bytes
unfolding msm_name_at
msm_name t = if ltb (t / 10) 107 then none else msm_name_at (t / 10 - 107) (t % 10)

abbrev pub type_names : List (ℕ × Bytes)
type_names =
    (1001, ascii "GPS L1 observables")
    ∷ (1002, ascii "GPS L1 observables (extended)")
    ∷ (1003, ascii "GPS L1/L2 observables")
    ∷ (1004, ascii "GPS L1/L2 observables (extended)")
    ∷ (1005, ascii "Station coordinates")
    ∷ (1006, ascii "Station coordinates + antenna height")
    ∷ (1007, ascii "Antenna descriptor")
    ∷ (1008, ascii "Antenna descriptor + serial")
    ∷ (1009, ascii "GLONASS L1 observables")
    ∷ (1010, ascii "GLONASS L1 observables (extended)")
    ∷ (1011, ascii "GLONASS L1/L2 observables")
    ∷ (1012, ascii "GLONASS L1/L2 observables (extended)")
    ∷ (1013, ascii "System parameters")
    ∷ (1019, ascii "GPS ephemeris")
    ∷ (1020, ascii "GLONASS ephemeris")
    ∷ (1029, ascii "Text message")
    ∷ (1033, ascii "Receiver + antenna descriptors")
    ∷ (1042, ascii "BeiDou ephemeris")
    ∷ (1044, ascii "QZSS ephemeris")
    ∷ (1045, ascii "Galileo F/NAV ephemeris")
    ∷ (1046, ascii "Galileo I/NAV ephemeris")
    ∷ (1230, ascii "GLONASS code-phase biases")
    ∷ []

unfoldable pub find_name : ℕ → List (ℕ × Bytes) → Option Bytes
find_name t [] = if within 4070 4095 t then some (ascii "Proprietary vendor message") else none
find_name t ((n, name) ∷ ns) = if t == n then some name else find_name t ns

abbrev pub name_or : ℕ → Option Bytes → Option Bytes
name_or t (some name) = some name
name_or t none = find_name t type_names

unfoldable pub type_name : ℕ → Option Bytes
unfolding msm_name find_name
type_name t = name_or t (msm_name t)
