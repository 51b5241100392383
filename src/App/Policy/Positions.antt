-- ===== src/App/Policy/Positions.antt =====
-- crates/app/src/workers/ntrip.rs: what the log says of positions agrees with what the session does.
use open_ntripclient.Base.{ℕ, Bool, true, false, Option, none, some, ◌≡◌, ◌⊎◌, ◌||◌}
use open_ntripclient.Base.Bytes.{Bytes, ascii, equal}
use open_ntripclient.Ntrip.Config.{CloseReason}
use open_ntripclient.App.Policy.{kick_shaped, PositionTrouble, starved, refused, forbidden}

-- The two plans that promise no position.
abbrev pub PromisesNone : Bytes → Type 0
PromisesNone plan = (plan ≡ ascii "GGA off") ⊎ (plan ≡ ascii "GGA not applicable (raw TCP)")

promises_none : Bytes → Bool
unfolding equal
promises_none plan =
    equal plan (ascii "GGA off") || equal plan (ascii "GGA not applicable (raw TCP)")

-- Why a connection's end is blamed on the position.
pub data IsJustified (reason : CloseReason) (gga_sent : ℕ) (ready : Bool)
    : PositionTrouble → Type 0 where
  kicked : kick_shaped reason ≡ true → gga_sent ≡ 0 → IsJustified reason gga_sent ready starved
  turned_away : forbidden reason ≡ true → ready ≡ false → IsJustified reason gga_sent ready refused

abbrev pub WhenSome {ℓ} : {A : Type ℓ} → (A → Type 0) → Option A → Type 0
WhenSome P none = Unit
WhenSome P (some a) = P a
