-- ===== src/App/Profiles.antt =====
-- crates/app/src/profiles.rs: the operations on the list of profiles. A coordinate is the 64 bits of
-- its double. A free suffix is searched with as much fuel as there are profiles, and one more;
-- the number in it is not cut to 32 bits, which takes 2 ^ 32 - 3 profiles.
pub mod Edit
pub mod Names
pub mod Free
pub mod Normal
pub mod Upkeep
pub mod History
use open_ntripclient.Base.{
  ℕ, zero, suc, ◌+◌, ◌-◌, ◌%◌, ◌≤◌, Bool, true, false, not, ◌&&◌, ◌||◌, Option, none, some, List,
  [], ◌∷◌, ◌++◌, ltb, leb, ◌==◌, if◌then◌else◌, is_empty, length, get_elem?, get_or, position,
}
use open_ntripclient.Base.Bytes.{Bytes, ascii, equal, eq_ignore_ascii_case, decimal}
use open_ntripclient.Base.Text.{trim}
use open_ntripclient.App.Job.{GgaMode, gga_when_required, GgaSource, receiver, magnitude}

module _ {ℓ} {A : Type ℓ} where
  -- `Vec::insert`, at an index up to the length.
  unfoldable pub insert_at : ℕ → A → List A → List A
  insert_at zero x xs = x ∷ xs
  insert_at (suc i) x [] = x ∷ []
  insert_at (suc i) x (y ∷ ys) = y ∷ insert_at i x ys

  -- `Vec::remove`, at an index below the length.
  unfoldable pub remove_at : ℕ → List A → List A
  remove_at i [] = []
  remove_at zero (x ∷ xs) = xs
  remove_at (suc i) (x ∷ xs) = x ∷ remove_at i xs

  unfoldable pub set_at : ℕ → A → List A → List A
  set_at i y [] = []
  set_at zero y (x ∷ xs) = y ∷ xs
  set_at (suc i) y (x ∷ xs) = x ∷ set_at i y xs

pub data Protocol : Type 0 where
  ntrip tcp : Protocol

pub data NameProblem : Type 0 where
  blank taken active_while_connected : NameProblem

pub data Checked {ℓ} (A : Type ℓ) : Type ℓ where
  ok : A → Checked A
  problem : NameProblem → Checked A

unfoldable pub message : NameProblem → Bytes → Bytes
unfolding trim
message blank name = ascii "A profile needs a name."
message active_while_connected name = ascii "Disconnect to replace the active profile."
message taken name = b'"' ∷ (trim name ++ (b'"' ∷ ascii " is already used by another profile."))

pub record Profile : Type 0 where
  pub name : Bytes
  pub host : Bytes
  pub port : ℕ
  pub tls : Bool
  pub allow_invalid_certs : Bool
  pub ntrip_version : ℕ
  pub protocol : Protocol
  pub username : Bytes
  pub password : Bytes
  pub mountpoint : Bytes
  pub gga_mode : GgaMode
  pub gga_source : GgaSource
  pub manual_lat : ℕ
  pub manual_lon : ℕ

abbrev pub default_profile : Profile
default_profile = record {
  name = ascii "Default";
  host = [];
  port = 2101;
  tls = false;
  allow_invalid_certs = false;
  ntrip_version = 1;
  protocol = ntrip;
  username = [];
  password = [];
  mountpoint = [];
  gga_mode = gga_when_required;
  gga_source = receiver;
  manual_lat = 0;
  manual_lon = 0;
}

-- The names, and the pointer to one of them, of the settings.
pub record Settings : Type 0 where
  pub active_profile : Bytes
  pub profiles : List Profile

-- A name is taken, by a profile other than the one to skip.
unfoldable pub is_taken : Bytes → Option ℕ → List Profile → Bool
unfolding equal
is_taken name skip [] = false
is_taken name none (p ∷ ps) = equal p.name name || is_taken name none ps
is_taken name (some zero) (p ∷ ps) = is_taken name none ps
is_taken name (some (suc i)) (p ∷ ps) = equal p.name name || is_taken name (some i) ps

abbrev pub suffixed : Bytes → ℕ → Bytes
suffixed desired k = desired ++ (b' ' ∷ decimal 10 k)

unfoldable pub find_free : ℕ → ℕ → Bytes → Option ℕ → List Profile → Option Bytes
unfolding is_taken decimal
find_free zero k desired skip ps = none
find_free (suc fuel) k desired skip ps =
    let rest = find_free fuel (suc k) desired skip ps in
    if is_taken (suffixed desired k) skip ps then rest else some (suffixed desired k)

abbrev pub or_profile : Bytes → Bytes
or_profile [] = ascii "Profile"
or_profile (b ∷ bs) = b ∷ bs

unfoldable pub unique_name : Settings → Bytes → Option ℕ → Option Bytes
unfolding trim is_taken find_free
unique_name s desired skip =
    let name = or_profile (trim desired) in
    if is_taken name skip s.profiles
    then find_free (suc (length s.profiles)) 2 name skip s.profiles
    else some name

unfoldable pub free_name : Settings → Bytes → Option Bytes
unfolding trim unique_name
free_name s suggestion =
    if is_empty (trim suggestion) then some [] else unique_name s suggestion none

abbrev pub by_place : Option Bytes → Bytes → Bytes → Bytes
by_place (some id) host (m ∷ ms) = id ++ (ascii " (" ++ ((m ∷ ms) ++ ascii ")"))
by_place none (h ∷ hs) (m ∷ ms) = (m ∷ ms) ++ (ascii " @ " ++ (h ∷ hs))
by_place id (h ∷ hs) [] = h ∷ hs
by_place _ _ _ = []

abbrev pub telling : Bytes → Option Bytes → Option Bytes
telling mount none = none
telling mount (some id) =
    let ident = trim id in
    if is_empty ident || eq_ignore_ascii_case ident mount then none else some ident

unfoldable pub suggest : Protocol → Bytes → Bytes → ℕ → Option Bytes → Bytes
unfolding decimal
suggest tcp (h ∷ hs) mount port ident = (h ∷ hs) ++ (b':' ∷ decimal 5 port)
suggest tcp [] mount port ident = by_place ident [] mount
suggest ntrip host mount port ident = by_place ident host mount

unfoldable pub suggest_name : Profile → Option Bytes → Bytes
unfolding trim eq_ignore_ascii_case suggest
suggest_name p stream_identifier =
    let mount = trim p.mountpoint in
    suggest p.protocol (trim p.host) mount p.port (telling mount stream_identifier)

unfoldable pub check_name : Settings → Option ℕ → Bytes → Checked Bytes
unfolding trim is_taken
check_name s skip name =
    let trimmed = trim name in
    if is_empty trimmed
    then problem blank
    else if is_taken trimmed skip s.profiles
    then problem taken
    else ok trimmed
