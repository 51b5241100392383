-- ===== src/Ntrip/Request.antt =====
-- crates/ntrip-core/src/request.rs: the request's wire bytes, and its lines for the log.
pub mod Lines
pub mod Secrecy
use open_ntripclient.Base.{
  ℕ, Bool, not, ◌&&◌, ◌||◌, List, [], ◌∷◌, ◌++◌, map, leb, ◌==◌, if◌then◌else◌, is_empty,
}
use open_ntripclient.Base.Bytes.{Bytes, ascii, cr, lf, crlf, keep, format_02x, decimal, starts_with}
use open_ntripclient.Ntrip.Base64.{encode}
use open_ntripclient.Ntrip.Config.{NtripVersion, v1, v2, SessionConfig}

-- `char::is_ascii_control`
abbrev pub is_ascii_control : ℕ → Bool
is_ascii_control c = leb c 31 || c == 127

unfoldable pub clean_header : Bytes → Bytes
unfolding keep
clean_header = keep (λ c. not (is_ascii_control c))

unfoldable pub strip_crlf : Bytes → Bytes
unfolding keep
strip_crlf = keep (λ c. not (c == cr) && not (c == lf))

abbrev pub encode_byte : ℕ → Bytes
encode_byte b = if leb b 0x20 || leb 0x7f b then b'%' ∷ format_02x b else b ∷ []

unfoldable pub encode_mountpoint : Bytes → Bytes
encode_mountpoint [] = []
encode_mountpoint (b ∷ bs) = encode_byte b ++ encode_mountpoint bs

unfoldable pub credentials : SessionConfig → Bytes
unfolding strip_crlf
credentials cfg = strip_crlf cfg.username ++ (b':' ∷ strip_crlf cfg.password)

unfoldable pub auth_line : SessionConfig → Bytes
unfolding credentials encode
auth_line cfg = ascii "Authorization: Basic " ++ encode (credentials cfg)

unfoldable pub mask_auth : Bytes → Bytes
unfolding starts_with
mask_auth line =
    if starts_with line (ascii "Authorization:") then ascii "Authorization: Basic ****" else line

-- The header that is pushed only with a username.
abbrev pub auth_lines : SessionConfig → List Bytes
auth_lines cfg = if not (is_empty cfg.username) then auth_line cfg ∷ [] else []

abbrev pub get_line : SessionConfig → Bytes → Bytes
get_line cfg version =
    ascii "GET /" ++ (encode_mountpoint cfg.mountpoint ++ (ascii " HTTP/1." ++ version))

abbrev pub user_agent_line : SessionConfig → Bytes
user_agent_line cfg = ascii "User-Agent: " ++ clean_header cfg.user_agent

-- A u16 port has at most 5 digits.
abbrev pub host_line : SessionConfig → Bytes
host_line cfg = ascii "Host: " ++ (clean_header cfg.host ++ (b':' ∷ decimal 5 cfg.port))

abbrev pub lines_for : NtripVersion → SessionConfig → List Bytes
lines_for v1 cfg =
    get_line cfg (ascii "0")
    ∷ user_agent_line cfg
    ∷ ascii "Accept: */*"
    ∷ ascii "Connection: close"
    ∷ auth_lines cfg
lines_for v2 cfg =
    get_line cfg (ascii "1")
    ∷ host_line cfg
    ∷ ascii "Ntrip-Version: Ntrip/2.0"
    ∷ user_agent_line cfg
    ∷ ascii "Accept: */*"
    ∷ (auth_lines cfg ++ (ascii "Connection: close" ∷ []))

abbrev pub lines : SessionConfig → List Bytes
lines cfg = lines_for cfg.version cfg

abbrev pub join_wire : List Bytes → Bytes
join_wire [] = crlf
join_wire (l ∷ ls) = l ++ (cr ∷ lf ∷ join_wire ls)

pub record Request : Type 0 where
  pub log_lines : List Bytes
  pub wire : Bytes

unfoldable pub build : SessionConfig → Request
unfolding mask_auth auth_line encode_mountpoint clean_header decimal
build cfg = record { log_lines = map mask_auth (lines cfg); wire = join_wire (lines cfg) }
