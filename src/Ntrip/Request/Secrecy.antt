-- ===== src/Ntrip/Request/Secrecy.antt =====
-- The lines that crates/ntrip-core/src/request.rs gives to the logs do not depend on the secrets.
use open_ntripclient.Base.{
  Bool, true, false, not, [], ◌∷◌, ◌++◌, ◌≡◌, refl, ap, map, sym, ◌∙◌, if◌then◌else◌, is_empty,
}
use mathlib.Core.List.{map-append}
use open_ntripclient.Base.Bytes.{Bytes, ascii}
use open_ntripclient.Ntrip.Config.{NtripVersion, v1, v2, SessionConfig}
use open_ntripclient.Ntrip.Request.{
  mask_auth, auth_line, get_line, user_agent_line, host_line, lines_for, build,
}

abbrev pub masked : Bytes
masked = ascii "Authorization: Basic ****"

mask_auth-auth_line : (cfg : SessionConfig) → mask_auth (auth_line cfg) ≡ masked
unfolding mask_auth auth_line
mask_auth-auth_line cfg = refl

-- The configuration with other secrets.
abbrev pub with_secrets : SessionConfig → Bytes → Bytes → SessionConfig
with_secrets cfg user pass = record cfg { username = user; password = pass }

auth_lines-mask :
    (empty : Bool) (cfg cfg' : SessionConfig)
    → map mask_auth ((if not empty then auth_line cfg ∷ [] else []))
      ≡ map mask_auth ((if not empty then auth_line cfg' ∷ [] else []))
auth_lines-mask true cfg cfg' = refl
auth_lines-mask false cfg cfg' = rw (mask_auth-auth_line cfg, mask_auth-auth_line cfg')

lines_for-mask :
    (v : NtripVersion) (cfg : SessionConfig) (user pass : Bytes)
    → is_empty user ≡ is_empty cfg.username
    → map mask_auth (lines_for v (with_secrets cfg user pass)) ≡ map mask_auth (lines_for v cfg)
lines_for-mask v1 cfg user pass e = rw e (
    ap
      (λ ls.
        mask_auth (get_line cfg (ascii "0"))
        ∷ mask_auth (user_agent_line cfg)
        ∷ mask_auth (ascii "Accept: */*")
        ∷ mask_auth (ascii "Connection: close")
        ∷ ls)
      (auth_lines-mask (is_empty cfg.username) (with_secrets cfg user pass) cfg))
lines_for-mask v2 cfg user pass e = rw e (
    ap
      (λ ls.
        mask_auth (get_line cfg (ascii "1"))
        ∷ mask_auth (host_line cfg)
        ∷ mask_auth (ascii "Ntrip-Version: Ntrip/2.0")
        ∷ mask_auth (user_agent_line cfg)
        ∷ mask_auth (ascii "Accept: */*")
        ∷ ls)
      (map-append _ _ _
        ∙ ap (λ ls. ls ++ (mask_auth (ascii "Connection: close") ∷ []))
            (auth_lines-mask (is_empty cfg.username) (with_secrets cfg user pass) cfg)
        ∙ sym (map-append _ _ _)))

-- Two configurations that differ only in the username and the password, both usernames empty or
-- neither, give the same log lines.
pub log_lines-build :
    (cfg : SessionConfig) (user pass : Bytes)
    → is_empty user ≡ is_empty cfg.username
    → (build (with_secrets cfg user pass)).log_lines ≡ (build cfg).log_lines
unfolding build
log_lines-build cfg user pass e = lines_for-mask cfg.version cfg user pass e
