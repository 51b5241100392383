-- ===== src/Tests/Request.antt =====
-- Runs of the request builder and of base64 (crates/ntrip-core/src/request.rs, base64.rs).
use open_ntripclient.Base.{true, [], ◌∷◌, ◌++◌, ◌≡◌, refl, ◌+◌, ◌*◌, ◌/◌, arith, length}
use open_ntripclient.Base.Bytes.{ascii, all_bytes}
use open_ntripclient.Ntrip.Base64.{encode}
use open_ntripclient.Ntrip.Base64.RoundTrip.{decode, decode-encode, length-encode}
use open_ntripclient.Ntrip.Config.{v1, v2, ntrip, when_required, SessionConfig}
use open_ntripclient.Ntrip.Request.{encode_mountpoint, lines, build}
use open_ntripclient.Ntrip.Request.Lines.{
  read_lines, read_lines-build, is_visible, encode_mountpoint-is_visible,
}
use open_ntripclient.Ntrip.Request.Secrecy.{with_secrets, log_lines-build}

abbrev cfg : SessionConfig
cfg = record {
  host = ascii "caster";
  port = 2101;
  mountpoint = ascii "A B";
  username = ascii "user";
  password = ascii "pass";
  version = v1;
  transport = ntrip;
  user_agent = ascii "NTRIP x" ++ (13 ∷ 10 ∷ ascii "Evil: 1");
  gga = when_required true;
}

log_lines_run :
    (build cfg).log_lines
    ≡ ascii "GET /A%20B HTTP/1.0"
      ∷ ascii "User-Agent: NTRIP xEvil: 1"
      ∷ ascii "Accept: */*"
      ∷ ascii "Connection: close"
      ∷ ascii "Authorization: Basic ****"
      ∷ []
unfolding build
log_lines_run = refl

host_line_run :
    (build (record cfg { version = v2 })).log_lines
    ≡ ascii "GET /A%20B HTTP/1.1"
      ∷ ascii "Host: caster:2101"
      ∷ ascii "Ntrip-Version: Ntrip/2.0"
      ∷ ascii "User-Agent: NTRIP xEvil: 1"
      ∷ ascii "Accept: */*"
      ∷ ascii "Authorization: Basic ****"
      ∷ ascii "Connection: close"
      ∷ []
unfolding build
host_line_run = refl

encode_foobar : encode (ascii "fooba") ≡ ascii "Zm9vYmE="
unfolding encode
encode_foobar = refl

read_lines-build_example : read_lines [] (build cfg).wire ≡ lines cfg ++ ([] ∷ [])
read_lines-build_example = read_lines-build cfg

log_lines-build_example :
    (build (with_secrets cfg (ascii "root") (ascii "hunter2"))).log_lines ≡ (build cfg).log_lines
log_lines-build_example = log_lines-build cfg (ascii "root") (ascii "hunter2") refl

encode_mountpoint-is_visible_example :
    (all_bytes is_visible (encode_mountpoint (ascii "A B")) ≡ true)
    × (all_bytes is_visible (ascii "A B") ≡ true → encode_mountpoint (ascii "A B") ≡ ascii "A B")
encode_mountpoint-is_visible_example =
    encode_mountpoint-is_visible (ascii "A B") (omega arith, (omega arith, (omega arith, tt)))

decode-encode_example : decode (encode (ascii "u:p!")) ≡ ascii "u:p!"
decode-encode_example =
    decode-encode (ascii "u:p!") (omega arith, (omega arith, (omega arith, (omega arith, tt))))

length-encode_example : length (encode (ascii "u:p!")) ≡ (length (ascii "u:p!") + 2) / 3 * 4
length-encode_example = length-encode (ascii "u:p!")
