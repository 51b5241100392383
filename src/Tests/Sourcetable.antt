-- ===== src/Tests/Sourcetable.antt =====
-- Runs of the sourcetable parser (crates/ntrip-core/src/sourcetable.rs).
use open_ntripclient.Base.{true, not, ◌==◌, [], ◌∷◌, ◌++◌, ◌≡◌, refl}
use open_ntripclient.Base.Bytes.{Bytes, ascii, cr, lf, all_bytes}
use open_ntripclient.Base.Text.{split, Lacks, all_bytes-Lacks}
use open_ntripclient.Base.Utf8.{from_utf8_lossy}
use open_ntripclient.Ntrip.Sourcetable.{semicolon, NetRecord, parse_str, parse_net, parse}
use open_ntripclient.Ntrip.Sourcetable.Rows.{IsParsed, parse-IsParsed}
use open_ntripclient.Ntrip.Sourcetable.RoundTrip.{
  AreClean, net_fields, print_net, parse_net-print_net,
}

abbrev small_table : Bytes
small_table =
    ascii "STR;MT1;City;RTCM 3.2;1005(1);2;GPS;NET;DEU;50.1;8.6;1;0;gen;none;B;N;9600;x;y"
    ++ (cr ∷ lf ∷ ascii "Server: NTRIP" ++ (lf ∷ ascii "ENDSOURCETABLE" ++ lf ∷ []))

str_run :
    parse_str (
      split semicolon
        (ascii "STR;MT1;City;RTCM 3.2;1005(1);2;GPS;NET;DEU;50.1; 8.6;1;0;gen;none;B;y;9600;x;y"))
    ≡ record {
      mountpoint = ascii "MT1";
      identifier = ascii "City";
      format = ascii "RTCM 3.2";
      format_details = ascii "1005(1)";
      carrier = 2;
      nav_system = ascii "GPS";
      network = ascii "NET";
      country = ascii "DEU";
      lat = ascii "50.1";
      lon = ascii "8.6";
      nmea_required = true;
      solution = 0;
      generator = ascii "gen";
      compression = ascii "none";
      auth = ascii "B";
      fee = true;
      bitrate = 9600;
      misc = ascii "x;y";
    }
unfolding parse_str split
str_run = refl

unparsed_run : (parse small_table).unparsed ≡ ascii "Server: NTRIP" ∷ []
unfolding parse
unparsed_run = refl

parse-IsParsed_example : IsParsed (split lf (from_utf8_lossy small_table)) (parse small_table)
parse-IsParsed_example = parse-IsParsed small_table

abbrev euref : NetRecord
euref = record {
  identifier = ascii "EUREF";
  operator = ascii "BKG";
  auth = ascii "B";
  fee = ascii "N";
  web_net = ascii "none";
  web_str = [];
  web_reg = ascii "mail";
  misc = ascii "a;b";
}

clean : (f : Bytes) → all_bytes (λ b. not (b == semicolon)) f ≡ true → Lacks semicolon f
clean = all_bytes-Lacks semicolon

euref_clean : AreClean (net_fields euref)
euref_clean = (
  clean (ascii "NET") refl,
  (
    clean (ascii "EUREF") refl,
    (
      clean (ascii "BKG") refl,
      (
        clean (ascii "B") refl,
        (
          clean (ascii "N") refl,
          (clean (ascii "none") refl, (tt, (clean (ascii "mail") refl, tt))),
        ),
      ),
    ),
  ),
)

parse_net-print_net_example : parse_net (split semicolon (print_net euref)) ≡ euref
parse_net-print_net_example = parse_net-print_net euref euref_clean
