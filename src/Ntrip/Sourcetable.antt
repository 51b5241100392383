-- ===== src/Ntrip/Sourcetable.antt =====
-- crates/ntrip-core/src/sourcetable.rs: the sourcetable parser. A coordinate stays the trimmed text
-- that the program converts to floating point.
pub mod Kinds
pub mod Rows
pub mod RoundTrip
use open_ntripclient.Base.{
  ℕ, zero, suc, ◌+◌, ◌*◌, ◌-◌, Bool, true, false, ◌&&◌, ◌||◌, Option, none, some, List, [], ◌∷◌,
  ◌++◌, ltb, ◌==◌, if◌then◌else◌, is_empty, get_or, drop, length,
}
use open_ntripclient.Base.Bytes.{
  Bytes, ascii, is_ascii_digit, equal, eq_ignore_ascii_case, trim_ascii, strip_cr, lf,
}
use open_ntripclient.Base.Text.{split, join, trim, chars}
use open_ntripclient.Base.Utf8.{from_utf8_lossy}

abbrev pub semicolon : ℕ
semicolon = b';'

pub record StrRecord : Type 0 where
  pub mountpoint : Bytes
  pub identifier : Bytes
  pub format : Bytes
  pub format_details : Bytes
  pub carrier : ℕ
  pub nav_system : Bytes
  pub network : Bytes
  pub country : Bytes
  pub lat : Bytes
  pub lon : Bytes
  pub nmea_required : Bool
  pub solution : ℕ
  pub generator : Bytes
  pub compression : Bytes
  pub auth : Bytes
  pub fee : Bool
  pub bitrate : ℕ
  pub misc : Bytes

pub record CasRecord : Type 0 where
  pub host : Bytes
  pub port : ℕ
  pub identifier : Bytes
  pub operator : Bytes
  pub nmea : Bytes
  pub country : Bytes
  pub lat : Bytes
  pub lon : Bytes
  pub misc : Bytes

pub record NetRecord : Type 0 where
  pub identifier : Bytes
  pub operator : Bytes
  pub auth : Bytes
  pub fee : Bytes
  pub web_net : Bytes
  pub web_str : Bytes
  pub web_reg : Bytes
  pub misc : Bytes

pub record SourceTable : Type 0 where
  pub strs : List StrRecord
  pub casters : List CasRecord
  pub networks : List NetRecord
  pub unparsed : List Bytes

abbrev pub empty_table : SourceTable
empty_table = record { strs = []; casters = []; networks = []; unparsed = [] }

unfoldable pub field : List Bytes → ℕ → Bytes
field fields i = get_or fields i []

-- `str::parse` to an unsigned integer below the limit: the digits, then the text with its sign.
unfoldable pub digits_below : ℕ → ℕ → Bytes → Option ℕ
digits_below limit n [] = some n
digits_below limit n (c ∷ cs) =
    let m = n * 10 + (c - 48) in
    let rest = digits_below limit m cs in if is_ascii_digit c && ltb m limit then rest else none

unfoldable pub parse_below : ℕ → Bytes → Option ℕ
unfolding digits_below
parse_below limit [] = none
parse_below limit (c ∷ cs) =
    if c == b'+'
    then (if is_empty cs then none else digits_below limit 0 cs)
    else digits_below limit 0 (c ∷ cs)

abbrev pub or_default : Option ℕ → ℕ
or_default none = 0
or_default (some n) = n

unfoldable pub num : ℕ → List Bytes → ℕ → ℕ
unfolding field trim parse_below
num limit fields i = or_default (parse_below limit (trim (field fields i)))

unfoldable pub misc_from : List Bytes → ℕ → Bytes
unfolding join
misc_from fields start =
    if ltb start (length fields) then join semicolon (drop start fields) else []

-- The first character, or a space.
abbrev pub first_char : List Bytes → Bytes
first_char [] = b' ' ∷ []
first_char (c ∷ cs) = c

unfoldable pub parse_str : List Bytes → StrRecord
unfolding field num misc_from trim equal eq_ignore_ascii_case chars
parse_str fields = record {
  mountpoint = field fields 1;
  identifier = field fields 2;
  format = field fields 3;
  format_details = field fields 4;
  carrier = num 256 fields 5;
  nav_system = field fields 6;
  network = field fields 7;
  country = field fields 8;
  lat = trim (field fields 9);
  lon = trim (field fields 10);
  nmea_required = equal (trim (field fields 11)) (ascii "1");
  solution = num 256 fields 12;
  generator = field fields 13;
  compression = field fields 14;
  auth = first_char (chars (trim (field fields 15)));
  fee = eq_ignore_ascii_case (trim (field fields 16)) (ascii "Y");
  bitrate = num 4294967296 fields 17;
  misc = misc_from fields 18;
}

unfoldable pub parse_cas : List Bytes → CasRecord
unfolding field num misc_from trim
parse_cas fields = record {
  host = field fields 1;
  port = num 65536 fields 2;
  identifier = field fields 3;
  operator = field fields 4;
  nmea = field fields 5;
  country = field fields 6;
  lat = trim (field fields 7);
  lon = trim (field fields 8);
  misc = misc_from fields 9;
}

unfoldable pub parse_net : List Bytes → NetRecord
unfolding field misc_from
parse_net fields = record {
  identifier = field fields 1;
  operator = field fields 2;
  auth = field fields 3;
  fee = field fields 4;
  web_net = field fields 5;
  web_str = field fields 6;
  web_reg = field fields 7;
  misc = misc_from fields 8;
}

pub data Kind : Type 0 where
  skipped str cas net other : Kind

-- The arms of the `match` on the first field.
unfoldable pub kind_of_name : Bytes → Kind
unfolding equal
kind_of_name name =
    if equal name (ascii "STR")
    then str
    else if equal name (ascii "CAS")
    then cas
    else if equal name (ascii "NET")
    then net
    else other

abbrev pub is_skipped : Bytes → Bool
is_skipped trimmed = is_empty trimmed || eq_ignore_ascii_case trimmed (ascii "ENDSOURCETABLE")

unfoldable pub kind_of : Bytes → Kind
unfolding trim_ascii split field kind_of_name eq_ignore_ascii_case
kind_of line =
    if is_skipped (trim_ascii line) then skipped else kind_of_name (field (split semicolon line) 0)

unfoldable pub push_row : Kind → Bytes → SourceTable → SourceTable
unfolding split parse_str parse_cas parse_net
push_row skipped line t = t
push_row str line t = record t { strs = t.strs ++ parse_str (split semicolon line) ∷ [] }
push_row cas line t = record t { casters = t.casters ++ parse_cas (split semicolon line) ∷ [] }
push_row net line t = record t { networks = t.networks ++ parse_net (split semicolon line) ∷ [] }
push_row other line t = record t { unparsed = t.unparsed ++ line ∷ [] }

unfoldable pub parse_line : Bytes → SourceTable → SourceTable
unfolding strip_cr kind_of push_row
parse_line raw t = let line = strip_cr raw in push_row (kind_of line) line t

unfoldable pub parse_lines : List Bytes → SourceTable → SourceTable
unfolding parse_line
parse_lines [] t = t
parse_lines (line ∷ lines) t = parse_lines lines (parse_line line t)

unfoldable pub parse : Bytes → SourceTable
unfolding from_utf8_lossy split parse_lines
parse raw = parse_lines (split lf (from_utf8_lossy raw)) empty_table
