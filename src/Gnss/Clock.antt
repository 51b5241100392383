-- ===== src/Gnss/Clock.antt =====
-- crates/gnss/src/clock.rs, and `days_from_civil` of crates/app/src/logging.rs: civil dates. An i64
-- is an integer here: the day numbers of 64-bit seconds are far from its bounds. The clock itself and
-- the local time come from the system.
pub mod Calendar
pub mod Dates
use open_ntripclient.Base.{
  ℕ, suc, ◌+◌, ◌-◌, ◌*◌, ◌/◌, ◌%◌, Bool, true, false, ltb, leb, if◌then◌else◌,
}
use open_ntripclient.Gnss.Decode.{ℤ, pos, negsuc}

-- Sums, differences and products of an integer and a natural number.
abbrev pub plus : ℤ → ℕ → ℤ
plus (pos a) n = pos (a + n)
plus (negsuc a) n = if ltb a n then pos (n - suc a) else negsuc (a - n)

abbrev pub minus : ℤ → ℕ → ℤ
minus (pos a) n = if leb n a then pos (a - n) else negsuc (n - suc a)
minus (negsuc a) n = negsuc (a + n)

abbrev pub times : ℤ → ℕ → ℤ
times (pos a) n = pos (a * n)
times (negsuc a) n = negsuc (suc a * n - 1)

-- `div_euclid` and `rem_euclid`, by a positive number.
abbrev pub div_euclid : ℤ → ℕ → ℤ
div_euclid (pos a) n = pos (a / n)
div_euclid (negsuc a) n = negsuc (a / n)

abbrev pub rem_euclid : ℤ → ℕ → ℕ
rem_euclid (pos a) n = a % n
rem_euclid (negsuc a) n = n - suc (a % n)

-- `as i32`
abbrev pub i32_of : ℕ → ℤ
i32_of r = if ltb r 0x80000000 then pos r else negsuc (0xFFFFFFFF - r)

abbrev pub as_i32 : ℤ → ℤ
as_i32 z = i32_of (rem_euclid z 0x100000000)

-- Within an era, whose years begin on March 1: the year, the day of the year, the month.
unfoldable pub year_of_era : ℕ → ℕ
year_of_era doe = (doe - doe / 1460 + doe / 36524 - doe / 146096) / 365

unfoldable pub day_of_year : ℕ → ℕ
unfolding year_of_era
day_of_year doe = let yoe = year_of_era doe in doe - (365 * yoe + yoe / 4 - yoe / 100)

abbrev pub month_index : ℕ → ℕ
month_index doy = (5 * doy + 2) / 153

abbrev pub month_of : ℕ → ℕ
month_of mp = if ltb mp 10 then mp + 3 else mp - 9

-- January and February belong to the next year.
abbrev pub carry : ℕ → ℕ
carry month = if leb month 2 then 1 else 0

pub record CivilDate : Type 0 where
  pub year : ℤ
  pub month : ℕ
  pub day : ℕ

unfoldable pub civil_from_days : ℤ → CivilDate
unfolding year_of_era day_of_year
civil_from_days days =
    let z = plus days 719468 in
    let doe = rem_euclid z 146097 in
    let doy = day_of_year doe in
    let mp = month_index doy in
    let month = month_of mp in
    record {
      year = as_i32 (plus (plus (times (div_euclid z 146097) 400) (year_of_era doe)) (carry month));
      month = month % 256;
      day = (doy - (153 * mp + 2) / 5 + 1) % 256;
    }

pub record UtcTime : Type 0 where
  pub date : CivilDate
  pub hour : ℕ
  pub min : ℕ
  pub sec : ℕ
  pub centis : ℕ

unfoldable pub utc_from_unix : ℤ → ℕ → UtcTime
unfolding civil_from_days
utc_from_unix secs centis =
    let sod = rem_euclid secs 86400 in
    record {
      date = civil_from_days (div_euclid secs 86400);
      hour = sod / 3600 % 256;
      min = sod / 60 % 60;
      sec = sod % 60;
      centis = centis;
    }

-- The month's position in a year that begins in March.
abbrev pub march_based : ℕ → ℕ
march_based m = if ltb 2 m then m - 3 else m + 9

-- The 1 that the source takes from the day of the year is in the last number: every sum is natural.
unfoldable pub days_from_civil : CivilDate → ℤ
days_from_civil d =
    let y = minus d.year (carry d.month) in
    let yoe = rem_euclid y 400 in
    let doy = (153 * march_based d.month + 2) / 5 + d.day in
    minus (plus (times (div_euclid y 400) 146097) (yoe * 365 + yoe / 4 - yoe / 100 + doy)) 719469
