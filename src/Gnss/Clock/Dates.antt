-- ===== src/Gnss/Clock/Dates.antt =====
-- crates/gnss/src/clock.rs with crates/app/src/logging.rs: a day's date is a date, and names the day.
use open_ntripclient.Base.{ℕ, ◌+◌, ◌-◌, ◌*◌, ◌/◌, ◌%◌, ◌≤◌, ◌<◌, ◌≡◌, ap, ◌∙◌, sym, subst, arith}
use open_ntripclient.Gnss.Decode.{ℤ}
use open_ntripclient.Gnss.Clock.{
  plus, minus, times, div_euclid, rem_euclid, year_of_era, day_of_year, month_index, month_of,
  carry, CivilDate, civil_from_days, march_based, days_from_civil,
}
use open_ntripclient.Gnss.Clock.Calendar.{
  minus-plus, plus-plus, FitsI32, as_i32_same, year_parts, day_parts, doe_bound, yoe_bound,
  year_start, doy_bound, month_parts, day_parts_of_month,
}

-- The year before it is cut to 32 bits.
abbrev pub year_of : ℤ → ℤ
year_of days =
    let z = plus days 719468 in
    let doe = rem_euclid z 146097 in
    plus (plus (times (div_euclid z 146097) 400) (year_of_era doe))
      (carry (month_of (month_index (day_of_year doe))))

abbrev date_of : ℤ → ℕ → ℕ → CivilDate
date_of y m d = record { year = y; month = m; day = d }

abbrev pub whole_date : ℤ → CivilDate
whole_date days =
    let doy = day_of_year (rem_euclid (plus days 719468) 146097) in
    let mp = month_index doy in date_of (year_of days) (month_of mp) (doy - (153 * mp + 2) / 5 + 1)

date_of-cut :
    {y y' : ℤ} {m m' d d' : ℕ} → y ≡ y' → m ≡ m' → d ≡ d' → date_of y m d ≡ date_of y' m' d'
date_of-cut {y} {y'} {m} {m'} {d} {d'} p q r =
    ap (λ x. date_of x m d) p ∙ ap (λ x. date_of y' x d) q ∙ ap (date_of y' m') r

-- Nothing is cut off.
civil_from_days-whole : (days : ℤ) → FitsI32 (year_of days) → civil_from_days days ≡ whole_date days
unfolding civil_from_days
civil_from_days-whole days h =
    let doe = rem_euclid (plus days 719468) 146097 in
    let doy = day_of_year doe in
    let b = doy_bound doe (doe_bound (plus days 719468)) in
    let (low, high, march) = month_parts doy b in
    let (before, within) = day_parts_of_month doy b in
    let month : month_of (month_index doy) % 256 ≡ month_of (month_index doy) =
      omega (arith, high) in
    let d = doy - (153 * month_index doy + 2) / 5 + 1 in
    let day : d % 256 ≡ d = omega (arith, within) in
    date_of-cut (as_i32_same (year_of days) h) month day

-- The day number from the year, the month and the day, apart.
abbrev count : ℤ → ℕ → ℕ → ℕ → ℤ
count q yoe mp day =
    minus (plus (times q 146097) (yoe * 365 + yoe / 4 - yoe / 100 + ((153 * mp + 2) / 5 + day)))
      719469

days_from_civil-date_of :
    (e : ℤ) (yoe m day : ℕ)
    → yoe < 400
    → days_from_civil (date_of (plus (plus (times e 400) yoe) (carry m)) m day)
      ≡ count e yoe (march_based m) day
unfolding days_from_civil
days_from_civil-date_of e yoe m day h =
    let (quotient, remainder) = year_parts e yoe h in
    let y = plus (times e 400) yoe in
    ap (λ x. count (div_euclid x 400) (rem_euclid x 400) (march_based m) day)
      (minus-plus y (carry m))
    ∙ ap (λ x. count x (rem_euclid y 400) (march_based m) day) quotient
    ∙ ap (λ x. count e x (march_based m) day) remainder

count-sum :
    (days : ℤ) (yoe mp day : ℕ)
    → yoe * 365 + yoe / 4 - yoe / 100 + ((153 * mp + 2) / 5 + day)
      ≡ rem_euclid (plus days 719468) 146097 + 1
    → count (div_euclid (plus days 719468) 146097) yoe mp day ≡ days
count-sum days yoe mp day sum =
    let z = plus days 719468 in
    let e = times (div_euclid z 146097) 146097 in
    ap (λ n. minus (plus e n) 719469) sum
    ∙ ap (λ x. minus x 719469) (sym (plus-plus e (rem_euclid z 146097) 1))
    ∙ ap (λ x. minus (plus x 1) 719469) (day_parts z)
    ∙ ap (λ x. minus x 719469) (plus-plus days 719468 1)
    ∙ minus-plus days 719469

day_sum :
    (doe : ℕ)
    → doe < 146097
    → let yoe = year_of_era doe in
      let mp = month_index (day_of_year doe) in
      yoe * 365
        + yoe / 4
        - yoe / 100
        + ((153 * mp + 2) / 5 + (day_of_year doe - (153 * mp + 2) / 5 + 1))
      ≡ doe + 1
unfolding day_of_year
day_sum doe h =
    let yoe = year_of_era doe in
    let (before, within) = day_parts_of_month (day_of_year doe) (doy_bound doe h) in
    omega (arith, before, year_start doe h)

-- If the year fits 32 bits, the month and the day of a day's date are between 1 and 12 and between 1
-- and 31, and the date is converted back to the day it came from.
pub days_from_civil-civil_from_days :
    (days : ℤ)
    → FitsI32 (year_of days)
    → let d = civil_from_days days in
      (1 ≤ d.month) × (d.month ≤ 12) × (1 ≤ d.day) × (d.day ≤ 31) × (days_from_civil d ≡ days)
days_from_civil-civil_from_days days h =
    let z = plus days 719468 in
    let doe = rem_euclid z 146097 in
    let b = doe_bound z in
    let doy = day_of_year doe in
    let (low, high, march) = month_parts doy (doy_bound doe b) in
    let (before, within) = day_parts_of_month doy (doy_bound doe b) in
    let mp = month_index doy in
    let d = doy - (153 * mp + 2) / 5 + 1 in
    let first : 1 ≤ d = omega arith in
    let last : d ≤ 31 = omega (arith, within) in
    let back : days_from_civil (whole_date days) ≡ days =
      days_from_civil-date_of (div_euclid z 146097) (year_of_era doe) (month_of mp) d
        (yoe_bound doe b)
      ∙ ap (λ x. count (div_euclid z 146097) (year_of_era doe) x d) march
      ∙ count-sum days (year_of_era doe) mp d (day_sum doe b) in
    subst
      (λ d.
        (1 ≤ d.month) × (d.month ≤ 12) × (1 ≤ d.day) × (d.day ≤ 31) × (days_from_civil d ≡ days))
      (sym (civil_from_days-whole days h)) (low, high, first, last, back)
