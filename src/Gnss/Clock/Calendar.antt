-- ===== src/Gnss/Clock/Calendar.antt =====
-- crates/gnss/src/clock.rs with crates/app/src/logging.rs: the two conversions of dates agree.
use open_ntripclient.Base.{
  ℕ, suc, ◌+◌, ◌-◌, ◌*◌, ◌/◌, ◌%◌, ◌≤◌, ◌<◌, ◌≡◌, ap, ltb, leb, if_cases, ltb→lt, leb→le, arith,
}
use open_ntripclient.Gnss.Decode.{ℤ, pos, negsuc}
use open_ntripclient.Gnss.Clock.{
  plus, minus, times, div_euclid, rem_euclid, as_i32, year_of_era, day_of_year, month_index,
  month_of, march_based,
}

pub minus-plus : (z : ℤ) (n : ℕ) → minus (plus z n) n ≡ z
minus-plus (pos a) n =
    if_cases (λ x. x ≡ pos a) (leb n (a + n)) (λ e. ap pos (omega arith))
      (λ e. absurd (ground arith))
minus-plus (negsuc a) n =
    if_cases (λ x. minus x n ≡ negsuc a) (ltb a n)
      (λ e.
        let low = ltb→lt a n e in
        if_cases (λ x. x ≡ negsuc a) (leb n (n - suc a))
          (λ f. absurd (omega (arith, low, leb→le n (n - suc a) f)))
          (λ f. ap negsuc (omega (arith, low))))
      (λ e. let high : n ≤ a = ground arith in ap negsuc (omega (arith, high)))

-- What 32 bits hold.
abbrev pub FitsI32 : ℤ → Type 0
FitsI32 (pos a) = a < 0x80000000
FitsI32 (negsuc a) = a < 0x80000000

pub as_i32_same : (z : ℤ) → FitsI32 z → as_i32 z ≡ z
as_i32_same (pos a) h =
    let r : a % 0x100000000 ≡ a = omega (arith, h) in
    if_cases (λ x. x ≡ pos a) (ltb (a % 0x100000000) 0x80000000) (λ e. ap pos r)
      (λ e. absurd (ground (arith, h, r)))
as_i32_same (negsuc a) h =
    let r : 0x100000000 - suc (a % 0x100000000) ≡ 0xFFFFFFFF - a = omega (arith, h) in
    if_cases (λ x. x ≡ negsuc a) (ltb (0x100000000 - suc (a % 0x100000000)) 0x80000000)
      (λ e. absurd (omega (arith, h, r, ltb→lt (0x100000000 - suc (a % 0x100000000)) 0x80000000 e)))
      (λ e. ap negsuc (omega (arith, h, r)))

-- A year number taken apart, and a day number put together.
pub year_parts :
    (e : ℤ) (r : ℕ)
    → r < 400
    → (div_euclid (plus (times e 400) r) 400 ≡ e) × (rem_euclid (plus (times e 400) r) 400 ≡ r)
year_parts (pos a) r h = (ap pos (omega (arith, h)), omega (arith, h))
year_parts (negsuc a) r h =
    if_cases (λ x. (div_euclid x 400 ≡ negsuc a) × (rem_euclid x 400 ≡ r)) (ltb (suc a * 400 - 1) r)
      (λ e. absurd (omega (arith, h, ltb→lt (suc a * 400 - 1) r e)))
      (λ e. (ap negsuc (omega (arith, h)), omega (arith, h)))

pub day_parts : (z : ℤ) → plus (times (div_euclid z 146097) 146097) (rem_euclid z 146097) ≡ z
day_parts (pos a) = ap pos (omega arith)
day_parts (negsuc a) =
    let most = suc (a / 146097) * 146097 - 1 in
    let rest = 146097 - suc (a % 146097) in
    if_cases (λ x. x ≡ negsuc a) (ltb most rest) (λ e. absurd (omega (arith, ltb→lt most rest e)))
      (λ e. ap negsuc (omega arith))

pub doe_bound : (z : ℤ) → rem_euclid z 146097 < 146097
doe_bound (pos a) = omega arith
doe_bound (negsuc a) = omega arith

pub yoe_bound : (doe : ℕ) → doe < 146097 → year_of_era doe < 400
unfolding year_of_era
yoe_bound doe h = omega (arith, h)

pub year_start :
    (doe : ℕ)
    → doe < 146097
    → 365 * year_of_era doe + year_of_era doe / 4 - year_of_era doe / 100 ≤ doe
unfolding year_of_era
year_start doe h = omega (arith, h)

pub doy_bound : (doe : ℕ) → doe < 146097 → day_of_year doe ≤ 365
unfolding day_of_year year_of_era
doy_bound doe h = omega (arith, h)

-- A day of the year, its month and its day of the month.
pub month_parts :
    (doy : ℕ)
    → doy ≤ 365
    → (1 ≤ month_of (month_index doy))
      × (month_of (month_index doy) ≤ 12)
      × (march_based (month_of (month_index doy)) ≡ month_index doy)
month_parts doy h = ground arith

pub day_parts_of_month :
    (doy : ℕ)
    → doy ≤ 365
    → ((153 * month_index doy + 2) / 5 ≤ doy) × (doy - (153 * month_index doy + 2) / 5 ≤ 30)
day_parts_of_month doy h = (omega (arith, h), omega (arith, h))

pub plus-plus : (z : ℤ) (m n : ℕ) → plus (plus z m) n ≡ plus z (m + n)
plus-plus (pos a) m n = ap pos (omega arith)
plus-plus (negsuc a) m n =
    if_cases (λ x. plus x n ≡ plus (negsuc a) (m + n)) (ltb a m)
      (λ e.
        let low = ltb→lt a m e in
        if_cases (λ x. pos (m - suc a + n) ≡ x) (ltb a (m + n)) (λ f. ap pos (omega (arith, low)))
          (λ f. absurd (ground (arith, low))))
      (λ e.
        let high : m ≤ a = ground arith in
        if_cases (λ x. x ≡ plus (negsuc a) (m + n)) (ltb (a - m) n)
          (λ f.
            let low = ltb→lt (a - m) n f in
            if_cases (λ x. pos (n - suc (a - m)) ≡ x) (ltb a (m + n))
              (λ g. ap pos (omega (arith, low, high))) (λ g. absurd (ground (arith, low, high))))
          (λ f.
            let above : n ≤ a - m = ground arith in
            if_cases (λ x. negsuc (a - m - n) ≡ x) (ltb a (m + n))
              (λ g. absurd (omega (arith, ltb→lt a (m + n) g, above, high)))
              (λ g. ap negsuc (omega (arith, above, high)))))
