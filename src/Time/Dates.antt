-- ===== src/Time/Dates.antt =====
-- The number of a date, and the date of a number.
use smart_assistant_api.Common.{
  ℕ, zero, suc, ◌+◌, ◌-◌, ◌*◌, ◌≤◌, ◌<◌, ◌≡◌, refl, ltb, arith, Bool-cases, inl, inr,
}
use smart_assistant_api.Time.Civil.{
  days_in, days_before_year, days_of_months, day_number, years_before, year_of, year_day,
  months_before, month_of, day_of,
}

days_before_year_lem :
    (a b c d : ℕ)
    → b ≤ 3
    → c ≤ 24
    → d ≤ 3
    → days_before_year (400 * a + 100 * b + 4 * c + d + 1)
      ≡ 146097 * a + 36524 * b + 1461 * c + 365 * d
unfolding days_before_year
days_before_year_lem a b c d hb hc hd = omega arith

-- A day stands in its year.
year_of_bounds :
    (n : ℕ) → (days_before_year (year_of n) ≤ n) × (n < days_before_year (year_of n + 1))
unfolding year_of years_before days_before_year
year_of_bounds n = ground arith

pub days_in_bounds : (y m : ℕ) → (28 ≤ days_in y m) × (days_in y m ≤ 31)
unfolding days_in
days_in_bounds y m = ground arith

-- The month of a day is found when the day is before the end of the year.
months_before_bounds :
    (left y m r : ℕ)
    → days_of_months y m + r < days_of_months y (suc (m + left))
    → (m ≤ months_before left y m r)
      × (months_before left y m r ≤ m + left)
      × (days_of_months y (months_before left y m r) ≤ days_of_months y m + r)
      × (days_of_months y m + r < days_of_months y (suc (months_before left y m r)))
unfolding months_before days_of_months
months_before_bounds zero y m r h =
    let e : m + 0 ≡ m = omega arith in (omega arith, omega arith, omega arith, rw e at h)
months_before_bounds (suc left) y m r h = elim (Bool-cases (ltb r (days_in y (suc m)))) [
  | inl here ↦ rw here (ground arith)
  | inr on ↦
      let e : m + suc left ≡ suc m + left = omega arith in
      let h' = rw e at h in
      rw on (ground (arith, months_before_bounds left y (suc m) (r - days_in y (suc m))))
]

months_of_year :
    (y : ℕ) → days_before_year (y + 1 + 1) ≡ days_before_year (y + 1) + days_of_months (y + 1) 12
unfolding days_of_months days_in days_before_year
months_of_year y = ground arith

year_day_lem : (n : ℕ) → days_before_year (year_of n) + year_day n ≡ n
unfolding year_day
year_day_lem n = omega (arith, year_of_bounds n)

year_day-lt : (n : ℕ) → year_day n < days_of_months (year_of n) 12
unfolding year_day year_of
year_day-lt n = omega (arith, year_of_bounds n, months_of_year (years_before n))

no_months : (y : ℕ) → days_of_months y 0 ≡ 0
unfolding days_of_months
no_months y = refl

pub month_of_bounds :
    (n : ℕ)
    → (1 ≤ month_of n)
      × (month_of n ≤ 12)
      × (days_of_months (year_of n) (month_of n - 1) ≤ year_day n)
      × (year_day n < days_of_months (year_of n) (month_of n))
unfolding month_of
month_of_bounds n =
    let (lo, hi, from, to) =
      months_before_bounds 11 (year_of n) 0 (year_day n)
        (omega (arith, year_day-lt n, no_months (year_of n))) in
    let k = months_before 11 (year_of n) 0 (year_day n) in
    let e : k + 1 - 1 ≡ k = omega arith in
    let e' : k + 1 ≡ suc k = omega arith in
    (
      omega arith,
      omega arith,
      rw e (omega (arith, from, no_months (year_of n))),
      rw e' (omega (arith, to, no_months (year_of n))),
    )

-- The date of a day has the day's number, and is a date of the calendar.
pub day_number_lem : (n : ℕ) → day_number (year_of n) (month_of n) (day_of n) ≡ n
unfolding day_number day_of
day_number_lem n = omega (arith, year_day_lem n, month_of_bounds n)

months_suc : (y m : ℕ) → 1 ≤ m → days_of_months y m ≡ days_of_months y (m - 1) + days_in y m
unfolding days_of_months
months_suc y zero h = elim h [ ]
months_suc y (suc m) h = let e : suc m - 1 ≡ m = omega arith in rw e refl

pub day_of_bounds : (n : ℕ) → (1 ≤ day_of n) × (day_of n ≤ days_in (year_of n) (month_of n))
unfolding day_of
day_of_bounds n =
    let (lo, hi, from, to) = month_of_bounds n in
    omega (arith, months_suc (year_of n) (month_of n) lo)
