-- ===== src/Time/Civil.antt =====
-- Dates and clock times of an instant, in the Gregorian calendar.
use smart_assistant_api.Common.{
  ℕ, zero, suc, ◌+◌, ◌-◌, ◌*◌, ◌/◌, ◌%◌, Bool, not, ◌&&◌, ◌||◌, ◌==◌, ltb, if◌then◌else◌,
}

abbrev pub second : ℕ
second = 1000000000

abbrev pub minute : ℕ
minute = 60 * second

abbrev pub hour : ℕ
hour = 60 * minute

abbrev pub day : ℕ
day = 24 * hour

abbrev pub is_leap : ℕ → Bool
is_leap y = y % 4 == 0 && (not (y % 100 == 0) || y % 400 == 0)

-- daysIn
unfoldable pub days_in : ℕ → ℕ → ℕ
days_in y m =
    if m == 2
    then if is_leap y then 29 else 28
    else if m == 4 || m == 6 || m == 9 || m == 11
    then 30
    else 31

-- the days of the years 1 to y - 1
unfoldable pub days_before_year : ℕ → ℕ
days_before_year y = let p = y - 1 in 365 * p + p / 4 - p / 100 + p / 400

-- the days of the months 1 to m
unfoldable pub days_of_months : ℕ → ℕ → ℕ
days_of_months y zero = 0
days_of_months y (suc m) = days_of_months y m + days_in y (suc m)

-- the number of a date, counted from the first of January of the year 1
unfoldable pub day_number : ℕ → ℕ → ℕ → ℕ
day_number y m d = days_before_year y + days_of_months y (m - 1) + (d - 1)

-- the years before that of a day, by cycles of 400, 100, 4 and 1 years
unfoldable pub years_before : ℕ → ℕ
years_before n =
    let in_400 = n % 146097 in
    let b = if in_400 / 36524 == 4 then 3 else in_400 / 36524 in
    let in_100 = in_400 - 36524 * b in
    let in_4 = in_100 % 1461 in
    let d = if in_4 / 365 == 4 then 3 else in_4 / 365 in
    400 * (n / 146097) + 100 * b + 4 * (in_100 / 1461) + d

unfoldable pub year_of : ℕ → ℕ
year_of n = years_before n + 1

unfoldable pub year_day : ℕ → ℕ
year_day n = n - days_before_year (year_of n)

-- The whole months before the day `r` of a year, from the month after `m` on, of `left` months.
unfoldable pub months_before : ℕ → ℕ → ℕ → ℕ → ℕ
months_before zero y m r = m
months_before (suc left) y m r =
    let rest = months_before left y (suc m) (r - days_in y (suc m)) in
    if ltb r (days_in y (suc m)) then m else rest

unfoldable pub month_of : ℕ → ℕ
month_of n = months_before 11 (year_of n) 0 (year_day n) + 1

unfoldable pub day_of : ℕ → ℕ
day_of n = year_day n - days_of_months (year_of n) (month_of n - 1) + 1

-- 0 is Monday
abbrev pub weekday : ℕ → ℕ
weekday t = t / day % 7

-- A time zone, in minutes from UTC.
pub data Offset : Type 0 where
  east west : ℕ → Offset

abbrev pub utc : Offset
utc = east 0

abbrev pub jakarta : Offset
jakarta = east 420

-- the wall clock at an instant, and the instant of a wall clock
abbrev pub to_local : Offset → ℕ → ℕ
to_local (east m) t = t + m * minute
to_local (west m) t = t - m * minute

abbrev pub from_local : Offset → ℕ → ℕ
from_local (east m) t = t - m * minute
from_local (west m) t = t + m * minute

-- A time of Go: an instant and a location to show it in.
pub record Moment : Type 0 where
  pub instant : ℕ
  pub offset : Offset
