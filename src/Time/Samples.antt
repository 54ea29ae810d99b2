-- ===== src/Time/Samples.antt =====
-- Dates and times as Go reads and prints them.
use smart_assistant_api.Common.{ℕ, ◌≡◌, refl, some, none, ◌*◌, ◌+◌}
use smart_assistant_api.Time.Civil.{
  hour, day, day_number, days_in, days_before_year, days_of_months, year_day, months_before,
  years_before, year_of, month_of, day_of, weekday, utc, jakarta,
}
use smart_assistant_api.Time.Format.{
  date_text, clock_text, zone, year_text, four, two, rfc3339, kitchen, kitchen_hour, long_date,
}
use smart_assistant_api.Time.Parse.{
  parse_date, parse_seconds, parse_minutes, parse_zone, zone_minutes, get_fraction, expect_space,
  get_two, get_num, get_year, parse_rfc3339, parse_short,
}

abbrev noon : ℕ
unfolding day_number year_of month_of day_of days_in days_before_year days_of_months year_day
    months_before years_before
noon = day_number 2026 1 5 * day + 12 * hour

known : (day_number 1 1 1 ≡ 0) × (day_number 1970 1 1 ≡ 719162) × (weekday noon ≡ 0)
unfolding day_number days_in noon year_of month_of day_of days_before_year days_of_months year_day
    months_before years_before
known = (refl, refl, refl)

leap_day : (year_of 738944 ≡ 2024) × (month_of 738944 ≡ 2) × (day_of 738944 ≡ 29)
unfolding year_of month_of day_of days_in day_number days_before_year days_of_months year_day
    months_before years_before
leap_day = (refl, refl, refl)

printed :
    (rfc3339 utc noon ≡ "2026-01-05T12:00:00Z")
    × (rfc3339 jakarta noon ≡ "2026-01-05T19:00:00+07:00")
    × (kitchen noon ≡ "12:00 PM")
    × (kitchen_hour (noon + 3 * hour) ≡ "3 PM")
    × (long_date 738944 ≡ "February 29, 2024")
unfolding rfc3339 kitchen kitchen_hour long_date noon date_text clock_text zone year_text four two
    year_of month_of day_of days_in day_number days_before_year days_of_months year_day
    months_before years_before
printed = (refl, refl, refl, refl, refl)

parsed :
    (parse_rfc3339 "2026-01-05T19:00:00.25+07:00"
      ≡ some (record { instant = noon + 250000000; offset = jakarta }))
    × (parse_rfc3339 "2026-02-29T19:00:00Z" ≡ none)
    × (parse_short utc "2026-01-05  12:00" ≡ some (record { instant = noon; offset = utc }))
unfolding parse_rfc3339 parse_short noon parse_date parse_seconds parse_minutes parse_zone
    zone_minutes get_fraction expect_space get_two get_num get_year year_of month_of day_of days_in
    day_number days_before_year days_of_months year_day months_before years_before
parsed = (refl, refl, refl)
