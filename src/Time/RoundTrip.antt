-- ===== src/Time/RoundTrip.antt =====
-- A date or a time in the layout RFC 3339, printed and read back.
use smart_assistant_api.Common.{
  ℕ, zero, suc, ◌+◌, ◌*◌, ◌/◌, ◌%◌, ◌≤◌, ◌<◌, ◌≡◌, refl, String, leb, some, arith, ap, lt→ltb, true,
}
use smart_assistant_api.Time.Civil.{
  second, minute, hour, day, days_in, year_of, month_of, day_of, utc,
}
use smart_assistant_api.Time.Format.{
  digit, two, four, year_text, date_text, clock_text, zone, rfc3339,
}
use smart_assistant_api.Time.Parse.{
  digit_of, get_two, get_num, get_year, parse_date, parse_minutes, parse_seconds, parse_zone,
  parse_rfc3339, get_fraction,
}
use smart_assistant_api.Time.Dates.{day_number_lem, day_of_bounds, month_of_bounds, days_in_bounds}

digit_of-digit : (n : ℕ) → n < 10 → digit_of (digit n) ≡ some n
digit_of-digit zero h = refl
digit_of-digit (suc zero) h = refl
digit_of-digit (suc (suc zero)) h = refl
digit_of-digit (suc (suc (suc zero))) h = refl
digit_of-digit (suc (suc (suc (suc zero)))) h = refl
digit_of-digit (suc (suc (suc (suc (suc zero))))) h = refl
digit_of-digit (suc (suc (suc (suc (suc (suc zero)))))) h = refl
digit_of-digit (suc (suc (suc (suc (suc (suc (suc zero))))))) h = refl
digit_of-digit (suc (suc (suc (suc (suc (suc (suc (suc zero)))))))) h = refl
digit_of-digit (suc (suc (suc (suc (suc (suc (suc (suc (suc zero))))))))) h = refl
digit_of-digit (suc (suc (suc (suc (suc (suc (suc (suc (suc (suc n)))))))))) h =
    absurd (omega arith)

get_two-two : (n : ℕ) (rest : String) → n < 100 → get_two (two n rest) ≡ some (n, rest)
unfolding get_two two
get_two-two n rest h =
    let e : 10 * (n / 10) + n % 10 ≡ n = omega arith in
    rw (digit_of-digit (n / 10) (omega arith), digit_of-digit (n % 10) (omega arith), e) refl

get_num-two : (n : ℕ) (rest : String) → n < 100 → get_num (two n rest) ≡ some (n, rest)
unfolding get_num two
get_num-two n rest h =
    let e : 10 * (n / 10) + n % 10 ≡ n = omega arith in
    rw (digit_of-digit (n / 10) (omega arith), digit_of-digit (n % 10) (omega arith), e) refl

get_year-year_text :
    (n : ℕ) (rest : String) → n < 10000 → get_year (year_text n rest) ≡ some (n, rest)
unfolding get_year year_text four two get_two
get_year-year_text n rest h =
    rw
      (
        lt→ltb n 10000 h,
        digit_of-digit (n / 100 / 10) (omega arith),
        digit_of-digit (n / 100 % 10) (omega arith),
        digit_of-digit (n % 100 / 10) (omega arith),
        digit_of-digit (n % 100 % 10) (omega arith),
      )
      (ap (λ k. some (k, rest)) (omega arith))

le→leb : (a b : ℕ) → a ≤ b → leb a b ≡ true
le→leb a b h = ground arith

parse_date-date_text :
    (n : ℕ) (rest : String) → year_of n < 10000 → parse_date (date_text n rest) ≡ some (n, rest)
unfolding parse_date date_text
parse_date-date_text n rest h =
    let (m_lo, m_hi, from, to) = month_of_bounds n in
    let (d_lo, d_hi) = day_of_bounds n in
    let (_, most) = days_in_bounds (year_of n) (month_of n) in
    rw
      (
        get_year-year_text (year_of n) _ h,
        get_two-two (month_of n) _ (omega arith),
        get_two-two (day_of n) rest (omega arith),
        le→leb 1 (month_of n) m_lo,
        le→leb (month_of n) 12 m_hi,
        le→leb 1 (day_of n) d_lo,
        le→leb (day_of n) (days_in (year_of n) (month_of n)) d_hi,
        day_number_lem n,
      )
      refl

parse_seconds-clock_text :
    (t : ℕ) (rest : String)
    → get_fraction rest ≡ (0, rest)
    → parse_seconds (clock_text t rest) ≡ some (t % day / second * second, rest)
unfolding parse_seconds parse_minutes clock_text
parse_seconds-clock_text t rest h =
    rw
      (
        get_num-two (t / hour % 24) _ (omega arith),
        get_two-two (t / minute % 60) _ (omega arith),
        lt→ltb (t / hour % 24) 24 (omega arith),
        lt→ltb (t / minute % 60) 60 (omega arith),
        get_two-two (t / second % 60) rest (omega arith),
        lt→ltb (t / second % 60) 60 (omega arith),
        h,
      )
      (ap (λ k. some (k, rest)) (omega arith))

get_fraction_zone : get_fraction "Z" ≡ (0, "Z")
unfolding get_fraction
get_fraction_zone = refl

-- An instant of the years 1 to 9999, printed in UTC, is read back as its second, in UTC.
pub parse_rfc3339-rfc3339 :
    (t : ℕ)
    → year_of (t / day) < 10000
    → parse_rfc3339 (rfc3339 utc t) ≡ some (record { instant = t / second * second; offset = utc })
unfolding parse_rfc3339 rfc3339 parse_zone zone
parse_rfc3339-rfc3339 t h =
    let e : t + 0 * minute ≡ t = omega arith in
    rw (e, parse_date-date_text (t / day) _ h, parse_seconds-clock_text t "Z" get_fraction_zone)
      (ap (λ k. some (record { instant = k; offset = utc })) (omega arith))
