-- ===== src/Time/Format.antt =====
-- `Format` of the package `time`, for the layouts of the program.
use Prim.Native.Char.{Char}
use Prim.Native.String.{char_at, ◌++◌}
use smart_assistant_api.Common.{ℕ, ◌/◌, ◌%◌, ◌==◌, String, ltb, if◌then◌else◌}
use smart_assistant_api.Common.Text.{decimal}
use smart_assistant_api.Time.Civil.{
  second, minute, hour, day, year_of, month_of, day_of, Offset, east, west, to_local,
}

abbrev pub digit : ℕ → Char
digit n = char_at "0123456789" n

-- `01`, `02`, `15`, `04` and `05` in a layout, in front of what follows
unfoldable pub two : ℕ → String → String
two n rest = String.◌∷◌ (digit (n / 10)) (String.◌∷◌ (digit (n % 10)) rest)

-- `2006` in a layout
unfoldable pub four : ℕ → String → String
unfolding two
four n rest = two (n / 100) (two (n % 100) rest)

unfoldable pub year_text : ℕ → String → String
unfolding decimal four
year_text y rest = if ltb y 10000 then four y rest else decimal y ++ rest

abbrev pub char : Char → String → String
char c rest = String.◌∷◌ c rest

abbrev pub hours : ℕ → ℕ
hours t = t / hour % 24

abbrev pub minutes : ℕ → ℕ
minutes t = t / minute % 60

abbrev pub seconds : ℕ → ℕ
seconds t = t / second % 60

-- `Z07:00` in a layout
unfoldable pub zone : Offset → String
zone (east m) = if m == 0 then "Z" else char "+" (two (m / 60) (char ":" (two (m % 60) "")))
zone (west m) = if m == 0 then "Z" else char "-" (two (m / 60) (char ":" (two (m % 60) "")))

-- 2006-01-02
unfoldable pub date_text : ℕ → String → String
date_text n rest =
    year_text (year_of n) (char "-" (two (month_of n) (char "-" (two (day_of n) rest))))

-- 15:04:05
unfoldable pub clock_text : ℕ → String → String
clock_text t rest = two (hours t) (char ":" (two (minutes t) (char ":" (two (seconds t) rest))))

-- time.RFC3339, `2006-01-02T15:04:05Z07:00`
unfoldable pub rfc3339 : Offset → ℕ → String
rfc3339 zone_offset t =
    let local = to_local zone_offset t in
    date_text (local / day) (char "T" (clock_text local (zone zone_offset)))

-- Hours of a twelve-hour clock: `3`.
abbrev pub hour12 : ℕ → ℕ
hour12 t = let h = hours t % 12 in if h == 0 then 12 else h

abbrev pub half_text : ℕ → String
half_text t = if ltb (hours t) 12 then "AM" else "PM"

-- `3:04 PM`
unfoldable pub kitchen : ℕ → String
unfolding decimal
kitchen t = decimal (hour12 t) ++ char ":" (two (minutes t) (" " ++ half_text t))

-- `3 PM`
unfoldable pub kitchen_hour : ℕ → String
unfolding decimal
kitchen_hour t = decimal (hour12 t) ++ (" " ++ half_text t)

unfoldable pub weekday_name : ℕ → String
weekday_name n =
    if n == 0
    then "Monday"
    else if n == 1
    then "Tuesday"
    else if n == 2
    then "Wednesday"
    else if n == 3
    then "Thursday"
    else if n == 4
    then "Friday"
    else if n == 5
    then "Saturday"
    else "Sunday"

unfoldable pub month_name : ℕ → String
month_name m =
    if m == 1
    then "January"
    else if m == 2
    then "February"
    else if m == 3
    then "March"
    else if m == 4
    then "April"
    else if m == 5
    then "May"
    else if m == 6
    then "June"
    else if m == 7
    then "July"
    else if m == 8
    then "August"
    else if m == 9
    then "September"
    else if m == 10
    then "October"
    else if m == 11
    then "November"
    else "December"

-- `January 2, 2006`
unfoldable pub long_date : ℕ → String
unfolding decimal year_text month_name
long_date n =
    month_name (month_of n) ++ (" " ++ (decimal (day_of n) ++ (", " ++ year_text (year_of n) "")))
