-- ===== src/Assistant/Builtin/DateTime.antt =====
-- internal/domain/assistant/builtin/datetime.go. `now` is what `time.Now()` returns.
use Prim.Native.Char.{Char, code}
use smart_assistant_api.Common.{
  ℕ, zero, suc, ◌+◌, ◌-◌, ◌*◌, ◌/◌, String, Bool, true, false, not, ◌&&◌, ◌==◌, ltb, Option, none,
  some, str_eq, if◌then◌else◌,
}
use smart_assistant_api.Common.Int.{ℤ, pos, negsuc}
use smart_assistant_api.Common.Text.{
  trim_space, trim_left, to_lower, contains, front, skip, is_space,
}
use smart_assistant_api.Common.Search.{index, replace_all}
use smart_assistant_api.Time.Civil.{hour, minute, day, Offset, to_local, from_local, Moment}
use smart_assistant_api.Time.Parse.{
  digit_of, parse_rfc3339, parse_joined, parse_spaced, parse_short, ◌>>=◌,
}

-- The digits at the front of a text, after `acc`; `seen` tells whether there was one.
unfoldable pub leading_number : ℕ → Bool → String → Option ℕ
leading_number acc seen String.[] = if seen then some acc else none
leading_number acc seen (String.◌∷◌ c s) = elim (digit_of c) [
  | none ↦ if seen then some acc else none
  | some d ↦ leading_number (10 * acc + d) true s
]

abbrev pub positive : Option ℕ → Option ℤ
positive none = none
positive (some n) = if ltb n 0x8000000000000000 then some (pos n) else none

abbrev pub negative : Option ℕ → Option ℤ
negative none = none
negative (some zero) = some (pos 0)
negative (some (suc n)) = if ltb n 0x8000000000000000 then some (negsuc n) else none

abbrev is_blank : Char → Bool
is_blank c = is_space c && not (code c == 0x0A)

abbrev signed : String → Option ℤ
unfolding leading_number
signed String.[] = none
signed (String.◌∷◌ c s) =
    if code c == b'-'
    then negative (leading_number 0 false s)
    else if code c == b'+'
    then positive (leading_number 0 false s)
    else positive (leading_number 0 false (String.◌∷◌ c s))

-- fmt.Sscanf(s, "%d", &n); what follows the number is not read
unfoldable pub scan_int : String → Option ℤ
unfolding signed trim_left
scan_int s = signed (trim_left is_blank s)

abbrev pub twelve_more : ℤ → ℤ
twelve_more (pos n) = if ltb n 12 then pos (n + 12) else pos n
twelve_more (negsuc n) = if ltb n 12 then pos (11 - n) else negsuc (n - 12)

abbrev pub midnight : ℤ → ℤ
midnight (pos n) = if n == 12 then pos 0 else pos n
midnight (negsuc n) = negsuc n

abbrev pub half_day : Bool → Bool → ℤ → ℤ
half_day is_pm is_am h =
    let h = if is_pm then twelve_more h else h in if is_am then midnight h else h

-- parseClock, and parseMeetingClock of google_calendar_meet.go
unfoldable pub parse_clock : String → Option (ℤ × ℤ)
unfolding trim_space to_lower replace_all contains index front skip scan_int
parse_clock segment =
    let s = replace_all (trim_space (to_lower segment)) "." "" in
    let bare = replace_all (trim_space (replace_all (replace_all s "pm" "") "am" "")) " " "" in
    let finish = λ (h : ℤ). half_day (contains s "pm") (contains s "am") h in
    elim (index bare ":") [
      | some i ↦ do
        h ← scan_int (front i bare)
        m ← scan_int (skip (suc i) bare)
        some (finish h, m)
      | none ↦ do h ← scan_int bare; some (finish h, pos 0)
    ]

-- parseClockFromText
unfoldable pub parse_clock_from_text : String → Option (ℤ × ℤ)
unfolding trim_space replace_all parse_clock
parse_clock_from_text lower =
    let segment =
      trim_space
        (replace_all (replace_all (replace_all lower "today" "") "tomorrow" "") "this" "") in
    if str_eq segment "" then none else parse_clock segment

-- periodOfDayHour
unfoldable pub period_of_day_hour : String → Option ℕ
unfolding contains
period_of_day_hour lower =
    if contains lower "afternoon"
    then some 14
    else if contains lower "tonight"
    then some 18
    else if contains lower "evening"
    then some 18
    else if contains lower "morning"
    then some 9
    else if contains lower "noon"
    then some 12
    else none

-- segment[:cut] at the first occurrence of `suffix`
unfoldable pub cut_before : String → String → String
unfolding index front
cut_before suffix segment = elim (index segment suffix) [
  | none ↦ segment
  | some i ↦ front i segment
]

-- the text behind the first " at ", without what follows " today" or " tomorrow"
unfoldable pub clock_segment : ℕ → String → String
unfolding skip cut_before trim_space
clock_segment i lower =
    trim_space (cut_before " tomorrow" (cut_before " today" (skip (i + 4) lower)))

abbrev whole_hour : Option ℕ → Option (ℤ × ℤ)
whole_hour none = none
whole_hour (some h) = some (pos h, pos 0)

-- the time of day that a phrase names, if it does
unfoldable pub time_of_day : String → Option (ℤ × ℤ)
unfolding index clock_segment parse_clock parse_clock_from_text period_of_day_hour
time_of_day lower = elim (index lower " at ") [
  | some i ↦ parse_clock (clock_segment i lower)
  | none ↦ elim (parse_clock_from_text lower) [
    | some clock ↦ some clock
    | none ↦ whole_hour (period_of_day_hour lower)
  ]
]

abbrev pub shift : ℕ → ℤ → ℕ → ℕ
shift t (pos n) unit = t + n * unit
shift t (negsuc n) unit = t - suc n * unit

-- time.Date at a date given by an instant in it, with hours and minutes out of range allowed
unfoldable pub at_clock : Offset → ℕ → ℤ × ℤ → ℕ
at_clock z t (h, m) = from_local z (shift (shift (to_local z t / day * day) h hour) m minute)

-- parseNaturalDateTime
unfoldable pub parse_natural_date_time : ℕ → String → Offset → Option ℕ
unfolding to_lower trim_space time_of_day contains at_clock
parse_natural_date_time now raw z = do
  clock ← time_of_day (to_lower (trim_space raw))
  let target = at_clock z now clock in
      if contains (to_lower (trim_space raw)) "tomorrow"
      then some (target + day)
      else if not (ltb now target)
      then some (target + day)
      else some target

abbrev pub or_else : {A : Type 0} → Option A → Option A → Option A
or_else (some a) o = some a
or_else none o = o

abbrev pub natural : Offset → Option ℕ → Option Moment
natural z none = none
natural z (some t) = some (record { instant = t; offset = z })

-- ParseDateTime; `none` is an error
unfoldable pub parse_date_time : ℕ → String → Offset → Option Moment
unfolding trim_space parse_natural_date_time
parse_date_time now raw z =
    let s = trim_space raw in
    if str_eq s ""
    then none
    else or_else (parse_rfc3339 s) (
        or_else (parse_joined z s) (
          or_else (parse_spaced z s)
            (or_else (parse_short z s) (natural z (parse_natural_date_time now s z)))))
