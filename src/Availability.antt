-- ===== src/Availability.antt =====
-- internal/domain/calendar/availability/service.go: the slot that a meeting is offered. Instants are
-- nanoseconds since the zero time of Go, a Monday at midnight UTC.
pub mod Earliest
pub mod Invitees
mod Samples
use smart_assistant_api.Common.{
  ℕ, ◌+◌, ◌-◌, ◌*◌, ◌/◌, ◌%◌, ◌==◌, String, Bool, true, false, not, ◌&&◌, ◌||◌, Option, none, some,
  List, [], ◌∷◌, ltb, str_eq, if◌then◌else◌,
}
use smart_assistant_api.Common.Text.{trim_space, to_lower}
use smart_assistant_api.Store.Memory.{stable_sort}

abbrev pub hour : ℕ
hour = 3600 * 1000000000

abbrev pub day : ℕ
day = 24 * hour

abbrev pub work_day_start_hour : ℕ
work_day_start_hour = 9

abbrev pub work_day_end_hour : ℕ
work_day_end_hour = 18

abbrev pub default_meeting_duration : ℕ
default_meeting_duration = hour

-- The wall clock of Asia/Jakarta, which is seven hours ahead of UTC all year.
abbrev pub in_jakarta : ℕ → ℕ
in_jakarta t = t + 7 * hour

-- timeInterval
pub record TimeInterval : Type 0 where
  pub start : ℕ
  pub end : ℕ

-- Saturday or Sunday, by the number of whole days since a Monday
abbrev pub is_weekend : ℕ → Bool
is_weekend local = let weekday = local / day % 7 in weekday == 5 || weekday == 6

-- isValidSlotStart
unfoldable pub is_valid_slot_start : ℕ → ℕ → Bool
is_valid_slot_start start duration =
    let local = in_jakarta start in
    let midnight = local - local % day in
    let day_start = midnight + work_day_start_hour * hour in
    let day_end = midnight + work_day_end_hour * hour in
    if is_weekend local
    then false
    else if ltb local day_start
    then false
    else if not (ltb (local + duration) day_end) && not (local + duration == day_end)
    then false
    else true

-- filterSlotStarts; the end of a parsed slot is after its start
unfoldable pub filter_slot_starts : List TimeInterval → ℕ → List ℕ
unfolding is_valid_slot_start
filter_slot_starts [] min_duration = []
filter_slot_starts (slot ∷ slots) min_duration =
    let rest = filter_slot_starts slots min_duration in
    if ltb (slot.end - slot.start) min_duration
    then rest
    else if not (is_valid_slot_start slot.start min_duration)
    then rest
    else slot.start ∷ rest

abbrev pub first_start : List ℕ → Option ℕ
first_start [] = none
first_start (t ∷ ts) = some t

-- RecommendSlot, from the free slots that the calendar tool answered; `none` is ErrNoAvailableSlot
unfoldable pub recommend_slot : List TimeInterval → Option ℕ
unfolding filter_slot_starts
recommend_slot slots =
    first_start (stable_sort ltb (filter_slot_starts slots default_meeting_duration))

abbrev pub seen_before : String → List String → Bool
seen_before s [] = false
seen_before s (t ∷ ts) = str_eq t s || seen_before s ts

-- the loop of calendarItems, with the set of the lower-case forms taken so far
unfoldable pub more_items : List String → List String → List String
unfolding trim_space to_lower
more_items seen [] = []
more_items seen (raw ∷ raws) =
    let email = trim_space raw in
    let lower = to_lower email in
    elim (str_eq email "" || seen_before lower seen) [
      | true ↦ more_items seen raws
      | false ↦ email ∷ more_items (lower ∷ seen) raws
    ]

-- calendarItems
unfoldable pub calendar_items : List String → List String
unfolding more_items
calendar_items attendee_emails = "primary" ∷ more_items ("primary" ∷ []) attendee_emails
