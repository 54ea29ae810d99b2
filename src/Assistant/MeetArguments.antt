-- ===== src/Assistant/MeetArguments.antt =====
-- internal/domain/assistant/google_calendar_meet.go: the arguments of the meeting plugin. `now` is
-- what `time.Now()` returns in a parser.
use Prim.Native.String.{◌++◌}
use smart_assistant_api.Common.{
  ℕ, zero, suc, ◌+◌, String, not, ◌&&◌, ◌==◌, ltb, leb, Option, none, some, List, [], ◌∷◌, length,
  str_eq, if◌then◌else◌,
}
use mathlib.Core.List.{◌++◌ as append}
use smart_assistant_api.Common.Int.{ℤ, pos}
use smart_assistant_api.Common.Assoc.{lookup, insert}
use smart_assistant_api.Common.Text.{trim_space, to_lower, contains, has_prefix}
use smart_assistant_api.Common.Search.{index, replace_all, split, trimmed_parts}
use smart_assistant_api.Time.Civil.{day, weekday, Moment, jakarta, to_local, from_local}
use smart_assistant_api.Time.Format.{rfc3339, kitchen_hour, weekday_name}
use smart_assistant_api.Dynamic.{Args, Argument, null, text, texts, items, sprint, string_arg_value}
use smart_assistant_api.Plugin.{ManifestArgument}
use smart_assistant_api.Assistant.Builtin.DateTime.{
  parse_date_time, parse_clock, clock_segment, at_clock,
}

abbrev pub internal_attendee_email_key : String
internal_attendee_email_key = "_attendee_email"

abbrev pub recommendation_key : String
recommendation_key = "_recommendation_requested"

-- splitAttendeeNames
unfoldable pub split_attendee_names : String → List String
unfolding replace_all split trimmed_parts
split_attendee_names raw = trimmed_parts (split "," (replace_all raw " and " ","))

abbrev pub slice_of : Option Argument → List String
unfolding trimmed_parts split_attendee_names sprint
slice_of none = []
slice_of (some null) = []
slice_of (some (text s)) = split_attendee_names s
slice_of (some (texts xs)) = trimmed_parts xs
slice_of (some (items xs)) = trimmed_parts xs
slice_of (some v) = split_attendee_names (sprint v)

-- stringSliceFromArg
unfoldable pub string_slice_from_arg : Args → String → List String
unfolding slice_of lookup
string_slice_from_arg args key = slice_of (lookup key args)

abbrev names_of : List String → String → List String
unfolding split_attendee_names
names_of [] legacy = if str_eq legacy "" then [] else split_attendee_names legacy
names_of (n ∷ ns) legacy = n ∷ ns

abbrev emails_of : List String → String → List String
emails_of [] legacy = if str_eq legacy "" then [] else legacy ∷ []
emails_of (e ∷ es) legacy = e ∷ es

-- normalizeAttendeeNames and normalizeAttendeeEmails
unfoldable pub normalize_attendee_names : Args → List String
unfolding names_of string_slice_from_arg string_arg_value
normalize_attendee_names args =
    names_of (string_slice_from_arg args "attendee_names") (string_arg_value args "attendee_name")

unfoldable pub normalize_attendee_emails : Args → List String
unfolding string_slice_from_arg string_arg_value
normalize_attendee_emails args =
    emails_of (string_slice_from_arg args "attendee_emails")
      (string_arg_value args "attendee_email")

-- normalizeGoogleCalendarMeetArgs
unfoldable pub normalize_google_calendar_meet_args : Args → Args
unfolding normalize_attendee_names normalize_attendee_emails insert
normalize_google_calendar_meet_args args =
    let args = insert "attendee_names" (texts (normalize_attendee_names args)) args in
    insert "attendee_emails" (texts (normalize_attendee_emails args)) args

unfoldable pub nth : ℕ → List String → Option String
nth n [] = none
nth zero (x ∷ xs) = some x
nth (suc n) (x ∷ xs) = nth n xs

-- nextMissingAttendeeEmail
unfoldable pub next_missing_attendee_email : Args → Option String
unfolding string_slice_from_arg nth
next_missing_attendee_email args =
    let names = string_slice_from_arg args "attendee_names" in
    let emails = string_slice_from_arg args "attendee_emails" in
    if leb (length names) (length emails) then none else nth (length emails) names

-- appendAttendeeEmail
unfoldable pub append_attendee_email : String → Args → Args
unfolding string_slice_from_arg insert trim_space
append_attendee_email email args =
    insert "attendee_emails"
      (texts (append (string_slice_from_arg args "attendee_emails") (trim_space email ∷ []))) args

-- emailCollectPrompt
abbrev pub email_collect_prompt : String → String
email_collect_prompt name = "What is " ++ (name ++ "'s email address?")

-- scheduleTimePrompt, from the arguments of the manifest
unfoldable pub schedule_time_prompt : List ManifestArgument → String
unfolding trim_space
schedule_time_prompt [] = "When should I set the schedule?"
schedule_time_prompt (a ∷ rest) =
    let later = schedule_time_prompt rest in
    if str_eq a.name "start_time" && not (str_eq (trim_space a.prompt) "") then a.prompt else later

abbrev meeting_prompt : Option Moment → String
unfolding weekday_name kitchen_hour
meeting_prompt none = ""
meeting_prompt (some m) =
    let local = to_local jakarta m.instant in
    "Is " ++ (weekday_name (weekday local) ++ (" at " ++ (kitchen_hour local ++ " okay?")))

-- confirmationPromptGoogleCalendarMeet
unfoldable pub confirmation_prompt_google_calendar_meet : ℕ → Args → String
unfolding string_arg_value parse_date_time meeting_prompt
confirmation_prompt_google_calendar_meet now args =
    let start_time = string_arg_value args "start_time" in
    if str_eq start_time "" then "" else meeting_prompt (parse_date_time now start_time jakarta)

-- The names of the days, in the order in which Go ranges over the map of them.
abbrev pub Weekdays : Type 0
Weekdays = List (String × ℕ)

-- the first of the next seven days that is the weekday
unfoldable pub next_weekday : ℕ → ℕ → ℕ → ℕ
next_weekday zero wanted local = local
next_weekday (suc left) wanted local =
    let rest = next_weekday left wanted (local + day) in
    if weekday local == wanted then local else rest

-- an instant, on the clock of Jakarta, in the day that a text names
unfoldable pub named_day : Weekdays → String → ℕ → ℕ
unfolding contains next_weekday
named_day [] lower local = local
named_day ((name, wanted) ∷ rest) lower local =
    let later = named_day rest lower local in
    if contains lower name then next_weekday 7 wanted local else later

abbrev clock_or_afternoon : Option (ℤ × ℤ) → ℤ × ℤ
clock_or_afternoon none = (pos 14, pos 0)
clock_or_afternoon (some clock) = clock

abbrev meeting_clock : String → Option ℕ → ℤ × ℤ
unfolding parse_clock clock_segment
meeting_clock lower none = (pos 14, pos 0)
meeting_clock lower (some i) = clock_or_afternoon (parse_clock (clock_segment i lower))

-- parseNaturalMeetingTime
unfoldable pub parse_natural_meeting_time : Weekdays → ℕ → String → String
unfolding to_lower trim_space index meeting_clock at_clock named_day contains rfc3339
parse_natural_meeting_time weekdays now said =
    let lower = to_lower (trim_space said) in
    let date = from_local jakarta (named_day weekdays lower (to_local jakarta now)) in
    let target = at_clock jakarta date (meeting_clock lower (index lower " at ")) in
    if contains lower "tomorrow"
    then rfc3339 jakarta (target + day)
    else if not (contains lower "today") && ltb target now
    then rfc3339 jakarta (target + day)
    else rfc3339 jakarta target

-- parseExplicitMeetingTime; `named` is the clock of the second parser
unfoldable pub parse_explicit_meeting_time : Weekdays → ℕ → ℕ → String → String
unfolding trim_space parse_date_time parse_natural_meeting_time rfc3339
parse_explicit_meeting_time weekdays now named said =
    let s = trim_space said in
    if str_eq s "" then "" else (elim (parse_date_time now s jakarta) [
      | some m ↦ rfc3339 jakarta m.instant
      | none ↦ parse_natural_meeting_time weekdays named s
    ])

-- stripInternalArgs
unfoldable pub strip_internal_args : Args → Args
unfolding has_prefix
strip_internal_args [] = []
strip_internal_args ((k, v) ∷ args) =
    let rest = strip_internal_args args in if has_prefix k "_" then rest else (k, v) ∷ rest
