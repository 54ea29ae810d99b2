-- ===== src/Assistant/Builtin/Meetings.antt =====
-- internal/domain/assistant/builtin/google_calendar_meet.go: the arguments of the tool that creates a
-- meeting. `now` is what `time.Now()` returns in the parser.
use Prim.Native.String.{◌++◌}
use smart_assistant_api.Common.{
  ℕ, ◌+◌, ◌==◌, not, String, Option, none, some, List, [], ◌∷◌, length, str_eq, if◌then◌else◌,
}
use smart_assistant_api.Common.Text.{trim_space, join}
use smart_assistant_api.Common.Search.{split, trimmed_parts}
use smart_assistant_api.Common.Assoc.{lookup}
use smart_assistant_api.Time.Civil.{hour, Offset, Moment}
use smart_assistant_api.Time.Format.{rfc3339}
use smart_assistant_api.Dynamic.{Args, Argument, null, text, texts, items, sprint, string_arg_value}
use smart_assistant_api.Assistant.Builtin.DateTime.{parse_date_time}

abbrev pub default_meeting_duration : ℕ
default_meeting_duration = hour

pub record GoogleCalendarMeetArgs : Type 0 where
  pub attendee_names : List String
  pub attendee_emails : List String
  pub start_time : String
  pub title : String

pub record GoogleCalendarMeetPayload : Type 0 where
  pub summary : String
  pub start_datetime : String
  pub end_datetime : String
  pub attendees : List String

-- splitCommaSeparated
unfoldable pub split_comma_separated : String → List String
unfolding split trimmed_parts
split_comma_separated raw = trimmed_parts (split "," raw)

abbrev pub comma_slice_of : Option Argument → List String
unfolding split_comma_separated trimmed_parts sprint
comma_slice_of none = []
comma_slice_of (some null) = []
comma_slice_of (some (text s)) = split_comma_separated s
comma_slice_of (some (texts xs)) = trimmed_parts xs
comma_slice_of (some (items xs)) = trimmed_parts xs
comma_slice_of (some v) = split_comma_separated (sprint v)

-- stringSliceArg, whose error is always nil
unfoldable pub string_slice_arg : Args → String → List String
unfolding comma_slice_of lookup
string_slice_arg args key = comma_slice_of (lookup key args)

abbrev pub or_legacy : List String → String → List String
or_legacy [] legacy = if str_eq legacy "" then [] else legacy ∷ []
or_legacy (x ∷ xs) legacy = x ∷ xs

abbrev pub with_attendees :
    List String → List String → String → String → Option GoogleCalendarMeetArgs
with_attendees [] emails start title = none
with_attendees (n ∷ ns) [] start title = none
with_attendees (n ∷ ns) (e ∷ es) start title =
    if not (length ns == length es)
    then none
    else some (record {
      attendee_names = n ∷ ns;
      attendee_emails = e ∷ es;
      start_time = start;
      title = title;
    })

-- ParseGoogleCalendarMeetArgs; `none` is an error
unfoldable pub parse_google_calendar_meet_args : Args → Option GoogleCalendarMeetArgs
unfolding string_slice_arg string_arg_value
parse_google_calendar_meet_args args =
    with_attendees
      (or_legacy (string_slice_arg args "attendee_names") (string_arg_value args "attendee_name"))
      (or_legacy (string_slice_arg args "attendee_emails") (string_arg_value args "attendee_email"))
      (string_arg_value args "start_time") (string_arg_value args "title")

abbrev summary_of : GoogleCalendarMeetArgs → String
unfolding trim_space join
summary_of a =
    let title = trim_space a.title in
    if str_eq title "" then "Meeting with " ++ join ", " a.attendee_names else title

abbrev pub payload_at : GoogleCalendarMeetArgs → Option Moment → Option GoogleCalendarMeetPayload
unfolding summary_of rfc3339
payload_at a none = none
payload_at a (some m) = some (record {
  summary = summary_of a;
  start_datetime = rfc3339 m.offset m.instant;
  end_datetime = rfc3339 m.offset (m.instant + default_meeting_duration);
  attendees = a.attendee_emails;
})

-- MapGoogleCalendarMeetPayload, in a time zone that is known
unfoldable pub map_google_calendar_meet_payload :
    ℕ → GoogleCalendarMeetArgs → Offset → Option GoogleCalendarMeetPayload
unfolding payload_at parse_date_time trim_space
map_google_calendar_meet_payload now a z =
    if str_eq (trim_space a.start_time) ""
    then none
    else payload_at a (parse_date_time now a.start_time z)

abbrev pub as_args : GoogleCalendarMeetPayload → Args
as_args p =
    ("summary", text p.summary)
    ∷ ("start_datetime", text p.start_datetime)
    ∷ ("end_datetime", text p.end_datetime)
    ∷ ("attendees", texts p.attendees)
    ∷ []

abbrev pub mapped_args : Option GoogleCalendarMeetPayload → Option Args
mapped_args none = none
mapped_args (some p) = some (as_args p)

abbrev pub mapped : ℕ → Offset → Option GoogleCalendarMeetArgs → Option Args
unfolding map_google_calendar_meet_payload
mapped now z none = none
mapped now z (some a) = mapped_args (map_google_calendar_meet_payload now a z)

-- MapGoogleCalendarMeetArgs; `none` is an error
unfoldable pub map_google_calendar_meet_args : ℕ → Args → Offset → Option Args
unfolding mapped parse_google_calendar_meet_args
map_google_calendar_meet_args now args z = mapped now z (parse_google_calendar_meet_args args)
