-- ===== src/Assistant/Builtin/Prompts.antt =====
-- internal/domain/assistant/builtin: the slugs and adapters of the plugins that the service runs
-- itself, and how reminder.go shows times.
use Prim.Native.String.{◌++◌}
use smart_assistant_api.Common.{ℕ, ◌+◌, ◌/◌, String, none, some, str_eq, if◌then◌else◌}
use smart_assistant_api.Common.Text.{trim_space}
use smart_assistant_api.Time.Civil.{day, utc}
use smart_assistant_api.Time.Format.{kitchen, long_date}
use smart_assistant_api.Assistant.Builtin.DateTime.{parse_date_time}

abbrev pub reminder_slug : String
reminder_slug = "reminder"

abbrev pub adapter_reminder : String
adapter_reminder = "reminder"

abbrev pub location_reminder_slug : String
location_reminder_slug = "set-reminder"

abbrev pub adapter_location_reminder : String
adapter_location_reminder = "location_reminder"

abbrev pub google_calendar_meet_slug : String
google_calendar_meet_slug = "google-calendar-meet"

abbrev pub adapter_google_calendar_meet : String
adapter_google_calendar_meet = "google_calendar_meet"

-- formatReminderTime
unfoldable pub format_reminder_time : ℕ → String
unfolding kitchen
format_reminder_time t = kitchen t ++ " UTC"

-- `shown` is the clock that today and tomorrow are read from.
unfoldable pub day_label : ℕ → ℕ → String
unfolding kitchen long_date
day_label shown t =
    let date = long_date (t / day) in
    if str_eq date (long_date (shown / day))
    then kitchen t ++ " today"
    else if str_eq date (long_date ((shown + day) / day))
    then kitchen t ++ " tomorrow"
    else kitchen t ++ (" on " ++ date)

-- FormatRemindAtForConfirmation; `parsed` is the clock of its parser
unfoldable pub format_remind_at_for_confirmation : ℕ → ℕ → String → String
unfolding trim_space parse_date_time day_label
format_remind_at_for_confirmation parsed shown raw =
    let s = trim_space raw in
    if str_eq s ""
    then "the requested time"
    else (elim (parse_date_time parsed s utc) [ none ↦ s | some m ↦ day_label shown m.instant ])
