-- ===== src/Assistant/Builtin/Errors.antt =====
-- internal/domain/assistant/builtin: what the user reads when a plugin fails, ExecutorErrorText of
-- reminder.go and LocationReminderExecutorErrorText of location_reminder.go. The fields of an error
-- are in the order in which Go ranges over them.
use smart_assistant_api.Common.{
  String, ◌&&◌, Option, none, some, List, [], ◌∷◌, str_eq, if◌then◌else◌,
}
use smart_assistant_api.Common.Assoc.{lookup}
use smart_assistant_api.Common.Text.{join}
use smart_assistant_api.Response.{
  AppError, validation, bad_request, unauthorized, forbidden, not_found, conflict, internal,
}

-- What an executor returns as its error: an application error, ErrComposioSetupIncomplete, or any
-- other.
pub data ExecError : Type 0 where
  app : AppError → ExecError
  setup_incomplete other : ExecError

abbrev pub executor_failed : String
executor_failed =
    "I tried to complete that action, but something went wrong. Please try again later."

unfoldable pub field_text : String → String → String
field_text field msg =
    if str_eq field "remind_at" && str_eq msg "must be in the future"
    then "That reminder time is in the past. Please choose a future time."
    else if str_eq field "remind_at" && str_eq msg "could not parse"
    then "I couldn't understand that time. Try something like '3pm today' or 'tomorrow morning'."
    else if str_eq field "message" && str_eq msg "must not be empty"
    then "Please tell me what to remind you about."
    else msg

unfoldable pub field_texts : List (String × String) → List String
unfolding field_text
field_texts [] = []
field_texts ((field, msg) ∷ fields) = field_text field msg ∷ field_texts fields

abbrev shown_message : String → String
shown_message msg = if str_eq msg "" then executor_failed else msg

abbrev app_error_text : AppError → String
unfolding field_texts join
app_error_text (validation []) = executor_failed
app_error_text (validation (field ∷ fields)) = join " " (field_texts (field ∷ fields))
app_error_text (not_found msg) = "I couldn't find a matching reminder."
app_error_text (conflict msg) = msg
app_error_text (bad_request msg) = shown_message msg
app_error_text (unauthorized msg) = shown_message msg
app_error_text (forbidden msg) = shown_message msg
app_error_text (internal msg) = shown_message msg

-- ExecutorErrorText
unfoldable pub executor_error_text : ExecError → String
unfolding app_error_text
executor_error_text (app e) = app_error_text e
executor_error_text setup_incomplete = executor_failed
executor_error_text other = executor_failed

abbrev filled : Option String → Option String
filled none = none
filled (some s) = if str_eq s "" then none else some s

abbrev first_filled : Option String → Option String → String → String
first_filled (some s) o rest = s
first_filled none (some s) rest = s
first_filled none none rest = rest

-- LocationReminderExecutorErrorText
unfoldable pub location_reminder_executor_error_text : ExecError → String
unfolding lookup executor_error_text
location_reminder_executor_error_text (app (validation fields)) =
    first_filled (filled (lookup "place_query" fields)) (filled (lookup "title" fields))
      (executor_error_text (app (validation fields)))
location_reminder_executor_error_text e = executor_error_text e
