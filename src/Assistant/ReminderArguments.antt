-- ===== src/Assistant/ReminderArguments.antt =====
-- internal/domain/assistant/wake_word.go: the arguments of the reminder plugin. A function that
-- writes to the map of arguments returns the map. `now` is what `time.Now()` returns in the parser.
use Prim.Native.String.{◌++◌}
use smart_assistant_api.Common.{
  ℕ, ◌+◌, ◌-◌, String, Bool, true, false, ltb, not, ◌&&◌, ◌||◌, Option, none, some, List, [], ◌∷◌,
  str_eq, if◌then◌else◌,
}
use smart_assistant_api.Common.Text.{
  trim_space, to_lower, contains, has_suffix, byte_len, front, front_bytes, skip_bytes,
}
use smart_assistant_api.Common.Search.{last_index}
use smart_assistant_api.Time.Civil.{utc}
use smart_assistant_api.Time.Format.{rfc3339}
use smart_assistant_api.Dynamic.{Args, string_arg_value, put}
use smart_assistant_api.Assistant.Builtin.DateTime.{parse_date_time}
use smart_assistant_api.Assistant.Builtin.Prompts.{format_remind_at_for_confirmation}

-- inferReminderOperation
unfoldable pub infer_reminder_operation : String → Args → String
unfolding string_arg_value to_lower contains
infer_reminder_operation said args =
    let lower = to_lower said in
    if not (str_eq (string_arg_value args "operation") "")
    then string_arg_value args "operation"
    else if contains lower "list" && contains lower "reminder"
    then "list"
    else if (contains lower "delete" || contains lower "remove") && contains lower "reminder"
    then "delete"
    else "create"

-- inferReminderFilter
unfoldable pub infer_reminder_filter : String → Args → Args
unfolding string_arg_value to_lower contains put
infer_reminder_filter said args =
    let lower = to_lower said in
    if not (str_eq (string_arg_value args "filter") "")
    then args
    else if contains lower "tomorrow"
    then put "filter" "tomorrow" args
    else if contains lower "for today"
        || (contains lower "today" && not (contains lower "all reminders"))
    then put "filter" "today" args
    else if contains lower "all"
    then put "filter" "all" args
    else put "filter" "today" args

-- normalizeReminderRemindAt; `none` is an error
unfoldable pub normalize_reminder_remind_at : ℕ → String → Option String
unfolding trim_space parse_date_time rfc3339
normalize_reminder_remind_at now raw =
    if str_eq (trim_space raw) "" then none else (elim (parse_date_time now (trim_space raw) utc) [
      | none ↦ none
      | some m ↦ some (rfc3339 utc m.instant)
    ])

-- the endings that splitMessageAndRemindAt looks for, in its order
abbrev pub period_endings : List String
period_endings =
    " this morning" ∷ " today morning" ∷ " morning" ∷ " this afternoon" ∷ " today afternoon"
    ∷ " afternoon" ∷ " this evening" ∷ " today evening" ∷ " evening" ∷ " this noon" ∷ " today noon"
    ∷ " noon" ∷ " this tonight" ∷ " today tonight" ∷ " tonight" ∷ []

-- text[:i] and text[i + gap:], trimmed; a position behind the end panics
abbrev cut : ℕ → ℕ → String → Option (String × String)
unfolding trim_space front_bytes skip_bytes byte_len
cut i gap said =
    if ltb (byte_len said) (i + gap)
    then none
    else some (trim_space (front_bytes i said), trim_space (skip_bytes (i + gap) said))

abbrev at_last : String → String → Option ℕ → Option (String × String)
unfolding cut byte_len front
at_last lower said none = some (said, "")
at_last lower said (some i) = cut (byte_len (front i lower)) 4 said

-- The positions are those of the lower case, in bytes.
unfoldable pub split_at_ending : List String → String → String → Option (String × String)
unfolding has_suffix byte_len cut at_last last_index
split_at_ending [] lower said = at_last lower said (last_index lower " at ")
split_at_ending (ending ∷ endings) lower said =
    let rest = split_at_ending endings lower said in
    if has_suffix lower ending then cut (byte_len lower - byte_len ending) 0 said else rest

-- splitMessageAndRemindAt; `none` is a panic
unfoldable pub split_message_and_remind_at : String → Option (String × String)
unfolding to_lower trim_space split_at_ending
split_message_and_remind_at said =
    let lower = to_lower (trim_space said) in
    if str_eq lower "" then some (said, "") else split_at_ending period_endings lower said

abbrev pub remind_at_unparseable_prompt : String
remind_at_unparseable_prompt =
    "I couldn't understand that time. Try something like '3pm today', 'this afternoon', or 'tomorrow morning'."

-- The answer of a follow-up: true when the argument is filled in, or the prompt to show again.
abbrev with_time : Option String → Args → Bool × String × Args
unfolding put
with_time none args = (false, remind_at_unparseable_prompt, args)
with_time (some at) args = (true, "", put "remind_at" at args)

abbrev with_message : ℕ → Option (String × String) → Args → Option (Bool × String × Args)
unfolding put normalize_reminder_remind_at
with_message now none args = none
with_message now (some (message, clause)) args =
    let args = put "message" message args in
    some (
      if str_eq clause ""
      then (true, "", args)
      else with_time (normalize_reminder_remind_at now clause) args)

-- applyReminderFollowUp; `none` is a panic
unfoldable pub apply_reminder_follow_up : ℕ → String → String → Args → Option (Bool × String × Args)
unfolding trim_space with_message with_time split_message_and_remind_at put
apply_reminder_follow_up now missing_arg said args =
    let said = trim_space said in
    if str_eq said ""
    then some (false, remind_at_unparseable_prompt, args)
    else if str_eq missing_arg "message"
    then with_message now (split_message_and_remind_at said) args
    else if str_eq missing_arg "remind_at"
    then some (with_time (normalize_reminder_remind_at now said) args)
    else some (true, "", put missing_arg said args)

-- normalizeReminderArgs
unfoldable pub normalize_reminder_args : ℕ → Args → Bool × String × Args
unfolding string_arg_value with_time normalize_reminder_remind_at
normalize_reminder_args now args =
    if str_eq (string_arg_value args "remind_at") ""
    then (true, "", args)
    else with_time (normalize_reminder_remind_at now (string_arg_value args "remind_at")) args

-- firstMissingReminderArgument: the name, the prompt and the arguments
unfoldable pub first_missing_reminder_argument : String → Args → String × String × Args
unfolding string_arg_value put
first_missing_reminder_argument operation args =
    if str_eq operation "create"
    then if str_eq (string_arg_value args "message") ""
      then ("message", "What should I remind you about?", args)
      else if str_eq (string_arg_value args "remind_at") ""
      then ("remind_at", "When should I remind you?", args)
      else ("", "", args)
    else if str_eq operation "delete"
    then if str_eq (string_arg_value args "message") ""
      then ("message", "Which reminder should I delete?", args)
      else ("", "", args)
    else if str_eq operation "list"
    then if str_eq (string_arg_value args "filter") ""
      then ("", "", put "filter" "today" args)
      else ("", "", args)
    else ("", "", args)

-- reminderNeedsConfirmation
abbrev pub reminder_needs_confirmation : String → Bool
reminder_needs_confirmation operation = str_eq operation "create" || str_eq operation "delete"

-- confirmationPromptReminder
unfoldable pub confirmation_prompt_reminder : ℕ → ℕ → String → Args → String
unfolding string_arg_value format_remind_at_for_confirmation
confirmation_prompt_reminder parsed shown operation args =
    if str_eq operation "create"
    then "Should I set a reminder to "
      ++ (string_arg_value args "message"
          ++ (" at "
              ++ (format_remind_at_for_confirmation parsed shown (string_arg_value args "remind_at")
                  ++ "?")))
    else if str_eq operation "delete"
    then "Should I delete the reminder to " ++ (string_arg_value args "message" ++ "?")
    else ""
