-- ===== src/Assistant/Prompts.antt =====
-- internal/domain/assistant/wake_word.go: which argument of a plugin is missing, and what the user is
-- asked. `parsed` and `shown` are what `time.Now()` returns in the parsers and when a day is named.
use Prim.Native.Char.{Char, code}
use Prim.Native.String.{◌++◌}
use smart_assistant_api.Common.{
  ℕ, String, true, false, ◌&&◌, ◌||◌, ◌==◌, ltb, Option, none, some, List, [], ◌∷◌, str_eq,
  if◌then◌else◌,
}
use smart_assistant_api.Common.Int.{ℤ, pos}
use smart_assistant_api.Common.Assoc.{lookup}
use smart_assistant_api.Common.Text.{hexadecimal}
use smart_assistant_api.Dynamic.{
  Args, Argument, integer, float, string_arg_value, is_empty_value, int_text,
}
use smart_assistant_api.Plugin.{ManifestArgument}
use smart_assistant_api.Assistant.Patterns.{is_word}
use smart_assistant_api.Assistant.ReminderArguments.{confirmation_prompt_reminder}
use smart_assistant_api.Assistant.LocationArguments.{
  location_mode_place_keyword, normalize_place_keyword,
}
use smart_assistant_api.Assistant.MeetArguments.{confirmation_prompt_google_calendar_meet}

abbrev shown_value : String → Args → String
unfolding string_arg_value
shown_value key args =
    let value = string_arg_value args key in
    if str_eq key "" || str_eq value "" then "{" ++ (key ++ "}") else value

-- the replacement of `{name}`; `open` is what was read behind a brace
unfoldable pub interpolate_from : Args → Option String → String → String
unfolding shown_value
interpolate_from args none String.[] = ""
interpolate_from args (some word) String.[] = "{" ++ word
interpolate_from args none (String.◌∷◌ c s) = elim (code c == b'{') [
  | true ↦ interpolate_from args (some "") s
  | false ↦ String.◌∷◌ c (interpolate_from args none s)
]
interpolate_from args (some word) (String.◌∷◌ c s) = elim (is_word c) [
  | true ↦ interpolate_from args (some (word ++ String.◌∷◌ c "")) s
  | false ↦ elim (code c == b'}') [
    | true ↦ shown_value word args ++ interpolate_from args none s
    | false ↦ elim (code c == b'{') [
      | true ↦ "{" ++ (word ++ interpolate_from args (some "") s)
      | false ↦ "{" ++ (word ++ String.◌∷◌ c (interpolate_from args none s))
    ]
  ]
]

-- interpolatePrompt
unfoldable pub interpolate_prompt : String → Args → String
unfolding interpolate_from
interpolate_prompt prompt args = interpolate_from args none prompt

-- firstMissingArgument: the name and the prompt, both empty when nothing is missing
unfoldable pub first_missing_argument : List ManifestArgument → Args → String × String
unfolding is_empty_value lookup interpolate_prompt
first_missing_argument [] args = ("", "")
first_missing_argument (a ∷ rest) args =
    let later = first_missing_argument rest args in
    if a.required && is_empty_value (lookup a.name args)
    then (a.name, interpolate_prompt a.prompt args)
    else later

abbrev escaped : Char → String → String
unfolding hexadecimal
escaped c rest =
    let k = code c in
    if k == b'"' || k == 0x5C
    then "\\" ++ String.◌∷◌ c rest
    else if k == 0x07
    then "\\a" ++ rest
    else if k == 0x08
    then "\\b" ++ rest
    else if k == 0x0C
    then "\\f" ++ rest
    else if k == 0x0A
    then "\\n" ++ rest
    else if k == 0x0D
    then "\\r" ++ rest
    else if k == 0x09
    then "\\t" ++ rest
    else if k == 0x0B
    then "\\v" ++ rest
    else if ltb k 0x10
    then "\\x0" ++ (hexadecimal k ++ rest)
    else if ltb k 0x20 || k == 0x7F
    then "\\x" ++ (hexadecimal k ++ rest)
    else String.◌∷◌ c rest

unfoldable pub quoted_from : String → String
unfolding escaped
quoted_from String.[] = "\""
quoted_from (String.◌∷◌ c s) = escaped c (quoted_from s)

-- `%q`; every character beyond ASCII counts as printable
abbrev pub quoted : String → String
unfolding quoted_from
quoted s = "\"" ++ quoted_from s

abbrev radius_of : Option Argument → ℤ
radius_of (some (integer n)) = n
radius_of (some (float n s)) = n
radius_of _ = pos 100

abbrev place_label : String → String → String
unfolding normalize_place_keyword
place_label mode query =
    let place =
      if str_eq mode location_mode_place_keyword then normalize_place_keyword query else query in
    if str_eq place "" then "the specified place" else place

-- confirmationPromptLocationReminder
unfoldable pub confirmation_prompt_location_reminder : Args → String
unfolding string_arg_value lookup place_label int_text quoted
confirmation_prompt_location_reminder args =
    let title = string_arg_value args "title" in
    let mode = string_arg_value args "location_mode" in
    if str_eq title "" || str_eq mode ""
    then ""
    else "Should I remind you to "
      ++ (quoted title
          ++ (" when you're within "
              ++ (int_text (radius_of (lookup "radius_meters" args))
                  ++ ("m of " ++ (place_label mode (string_arg_value args "place_query") ++ "?")))))

abbrev first_of_texts : String → String → String
first_of_texts s t = if str_eq s "" then t else s

abbrev attendee_prompt : String → Args → String
unfolding string_arg_value
attendee_prompt plugin_name args =
    let email = string_arg_value args "attendee_email" in
    let name = string_arg_value args "attendee_name" in
    if str_eq email ""
    then "Should I go ahead with " ++ (plugin_name ++ "?")
    else if str_eq name ""
    then "Should I create a calendar event with " ++ (email ++ "?")
    else "Should I create a calendar event with " ++ (name ++ (" at " ++ (email ++ "?")))

-- confirmationPrompt
unfoldable pub confirmation_prompt : ℕ → ℕ → String → Args → String
unfolding string_arg_value confirmation_prompt_reminder confirmation_prompt_location_reminder
    confirmation_prompt_google_calendar_meet attendee_prompt
confirmation_prompt parsed shown plugin_name args =
    let operation = string_arg_value args "operation" in
    first_of_texts
      (if str_eq operation "" then "" else confirmation_prompt_reminder parsed shown operation args)
      (first_of_texts (confirmation_prompt_location_reminder args) (
        first_of_texts (confirmation_prompt_google_calendar_meet parsed args)
          (attendee_prompt plugin_name args)))
