-- ===== src/Assistant/LocationArguments.antt =====
-- internal/domain/assistant/wake_word.go and builtin/location_reminder.go: the arguments of the
-- location reminder plugin.
use smart_assistant_api.Common.{
  ℕ, zero, suc, ◌+◌, String, Bool, true, false, not, ◌&&◌, ◌||◌, leb, Option, none, some, List, [],
  ◌∷◌, str_eq, if◌then◌else◌,
}
use smart_assistant_api.Common.Assoc.{erase}
use smart_assistant_api.Common.Text.{
  trim_space, to_lower, contains, has_prefix, has_suffix, rune_count, byte_len, skip, join,
}
use smart_assistant_api.Common.Search.{fields}
use smart_assistant_api.Dynamic.{Args, string_arg_value, put}

-- reminder.LocationModeExact and reminder.LocationModePlaceKeyword
abbrev pub location_mode_exact : String
location_mode_exact = "exact"

abbrev pub location_mode_place_keyword : String
location_mode_place_keyword = "place_keyword"

abbrev pub filler_phrases : List String
filler_phrases = "any nearby " ∷ "nearby " ∷ "any " ∷ "at any nearby " ∷ "at nearby " ∷ []

-- the first of the phrases that a text starts with
unfoldable pub leading_phrase : String → List String → Option String
unfolding has_prefix
leading_phrase lower [] = none
leading_phrase lower (phrase ∷ phrases) =
    let rest = leading_phrase lower phrases in if has_prefix lower phrase then some phrase else rest

-- the loop of NormalizePlaceKeyword, for as many rounds as the text has characters at most
unfoldable pub without_fillers : ℕ → String → String
unfolding leading_phrase to_lower skip rune_count trim_space
without_fillers zero s = s
without_fillers (suc fuel) s = elim (leading_phrase (to_lower s) filler_phrases) [
  | none ↦ s
  | some phrase ↦ without_fillers fuel (trim_space (skip (rune_count phrase) s))
]

-- NormalizePlaceKeyword
unfoldable pub normalize_place_keyword : String → String
unfolding join fields trim_space without_fillers rune_count
normalize_place_keyword query =
    let s = join " " (fields (trim_space query)) in without_fillers (rune_count s) s

abbrev pub vague_words : List String
vague_words = "home" ∷ "my home" ∷ "work" ∷ "my work" ∷ "office" ∷ "there" ∷ "here" ∷ []

abbrev pub member : String → List String → Bool
member s [] = false
member s (t ∷ ts) = str_eq s t || member s ts

abbrev pub short_ending : String → String → Bool
unfolding has_suffix byte_len
short_ending lower suffix = has_suffix lower suffix && leb (byte_len lower) (byte_len suffix + 10)

-- IsVaguePlaceQuery
unfoldable pub is_vague_place_query : String → Bool
unfolding trim_space to_lower short_ending
is_vague_place_query query =
    let lower = trim_space (to_lower query) in
    member lower vague_words
    || short_ending lower " home"
    || short_ending lower " work"
    || short_ending lower " office"

-- looksLikePlaceKeywordReply
unfoldable pub looks_like_place_keyword_reply : String → Bool
unfolding to_lower contains
looks_like_place_keyword_reply said =
    contains (to_lower said) "nearby" || contains (to_lower said) "any "

-- parseLocationModeReply: the mode and the place
unfoldable pub parse_location_mode_reply : String → Option (String × String)
unfolding trim_space to_lower contains normalize_place_keyword
parse_location_mode_reply said =
    let lower = to_lower (trim_space said) in
    if member lower ("exact" ∷ "specific" ∷ "specific address" ∷ "address" ∷ [])
    then some (location_mode_exact, "")
    else if member lower ("place_keyword" ∷ "nearby" ∷ "any nearby" ∷ "any nearby place" ∷ [])
    then some (location_mode_place_keyword, "")
    else if contains lower "nearby" || contains lower "any "
    then some (location_mode_place_keyword, normalize_place_keyword said)
    else none

-- firstMissingLocationReminderArgument: the name, the prompt and the arguments
unfoldable pub first_missing_location_reminder_argument : Args → String × String × Args
unfolding string_arg_value is_vague_place_query normalize_place_keyword put erase
first_missing_location_reminder_argument args =
    let mode = string_arg_value args "location_mode" in
    let query = string_arg_value args "place_query" in
    if str_eq (string_arg_value args "title") ""
    then ("title", "What should I remind you about?", args)
    else if str_eq mode ""
    then ("location_mode", "Is this for a specific address or any nearby place?", args)
    else if str_eq mode location_mode_exact
    then if is_vague_place_query query
      then ("place_query", "What is the address?", erase "place_query" args)
      else if str_eq query ""
      then ("place_query", "What is the address?", args)
      else ("", "", args)
    else if str_eq mode location_mode_place_keyword
    then if str_eq query ""
      then ("place_query", "Where can you do that? (e.g. any nearby Alfamart)", args)
      else ("", "", put "place_query" (normalize_place_keyword query) args)
    else ("", "", args)

abbrev with_mode : String → Option (String × String) → Args → Args
unfolding put
with_mode said none args = put "location_mode" said args
with_mode said (some (mode, query)) args =
    let args = put "location_mode" mode args in
    if str_eq query "" then args else put "place_query" query args

-- applyLocationReminderFollowUp: whether the answer was taken, and the arguments
unfoldable pub apply_location_reminder_follow_up : String → String → Args → Bool × Args
unfolding trim_space with_mode parse_location_mode_reply string_arg_value put
    looks_like_place_keyword_reply normalize_place_keyword
apply_location_reminder_follow_up missing_arg said args =
    let said = trim_space said in
    if str_eq said ""
    then (false, args)
    else if str_eq missing_arg "location_mode"
    then (true, with_mode said (parse_location_mode_reply said) args)
    else if str_eq missing_arg "place_query"
    then if str_eq (string_arg_value args "location_mode") location_mode_place_keyword
        || looks_like_place_keyword_reply said
      then (
        true,
        put "place_query" (normalize_place_keyword said)
            (put "location_mode" location_mode_place_keyword args),
      )
      else (true, put "place_query" said args)
    else (false, args)

-- inferLocationReminderFromText
unfoldable pub infer_location_reminder_from_text : Args → Args
unfolding string_arg_value looks_like_place_keyword_reply is_vague_place_query put
    normalize_place_keyword
infer_location_reminder_from_text args =
    let query = string_arg_value args "place_query" in
    let mode = string_arg_value args "location_mode" in
    if str_eq query ""
    then args
    else if str_eq mode ""
    then if looks_like_place_keyword_reply query
      then put "place_query" (normalize_place_keyword query)
          (put "location_mode" location_mode_place_keyword args)
      else if not (is_vague_place_query query)
      then put "location_mode" location_mode_exact args
      else args
    else if str_eq mode location_mode_place_keyword
    then put "place_query" (normalize_place_keyword query) args
    else args
