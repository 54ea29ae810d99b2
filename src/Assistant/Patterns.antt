-- ===== src/Assistant/Patterns.antt =====
-- The regular expressions of internal/domain/assistant (wake_word.go and google_calendar_meet.go), as
-- functions on texts. Go's `\s` is a blank of ASCII, `\b` and `\d` see ASCII only, and `(?i)` folds
-- ASCII letters and the two other characters that fold to one.
use Prim.Native.Char.{Char, code}
use Prim.Native.String.{char_at}
use smart_assistant_api.Common.{
  String, Bool, true, false, not, ◌&&◌, ◌||◌, ◌==◌, leb, List, [], ◌∷◌, str_eq, if◌then◌else◌, ◌≡◌,
  refl,
}
use smart_assistant_api.Common.Text.{
  trim_space, trim_left, lower_ascii, has_prefix, skip, rune_count,
}

abbrev pub is_blank : Char → Bool
is_blank c = let k = code c in k == 0x09 || k == 0x0A || k == 0x0C || k == 0x0D || k == 0x20

abbrev pub skip_blanks : String → String
unfolding trim_left
skip_blanks s = trim_left is_blank s

abbrev pub fold_char : Char → Char
fold_char c =
    if code c == 0x17F
    then char_at "s" 0
    else if code c == 0x212A
    then char_at "k" 0
    else lower_ascii c

unfoldable pub fold : String → String
fold String.[] = ""
fold (String.◌∷◌ c s) = String.◌∷◌ (fold_char c) (fold s)

abbrev pub is_digit : Char → Bool
is_digit c = leb b'0' (code c) && leb (code c) b'9'

abbrev pub is_word : Char → Bool
is_word c =
    let k = code c in
    is_digit c || (leb b'a' k && leb k b'z') || (leb b'A' k && leb k b'Z') || k == b'_'

-- `[.!]?\s*$`
unfoldable pub ends_there : String → Bool
unfolding trim_left
ends_there String.[] = true
ends_there (String.◌∷◌ c s) = (code c == b'.' || code c == b'!') && str_eq (skip_blanks s) ""

-- `^\s*(w1|w2|…)\s*[.!]?\s*$`
unfoldable pub is_one_of : List String → String → Bool
unfolding has_prefix skip rune_count ends_there skip_blanks
is_one_of [] s = false
is_one_of (w ∷ ws) s =
    (has_prefix s w && ends_there (skip_blanks (skip (rune_count w) s))) || is_one_of ws s

abbrev pub yes_words : List String
yes_words =
    "yes" ∷ "yeah" ∷ "yep" ∷ "y" ∷ "confirm" ∷ "ok" ∷ "okay" ∷ "sure" ∷ "do it" ∷ "go ahead" ∷ []

abbrev pub no_words : List String
no_words = "no" ∷ "nah" ∷ "nope" ∷ "n" ∷ "cancel" ∷ "stop" ∷ "don't" ∷ "do not" ∷ []

-- isConfirmationYes and isConfirmationNo
unfoldable pub is_confirmation_yes : String → Bool
unfolding is_one_of fold trim_space skip_blanks
is_confirmation_yes said = is_one_of yes_words (fold (skip_blanks (trim_space said)))

unfoldable pub is_confirmation_no : String → Bool
unfolding is_one_of fold trim_space skip_blanks
is_confirmation_no said = is_one_of no_words (fold (skip_blanks (trim_space said)))

-- words with `\s+` between them, at the start of a text
unfoldable pub starts_with_words : List String → String → Bool
unfolding has_prefix skip rune_count skip_blanks
starts_with_words [] s = true
starts_with_words (w ∷ []) s = has_prefix s w
starts_with_words (w ∷ v ∷ ws) s =
    let rest = skip (rune_count w) s in
    has_prefix s w
    && not (str_eq (skip_blanks rest) rest)
    && starts_with_words (v ∷ ws) (skip_blanks rest)

unfoldable pub starts_with_any : List (List String) → String → Bool
unfolding starts_with_words
starts_with_any [] s = false
starts_with_any (ws ∷ rest) s = starts_with_words ws s || starts_with_any rest s

abbrev pub recommendation_phrases : List (List String)
recommendation_phrases =
    ("find" ∷ "a" ∷ "time" ∷ [])
    ∷ ("pick" ∷ "a" ∷ "time" ∷ [])
    ∷ ("find/pick" ∷ "a" ∷ "time" ∷ [])
    ∷ ("suggest" ∷ "a" ∷ "time" ∷ [])
    ∷ ("any" ∷ "time" ∷ [])
    ∷ ("you" ∷ "pick" ∷ [])
    ∷ ("pick" ∷ "one" ∷ [])
    ∷ []

unfoldable pub finds_any : List (List String) → String → Bool
unfolding starts_with_any
finds_any phrases String.[] = starts_with_any phrases ""
finds_any phrases (String.◌∷◌ c s) = starts_with_any phrases (String.◌∷◌ c s) || finds_any phrases s

-- isRecommendationIntent
unfoldable pub is_recommendation_intent : String → Bool
unfolding finds_any fold trim_space
is_recommendation_intent said = finds_any recommendation_phrases (fold (trim_space said))

abbrev pub at_boundary : String → Bool
at_boundary String.[] = true
at_boundary (String.◌∷◌ c s) = not (is_word c)

abbrev pub day_words : List String
day_words =
    "at" ∷ "monday" ∷ "tuesday" ∷ "wednesday" ∷ "thursday" ∷ "friday" ∷ "saturday" ∷ "sunday"
    ∷ "tomorrow" ∷ "today" ∷ []

-- one of the words and `\b`
unfoldable pub is_day_word : List String → String → Bool
unfolding has_prefix skip rune_count fold
is_day_word [] s = false
is_day_word (w ∷ ws) s =
    (has_prefix (fold s) w && at_boundary (skip (rune_count w) s)) || is_day_word ws s

abbrev meridiem : String → Bool
unfolding is_day_word
meridiem s = is_day_word ("am" ∷ "pm" ∷ []) s

-- `(:\d{2})?\s*(am|pm)\b`
abbrev after_hour : String → Bool
unfolding skip_blanks meridiem
after_hour String.[] = false
after_hour (String.◌∷◌ c String.[]) = false
after_hour (String.◌∷◌ c (String.◌∷◌ d String.[])) = meridiem (String.◌∷◌ c (String.◌∷◌ d ""))
after_hour (String.◌∷◌ c (String.◌∷◌ d (String.◌∷◌ e s))) =
    if code c == b':' && is_digit d && is_digit e
    then meridiem (skip_blanks s)
    else meridiem (String.◌∷◌ c (String.◌∷◌ d (String.◌∷◌ e s)))

-- `\d{1,2}\s*(:\d{2})?\s*(am|pm)\b`
abbrev clock_time : String → Bool
unfolding after_hour skip_blanks
clock_time String.[] = false
clock_time (String.◌∷◌ c String.[]) = false
clock_time (String.◌∷◌ c (String.◌∷◌ d s)) =
    is_digit c
    && (if is_digit d
        then after_hour (skip_blanks s)
        else after_hour (skip_blanks (String.◌∷◌ d s)))

-- a match behind a character; `inside` tells whether that is a word character
unfoldable pub finds_time : Bool → String → Bool
unfolding clock_time is_day_word
finds_time inside String.[] = false
finds_time inside (String.◌∷◌ c s) =
    (not inside
      && is_word c
      && (clock_time (String.◌∷◌ c s) || is_day_word day_words (String.◌∷◌ c s)))
    || finds_time (is_word c) s

-- isExplicitDateTime
unfoldable pub is_explicit_date_time : String → Bool
unfolding trim_space is_recommendation_intent finds_time
is_explicit_date_time said =
    let s = trim_space said in
    if str_eq s "" || is_recommendation_intent s then false else finds_time false s

tests :
    (is_confirmation_yes " Yes! " ≡ true)
    × (is_confirmation_yes "yes please" ≡ false)
    × (is_confirmation_no "Don't." ≡ true)
    × (is_recommendation_intent "please Find  a time" ≡ true)
    × (is_explicit_date_time "Friday" ≡ true)
    × (is_explicit_date_time "around 3:30 pm" ≡ true)
    × (is_explicit_date_time "that one" ≡ false)
unfolding is_confirmation_yes is_confirmation_no is_recommendation_intent is_explicit_date_time
tests = (refl, refl, refl, refl, refl, refl, refl)
