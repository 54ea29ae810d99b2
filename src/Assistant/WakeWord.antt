-- ===== src/Assistant/WakeWord.antt =====
-- internal/domain/assistant/wake_word.go: stripWakeWord, which cuts the text at the length in bytes of
-- the wake word in lower case.
use Prim.Native.Char.{Char, code}
use smart_assistant_api.Common.{
  ℕ, String, Bool, not, ◌&&◌, ◌||◌, Option, none, some, leb, ltb, str_eq, if◌then◌else◌,
}
use smart_assistant_api.Common.Text.{trim_space, to_lower, has_prefix, byte_len, skip_bytes}

-- dto.go: MessageSource
abbrev pub source_wake_word : String
source_wake_word = "wake_word"

-- isAlphaNum
abbrev pub is_alpha_num : Char → Bool
is_alpha_num c =
    (leb b'a' (code c) && leb (code c) b'z')
    || (leb b'A' (code c) && leb (code c) b'Z')
    || (leb b'0' (code c) && leb (code c) b'9')

-- isWordBoundary
abbrev pub is_word_boundary : Char → Char → Bool
is_word_boundary before after = not (is_alpha_num before) || not (is_alpha_num after)

-- lowerWake[len(lowerWake)-1], which panics on the empty text
unfoldable pub last_char : String → Option Char
last_char String.[] = none
last_char (String.◌∷◌ c s) = let rest = last_char s in elim rest [ none ↦ some c | some d ↦ some d ]

-- the text behind the wake word, if there is any
abbrev pub behind : Option Char → String → String → Option String
behind none trimmed rest = none
behind (some b) trimmed String.[] = some (trim_space "")
behind (some b) trimmed (String.◌∷◌ c rest) =
    if not (is_word_boundary b c) then some trimmed else some (trim_space (String.◌∷◌ c rest))

-- what follows the test of the prefix, with the length of the wake word: the slice trimmed[n:]
-- panics if the text is shorter
unfoldable pub cut_at : Option Char → ℕ → String → Option String
unfolding byte_len skip_bytes
cut_at last n trimmed =
    if ltb n (byte_len trimmed)
    then behind last trimmed (skip_bytes n trimmed)
    else if ltb (byte_len trimmed) n
    then none
    else some (trim_space "")

-- stripWakeWord; `none` is a panic
unfoldable pub strip_wake_word : String → String → String → Option String
unfolding trim_space to_lower has_prefix byte_len last_char cut_at
strip_wake_word text wake_word source =
    let trimmed = trim_space text in
    let lower_text = to_lower trimmed in
    let lower_wake = to_lower (trim_space wake_word) in
    if str_eq trimmed "" || str_eq wake_word ""
    then some trimmed
    else if not (str_eq source source_wake_word || has_prefix lower_text lower_wake)
    then some trimmed
    else if has_prefix lower_text lower_wake
    then cut_at (last_char lower_wake) (byte_len lower_wake) trimmed
    else some trimmed
