-- ===== src/Dynamic.antt =====
-- Values of type `any`, map[string]any as an association list, and how internal/domain/assistant reads
-- them: stringArgValue and isEmptyValue of wake_word.go, stringArg of builtin/google_calendar_meet.go.
use Prim.Native.String.{◌++◌}
use smart_assistant_api.Common.{suc, String, Bool, true, false, Option, none, some, List, str_eq}
use smart_assistant_api.Common.Int.{ℤ, pos, negsuc}
use smart_assistant_api.Common.Text.{trim_space, join, decimal}
use smart_assistant_api.Common.Assoc.{lookup, insert}

-- A value of type `any`. A slice of `any` holds what fmt.Sprint prints of its items, a float64 the
-- integer that it is cut to and its print, and any other value its print.
pub data Argument : Type 0 where
  null : Argument
  text : String → Argument
  integer : ℤ → Argument
  float : ℤ → String → Argument
  flag : Bool → Argument
  texts items : List String → Argument
  object : String → Argument

abbrev pub Args : Type 0
Args = List (String × Argument)

unfoldable pub int_text : ℤ → String
unfolding decimal
int_text (pos n) = decimal n
int_text (negsuc n) = "-" ++ decimal (suc n)

-- fmt.Sprint
unfoldable pub sprint : Argument → String
unfolding int_text join
sprint null = "<nil>"
sprint (text s) = s
sprint (integer n) = int_text n
sprint (float n s) = s
sprint (flag true) = "true"
sprint (flag false) = "false"
sprint (texts xs) = "[" ++ join " " xs ++ "]"
sprint (items xs) = "[" ++ join " " xs ++ "]"
sprint (object s) = s

unfoldable pub printed : Option Argument → String
unfolding sprint trim_space
printed none = ""
printed (some null) = ""
printed (some v) = trim_space (sprint v)

-- stringArgValue, and stringArg of the package builtin
unfoldable pub string_arg_value : Args → String → String
unfolding printed lookup
string_arg_value args key = printed (lookup key args)

unfoldable pub put : String → String → Args → Args
unfolding insert
put key value args = insert key (text value) args

-- isEmptyValue, of a key that may be missing
unfoldable pub is_empty_value : Option Argument → Bool
unfolding trim_space
is_empty_value none = true
is_empty_value (some null) = true
is_empty_value (some (text s)) = str_eq (trim_space s) ""
is_empty_value (some v) = false

-- a type assertion to string, with "" when it fails
abbrev pub as_string : Option Argument → String
as_string (some (text s)) = s
as_string _ = ""
