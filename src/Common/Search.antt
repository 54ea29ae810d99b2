-- ===== src/Common/Search.antt =====
-- Searching and cutting texts, as Go's `strings` package does. Positions count code points.
use Prim.Native.Nat.{ℕ, zero, suc, ◌-◌}
use Prim.Native.Char.{Char, code}
use Prim.Native.String.{String, ◌++◌}
use mathlib.Core.Bool.{true, false}
use mathlib.Core.Option.{Option, none, some}
use mathlib.Core.List.{List, [], ◌∷◌}
use mathlib.Core.Path.{◌≡◌, refl}
use text.Mathlib.Text.{◌==◌ as str_eq}
use smart_assistant_api.Common.Tests.{◌==◌, if◌then◌else◌}
use smart_assistant_api.Common.Text.{has_prefix, rune_count, front, trim_space, is_space}

abbrev one_more : Option ℕ → Option ℕ
one_more none = none
one_more (some n) = some (suc n)

-- strings.Index; `none` is -1
unfoldable pub index : String → String → Option ℕ
unfolding has_prefix front rune_count
index String.[] t = if has_prefix "" t then some 0 else none
index (String.◌∷◌ c s) t =
    let rest = one_more (index s t) in if has_prefix (String.◌∷◌ c s) t then some 0 else rest

-- strings.LastIndex
unfoldable pub last_index : String → String → Option ℕ
unfolding has_prefix front rune_count
last_index String.[] t = if has_prefix "" t then some 0 else none
last_index (String.◌∷◌ c s) t = elim (last_index s t) [
  | some n ↦ some (suc n)
  | none ↦ if has_prefix (String.◌∷◌ c s) t then some 0 else none
]

-- `n` more characters of an occurrence are left out.
unfoldable pub replace_from : String → String → ℕ → String → String
unfolding has_prefix front rune_count
replace_from old new n String.[] = ""
replace_from old new (suc n) (String.◌∷◌ c s) = replace_from old new n s
replace_from old new zero (String.◌∷◌ c s) = elim (has_prefix (String.◌∷◌ c s) old) [
  | true ↦ new ++ replace_from old new (rune_count old - 1) s
  | false ↦ String.◌∷◌ c (replace_from old new 0 s)
]

-- strings.ReplaceAll, of a text that is not empty
unfoldable pub replace_all : String → String → String → String
unfolding replace_from
replace_all s old new = replace_from old new 0 s

abbrev onto_first : Char → List String → List String
onto_first c [] = String.◌∷◌ c "" ∷ []
onto_first c (s ∷ parts) = String.◌∷◌ c s ∷ parts

-- strings.Split at one character
unfoldable pub split : Char → String → List String
split sep String.[] = "" ∷ []
split sep (String.◌∷◌ c s) =
    let rest = split sep s in if code c == code sep then "" ∷ rest else onto_first c rest

-- strings.Fields: the words between white space. `word` is the word so far.
unfoldable pub fields_from : String → String → List String
fields_from word String.[] = if str_eq word "" then [] else word ∷ []
fields_from word (String.◌∷◌ c s) = elim (is_space c) [
  | true ↦ let rest = fields_from "" s in if str_eq word "" then rest else word ∷ rest
  | false ↦ fields_from (word ++ String.◌∷◌ c "") s
]

unfoldable pub fields : String → List String
unfolding fields_from
fields s = fields_from "" s

-- strings.TrimSpace of each, and the empty ones left out
unfoldable pub trimmed_parts : List String → List String
unfolding trim_space
trimmed_parts [] = []
trimmed_parts (s ∷ parts) =
    let rest = trimmed_parts parts in if str_eq (trim_space s) "" then rest else trim_space s ∷ rest

tests :
    (index "a at b at c" " at " ≡ some 1)
    × (last_index "a at b at c" " at " ≡ some 6)
    × (index "abc" "x" ≡ none)
    × (replace_all "p.m. 3 pm" "." "" ≡ "pm 3 pm")
    × (split "," "a,,b" ≡ "a" ∷ "" ∷ "b" ∷ [])
    × (fields " a  b c " ≡ "a" ∷ "b" ∷ "c" ∷ [])
unfolding index last_index replace_all split fields
tests = (refl, refl, refl, refl, refl, refl)
