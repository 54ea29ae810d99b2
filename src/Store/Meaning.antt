-- ===== src/Store/Meaning.antt =====
-- What the operators of pkg/store/query.go say of a column, as a database reads them: a null column
-- fits no comparison, instants and numbers are ordered, and `like` is a substring test that ignores
-- case, for patterns that are a text between two percent signs and hold no other wildcard.
use smart_assistant_api.Common.{Bool, true, false, not, ◌==◌, ltb, leb, Option, none, some, str_eq}
use smart_assistant_api.Common.Text.{to_lower, contains, trim_percent}
use smart_assistant_api.Store.Query.{
  Value, text, flag, number, instant, nil, texts, Operator, eq, ne, gt, gte, lt, lte, is_in, like,
}
use smart_assistant_api.Store.Memory.{any_text}

abbrev pub same_value : Value → Value → Bool
same_value (text a) (text b) = str_eq a b
same_value (number a) (number b) = a == b
same_value (instant a) (instant b) = a == b
same_value (flag true) (flag b) = b
same_value (flag false) (flag b) = not b
same_value _ _ = false

abbrev pub less_value : Value → Value → Bool
less_value (number a) (number b) = ltb a b
less_value (instant a) (instant b) = ltb a b
less_value _ _ = false

abbrev pub at_most : Value → Value → Bool
at_most (number a) (number b) = leb a b
at_most (instant a) (instant b) = leb a b
at_most _ _ = false

abbrev pub one_of : Value → Value → Bool
one_of (text a) (texts xs) = any_text xs (λ x. str_eq a x)
one_of _ _ = false

abbrev pub looks_like : Value → Value → Bool
looks_like (text a) (text p) = contains (to_lower a) (to_lower (trim_percent p))
looks_like _ _ = false

abbrev pub is_null : Value → Bool
is_null nil = true
is_null _ = false

abbrev pub means : Option Value → Operator → Value → Bool
means none op v = false
means (some nil) op v = false
means (some f) eq v = same_value f v
means (some f) ne v = not (same_value f v)
means (some f) gt v = less_value v f
means (some f) gte v = at_most v f
means (some f) lt v = less_value f v
means (some f) lte v = at_most f v
means (some f) is_in v = one_of f v
means (some f) like v = looks_like f v
