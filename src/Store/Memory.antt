-- ===== src/Store/Memory.antt =====
-- pkg/store/memory.go, with `sortedKeys` and `storageField` of pkg/store/atomic.go. The map of
-- items is an association list, whose order stands for the order in which Go ranges over it.
pub mod Sorting
pub mod Crud
pub mod Laws
pub mod Refinement
pub mod Ranges
mod Samples
use Prim.Native.Nat.{Ordering, compare}
use Prim.Native.String
use Prim.Native.String.{String}
use smart_assistant_api.Common.{
  ℕ, ◌≡◌, ◌≢◌, Bool, true, false, not, ◌&&◌, ◌||◌, ltb, leb, ◌==◌, Option, none, some, List, [],
  ◌∷◌, map, length, take, drop, keep, any, all, str_eq, if◌then◌else◌,
}
use smart_assistant_api.Common.Exec.{Result, ok, err, Exec}
use smart_assistant_api.Common.Text.{to_lower, contains, trim_percent, decimal, hexadecimal, join}
use smart_assistant_api.Common.Assoc.{lookup, insert, erase}
use smart_assistant_api.Store.Query.{
  Value, text, flag, number, instant, pointer, nil, texts, Operator, eq, ne, gt, gte, lt, lte,
  is_in, like, Condition, Order, Query,
}
use smart_assistant_api.Store.Contract.{StoreError, missing, failure, Store, found}

-- What reflection over the `bson` tags of `T` gives: `fieldByStorage`, and `applyField`.
pub record Entity (T : Type 0) : Type 0 where
  pub field_by_storage : T → String → Option Value
  pub apply_field : T → String → Value → T

-- storageField(field, true)
abbrev pub storage_field : String → String
storage_field field = if str_eq field "id" then "_id" else field

-- reflect.DeepEqual
abbrev pub deep_equal : Value → Value → Bool
deep_equal (text a) (text b) = str_eq a b
deep_equal (flag true) (flag b) = b
deep_equal (flag false) (flag b) = not b
deep_equal (number a) (number b) = a == b
deep_equal (instant a) (instant b) = a == b
deep_equal (pointer a v) (pointer b w) = a == b || deep_equal v w
deep_equal nil nil = true
deep_equal _ _ = false

abbrev is_string : Value → Bool
is_string (text s) = true
is_string _ = false

abbrev pub any_text : List String → (String → Bool) → Bool
any_text [] p = false
any_text (x ∷ xs) p = p x || any_text xs p

-- `clock_text` is `time.Time.String`.
module _ (clock_text : ℕ → String) where
  -- fmt.Sprintf("%v", v): a pointer shows its address.
  unfoldable pub sprint : Value → String
  unfolding decimal hexadecimal join
  sprint (text s) = s
  sprint (flag true) = "true"
  sprint (flag false) = "false"
  sprint (number n) = decimal n
  sprint (instant t) = clock_text t
  sprint (pointer a v) = String.◌++◌ "0x" (hexadecimal a)
  sprint nil = "<nil>"
  sprint (texts ss) = String.◌++◌ "[" (String.◌++◌ (join " " ss) "]")

  -- scalarEqual
  unfoldable pub scalar_equal : Value → Value → Bool
  unfolding sprint
  scalar_equal a b =
      if is_string a || is_string b then str_eq (sprint a) (sprint b) else deep_equal a b

  abbrev pub in_slice : Value → Value → Bool
  in_slice f (texts xs) = any_text xs (λ x. scalar_equal f (text x))
  in_slice f _ = false

  -- conditionMatches; the operators gt, gte, lt and lte fall to its `default`.
  unfoldable pub condition_matches : Value → Condition → Bool
  unfolding scalar_equal
  condition_matches f c = elim c.operator [
    | eq ↦ scalar_equal f c.value
    | ne ↦ not (scalar_equal f c.value)
    | is_in ↦ in_slice f c.value
    | like ↦ contains (to_lower (sprint f)) (to_lower (trim_percent (sprint c.value)))
    | _ ↦ false
  ]

  -- compareValues
  unfoldable pub compare_values : Value → Value → Ordering
  unfolding sprint
  compare_values (instant a) (instant b) = compare a b
  compare_values a b = String.compare (sprint a) (sprint b)

  module _ {T : Type 0} (ent : Entity T) where
    abbrev pub field_matches : Option Value → Condition → Bool
    field_matches none c = false
    field_matches (some f) c = condition_matches f c

    -- one round of the loop of entityMatches
    unfoldable pub entity_matches_one : T → Condition → Bool
    unfolding condition_matches
    entity_matches_one e c = field_matches (ent.field_by_storage e (storage_field c.field)) c

    -- entityMatches
    unfoldable pub entity_matches : T → List Condition → Bool
    unfolding entity_matches_one
    entity_matches e cs = all (entity_matches_one e) cs

    -- what the comparison of one order says: smaller, greater, or go on
    abbrev ordered : Option Value → Option Value → Bool → Bool → Bool
    ordered (some fi) (some fj) desc later = elim (compare_values fi fj) [
      | Ordering.eq ↦ later
      | Ordering.lt ↦ not desc
      | Ordering.gt ↦ desc
    ]
    ordered _ _ desc later = later

    -- the `less` of sortEntities
    unfoldable pub less : List Order → T → T → Bool
    unfolding compare_values
    less [] a b = false
    less (o ∷ os) a b =
        ordered (ent.field_by_storage a (storage_field o.field))
          (ent.field_by_storage b (storage_field o.field)) o.desc (less os a b)

    -- storageValue(entity, "_id")
    unfoldable pub storage_id : T → String
    unfolding sprint
    storage_id e = elim (ent.field_by_storage e "_id") [ none ↦ "" | some v ↦ sprint v ]

-- sort.SliceStable, as a stable insertion sort.
module _ {A : Type 0} (before : A → A → Bool) where
  unfoldable pub place : A → List A → List A
  place x [] = x ∷ []
  place x (y ∷ ys) = let rest = place x ys in if before y x then y ∷ rest else x ∷ y ∷ ys

  unfoldable pub stable_sort : List A → List A
  unfolding place
  stable_sort [] = []
  stable_sort (x ∷ xs) = place x (stable_sort xs)

module _ {A : Type 0} where
  abbrev cut : ℕ → List A → List A
  cut limit items = if ltb 0 limit && ltb limit (length items) then take limit items else items

  -- paginate; a negative limit or offset acts as 0 does.
  unfoldable pub paginate : List A → ℕ → ℕ → List A
  paginate items limit offset =
      if ltb 0 offset
      then (if leb (length items) offset then [] else cut limit (drop offset items))
      else cut limit items
