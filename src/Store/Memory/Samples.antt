-- ===== src/Store/Memory/Samples.antt =====
-- The in-memory store at a small entity.
use smart_assistant_api.Common.{
  ℕ, String, ◌≡◌, refl, Option, none, some, List, [], ◌∷◌, inl, str_eq, if◌then◌else◌,
}
use smart_assistant_api.Common.Exec.{ok}
use smart_assistant_api.Common.Assoc.{lookup}
use smart_assistant_api.Common.Text.{decimal}
use smart_assistant_api.Store.Query.{Value, text, number, Query, lte, new_query, where_lte}
use smart_assistant_api.Store.Contract.{found}
use smart_assistant_api.Store.Memory.{Entity, storage_id}
use smart_assistant_api.Store.Memory.Crud.{Items, find, find_by_id}
use smart_assistant_api.Store.Memory.Refinement.{
  Write, add, change, remove, answers, effects, rows_of, write_all, write_all-refines,
}
use smart_assistant_api.Store.Memory.Ranges.{is_lte, find-range}

record Note : Type 0 where
  pub id : String
  pub size : ℕ

abbrev note_field : Note → String → Option Value
note_field n field =
    if str_eq field "_id"
    then some (text n.id)
    else if str_eq field "size"
    then some (number n.size)
    else none

abbrev note : Entity Note
note = record { field_by_storage = note_field; apply_field = λ n f v. n }

abbrev nothing : Items Note
nothing = record { items = []; distinct = tt }

abbrev writes : List (Write Note)
writes =
    add (record { id = "a"; size = 1 })
    ∷ change "b" (record { id = "b"; size = 2 })
    ∷ change "a" (record { id = "a"; size = 3 })
    ∷ add (record { id = ""; size = 0 })
    ∷ remove "a"
    ∷ []

write_all-refines_example :
    ((write_all decimal note writes nothing).0
      ≡ answers (storage_id decimal note) writes (rows_of nothing))
    × ((k : String)
        → find_by_id decimal note k (write_all decimal note writes nothing).1
          ≡ found (effects (storage_id decimal note) writes (rows_of nothing) k))
write_all-refines_example = write_all-refines decimal note writes nothing

abbrev one : Items Note
unfolding lookup
one = record { items = ("a", record { id = "a"; size = 3 }) ∷ []; distinct = (refl, tt) }

abbrev up_to_five : Query
up_to_five = where_lte "size" (number 5) new_query

find-range_example : find decimal note up_to_five one ≡ ok []
find-range_example =
    find-range decimal note up_to_five (record { field = "size"; operator = lte; value = number 5 })
      one (inl refl) is_lte
