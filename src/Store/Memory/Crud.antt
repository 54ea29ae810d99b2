-- ===== src/Store/Memory/Crud.antt =====
-- The methods of `MemoryStore`.
use smart_assistant_api.Common.{
  ℕ, String, none, some, List, [], ◌∷◌, map, length, keep, str_eq, if◌then◌else◌,
}
use smart_assistant_api.Common.Exec.{Result, ok, err, Exec}
use smart_assistant_api.Common.Assoc.{
  lookup, insert, erase, IsDistinct, insert-IsDistinct, erase-IsDistinct,
}
use smart_assistant_api.Store.Query.{Value, Condition, Order, Query}
use smart_assistant_api.Store.Contract.{StoreError, missing, failure, Store, found}
use smart_assistant_api.Store.Memory.{
  Entity, storage_field, entity_matches, less, storage_id, stable_sort, paginate,
}

pub record Items (T : Type 0) : Type 0 where
  pub items : List (String × T)
  pub distinct : IsDistinct items

module _ (clock_text : ℕ → String) {T : Type 0} (ent : Entity T) where
  -- s.match(q.Conditions), each match with its key
  unfoldable pub matches : List Condition → Items T → List (String × T)
  unfolding entity_matches
  matches cs s = keep (λ kv. entity_matches clock_text ent kv.1 cs) s.items

  -- sortEntities
  unfoldable pub sort_entities : List Order → List (String × T) → List (String × T)
  unfolding stable_sort less
  sort_entities [] items = items
  sort_entities (o ∷ os) items = stable_sort (λ a b. less clock_text ent (o ∷ os) a.1 b.1) items

  unfoldable pub sorted_matches : Query → Items T → List (String × T)
  unfolding matches sort_entities
  sorted_matches q s = sort_entities q.orders (matches q.conditions s)

  abbrev put : String → T → Items T → Items T
  put k e s = record {
    items = insert k e s.items;
    distinct = insert-IsDistinct k e s.items s.distinct;
  }

  unfoldable pub create : T → Exec (Items T) StoreError (Unit {0})
  unfolding storage_id
  create e s =
      let id = storage_id clock_text ent e in
      if str_eq id "" then (err failure, s) else (ok tt, put id e s)

  unfoldable pub find_by_id : String → Items T → Result StoreError T
  find_by_id id s = found (lookup id s.items)

  abbrev pub first_of : List (String × T) → Result StoreError T
  first_of [] = err missing
  first_of (m ∷ ms) = ok m.1

  unfoldable pub find_one : Query → Items T → Result StoreError T
  unfolding sorted_matches
  find_one q s = first_of (sorted_matches q s)

  unfoldable pub find : Query → Items T → Result StoreError (List T)
  unfolding sorted_matches paginate
  find q s = ok (map (λ m. m.1) (paginate (sorted_matches q s) q.limit q.offset))

  unfoldable pub update : String → T → Exec (Items T) StoreError (Unit {0})
  unfolding lookup
  update id e s = elim (lookup id s.items) [
    | none ↦ (err missing, s)
    | some _ ↦ (ok tt, put id e s)
  ]

  unfoldable pub delete : String → Exec (Items T) StoreError (Unit {0})
  unfolding lookup erase
  delete id s = elim (lookup id s.items) [
    | none ↦ (err missing, s)
    | some _ ↦ (
      ok tt,
      record { items = erase id s.items; distinct = erase-IsDistinct id s.items s.distinct },
    )
  ]

  unfoldable pub count : Query → Items T → Result StoreError ℕ
  unfolding matches
  count q s = ok (length (matches q.conditions s))

  -- the loop of FindOneAndUpdate over the sorted keys of `set`
  unfoldable pub apply_fields : List (String × Value) → T → T
  apply_fields [] e = e
  apply_fields ((k, v) ∷ set) e = apply_fields set (ent.apply_field e (storage_field k) v)

  -- `set` is given in the order of sortedKeys. The match is a pointer into the map.
  unfoldable pub find_one_and_update : Query → List (String × Value) → Exec (Items T) StoreError T
  unfolding sorted_matches apply_fields
  find_one_and_update q set s = elim (sorted_matches q s) [
    | [] ↦ (err missing, s)
    | m ∷ _ ↦ let e = apply_fields set m.1 in (ok e, put m.0 e s)
  ]

  -- NewMemoryStore, as a `Store[T]`
  abbrev pub memory : Store T
  memory = record {
    State = Items T;
    create = create;
    find_by_id = find_by_id;
    find_one = find_one;
    find = find;
    update = update;
    delete = delete;
    count = count;
  }
