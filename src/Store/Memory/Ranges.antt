-- ===== src/Store/Memory/Ranges.antt =====
-- The range operators in `conditionMatches`.
use smart_assistant_api.Common.{
  ℕ, String, ◌≡◌, refl, sym, ap, ◌∙◌, Bool, true, false, ◌&&◌, List, [], ◌∷◌, map, In, inl, inr,
  all, keep, arith, Option-cases, Bool-cases, subst, ltb, leb, take, zero, suc,
}
use smart_assistant_api.Common.Exec.{ok}
use smart_assistant_api.Store.Query.{Operator, gt, gte, lt, lte, Condition, Query, Order, Value}
use smart_assistant_api.Store.Memory.{
  Entity, entity_matches, entity_matches_one, condition_matches, storage_field, stable_sort,
  paginate,
}
use smart_assistant_api.Store.Memory.Crud.{Items, matches, sort_entities, sorted_matches, find}

pub data IsRange : Operator → Type 0 where
  is_gt : IsRange gt
  is_gte : IsRange gte
  is_lt : IsRange lt
  is_lte : IsRange lte

all-false :
    {A : Type 0} (p : A → Bool) (a : A) (xs : List A) → In a xs → p a ≡ false → all p xs ≡ false
all-false p a [] i h = absurd i
all-false p a (x ∷ xs) (inl e) h =
    let h' : p x ≡ false = subst (λ y. p y ≡ false) (sym e) h in rw h' refl
all-false p a (x ∷ xs) (inr i) h = ground (arith, all-false p a xs i h)

keep_none : {A : Type 0} (p : A → Bool) (xs : List A) → ((x : A) → p x ≡ false) → keep p xs ≡ []
keep_none p [] h = refl
keep_none p (x ∷ xs) h = rw (h x) (keep_none p xs h)

take-nil : {A : Type 0} (n : ℕ) → take {A = A} n [] ≡ []
take-nil zero = refl
take-nil (suc n) = refl

paginate-nil : {A : Type 0} (limit offset : ℕ) → paginate {A = A} [] limit offset ≡ []
unfolding paginate
paginate-nil limit offset = elim (Bool-cases (ltb 0 offset)) [
  | inl past ↦ let all_skipped : leb 0 offset ≡ true = ground arith in rw (past, all_skipped) refl
  | inr from_start ↦ elim (Bool-cases (ltb 0 limit && ltb limit 0)) [
    | inl cut ↦ rw (from_start, cut) (take-nil limit)
    | inr whole ↦ rw (from_start, whole) refl
  ]
]

module _ (clock_text : ℕ → String) {T : Type 0} (ent : Entity T) where
  value_fails :
      (v : Value) (c : Condition) (o : Operator)
      → c.operator ≡ o
      → IsRange o
      → condition_matches clock_text v c ≡ false
  unfolding condition_matches
  value_fails v c o e is_gt = rw (condition_matches, e) refl
  value_fails v c o e is_gte = rw (condition_matches, e) refl
  value_fails v c o e is_lt = rw (condition_matches, e) refl
  value_fails v c o e is_lte = rw (condition_matches, e) refl

  range_fails :
      (e : T) (c : Condition) → IsRange c.operator → entity_matches_one clock_text ent e c ≡ false
  unfolding entity_matches_one
  range_fails e c h = elim (Option-cases (ent.field_by_storage e (storage_field c.field))) [
    | inl absent ↦ rw absent refl
    | inr (v, there) ↦ rw there (value_fails v c c.operator refl h)
  ]

  sorted_nil : (os : List Order) → sort_entities clock_text ent os [] ≡ []
  unfolding sort_entities stable_sort
  sorted_nil [] = refl
  sorted_nil (o ∷ os) = refl

  -- A query with a condition of the operator gt, gte, lt or lte finds nothing in MemoryStore,
  -- whatever is stored.
  pub find-range :
      (q : Query) (c : Condition) (s : Items T)
      → In c q.conditions
      → IsRange c.operator
      → find clock_text ent q s ≡ ok []
  unfolding find sorted_matches matches entity_matches
  find-range q c s i h =
      let none_match =
        keep_none (λ kv. all (entity_matches_one clock_text ent kv.1) q.conditions) s.items
          (λ kv.
            all-false (entity_matches_one clock_text ent kv.1) c q.conditions i
              (range_fails kv.1 c h)) in
      let empty : sort_entities clock_text ent q.orders (matches clock_text ent q.conditions s)
          ≡ [] =
        ap (sort_entities clock_text ent q.orders) none_match ∙ sorted_nil q.orders in
      ap (λ ms. ok (map (λ m. m.1) (paginate ms q.limit q.offset))) empty
      ∙ ap (λ ms. ok (map (λ m. m.1) ms)) (paginate-nil q.limit q.offset)
