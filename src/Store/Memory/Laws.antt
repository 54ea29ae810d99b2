-- ===== src/Store/Memory/Laws.antt =====
-- `MemoryStore` against the contract of `Store[T]`.
use smart_assistant_api.Common.{
  sym, ℕ, String, ◌≡◌, refl, Bool-cases, subst, ◌≢◌, ◌⊎◌, ◌↔◌, inl, inr, none, some, List, [], ◌∷◌,
  map, In, In-map, map_source, In-keep, all, str_eq, true, Option-cases,
}
use smart_assistant_api.Common.Exec.{ok, err}
use smart_assistant_api.Common.Assoc.{
  lookup, lookup-insert, lookup-erase, lookup-of_In, In-of_lookup,
}
use smart_assistant_api.Store.Query.{Condition, Order, Query}
use smart_assistant_api.Store.Contract.{
  Rows, Same, Put, Gone, missing, failure, IsAnswer, IsHit, hit, no_hit, Contract,
}
use smart_assistant_api.Store.Memory.{Entity, entity_matches, entity_matches_one, less, storage_id}
use smart_assistant_api.Store.Memory.Sorting.{In-stable_sort}
use smart_assistant_api.Store.Memory.Crud.{
  Items, matches, sort_entities, sorted_matches, create, find_by_id, find_one, first_of, find,
  update, delete, memory,
}

module _ (clock_text : ℕ → String) {T : Type 0} (ent : Entity T) where
  In-matches :
      (k : String) (e : T) (cs : List Condition) (s : Items T)
      → In (k, e) (matches clock_text ent cs s)
        ↔ ((lookup k s.items ≡ some e) × (entity_matches clock_text ent e cs ≡ true))
  unfolding matches
  In-matches k e cs s =
      let kept = In-keep (λ kv. entity_matches clock_text ent kv.1 cs) (k, e) s.items in
      (
        λ i. let (j, h) = kept.0 i in (lookup-of_In k e s.items s.distinct j, h),
        λ h. kept.1 (In-of_lookup k e s.items h.0, h.1),
      )

  In-sort_entities :
      (m : String × T) (os : List Order) (ms : List (String × T))
      → In m (sort_entities clock_text ent os ms) ↔ In m ms
  unfolding sort_entities
  In-sort_entities m [] ms = (λ i. i, λ i. i)
  In-sort_entities m (o ∷ os) ms = In-stable_sort (λ a b. less clock_text ent (o ∷ os) a.1 b.1) m ms

  pub In-sorted_matches :
      (k : String) (e : T) (q : Query) (s : Items T)
      → In (k, e) (sorted_matches clock_text ent q s)
        ↔ ((lookup k s.items ≡ some e) × (entity_matches clock_text ent e q.conditions ≡ true))
  unfolding sorted_matches
  In-sorted_matches k e q s =
      let sorted = In-sort_entities (k, e) q.orders (matches clock_text ent q.conditions s) in
      let matched = In-matches k e q.conditions s in
      (λ i. matched.0 (sorted.0 i), λ h. sorted.1 (matched.1 h))

  abbrev pub memory_rows : Items T → Rows T
  memory_rows s k = lookup k s.items

  -- A search without a page answers with what conditionMatches lets through.
  find-IsAnswer :
      (q : Query) (s : Items T)
      → q.limit ≡ 0
      → q.offset ≡ 0
      → (es : List T) × (find clock_text ent q s ≡ ok es)
        × IsAnswer (entity_matches_one clock_text ent) (memory_rows s) q es
  unfolding find entity_matches
  find-IsAnswer q s l o = (
    map (λ m. m.1) (sorted_matches clock_text ent q s),
    rw (l, o),
    record {
      only = λ e i.
          let (m, j, same) = map_source (λ m. m.1) e (sorted_matches clock_text ent q s) i in
          let (stored, fits) = (In-sorted_matches m.0 m.1 q s).0 j in
          (
            m.0,
            subst (λ x. lookup m.0 s.items ≡ some x) same stored,
            subst (λ x. all (entity_matches_one clock_text ent x) q.conditions ≡ true) same fits,
          );
      every = λ i e stored fits.
          In-map (λ m. m.1) (i, e) (sorted_matches clock_text ent q s)
            ((In-sorted_matches i e q s).1 (stored, fits));
    },
  )

  first_match :
      (q : Query) (s : Items T) (ms : List (String × T))
      → sorted_matches clock_text ent q s ≡ ms
      → IsHit (entity_matches_one clock_text ent) (memory_rows s) q (first_of clock_text ent ms)
  unfolding entity_matches
  first_match q s [] e =
      no_hit
        (λ i x there. elim (Bool-cases (all (entity_matches_one clock_text ent x) q.conditions)) [
          | inl fits ↦
              absurd (subst (λ l. In (i, x) l) e ((In-sorted_matches i x q s).1 (there, fits)))
          | inr misfit ↦ misfit
        ])
        refl
  first_match q s (m ∷ ms) e =
      let (there, fits) =
        (In-sorted_matches m.0 m.1 q s).0 (subst (λ l. In m l) (sym e) (inl refl)) in
      hit m.0 m.1 there fits refl

  create_outcome :
      (e : T) (s : Items T)
      → (((create clock_text ent e s).0 ≡ ok tt)
          × Put
              (storage_id clock_text ent e)
              e
              (memory_rows s)
              (memory_rows (create clock_text ent e s).1))
        ⊎ (((create clock_text ent e s).0 ≡ err failure)
            × Same (memory_rows s) (memory_rows (create clock_text ent e s).1))
  unfolding create
  create_outcome e s = elim (Bool-cases (str_eq (storage_id clock_text ent e) "")) [
    | inl empty ↦ inr (rw empty, λ j. rw empty)
    | inr named ↦
        inl (rw named, λ j. rw named (lookup-insert (storage_id clock_text ent e) j e s.items))
  ]

  update_outcome :
      (i : String) (e : T) (s : Items T)
      → ((memory_rows s i ≢ none)
          × ((update clock_text ent i e s).0 ≡ ok tt)
          × Put i e (memory_rows s) (memory_rows (update clock_text ent i e s).1))
        ⊎ ((memory_rows s i ≡ none)
            × ((update clock_text ent i e s).0 ≡ err missing)
            × Same (memory_rows s) (memory_rows (update clock_text ent i e s).1))
  unfolding update
  update_outcome i e s = elim (Option-cases (lookup i s.items)) [
    | inl absent ↦ inr (absent, rw (absent, update), λ j. rw (absent, update))
    | inr (old, there) ↦
        inl
          (λ absent. cc, rw (there, update), λ j. rw (there, update) (lookup-insert i j e s.items))
  ]

  delete_outcome :
      (i : String) (s : Items T)
      → ((memory_rows s i ≢ none)
          × ((delete clock_text ent i s).0 ≡ ok tt)
          × Gone i (memory_rows s) (memory_rows (delete clock_text ent i s).1))
        ⊎ ((memory_rows s i ≡ none)
            × ((delete clock_text ent i s).0 ≡ err missing)
            × Same (memory_rows s) (memory_rows (delete clock_text ent i s).1))
  unfolding delete
  delete_outcome i s = elim (Option-cases (lookup i s.items)) [
    | inl absent ↦ inr (absent, rw (absent, delete), λ j. rw (absent, delete))
    | inr (old, there) ↦
        inl (λ absent. cc, rw (there, delete), λ j. rw (there, delete) (lookup-erase i j s.items))
  ]

  -- The in-memory store keeps the contract of `Store[T]`, with `entityMatches` for the meaning of
  -- conditions.
  pub memory-Contract :
      Contract
        (storage_id clock_text ent)
        (entity_matches_one clock_text ent)
        (memory clock_text ent)
  unfolding find_by_id find_one
  memory-Contract = record {
    rows = memory_rows;
    create_law = create_outcome;
    find_by_id_law = λ i s. inl refl;
    find_one_law = λ q s. inl (first_match q s (sorted_matches clock_text ent q s) refl);
    find_law = λ q s l o. inl (find-IsAnswer q s l o);
    update_law = λ i e s. elim (update_outcome i e s) [ inl h ↦ inl h | inr h ↦ inr (inl h) ];
    delete_law = λ i s. elim (delete_outcome i s) [ inl h ↦ inl h | inr h ↦ inr (inl h) ];
  }
