-- ===== src/Store/Reference.antt =====
-- A store that never fails, over a table and the meaning of its conditions. It shows that the
-- contract can be met for every operator, and runs in the witnesses.
use smart_assistant_api.Common.{
  In, String, ◌≡◌, refl, ◌≢◌, ◌⊎◌, inl, inr, Option, none, some, List, [], ◌∷◌, map, In-map,
  map_source, In-keep, all, keep, length, Bool, true, subst, sym, Bool-cases,
}
use smart_assistant_api.Common.Exec.{Result, ok, err}
use smart_assistant_api.Common.Assoc.{
  lookup, insert, erase, lookup-insert, lookup-erase, insert-IsDistinct, erase-IsDistinct,
  lookup-of_In, In-of_lookup,
}
use smart_assistant_api.Store.Query.{Condition, Query}
use smart_assistant_api.Store.Contract.{
  Rows, Same, Put, Gone, StoreError, missing, failure, found, Store, IsAnswer, IsHit, hit, no_hit,
  Contract,
}
use smart_assistant_api.Store.Contract.Effects.{IsReliable}
use smart_assistant_api.Store.Memory.Crud.{Items}

module _ {T : Type 0} (key : T → String) (holds : T → Condition → Bool) where
  abbrev hits : Query → Items T → List T
  hits q s = map (λ kv. kv.1) (keep (λ kv. all (holds kv.1) q.conditions) s.items)

  abbrev first : List T → Result StoreError T
  first [] = err missing
  first (e ∷ es) = ok e

  abbrev put : String → T → Items T → Items T
  put k e s = record {
    items = insert k e s.items;
    distinct = insert-IsDistinct k e s.items s.distinct;
  }

  abbrev take_out : String → Items T → Items T
  take_out k s = record {
    items = erase k s.items;
    distinct = erase-IsDistinct k s.items s.distinct;
  }

  abbrev if_there : Option T → Items T → Items T → Result StoreError (Unit {0}) × Items T
  if_there none s s' = (err missing, s)
  if_there (some e) s s' = (ok tt, s')

  abbrev pub reference : Store T
  reference = record {
    State = Items T;
    create = λ e s. (ok tt, put (key e) e s);
    find_by_id = λ i s. found (lookup i s.items);
    find_one = λ q s. first (hits q s);
    find = λ q s. ok (hits q s);
    update = λ i e s. if_there (lookup i s.items) s (put i e s);
    delete = λ i s. if_there (lookup i s.items) s (take_out i s);
    count = λ q s. ok (length (hits q s));
  }

  abbrev pub stored : Items T → Rows T
  stored s k = lookup k s.items

  pub hits-IsAnswer : (q : Query) (s : Items T) → IsAnswer holds (stored s) q (hits q s)
  hits-IsAnswer q s = record {
    only = λ e i.
        let (m, j, same) =
          map_source (λ kv. kv.1) e (keep (λ kv. all (holds kv.1) q.conditions) s.items) i in
        let (there, fits) = (In-keep (λ kv. all (holds kv.1) q.conditions) m s.items).0 j in
        (
          m.0,
          subst (λ x. lookup m.0 s.items ≡ some x) same
              (lookup-of_In m.0 m.1 s.items s.distinct there),
          subst (λ x. all (holds x) q.conditions ≡ true) same fits,
        );
    every = λ i e there fits.
        In-map (λ kv. kv.1) (i, e) (keep (λ kv. all (holds kv.1) q.conditions) s.items)
          ((In-keep (λ kv. all (holds kv.1) q.conditions) (i, e) s.items).1
            (In-of_lookup i e s.items there, fits));
  }

  pub first-IsHit :
      (q : Query) (s : Items T) (es : List T) → hits q s ≡ es → IsHit holds (stored s) q (first es)
  first-IsHit q s [] e =
      no_hit
        (λ i x there. elim (Bool-cases (all (holds x) q.conditions)) [
          | inl fits ↦ absurd (subst (λ l. In x l) e ((hits-IsAnswer q s).every i x there fits))
          | inr misfit ↦ misfit
        ])
        refl
  first-IsHit q s (x ∷ xs) e =
      let (i, there, fits) = (hits-IsAnswer q s).only x (subst (λ l. In x l) (sym e) (inl refl)) in
      hit i x there fits refl

  pub update_outcome :
      (o : Option T) (i : String) (e : T) (s : Items T)
      → lookup i s.items ≡ o
      → ((o ≢ none)
          × ((if_there o s (put i e s)).0 ≡ ok tt)
          × Put i e (stored s) (stored (if_there o s (put i e s)).1))
        ⊎ ((o ≡ none)
            × ((if_there o s (put i e s)).0 ≡ err missing)
            × Same (stored s) (stored (if_there o s (put i e s)).1))
  update_outcome none i e s h = inr (refl, refl, λ j. refl)
  update_outcome (some old) i e s h = inl (λ p. cc, refl, λ j. lookup-insert i j e s.items)

  pub delete_outcome :
      (o : Option T) (i : String) (s : Items T)
      → lookup i s.items ≡ o
      → ((o ≢ none)
          × ((if_there o s (take_out i s)).0 ≡ ok tt)
          × Gone i (stored s) (stored (if_there o s (take_out i s)).1))
        ⊎ ((o ≡ none)
            × ((if_there o s (take_out i s)).0 ≡ err missing)
            × Same (stored s) (stored (if_there o s (take_out i s)).1))
  delete_outcome none i s h = inr (refl, refl, λ j. refl)
  delete_outcome (some old) i s h = inl (λ p. cc, refl, λ j. lookup-erase i j s.items)

  unfoldable pub reference-Contract : Contract key holds reference
  reference-Contract = record {
    rows = stored;
    create_law = λ e s. inl (refl, λ j. lookup-insert (key e) j e s.items);
    find_by_id_law = λ i s. inl refl;
    find_one_law = λ q s. inl (first-IsHit q s (hits q s) refl);
    find_law = λ q s l o. inl (hits q s, refl, hits-IsAnswer q s);
    update_law = λ i e s. elim (update_outcome (lookup i s.items) i e s refl) [
      | inl h ↦ inl h
      | inr h ↦ inr (inl h)
    ];
    delete_law = λ i s. elim (delete_outcome (lookup i s.items) i s refl) [
      | inl h ↦ inl h
      | inr h ↦ inr (inl h)
    ];
  }

  first-ne-failure : (es : List T) → first es ≢ err failure
  first-ne-failure [] = cc
  first-ne-failure (e ∷ es) = cc

  found-ne-failure : (o : Option T) → found o ≢ err failure
  found-ne-failure none = cc
  found-ne-failure (some e) = cc

  if_there-ne-failure : (o : Option T) (s s' : Items T) → (if_there o s s').0 ≢ err failure
  if_there-ne-failure none s s' = cc
  if_there-ne-failure (some e) s s' = cc

  pub reference-IsReliable : IsReliable reference
  reference-IsReliable = record {
    find_by_id = λ i s. found-ne-failure (lookup i s.items);
    find_one = λ q s. first-ne-failure (hits q s);
    find = λ q s. cc;
    create = λ e s. cc;
    update = λ i e s. if_there-ne-failure (lookup i s.items) s (put i e s);
    delete = λ i s. if_there-ne-failure (lookup i s.items) s (take_out i s);
  }
