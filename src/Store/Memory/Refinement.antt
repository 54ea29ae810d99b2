-- ===== src/Store/Memory/Refinement.antt =====
-- `MemoryStore` against a map from ids to entities.
use smart_assistant_api.Common.{
  ℕ, String, ◌≡◌, refl, ap, ◌∙◌, fun_ext, Option, none, some, List, [], ◌∷◌, str_eq, if◌then◌else◌,
  Bool-cases, Option-cases, inl, inr,
}
use smart_assistant_api.Common.Exec.{Result, ok, err}
use smart_assistant_api.Common.Assoc.{lookup, lookup-insert, lookup-erase}
use smart_assistant_api.Store.Contract.{Rows, StoreError, missing, failure, found}
use smart_assistant_api.Store.Memory.{Entity, storage_id}
use smart_assistant_api.Store.Memory.Crud.{Items, create, update, delete, find_by_id}

pub data Write (T : Type 0) : Type 0 where
  add : T → Write T
  change : String → T → Write T
  remove : String → Write T

module _ {T : Type 0} where
  -- The map with one entry changed.
  abbrev pub set_row : String → Option T → Rows T → Rows T
  set_row i o rows j = if str_eq i j then o else rows j

  abbrev pub if_stored : Option T → Result StoreError (Unit {0})
  if_stored none = err missing
  if_stored (some e) = ok tt

  abbrev when_stored : Option T → Rows T → Rows T → Rows T
  when_stored none rows rows' = rows
  when_stored (some e) rows rows' = rows'

module _ {T : Type 0} (id : T → String) where
  -- What the map answers, and what becomes of it. An entity without an id is refused.
  abbrev pub answer : Write T → Rows T → Result StoreError (Unit {0})
  answer (add e) rows = if str_eq (id e) "" then err failure else ok tt
  answer (change i e) rows = if_stored (rows i)
  answer (remove i) rows = if_stored (rows i)

  abbrev pub effect : Write T → Rows T → Rows T
  effect (add e) rows = if str_eq (id e) "" then rows else set_row (id e) (some e) rows
  effect (change i e) rows = when_stored (rows i) rows (set_row i (some e) rows)
  effect (remove i) rows = when_stored (rows i) rows (set_row i none rows)

  abbrev pub answers : List (Write T) → Rows T → List (Result StoreError (Unit {0}))
  answers [] rows = []
  answers (w ∷ ws) rows = answer w rows ∷ answers ws (effect w rows)

  abbrev pub effects : List (Write T) → Rows T → Rows T
  effects [] rows = rows
  effects (w ∷ ws) rows = effects ws (effect w rows)

abbrev pub rows_of : {T : Type 0} → Items T → Rows T
rows_of s k = lookup k s.items

module _ (clock_text : ℕ → String) {T : Type 0} (ent : Entity T) where
  unfoldable pub write : Write T → Items T → Result StoreError (Unit {0}) × Items T
  unfolding create update delete
  write (add e) s = create clock_text ent e s
  write (change i e) s = update clock_text ent i e s
  write (remove i) s = delete clock_text ent i s

  unfoldable pub write_all :
      List (Write T) → Items T → List (Result StoreError (Unit {0})) × Items T
  unfolding write
  write_all [] s = ([], s)
  write_all (w ∷ ws) s = let (r, s') = write w s in let (rs, s2) = write_all ws s' in (r ∷ rs, s2)

  write_refines :
      (w : Write T) (s : Items T)
      → ((write w s).0 ≡ answer (storage_id clock_text ent) w (rows_of s))
        × (rows_of (write w s).1 ≡ effect (storage_id clock_text ent) w (rows_of s))
  unfolding write create update delete
  write_refines (add e) s = elim (Bool-cases (str_eq (storage_id clock_text ent e) "")) [
    | inl blank ↦ rw blank (refl, refl)
    | inr named ↦
        rw named (refl, fun_ext λ j. lookup-insert (storage_id clock_text ent e) j e s.items)
  ]
  write_refines (change i e) s = elim (Option-cases (lookup i s.items)) [
    | inl absent ↦ rw (absent, write, update) (refl, refl)
    | inr (old, there) ↦ rw (there, write, update) (refl, fun_ext λ j. lookup-insert i j e s.items)
  ]
  write_refines (remove i) s = elim (Option-cases (lookup i s.items)) [
    | inl absent ↦ rw (absent, write, delete) (refl, refl)
    | inr (old, there) ↦ rw (there, write, delete) (refl, fun_ext λ j. lookup-erase i j s.items)
  ]

  -- Through any sequence of Create, Update and Delete, MemoryStore answers each call as a map from
  -- ids to entities does, and FindByID then finds what the map holds, under every id.
  pub write_all-refines :
      (ws : List (Write T)) (s : Items T)
      → ((write_all ws s).0 ≡ answers (storage_id clock_text ent) ws (rows_of s))
        × ((k : String)
            → find_by_id clock_text ent k (write_all ws s).1
              ≡ found (effects (storage_id clock_text ent) ws (rows_of s) k))
  unfolding write_all find_by_id
  write_all-refines [] s = (refl, λ k. refl)
  write_all-refines (w ∷ ws) s =
      let (r, e) = write_refines w s in
      let (rs, finds) = write_all-refines ws (write w s).1 in
      (
        rw (r, rs, e) refl,
        λ k. finds k ∙ ap (λ rows. found (effects (storage_id clock_text ent) ws rows k)) e,
      )
