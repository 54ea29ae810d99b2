-- ===== src/Store/Contract.antt =====
-- pkg/store/store.go: the interface `Store[T]` that repositories hold, and what its callers rely
-- on. A database behind it may fail at any call; a call that fails changes nothing.
pub mod Effects
use smart_assistant_api.Common.{
  ℕ, String, ◌≡◌, ◌≢◌, ◌⊎◌, Bool, true, false, Option, none, some, List, In, all, str_eq,
  if◌then◌else◌,
}
use smart_assistant_api.Common.Exec.{Result, ok, err, Exec}
use smart_assistant_api.Response.{AppError}
use smart_assistant_api.Store.Query.{Condition, Query}

-- ErrNotFound, and any other error.
pub data StoreError : Type 0 where
  missing failure : StoreError

pub record Store (T : Type 0) : Type 1 where
  pub State : Type 0
  pub create : T → Exec State StoreError (Unit {0})
  pub find_by_id : String → State → Result StoreError T
  pub find_one : Query → State → Result StoreError T
  pub find : Query → State → Result StoreError (List T)
  pub update : String → T → Exec State StoreError (Unit {0})
  pub delete : String → Exec State StoreError (Unit {0})
  pub count : Query → State → Result StoreError ℕ

-- A lookup in the table as the result of a read.
abbrev pub found : {T : Type 0} → Option T → Result StoreError T
found none = err missing
found (some e) = ok e

-- A table: what is stored under each id.
abbrev pub Rows : Type 0 → Type 0
Rows T = String → Option T

module _ {T : Type 0} where
  abbrev pub Same : Rows T → Rows T → Type 0
  Same before after = (j : String) → after j ≡ before j

  abbrev pub Put : String → T → Rows T → Rows T → Type 0
  Put i e before after = (j : String) → after j ≡ (if str_eq i j then some e else before j)

  abbrev pub Gone : String → Rows T → Rows T → Type 0
  Gone i before after = (j : String) → after j ≡ (if str_eq i j then none else before j)

  -- The answer to a query without pagination: only stored rows that fit, and all of them.
  pub record IsAnswer (holds : T → Condition → Bool) (rows : Rows T) (q : Query) (es : List T)
      : Type 0 where
    pub only :
        (e : T) → In e es → (i : String) × (rows i ≡ some e) × (all (holds e) q.conditions ≡ true)
    pub every : (i : String) (e : T) → rows i ≡ some e → all (holds e) q.conditions ≡ true → In e es

  -- The answer to FindOne: a stored row that fits, or that there is none.
  pub data IsHit (holds : T → Condition → Bool) (rows : Rows T) (q : Query)
      (r : Result StoreError T) : Type 0 where
    hit :
        (i : String) (e : T)
        → rows i ≡ some e
        → all (holds e) q.conditions ≡ true
        → r ≡ ok e
        → IsHit holds rows q r
    no_hit :
        ((i : String) (e : T) → rows i ≡ some e → all (holds e) q.conditions ≡ false)
        → r ≡ err missing
        → IsHit holds rows q r

  -- What is documented of an adapter. `key` is the id of an entity, `holds` what a condition says.
  pub record Contract (key : T → String) (holds : T → Condition → Bool) (st : Store T)
      : Type 1 where
    pub rows : st.State → Rows T
    pub create_law :
        (e : T) (s : st.State)
        → (((st.create e s).0 ≡ ok tt) × Put (key e) e (rows s) (rows (st.create e s).1))
          ⊎ (((st.create e s).0 ≡ err failure) × Same (rows s) (rows (st.create e s).1))
    pub find_by_id_law :
        (i : String) (s : st.State)
        → (st.find_by_id i s ≡ found (rows s i)) ⊎ (st.find_by_id i s ≡ err failure)
    pub find_one_law :
        (q : Query) (s : st.State)
        → IsHit holds (rows s) q (st.find_one q s) ⊎ (st.find_one q s ≡ err failure)
    pub find_law :
        (q : Query) (s : st.State)
        → q.limit ≡ 0
        → q.offset ≡ 0
        → ((es : List T) × (st.find q s ≡ ok es) × IsAnswer holds (rows s) q es)
          ⊎ (st.find q s ≡ err failure)
    pub update_law :
        (i : String) (e : T) (s : st.State)
        → ((rows s i ≢ none)
            × ((st.update i e s).0 ≡ ok tt)
            × Put i e (rows s) (rows (st.update i e s).1))
          ⊎ ((rows s i ≡ none)
              × ((st.update i e s).0 ≡ err missing)
              × Same (rows s) (rows (st.update i e s).1))
          ⊎ (((st.update i e s).0 ≡ err failure) × Same (rows s) (rows (st.update i e s).1))
    pub delete_law :
        (i : String) (s : st.State)
        → ((rows s i ≢ none)
            × ((st.delete i s).0 ≡ ok tt)
            × Gone i (rows s) (rows (st.delete i s).1))
          ⊎ ((rows s i ≡ none)
              × ((st.delete i s).0 ≡ err missing)
              × Same (rows s) (rows (st.delete i s).1))
          ⊎ (((st.delete i s).0 ≡ err failure) × Same (rows s) (rows (st.delete i s).1))

-- How services pass on what a store call returns: `mapped` turns its error into theirs.
module _ {A : Type 0} (mapped : StoreError → AppError) where
  abbrev pub recast : Result StoreError A → Result AppError A
  recast (ok a) = ok a
  recast (err e) = err (mapped e)

module _ {S A : Type 0} (mapped : StoreError → AppError) where
  abbrev pub reading : (S → Result StoreError A) → Exec S AppError A
  reading m s = (recast mapped (m s), s)

  abbrev pub writing : Exec S StoreError A → Exec S AppError A
  writing m s = let (r, s') = m s in (recast mapped r, s')
