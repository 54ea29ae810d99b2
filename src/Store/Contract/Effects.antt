-- ===== src/Store/Contract/Effects.antt =====
-- What store calls do to the rows, under the contract. `P` relates the row of an id before and after.
use smart_assistant_api.Common.{
  true, all, String, ◌≡◌, ◌≢◌, inl, inr, Bool, Option, none, some, List, str_eq, eq_iff, eq_refl,
  Bool-cases, arith, subst, ◌∙◌,
}
use smart_assistant_api.Common.Exec.{ok, err, Exec, ◌>>=◌}
use smart_assistant_api.Common.Results.{Result-cases}
use smart_assistant_api.Response.{AppError}
use smart_assistant_api.Store.Query.{Condition, Query}
use smart_assistant_api.Store.Contract.{
  StoreError, missing, failure, Store, Rows, Same, Put, Gone, IsAnswer, hit, no_hit, Contract,
  reading,
}

module _ {T : Type 0} {key : T → String} {holds : T → Condition → Bool} {st : Store T}
    (c : Contract key holds st) where
  pub find_by_id-ok :
      (i : String) (s : st.State) (e : T) → st.find_by_id i s ≡ ok e → c.rows s i ≡ some e
  find_by_id-ok i s e h = ground (arith, c.find_by_id_law i s)

  pub find_by_id-missing :
      (i : String) (s : st.State) → st.find_by_id i s ≡ err missing → c.rows s i ≡ none
  find_by_id-missing i s h = ground (arith, c.find_by_id_law i s)

  pub find-ok :
      (q : Query) (s : st.State) (es : List T)
      → q.limit ≡ 0
      → q.offset ≡ 0
      → st.find q s ≡ ok es
      → IsAnswer holds (c.rows s) q es
  find-ok q s es l o h = elim (c.find_law q s l o) [
    | inl (es', h', answer) ↦
        let same : es' ≡ es = cc in subst (λ x. IsAnswer holds (c.rows s) q x) same answer
    | inr failed ↦ absurd (cc)
  ]

  module _ (P : String → Option T → Option T → Type 0)
      (stays : (i : String) (o : Option T) → P i o o) where
    Same-steps :
        (before after : Rows T) → Same before after → (j : String) → P j (before j) (after j)
    Same-steps before after h j = rw (h j) (stays j (before j))

    Put-steps :
        (i : String) (e : T) (before after : Rows T)
        → Put i e before after
        → P i (before i) (some e)
        → (j : String) → P j (before j) (after j)
    Put-steps i e before after h p j = elim (Bool-cases (str_eq i j)) [
      | inl same ↦
          let h' : after j ≡ some e = rw same at (h j) in
          rw h' (subst (λ k. P k (before k) (some e)) ((eq_iff i j).0 same) p)
      | inr other ↦ let h' : after j ≡ before j = rw other at (h j) in rw h' (stays j (before j))
    ]

    Gone-steps :
        (i : String) (before after : Rows T)
        → Gone i before after
        → P i (before i) none
        → (j : String) → P j (before j) (after j)
    Gone-steps i before after h p j = elim (Bool-cases (str_eq i j)) [
      | inl same ↦
          let h' : after j ≡ none = rw same at (h j) in
          rw h' (subst (λ k. P k (before k) none) ((eq_iff i j).0 same) p)
      | inr other ↦ let h' : after j ≡ before j = rw other at (h j) in rw h' (stays j (before j))
    ]

    pub update-steps :
        (i : String) (e : T) (s : st.State)
        → P i (c.rows s i) (some e)
        → (j : String) → P j (c.rows s j) (c.rows (st.update i e s).1 j)
    update-steps i e s p j = elim (c.update_law i e s) [
      | inl (there, r, put) ↦ Put-steps i e (c.rows s) (c.rows (st.update i e s).1) put p j
      | inr (inl (absent, r, same)) ↦ Same-steps (c.rows s) (c.rows (st.update i e s).1) same j
      | inr (inr (r, same)) ↦ Same-steps (c.rows s) (c.rows (st.update i e s).1) same j
    ]

    pub create-steps :
        (e : T) (s : st.State)
        → P (key e) (c.rows s (key e)) (some e)
        → (j : String) → P j (c.rows s j) (c.rows (st.create e s).1 j)
    create-steps e s p j = elim (c.create_law e s) [
      | inl (r, put) ↦ Put-steps (key e) e (c.rows s) (c.rows (st.create e s).1) put p j
      | inr (r, same) ↦ Same-steps (c.rows s) (c.rows (st.create e s).1) same j
    ]

    pub delete-steps :
        (i : String) (s : st.State)
        → P i (c.rows s i) none
        → (j : String) → P j (c.rows s j) (c.rows (st.delete i s).1 j)
    delete-steps i s p j = elim (c.delete_law i s) [
      | inl (there, r, gone) ↦ Gone-steps i (c.rows s) (c.rows (st.delete i s).1) gone p j
      | inr (inl (absent, r, same)) ↦ Same-steps (c.rows s) (c.rows (st.delete i s).1) same j
      | inr (inr (r, same)) ↦ Same-steps (c.rows s) (c.rows (st.delete i s).1) same j
    ]

    -- A row is loaded, and the rest of the block knows that it is stored.
    pub load-steps :
        {A : Type 0} (mapped : StoreError → AppError) (i : String)
        (f : T → Exec st.State AppError A) (s : st.State)
        → ((e : T) → c.rows s i ≡ some e → (j : String) → P j (c.rows s j) (c.rows (f e s).1 j))
        → (j : String) → P j (c.rows s j) (c.rows ((reading mapped (st.find_by_id i) >>= f) s).1 j)
    load-steps mapped i f s k j = elim (Result-cases (st.find_by_id i s)) [
      | inl (e, h) ↦ rw h (k e (find_by_id-ok i s e h) j)
      | inr (x, h) ↦ rw h (stays j (c.rows s j))
    ]

-- A database that answers every call.
pub record IsReliable {T : Type 0} (st : Store T) : Type 0 where
  pub find_by_id : (i : String) (s : st.State) → st.find_by_id i s ≢ err failure
  pub find_one : (q : Query) (s : st.State) → st.find_one q s ≢ err failure
  pub find : (q : Query) (s : st.State) → st.find q s ≢ err failure
  pub create : (e : T) (s : st.State) → (st.create e s).0 ≢ err failure
  pub update : (i : String) (e : T) (s : st.State) → (st.update i e s).0 ≢ err failure
  pub delete : (i : String) (s : st.State) → (st.delete i s).0 ≢ err failure

module _ {T : Type 0} {key : T → String} {holds : T → Condition → Bool} {st : Store T}
    (c : Contract key holds st) (up : IsReliable st) where
  pub find_by_id-some :
      (i : String) (s : st.State) (e : T) → c.rows s i ≡ some e → st.find_by_id i s ≡ ok e
  find_by_id-some i s e h = ground (arith, c.find_by_id_law i s, up.find_by_id i s)

  pub update-some :
      (i : String) (e old : T) (s : st.State)
      → c.rows s i ≡ some old
      → ((st.update i e s).0 ≡ ok tt) × (c.rows (st.update i e s).1 i ≡ some e)
  update-some i e old s h = elim (c.update_law i e s) [
    | inl (there, r, put) ↦ (r, put i ∙ (rw eq_refl))
    | inr (inl (absent, r, same)) ↦ absurd (cc)
    | inr (inr (r, same)) ↦ absurd (up.update i e s r)
  ]

  pub find-some :
      (q : Query) (s : st.State)
      → q.limit ≡ 0
      → q.offset ≡ 0
      → (es : List T) × (st.find q s ≡ ok es) × IsAnswer holds (c.rows s) q es
  find-some q s l o = elim (c.find_law q s l o) [
    | inl answer ↦ answer
    | inr failed ↦ absurd (up.find q s failed)
  ]

  pub find_one-hit :
      (q : Query) (s : st.State) (i : String) (e : T)
      → c.rows s i ≡ some e
      → all (holds e) q.conditions ≡ true
      → (j : String) × (e' : T) × (c.rows s j ≡ some e')
        × (all (holds e') q.conditions ≡ true)
        × (st.find_one q s ≡ ok e')
  find_one-hit q s i e there fits = elim (c.find_one_law q s) [
    | inl (hit j e' there' fits' r) ↦ (j, e', there', fits', r)
    | inl (no_hit none_fits r) ↦ absurd (let misfit = none_fits i e there in cc)
    | inr failed ↦ absurd (up.find_one q s failed)
  ]

  pub create-some :
      (e : T) (s : st.State)
      → ((st.create e s).0 ≡ ok tt) × Put (key e) e (c.rows s) (c.rows (st.create e s).1)
  create-some e s = elim (c.create_law e s) [
    | inl made ↦ made
    | inr (r, same) ↦ absurd (up.create e s r)
  ]
