-- ===== src/Reminder/Lifecycle/Batches.antt =====
-- The methods that create rows or work on the rows that a query found.
use smart_assistant_api.Common.{
  ℕ, String, ◌≡◌, refl, sym, inl, inr, true, ◌&&◌, Option, none, some, List, [], ◌∷◌, In, all,
  str_eq, eq_iff, Bool-cases, arith, ap, subst, not, ltb,
}
use smart_assistant_api.Common.Exec.{pure, ◌>>◌}
use smart_assistant_api.Common.Results.{Result-cases}
use smart_assistant_api.Common.Text.{trim_space}
use smart_assistant_api.Response.{AppError}
use smart_assistant_api.Store.Query.{Query}
use smart_assistant_api.Store.Contract.{Store, StoreError, writing, IsAnswer, Contract}
use smart_assistant_api.Store.Contract.Effects.{find-ok, update-steps, create-steps}
use smart_assistant_api.Reminder.{
  Reminder, key, holds, trigger_location, mode_exact, mode_place_keyword,
}
use smart_assistant_api.Reminder.Repository.{message_query, install_query}
use smart_assistant_api.Reminder.Service.{
  CreateInput, create, create_location, delete_match, delete_by_message, as_cancelled,
  new_time_reminder, new_location_reminder, mode_text,
}
use smart_assistant_api.Reminder.Lifecycle.{user, Moves, keeps, starts, cancels}
use smart_assistant_api.Reminder.Lifecycle.Methods.{IsKeyed, AllMove, stays}

module _ {st : Store Reminder} (c : Contract key holds st) (u : String) where
  store-Moves :
      (mapped : StoreError → AppError) (e : Reminder) (s : st.State)
      → Moves (key e) (user u) (c.rows s (key e)) (some e)
      → AllMove c (user u) s ((writing mapped (st.create e) >> pure e) s).1
  store-Moves mapped e s m j =
      let moved = create-steps c (λ i. Moves i (user u)) (stays c (user u)) e s m j in
      elim (Result-cases (st.create e s).0) [ inl (x, h) ↦ rw h moved | inr (x, h) ↦ rw h moved ]

  pub create-Moves :
      (checked : ℕ) (id : String) (now : ℕ) (plugin : Option String) (raw : String) (at : ℕ)
      (s : st.State)
      → c.rows s id ≡ none
      → AllMove c (user u) s (create st checked id now u plugin raw at s).1
  unfolding create
  create-Moves checked id now plugin raw at s fresh j =
      let r = new_time_reminder id now u plugin (trim_space raw) at in
      elim (Bool-cases (str_eq (trim_space raw) "")) [
        | inl empty ↦ rw empty (keeps refl)
        | inr filled ↦ elim (Bool-cases (ltb checked at)) [
          | inl future ↦
              rw (filled, future)
                (store-Moves _ r s (starts r fresh refl refl refl refl refl refl) j)
          | inr past ↦ rw (filled, past) (keeps refl)
        ]
      ]

  pub create_location-Moves :
      (id : String) (now : ℕ) (inp : CreateInput) (s : st.State)
      → c.rows s id ≡ none
      → AllMove c (user u) s (create_location st id now u inp s).1
  unfolding create_location
  create_location-Moves id now inp s fresh j =
      let title = trim_space inp.title in
      let mode = mode_text inp.location_mode in
      let r = new_location_reminder id now u inp title mode in
      let made = store-Moves _ r s (starts r fresh refl refl refl refl refl refl) j in
      elim (Bool-cases (str_eq title "")) [
        | inl a ↦ rw a (keeps refl)
        | inr a ↦ elim (Bool-cases (str_eq (trim_space inp.trigger_type) trigger_location)) [
          | inr b ↦ rw (a, b) (keeps refl)
          | inl b ↦ elim (Bool-cases (ltb inp.radius_meters 1)) [
            | inl d ↦ rw (a, b, d) (keeps refl)
            | inr d ↦ elim (Bool-cases (str_eq mode "")) [
              | inl e ↦ rw (a, b, d, e) (keeps refl)
              | inr e ↦
                  elim (Bool-cases
                    (not (str_eq mode mode_exact) && not (str_eq mode mode_place_keyword))) [
                      | inl f ↦ rw (a, b, d, e, f) (keeps refl)
                      | inr f ↦ rw (a, b, d, e, f) made
                    ]
            ]
          ]
        ]
      ]

  -- The conditions of the caller's queries single out rows of the caller.
  message_query-owned :
      (m : String) (r : Reminder)
      → all (holds r) (message_query u m).conditions ≡ true
      → r.user_id ≡ u
  message_query-owned m r h = ground (arith, eq_iff r.user_id u)

  pub install_query-owned :
      (p : String) (r : Reminder)
      → all (holds r) (install_query u p).conditions ≡ true
      → r.user_id ≡ u
  install_query-owned p r h = ground (arith, eq_iff r.user_id u)

  -- What a loop over found rows knows of each of them.
  abbrev pub AreOwn : st.State → List Reminder → Type 0
  AreOwn s rs = (r : Reminder) → In r rs → (c.rows s r.id ≡ some r) × (r.user_id ≡ u)

  delete_match-Moves :
      (candidate : Reminder → String) (now : ℕ) (rs : List Reminder) (s : st.State)
      → AreOwn s rs
      → AllMove c (user u) s (delete_match st candidate now rs s).1
  unfolding delete_match
  delete_match-Moves candidate now [] s own j = keeps refl
  delete_match-Moves candidate now (r ∷ []) s own j =
      let (there, owned) = own r (inl refl) in
      update-steps c (λ i. Moves i (user u)) (stays c (user u)) r.id (as_cancelled now r) s
        (cancels r now there refl (ap user (sym owned))) j
  delete_match-Moves candidate now (r ∷ r' ∷ rs) s own j = keeps refl

  pub answer-AreOwn :
      (q : Query) (s : st.State) (rs : List Reminder)
      → IsKeyed (c.rows s)
      → ((r : Reminder) → all (holds r) q.conditions ≡ true → r.user_id ≡ u)
      → IsAnswer holds (c.rows s) q rs
      → AreOwn s rs
  answer-AreOwn q s rs keyed owner answer r i =
      let (k, there, fits) = answer.only r i in
      (subst (λ x. c.rows s x ≡ some r) (sym (keyed k r there)) there, owner r fits)

  pub delete_by_message-Moves :
      (candidate : Reminder → String) (now : ℕ) (raw : String) (s : st.State)
      → IsKeyed (c.rows s)
      → AllMove c (user u) s (delete_by_message st candidate now u raw s).1
  unfolding delete_by_message
  delete_by_message-Moves candidate now raw s keyed j =
      let q = message_query u (trim_space raw) in
      elim (Bool-cases (str_eq (trim_space raw) "")) [
        | inl empty ↦ rw empty (keeps refl)
        | inr filled ↦ elim (Result-cases (st.find q s)) [
          | inl (rs, h) ↦
              rw (filled, h)
                (delete_match-Moves candidate now rs s
                  (answer-AreOwn q s rs keyed (message_query-owned (trim_space raw))
                    (find-ok c q s rs refl refl h))
                  j)
          | inr (x, h) ↦ rw (filled, h) (keeps refl)
        ]
      ]
