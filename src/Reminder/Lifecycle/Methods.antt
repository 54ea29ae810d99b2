-- ===== src/Reminder/Lifecycle/Methods.antt =====
-- Each method of the service, row by row, as moves of the state machine.
use smart_assistant_api.Common.{
  ℕ, String, ◌≡◌, refl, sym, inl, inr, Option, some, str_eq, eq_iff, Bool-cases, ap,
}
use smart_assistant_api.Common.Exec.{Exec, pure, ◌>>=◌, ◌>>◌}
use smart_assistant_api.Common.Results.{Result-cases}
use smart_assistant_api.Response.{AppError}
use smart_assistant_api.Store.Contract.{writing, StoreError, Store, Contract}
use smart_assistant_api.Store.Contract.Effects.{find_by_id-ok, update-steps, load-steps}
use smart_assistant_api.Reminder.{Reminder, key, holds, pending, notified, triggered, cancelled}
use smart_assistant_api.Reminder.Service.{
  get_by_id, mark_notified, mark_delivered, cancel, mark_triggered, as_notified, as_delivered,
  as_cancelled, as_triggered, load_error,
}
use smart_assistant_api.Reminder.Lifecycle.{
  Actor, user, dispatcher, Moves, keeps, notifies, delivers, cancels, triggers,
}

-- What every table satisfies: a row stands under its own id.
abbrev pub IsKeyed : (String → Option Reminder) → Type 0
IsKeyed rows = (i : String) (r : Reminder) → rows i ≡ some r → r.id ≡ i

module _ {st : Store Reminder} (c : Contract key holds st) (who : Actor) where
  pub stays : (i : String) (o : Option Reminder) → Moves i who o o
  stays i o = keeps refl

  -- every row moves as `who` may move it
  abbrev pub AllMove : st.State → st.State → Type 0
  AllMove s s' = (j : String) → Moves j who (c.rows s j) (c.rows s' j)

module _ {st : Store Reminder} (c : Contract key holds st) where
  pub mark_notified-Moves :
      (now : ℕ) (id : String) (s : st.State) → AllMove c dispatcher s (mark_notified st now id s).1
  unfolding mark_notified
  mark_notified-Moves now id s =
      load-steps c (λ i. Moves i dispatcher) (stays c dispatcher) load_error id _ s
        λ r there j. elim (Bool-cases (str_eq r.status pending)) [
          | inl yes_pending ↦ rw yes_pending (
              update-steps c (λ i. Moves i dispatcher) (stays c dispatcher) id (as_notified now r) s
                (notifies r now there refl refl ((eq_iff r.status pending).0 yes_pending)) j)
          | inr not_pending ↦ rw not_pending (keeps refl)
        ]

  module _ (u : String) where
    pub mark_delivered-Moves :
        (now : ℕ) (id : String) (s : st.State)
        → AllMove c (user u) s (mark_delivered st now u id s).1
    unfolding mark_delivered
    mark_delivered-Moves now id s =
        load-steps c (λ i. Moves i (user u)) (stays c (user u)) load_error id _ s
          λ r there j. elim (Bool-cases (str_eq r.user_id u)) [
            | inl owned ↦ elim (Bool-cases (str_eq r.status notified)) [
              | inl sent ↦
                  rw (owned, sent)
                    (update-steps c (λ i. Moves i (user u)) (stays c (user u)) id
                      (as_delivered now r) s
                      (delivers r now there refl (ap user (sym ((eq_iff r.user_id u).0 owned)))
                        ((eq_iff r.status notified).0 sent))
                      j)
              | inr unsent ↦ rw (owned, unsent) (keeps refl)
            ]
            | inr foreign ↦ rw foreign (keeps refl)
          ]

    -- GetByID hands on a stored row of the caller.
    get_by_id-Moves :
        {A : Type 0} (id : String) (f : Reminder → Exec st.State AppError A) (s : st.State)
        → ((r : Reminder) → c.rows s id ≡ some r → r.user_id ≡ u → AllMove c (user u) s (f r s).1)
        → AllMove c (user u) s ((get_by_id st u id >>= f) s).1
    unfolding get_by_id
    get_by_id-Moves id f s k j = elim (Result-cases (st.find_by_id id s)) [
      | inl (r, h) ↦ elim (Bool-cases (str_eq r.user_id u)) [
        | inl owned ↦
            rw (h, owned) (k r (find_by_id-ok c id s r h) ((eq_iff r.user_id u).0 owned) j)
        | inr foreign ↦ rw (h, foreign) (keeps refl)
      ]
      | inr (x, h) ↦ rw h (keeps refl)
    ]

    -- A row of the caller is written, and handed back if that worked.
    write-Moves :
        (mapped : StoreError → AppError) (id : String) (e : Reminder) (s : st.State)
        → Moves id (user u) (c.rows s id) (some e)
        → AllMove c (user u) s ((writing mapped (st.update id e) >> pure e) s).1
    write-Moves mapped id e s m j =
        let moved = update-steps c (λ i. Moves i (user u)) (stays c (user u)) id e s m j in
        elim (Result-cases (st.update id e s).0) [
          | inl (x, h) ↦ rw h moved
          | inr (x, h) ↦ rw h moved
        ]

    pub cancel-Moves :
        (now : ℕ) (id : String) (s : st.State) → AllMove c (user u) s (cancel st now u id s).1
    unfolding cancel
    cancel-Moves now id s = get_by_id-Moves id _ s λ r there owned j.
        elim (Bool-cases (str_eq r.status cancelled)) [
          | inl already ↦ rw already (keeps refl)
          | inr live ↦ rw live (
              write-Moves _ id (as_cancelled now r) s
                (cancels r now there refl (ap user (sym owned))) j)
        ]

    pub mark_triggered-Moves :
        (now : ℕ) (id : String) (s : st.State)
        → AllMove c (user u) s (mark_triggered st now u id s).1
    unfolding mark_triggered
    mark_triggered-Moves now id s = get_by_id-Moves id _ s λ r there owned j.
        elim (Bool-cases (str_eq r.status triggered)) [
          | inl already ↦ rw already (keeps refl)
          | inr live ↦ rw live (
              write-Moves _ id (as_triggered now r) s
                (triggers r now there refl (ap user (sym owned))) j)
        ]
