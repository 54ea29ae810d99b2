-- ===== src/Reminder/Dispatcher/Exactness.antt =====
-- A tick over a database that answers, reminder by reminder.
use smart_assistant_api.Common.{
  ℕ, String, ◌≡◌, refl, sym, ◌∙◌, ◌≢◌, ◌≤◌, inl, inr, true, Option, some, List, [], ◌∷◌, In, all,
  str_eq, eq_iff, Bool-cases, Option-cases, arith, ap, subst,
}
use mathlib.Core.Option.{some-injective}
use smart_assistant_api.Store.Contract.{Store, IsAnswer, Contract}
use smart_assistant_api.Store.Contract.Effects.{
  IsReliable, load-steps, update-steps, find_by_id-some, update-some, find-some,
}
use smart_assistant_api.Reminder.{Reminder, key, holds, pending, notified, trigger_time}
use smart_assistant_api.Reminder.Repository.{due_query}
use smart_assistant_api.Reminder.Service.{mark_notified, as_notified, load_error}
use smart_assistant_api.Reminder.Dispatcher.{dispatch_each, dispatch}
use smart_assistant_api.Reminder.Lifecycle.{
  dispatcher, Moves, keeps, starts, notifies, delivers, cancels, triggers,
}
use smart_assistant_api.Reminder.Lifecycle.Methods.{IsKeyed, mark_notified-Moves}

-- A pending time reminder whose time has come.
pub record IsDue (now : ℕ) (r : Reminder) : Type 0 where
  pub timed : r.trigger_type ≡ trigger_time
  pub waiting : r.status ≡ pending
  pub time : ℕ
  pub at : r.remind_at ≡ some time
  pub come : time ≤ now

IsDue-sound :
    (now : ℕ) (r : Reminder) → all (holds r) (due_query now).conditions ≡ true → IsDue now r
IsDue-sound now r h = elim (Option-cases r.remind_at) [
  | inl unset ↦ absurd (ground arith)
  | inr (t, at) ↦ record {
    timed = ground (arith, eq_iff r.trigger_type trigger_time);
    waiting = ground (arith, eq_iff r.status pending);
    time = t;
    at = at;
    come = ground arith;
  }
]

IsDue-complete :
    (now : ℕ) (r : Reminder) → IsDue now r → all (holds r) (due_query now).conditions ≡ true
IsDue-complete now r d = rw (d.timed, d.waiting, d.at) (ground arith)

-- A row that is not pending stays as it is.
Moves-settled :
    {i : String} {before after : Option Reminder} (r : Reminder)
    → Moves i dispatcher before after
    → before ≡ some r
    → r.status ≢ pending
    → after ≡ some r
Moves-settled r (keeps same) b h = cc
Moves-settled r (starts r' absent e key actor status n d) b h = cc
Moves-settled r (notifies r' now b' e actor status) b h = absurd (h (cc))
Moves-settled r (delivers r' now b' e actor status) b h = cc
Moves-settled r (cancels r' now b' e actor) b h = cc
Moves-settled r (triggers r' now b' e actor) b h = cc

not-pending_of_notified : notified ≢ pending
not-pending_of_notified = ground (arith, eq_iff notified pending)

module _ {st : Store Reminder} (c : Contract key holds st) where
  mark_notified-elsewhere :
      (now : ℕ) (id : String) (s : st.State) (j : String)
      → j ≢ id
      → c.rows (mark_notified st now id s).1 j ≡ c.rows s j
  unfolding mark_notified
  mark_notified-elsewhere now id s j away =
      load-steps c (λ k before after. k ≢ id → after ≡ before) (λ k o h. refl) load_error id _ s
        (λ r there k. elim (Bool-cases (str_eq r.status pending)) [
          | inl yes_pending ↦ rw yes_pending (
              update-steps c (λ k before after. k ≢ id → after ≡ before) (λ k o h. refl) id
                (as_notified now r) s (λ h. absurd (h refl)) k)
          | inr not_pending ↦ rw not_pending (λ h. refl)
        ])
        j away

  mark_notified-settled :
      (now : ℕ) (id : String) (s : st.State) (j : String) (r : Reminder)
      → c.rows s j ≡ some r
      → r.status ≢ pending
      → c.rows (mark_notified st now id s).1 j ≡ some r
  mark_notified-settled now id s j r there h =
      Moves-settled r (mark_notified-Moves c now id s j) there h

  module _ (up : IsReliable st) where
    mark_notified-pending :
        (now : ℕ) (r : Reminder) (id : String) (s : st.State)
        → c.rows s id ≡ some r
        → r.status ≡ pending
        → c.rows (mark_notified st now id s).1 id ≡ some (as_notified now r)
    unfolding mark_notified
    mark_notified-pending now r id s there p =
        let (worked, written) = update-some c up id (as_notified now r) r s there in
        rw (find_by_id-some c up id s r there, p) written

    module _ (clock : Reminder → ℕ) where
      dispatch_each-elsewhere :
          (rs : List Reminder) (s : st.State) (j : String)
          → ((r : Reminder) → In r rs → j ≢ r.id)
          → c.rows (dispatch_each st clock rs s).1 j ≡ c.rows s j
      unfolding dispatch_each
      dispatch_each-elsewhere [] s j away = refl
      dispatch_each-elsewhere (x ∷ rs) s j away =
          dispatch_each-elsewhere rs (mark_notified st (clock x) x.id s).1 j (λ r i. away r (inr i))
          ∙ mark_notified-elsewhere (clock x) x.id s j (away x (inl refl))

      dispatch_each-settled :
          (rs : List Reminder) (s : st.State) (j : String) (r : Reminder)
          → c.rows s j ≡ some r
          → r.status ≢ pending
          → c.rows (dispatch_each st clock rs s).1 j ≡ some r
      unfolding dispatch_each
      dispatch_each-settled [] s j r there h = there
      dispatch_each-settled (x ∷ rs) s j r there h =
          dispatch_each-settled rs (mark_notified st (clock x) x.id s).1 j r
            (mark_notified-settled (clock x) x.id s j r there h) h

      -- Every listed row that is stored and pending comes out notified.
      dispatch_each-listed :
          (rs : List Reminder) (s : st.State) (r : Reminder)
          → ((x : Reminder) → In x rs → x.id ≡ r.id → x ≡ r)
          → c.rows s r.id ≡ some r
          → r.status ≡ pending
          → In r rs
          → c.rows (dispatch_each st clock rs s).1 r.id ≡ some (as_notified (clock r) r)
      unfolding dispatch_each
      dispatch_each-listed [] s r unique there p i = absurd i
      dispatch_each-listed (x ∷ rs) s r unique there p i = elim (Bool-cases (str_eq x.id r.id)) [
        | inl same ↦
            let e : x ≡ r = unique x (inl refl) ((eq_iff x.id r.id).0 same) in
            rw e (
              dispatch_each-settled rs (mark_notified st (clock r) r.id s).1 r.id
                (as_notified (clock r) r) (mark_notified-pending (clock r) r r.id s there p)
                not-pending_of_notified)
        | inr other ↦
            let away : r.id ≢ x.id = ground (arith, eq_iff x.id r.id) in
            dispatch_each-listed rs (mark_notified st (clock x) x.id s).1 r
              (λ y k. unique y (inr k)) (mark_notified-elsewhere (clock x) x.id s r.id away ∙ there)
              p (elim i [ inl e ↦ absurd (away (ap (λ y. y.id) (sym e))) | inr k ↦ k ])
      ]

      module _ (now : ℕ) (s : st.State) (keyed : IsKeyed (c.rows s)) where
        -- Over a database that answers, a tick succeeds.
        dispatch_found :
            (es : List Reminder) × IsAnswer holds (c.rows s) (due_query now) es
            × ((dispatch st clock now s) ≡ dispatch_each st clock es s)
        unfolding dispatch
        dispatch_found =
            let (es, found, answer) = find-some c up (due_query now) s refl refl in
            (es, answer, rw found)

        -- Over a store that keeps the contract and does not fail, a tick of the dispatcher notifies
        -- every pending time reminder whose time has come, with the clock of its marking.
        pub dispatch-due :
            (j : String) (r : Reminder)
            → c.rows s j ≡ some r
            → IsDue now r
            → c.rows (dispatch st clock now s).1 j ≡ some (as_notified (clock r) r)
        dispatch-due j r there due =
            let (es, answer, same) = dispatch_found in
            let id : r.id ≡ j = keyed j r there in
            let at_id : c.rows s r.id ≡ some r = subst (λ k. c.rows s k ≡ some r) (sym id) there in
            rw same (
              subst (λ k. c.rows (dispatch_each st clock es s).1 k ≡ some (as_notified (clock r) r))
                id
                (dispatch_each-listed es s r
                  (λ x i e.
                    let (k, stored, fits) = answer.only x i in
                    some-injective _ _
                      (sym stored ∙ ap (c.rows s) (sym (keyed k x stored) ∙ e) ∙ at_id))
                  at_id due.waiting (answer.every j r there (IsDue-complete now r due))))

        -- Over a store that keeps the contract and does not fail, a tick changes no row other than
        -- those of pending time reminders whose time has come.
        pub dispatch-rest :
            (j : String)
            → ((r : Reminder) → c.rows s j ≡ some r → ¬ IsDue now r)
            → c.rows (dispatch st clock now s).1 j ≡ c.rows s j
        dispatch-rest j rest =
            let (es, answer, same) = dispatch_found in
            rw same (
              dispatch_each-elsewhere es s j λ r i e.
                let (k, stored, fits) = answer.only r i in
                rest r (subst (λ y. c.rows s y ≡ some r) (sym (keyed k r stored) ∙ sym e) stored)
                  (IsDue-sound now r fits))
