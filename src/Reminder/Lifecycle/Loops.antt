-- ===== src/Reminder/Lifecycle/Loops.antt =====
-- The methods that loop over the rows that a query found, writing one after the other.
use smart_assistant_api.Common.{
  ℕ, String, ◌≡◌, refl, sym, ◌⊎◌, inl, inr, Option, some, List, [], ◌∷◌, In, ap, ◌∙◌,
}
use mathlib.Core.Option.{some-injective}
use smart_assistant_api.Common.Results.{Result-cases}
use smart_assistant_api.Store.Contract.{Store, Contract}
use smart_assistant_api.Store.Contract.Effects.{find-ok, update-steps}
use smart_assistant_api.Reminder.{Reminder, key, holds}
use smart_assistant_api.Reminder.Repository.{cancel_each, due_query, install_query}
use smart_assistant_api.Reminder.Service.{mark_notified, cancel_all_for_user_plugin, as_cancelled}
use smart_assistant_api.Reminder.Dispatcher.{dispatch_each, dispatch}
use smart_assistant_api.Reminder.Lifecycle.{
  Actor, user, dispatcher, Moves, keeps, cancels, Moved, done, step,
}
use smart_assistant_api.Reminder.Lifecycle.Methods.{IsKeyed, AllMove, stays, mark_notified-Moves}
use smart_assistant_api.Reminder.Lifecycle.Batches.{answer-AreOwn, install_query-owned}

module _ {st : Store Reminder} (c : Contract key holds st) (u : String) where
  -- Cancelling found rows one by one: a row that stands twice in the list is written once more.
  abbrev Remain : ℕ → (String → Option Reminder) → st.State → List Reminder → Type 0
  Remain now orig s rs =
      (r : Reminder)
      → In r rs
      → (orig r.id ≡ some r)
        × (r.user_id ≡ u)
        × ((c.rows s r.id ≡ some r) ⊎ (c.rows s r.id ≡ some (as_cancelled now r)))

  cancel_one-Moves :
      (now : ℕ) (r : Reminder) (s : st.State)
      → r.user_id ≡ u
      → (c.rows s r.id ≡ some r) ⊎ (c.rows s r.id ≡ some (as_cancelled now r))
      → AllMove c (user u) s (st.update r.id (as_cancelled now r) s).1
  cancel_one-Moves now r s owned was j =
      update-steps c (λ i. Moves i (user u)) (stays c (user u)) r.id (as_cancelled now r) s
        (elim was [
          | inl live ↦ cancels r now live refl (ap user (sym owned))
          | inr dead ↦ keeps (sym dead)
        ])
        j

  -- After one round, what remains is as it was, or is the row that was just cancelled.
  cancel_one-Remain :
      (now : ℕ) (orig : String → Option Reminder) (r : Reminder) (rs : List Reminder) (s : st.State)
      → Remain now orig s (r ∷ rs)
      → Remain now orig (st.update r.id (as_cancelled now r) s).1 rs
  cancel_one-Remain now orig r rs s left x i =
      let (mine, owned, was) = left r (inl refl) in
      let (theirs, owned', was') = left x (inr i) in
      (
        theirs,
        owned',
        update-steps c
            (λ k before after.
              x.id ≡ k
              → ((before ≡ some x) ⊎ (before ≡ some (as_cancelled now x)))
              → ((after ≡ some x) ⊎ (after ≡ some (as_cancelled now x))))
            (λ k o e p. p) r.id (as_cancelled now r) s
            (λ e p.
              let same : r ≡ x = some-injective _ _ (sym mine ∙ ap orig (sym e) ∙ theirs) in
              inr (ap (λ y. some (as_cancelled now y)) same))
            x.id refl was',
      )

  abbrev AllMoved : Actor → st.State → st.State → Type 0
  AllMoved who s s' = (j : String) → Moved j who (c.rows s j) (c.rows s' j)

  cancel_each-Moved :
      (now : ℕ) (orig : String → Option Reminder) (rs : List Reminder) (s : st.State)
      → Remain now orig s rs
      → AllMoved (user u) s (cancel_each st now rs s).1
  unfolding cancel_each
  cancel_each-Moved now orig [] s left j = done
  cancel_each-Moved now orig (r ∷ rs) s left j =
      let (mine, owned, was) = left r (inl refl) in
      let one = cancel_one-Moves now r s owned was j in
      let rest =
        cancel_each-Moved now orig rs (st.update r.id (as_cancelled now r) s).1
          (cancel_one-Remain now orig r rs s left) j in
      elim (Result-cases (st.update r.id (as_cancelled now r) s).0) [
        | inl (x, h) ↦ rw h (step one rest)
        | inr (x, h) ↦ rw h (step one done)
      ]

  pub cancel_all-Moved :
      (now : ℕ) (plugin : String) (s : st.State)
      → IsKeyed (c.rows s)
      → AllMoved (user u) s (cancel_all_for_user_plugin st now u plugin s).1
  unfolding cancel_all_for_user_plugin
  cancel_all-Moved now plugin s keyed j = elim (Result-cases (st.find (install_query u plugin) s)) [
    | inl (rs, h) ↦
        let own =
          answer-AreOwn c u (install_query u plugin) s rs keyed (install_query-owned c u plugin)
            (find-ok c (install_query u plugin) s rs refl refl h) in
        rw h (
          cancel_each-Moved now (c.rows s) rs s
            (λ r i. let (there, owned) = own r i in (there, owned, inl there)) j)
    | inr (x, h) ↦ rw h done
  ]

module _ {st : Store Reminder} (c : Contract key holds st) (clock : Reminder → ℕ) where
  dispatch_each-Moved :
      (rs : List Reminder) (s : st.State) (j : String)
      → Moved j dispatcher (c.rows s j) (c.rows (dispatch_each st clock rs s).1 j)
  unfolding dispatch_each
  dispatch_each-Moved [] s j = done
  dispatch_each-Moved (r ∷ rs) s j =
      step (mark_notified-Moves c (clock r) r.id s j)
        (dispatch_each-Moved rs (mark_notified st (clock r) r.id s).1 j)

  pub dispatch-Moved :
      (now : ℕ) (s : st.State) (j : String)
      → Moved j dispatcher (c.rows s j) (c.rows (dispatch st clock now s).1 j)
  unfolding dispatch
  dispatch-Moved now s j = elim (Result-cases (st.find (due_query now) s)) [
    | inl (rs, h) ↦ rw h (dispatch_each-Moved rs s j)
    | inr (x, h) ↦ rw h done
  ]
