-- ===== src/AssistantSettings/Freshness.antt =====
-- Reading the settings after they were changed.
use smart_assistant_api.Common.{
  ℕ, String, ◌≡◌, refl, ◌∙◌, ap, some, inl, inr, ltb, str_eq, Bool-cases, sym, eq_refl,
}
use smart_assistant_api.Common.Text.{trim_space, rune_count}
use smart_assistant_api.Common.Exec.{ok}
use smart_assistant_api.Common.Results.{Result-cases}
use smart_assistant_api.Store.Contract.{Store, Contract}
use smart_assistant_api.Store.Contract.Effects.{IsReliable, find_by_id-some}
use smart_assistant_api.AssistantSettings.{
  Settings, UpdateInput, key, holds, changed, chosen_threshold, get_or_create, update_checked,
  update,
}

module _ {st : Store Settings} (c : Contract key holds st) (up : IsReliable st) where
  get_or_create-stored :
      (now : ℕ) (u : String) (s : st.State) (x : Settings)
      → c.rows s u ≡ some x
      → (get_or_create st now u s).0 ≡ ok x
  unfolding get_or_create
  get_or_create-stored now u s x there = rw (find_by_id-some c up u s x there, get_or_create) refl

  update_checked-fresh :
      (read_at now later : ℕ) (u wake_word : String) (given : UpdateInput) (s : st.State)
      (x : Settings)
      → (update_checked st read_at now u wake_word given s).0 ≡ ok x
      → (x.wake_word ≡ wake_word)
        × (x.active_listening_enabled ≡ given.active_listening_enabled)
        × ((get_or_create st later u (update_checked st read_at now u wake_word given s).1).0
            ≡ ok x)
  unfolding update_checked
  update_checked-fresh read_at now later u wake_word given s x h =
      let s' = (get_or_create st read_at u s).1 in
      elim (Result-cases (get_or_create st read_at u s).0) [
        | inr (e, r) ↦ absurd (let d = rw (update_checked, r) at h in cc)
        | inl (y, r) ↦
            elim (Result-cases (
              chosen_threshold given.location_reminder_threshold_meters
                y.location_reminder_threshold_meters)) [
                  | inr (e, r') ↦ absurd (let d = rw (update_checked, r, r') at h in cc)
                  | inl (m, r') ↦
                      let x' = changed now wake_word given m y in
                      elim (c.update_law u x' s') [
                        | inr (inl (absent, w, same)) ↦
                            absurd (let d = rw (update_checked, r, r', w) at h in cc)
                        | inr (inr (w, same)) ↦
                            absurd (let d = rw (update_checked, r, r', w) at h in cc)
                        | inl (there, w, put) ↦
                            let same : x' ≡ x =
                              (let d = rw (update_checked, r, r', w) at h in cc) in
                            let stored : c.rows (st.update u x' s').1 u ≡ some x' =
                              put u ∙ (rw eq_refl) in
                            let seen =
                              get_or_create-stored later u (st.update u x' s').1 x' stored in
                            rw (update_checked, r, r', w)
                              (
                                sym (ap (λ z. z.wake_word) same),
                                sym (ap (λ z. z.active_listening_enabled) same),
                                seen ∙ ap ok same,
                              )
                      ]
                ]
      ]

  -- Over a database that answers, when Update succeeds, it returns the wake word that was asked
  -- for, trimmed, and the asked state of active listening, and GetOrCreate returns the same
  -- settings afterwards.
  pub get_or_create-update :
      (read_at now later : ℕ) (u : String) (given : UpdateInput) (s : st.State) (x : Settings)
      → (update st read_at now u given s).0 ≡ ok x
      → (x.wake_word ≡ trim_space given.wake_word)
        × (x.active_listening_enabled ≡ given.active_listening_enabled)
        × ((get_or_create st later u (update st read_at now u given s).1).0 ≡ ok x)
  unfolding update
  get_or_create-update read_at now later u given s x h =
      let wake_word = trim_space given.wake_word in
      elim (Bool-cases (str_eq wake_word "")) [
        | inl empty ↦ absurd (let d = rw (update, empty) at h in cc)
        | inr full ↦ elim (Bool-cases (ltb 32 (rune_count wake_word))) [
          | inl long ↦ absurd (let d = rw (update, full, long) at h in cc)
          | inr short ↦
              rw (update, full, short)
                (update_checked-fresh read_at now later u wake_word given s x
                  (rw (update, full, short) at h))
        ]
      ]
