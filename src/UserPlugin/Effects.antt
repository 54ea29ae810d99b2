-- ===== src/UserPlugin/Effects.antt =====
-- What the methods do to the table of installs, row by row.
use smart_assistant_api.Common.{
  ℕ, String, ◌≡◌, refl, Bool, Option, none, some, str_eq, eq_iff, Bool-cases, inl, inr,
}
use smart_assistant_api.Common.Exec.{Exec, ◌>>=◌}
use smart_assistant_api.Common.Results.{Result-cases}
use smart_assistant_api.Response.{AppError}
use smart_assistant_api.Store.Contract.{Contract}
use smart_assistant_api.Store.Contract.Effects.{find_by_id-ok, update-steps, delete-steps}
use smart_assistant_api.UserPlugin.{UserPlugin, key, holds}
use smart_assistant_api.UserPlugin.Service.{Backend, World, uninstall, set_enabled, owned_install}

-- A row stays, or a row of the user goes or is switched on or off.
pub data Change (u : String) (before after : Option UserPlugin) : Type 0 where
  keeps : after ≡ before → Change u before after
  drops : (x : UserPlugin) → before ≡ some x → x.user_id ≡ u → after ≡ none → Change u before after
  switches :
      (x : UserPlugin) (flag : Bool) (now : ℕ)
      → before ≡ some x
      → x.user_id ≡ u
      → after ≡ some (record x { enabled = flag; updated_at = now })
      → Change u before after

stays : (u : String) (i : String) (o : Option UserPlugin) → Change u o o
stays u i o = keeps refl

module _ {b : Backend} (c : Contract key holds b.installs) (u : String) where
  abbrev pub AllChange : World b → World b → Type 0
  AllChange w w' = (j : String) → Change u (c.rows w.installs j) (c.rows w'.installs j)

  -- The rest of a method runs on a stored row of the user.
  owned-AllChange :
      {A : Type 0} (id : String) (f : UserPlugin → Exec (World b) AppError A) (w : World b)
      → ((x : UserPlugin) → c.rows w.installs id ≡ some x → x.user_id ≡ u → AllChange w (f x w).1)
      → AllChange w ((owned_install b u id >>= f) w).1
  owned-AllChange id f w k j = elim (Result-cases (b.installs.find_by_id id w.installs)) [
    | inl (x, h) ↦ elim (Bool-cases (str_eq x.user_id u)) [
      | inl mine ↦
          rw (h, mine) (k x (find_by_id-ok c id w.installs x h) ((eq_iff x.user_id u).0 mine) j)
      | inr foreign ↦ rw (h, foreign) (keeps refl)
    ]
    | inr (e, h) ↦ rw h (keeps refl)
  ]

  dropped :
      (id : String) (w : World b) (x : UserPlugin)
      → c.rows w.installs id ≡ some x
      → x.user_id ≡ u
      → (j : String) → Change u (c.rows w.installs j) (c.rows (b.installs.delete id w.installs).1 j)
  dropped id w x there mine j =
      delete-steps c (λ i. Change u) (stays u) id w.installs (drops x there mine refl) j

  pub set_enabled-AllChange :
      (now : ℕ) (id : String) (flag : Bool) (w : World b)
      → AllChange w (set_enabled b now u id flag w).1
  unfolding set_enabled
  set_enabled-AllChange now id flag w = owned-AllChange id _ w λ x there mine j.
      elim (Result-cases (b.catalog.find_by_id x.plugin_id w.catalog)) [
        | inl (p, h) ↦
            let x' : UserPlugin = record x { enabled = flag; updated_at = now } in
            let moved =
              update-steps c (λ i. Change u) (stays u) id x' w.installs
                (switches x flag now there mine refl) j in
            elim (Result-cases (b.installs.update id x' w.installs).0) [
              | inl (t, h') ↦ rw (h, h') moved
              | inr (e, h') ↦ rw (h, h') moved
            ]
        | inr (e, h) ↦ rw h (keeps refl)
      ]

  pub uninstall-AllChange : (id : String) (w : World b) → AllChange w (uninstall b u id w).1
  unfolding uninstall
  uninstall-AllChange id w = owned-AllChange id _ w λ x there mine j.
      elim (Result-cases (b.delete_for_user_plugin u x.plugin_id w.credentials).0) [
        | inl (t, h) ↦ elim (Result-cases (b.catalog.find_by_id x.plugin_id w.catalog)) [
          | inl (p, h') ↦ elim (Bool-cases (str_eq p.slug "reminder")) [
            | inl reminders ↦
                elim (Result-cases (b.cancel_all_for_user_plugin u x.id w.reminders).0) [
                  | inl (t', h2) ↦ rw (h, h', reminders, h2) (dropped id w x there mine j)
                  | inr (e, h2) ↦ rw (h, h', reminders, h2) (keeps refl)
                ]
            | inr other ↦ rw (h, h', other) (dropped id w x there mine j)
          ]
          | inr (e, h') ↦ rw (h, h') (keeps refl)
        ]
        | inr (e, h) ↦ rw h (keeps refl)
      ]
