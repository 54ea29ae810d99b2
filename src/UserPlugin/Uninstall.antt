-- ===== src/UserPlugin/Uninstall.antt =====
-- What a successful uninstall has cleaned up.
use smart_assistant_api.Common.{
  String, ◌≡◌, refl, ap, true, false, some, str_eq, eq_iff, Bool-cases, inl, inr, ◌≢◌,
}
use smart_assistant_api.Common.Exec.{ok}
use smart_assistant_api.Common.Results.{Result-cases}
use smart_assistant_api.Store.Contract.{Store, Contract, Gone}
use smart_assistant_api.Store.Contract.Effects.{find_by_id-ok}
use smart_assistant_api.Plugin.{Plugin}
use smart_assistant_api.UserPlugin.{UserPlugin, key, holds}
use smart_assistant_api.UserPlugin.Service.{Backend, World, uninstall}

-- The install was the user's and is gone, its credentials were deleted, and its reminders were
-- cancelled if it was the reminder plugin and left alone otherwise.
pub record IsUninstalled {b : Backend} (c : Contract key holds b.installs) (u id : String)
    (w w' : World b) : Type 0 where
  pub row : UserPlugin
  pub there : c.rows w.installs id ≡ some row
  pub mine : row.user_id ≡ u
  pub gone : Gone id (c.rows w.installs) (c.rows w'.installs)
  pub cleaned : b.delete_for_user_plugin u row.plugin_id w.credentials ≡ (ok tt, w'.credentials)
  pub entry : Plugin
  pub listed : b.catalog.find_by_id row.plugin_id w.catalog ≡ ok entry
  pub cancelled :
      entry.slug ≡ "reminder"
      → b.cancel_all_for_user_plugin u row.id w.reminders ≡ (ok tt, w'.reminders)
  pub untouched : entry.slug ≢ "reminder" → w'.reminders ≡ w.reminders

-- The delete at the end was of a stored row.
deleted :
    {st : Store UserPlugin} (c : Contract key holds st) (id : String) (s : st.State)
    → (st.delete id s).0 ≡ ok tt
    → Gone id (c.rows s) (c.rows (st.delete id s).1)
deleted c id s r = elim (c.delete_law id s) [
  | inl (there, r', gone) ↦ gone
  | inr (inl (absent, r', same)) ↦ absurd (cc)
  | inr (inr (r', same)) ↦ absurd (cc)
]

module _ {b : Backend} (c : Contract key holds b.installs) (u id : String) where
  module _ (w : World b) (x : UserPlugin) (h : b.installs.find_by_id id w.installs ≡ ok x)
      (mine : str_eq x.user_id u ≡ true)
      (h1 : (b.delete_for_user_plugin u x.plugin_id w.credentials).0 ≡ ok tt) (p : Plugin)
      (h2 : b.catalog.find_by_id x.plugin_id w.catalog ≡ ok p) where
    uninstall-reminder :
        str_eq p.slug "reminder" ≡ true
        → (b.cancel_all_for_user_plugin u x.id w.reminders).0 ≡ ok tt
        → (uninstall b u id w).0 ≡ ok tt
        → IsUninstalled c u id w (uninstall b u id w).1
    unfolding uninstall
    uninstall-reminder slug h3 done = elim (Result-cases (b.installs.delete id w.installs).0) [
      | inl (t, r) ↦
          rw (h, mine, h1, h2, slug, h3)
            (record {
              row = x;
              there = find_by_id-ok c id w.installs x h;
              mine = (eq_iff x.user_id u).0 mine;
              gone = deleted c id w.installs r;
              cleaned = ap (λ y. (y, (b.delete_for_user_plugin u x.plugin_id w.credentials).1)) h1;
              entry = p;
              listed = h2;
              cancelled =
                  λ e. ap (λ y. (y, (b.cancel_all_for_user_plugin u x.id w.reminders).1)) h3;
              untouched = λ n. absurd (n ((eq_iff p.slug "reminder").0 slug));
            })
      | inr (e, r) ↦ absurd (let d = rw (h, mine, h1, h2, slug, h3, r) at done in cc)
    ]

    uninstall-other :
        str_eq p.slug "reminder" ≡ false
        → (uninstall b u id w).0 ≡ ok tt
        → IsUninstalled c u id w (uninstall b u id w).1
    unfolding uninstall
    uninstall-other slug done = elim (Result-cases (b.installs.delete id w.installs).0) [
      | inl (t, r) ↦
          rw (h, mine, h1, h2, slug)
            (record {
              row = x;
              there = find_by_id-ok c id w.installs x h;
              mine = (eq_iff x.user_id u).0 mine;
              gone = deleted c id w.installs r;
              cleaned = ap (λ y. (y, (b.delete_for_user_plugin u x.plugin_id w.credentials).1)) h1;
              entry = p;
              listed = h2;
              cancelled = λ e. absurd (let s = rw e at slug in cc);
              untouched = λ n. refl;
            })
      | inr (e, r) ↦ absurd (let d = rw (h, mine, h1, h2, slug, r) at done in cc)
    ]

  -- When Uninstall succeeds, the install was the user's and is gone, the cleaner of credentials ran
  -- and succeeded, and so did the cleaner of reminders if the plugin is the reminder plugin, which
  -- did not run otherwise.
  pub uninstall-IsUninstalled :
      (w : World b) → (uninstall b u id w).0 ≡ ok tt → IsUninstalled c u id w (uninstall b u id w).1
  unfolding uninstall
  uninstall-IsUninstalled w done = elim (Result-cases (b.installs.find_by_id id w.installs)) [
    | inl (x, h) ↦ elim (Bool-cases (str_eq x.user_id u)) [
      | inl mine ↦ elim (Result-cases (b.delete_for_user_plugin u x.plugin_id w.credentials).0) [
        | inl (t, h1) ↦ elim (Result-cases (b.catalog.find_by_id x.plugin_id w.catalog)) [
          | inl (p, h2) ↦ elim (Bool-cases (str_eq p.slug "reminder")) [
            | inl slug ↦ elim (Result-cases (b.cancel_all_for_user_plugin u x.id w.reminders).0) [
              | inl (t, h3) ↦ uninstall-reminder w x h mine h1 p h2 slug h3 done
              | inr (e, h3) ↦ absurd (let d = rw (h, mine, h1, h2, slug, h3) at done in cc)
            ]
            | inr slug ↦ uninstall-other w x h mine h1 p h2 slug done
          ]
          | inr (e, h2) ↦ absurd (let d = rw (h, mine, h1, h2) at done in cc)
        ]
        | inr (e, h1) ↦ absurd (let d = rw (h, mine, h1) at done in cc)
      ]
      | inr foreign ↦ absurd (let d = rw (h, foreign) at done in cc)
    ]
    | inr (e, h) ↦ absurd (let d = rw h at done in cc)
  ]
