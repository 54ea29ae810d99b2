-- ===== src/UserPlugin/Install.antt =====
-- A second install of the same plugin, against the first.
use smart_assistant_api.Common.{
  ℕ, String, ◌≡◌, refl, sym, ◌∙◌, ap, true, false, some, all, str_eq, eq_refl, Bool-cases, inl, inr,
}
use mathlib.Core.Option.{some-injective}
use smart_assistant_api.Common.Exec.{ok, err}
use smart_assistant_api.Common.Results.{Result-cases}
use smart_assistant_api.Common.Text.{trim_space, to_lower}
use smart_assistant_api.Store.Contract.{Contract, Rows, Put, hit, no_hit, missing, StoreError}
use smart_assistant_api.Store.Contract.Effects.{IsReliable, find_one-hit, create-some}
use smart_assistant_api.Plugin.{Plugin, find_by_slug}
use smart_assistant_api.UserPlugin.{UserPlugin, key, holds, pair_query}
use smart_assistant_api.UserPlugin.Service.{
  Backend, World, install, install_plugin, new_install, to_installed_response, plugin_error,
}
use smart_assistant_api.UserPlugin.Unique.{pair_fits}

only_row :
    (e e' : UserPlugin) (j : String) (before after : Rows UserPlugin)
    → Put e.id e before after
    → ((k : String) (y : UserPlugin)
        → before k ≡ some y
        → all (holds y) (pair_query e.user_id e.plugin_id).conditions ≡ false)
    → after j ≡ some e'
    → all (holds e') (pair_query e.user_id e.plugin_id).conditions ≡ true
    → e' ≡ e
only_row e e' j before after put alone there fits = elim (Bool-cases (str_eq e.id j)) [
  | inl same ↦ some-injective _ _ (sym there ∙ (rw same at (put j)))
  | inr other ↦
      let old : before j ≡ some e' = sym (rw other at (put j)) ∙ there in
      let misfit = alone j e' old in absurd (cc)
]

module _ (b : Backend) (id : String) (now : ℕ) (u : String) (p : Plugin) (w : World b) where
  install_plugin-found :
      (x : UserPlugin)
      → b.installs.find_one (pair_query u p.id) w.installs ≡ ok x
      → install_plugin b id now u p w ≡ (ok (to_installed_response x p), w)
  unfolding install_plugin
  install_plugin-found x r = rw (r, install_plugin) refl

  install_plugin-new :
      b.installs.find_one (pair_query u p.id) w.installs ≡ err missing
      → (b.installs.create (new_install id now u p) w.installs).0 ≡ ok tt
      → install_plugin b id now u p w ≡ (
        ok (to_installed_response (new_install id now u p) p),
        record w { installs = (b.installs.create (new_install id now u p) w.installs).1 },
      )
  unfolding install_plugin
  install_plugin-new r made = rw (r, install_plugin, made) refl

module _ (b : Backend) (id : String) (now : ℕ) (u slug : String) (w : World b)
    (named : str_eq (to_lower (trim_space slug)) "" ≡ false) where
  install-listed :
      (p : Plugin)
      → find_by_slug b.catalog (to_lower (trim_space slug)) w.catalog ≡ ok p
      → install b id now u slug w ≡ install_plugin b id now u p w
  unfolding install
  install-listed p r = rw (named, r, install) refl

  install-unlisted :
      (e : StoreError)
      → find_by_slug b.catalog (to_lower (trim_space slug)) w.catalog ≡ err e
      → install b id now u slug w ≡ (err (plugin_error e), w)
  unfolding install
  install-unlisted e r = rw (named, r, install) refl

module _ {b : Backend} (c : Contract key holds b.installs) (up : IsReliable b.installs) where
  install_plugin-twice :
      (id id' : String) (now now' : ℕ) (u : String) (p : Plugin) (w : World b)
      → install_plugin b id' now' u p (install_plugin b id now u p w).1
        ≡ install_plugin b id now u p w
  install_plugin-twice id id' now now' u p w =
      let e = new_install id now u p in
      elim (c.find_one_law (pair_query u p.id) w.installs) [
        | inl (hit i x there fits r) ↦
            let first = install_plugin-found b id now u p w x r in
            ap (λ r. install_plugin b id' now' u p r.1) first
            ∙ install_plugin-found b id' now' u p w x r
            ∙ sym first
        | inl (no_hit alone r) ↦
            let (made, put) = create-some c up e w.installs in
            let w' : World b = record w { installs = (b.installs.create e w.installs).1 } in
            let fresh : c.rows w'.installs id ≡ some e = put id ∙ (rw eq_refl) in
            let (j, e', there', fits', r') =
              find_one-hit c up (pair_query u p.id) w'.installs id e fresh
                (pair_fits u p.id e refl refl) in
            let same = only_row e e' j _ _ put alone there' fits' in
            let first = install_plugin-new b id now u p w r made in
            ap (λ r. install_plugin b id' now' u p r.1) first
            ∙ install_plugin-found b id' now' u p w' e (r' ∙ ap ok same)
            ∙ sym first
        | inr r ↦ absurd (up.find_one _ _ r)
      ]

  install-unnamed :
      (id id' : String) (now now' : ℕ) (u slug : String) (w : World b)
      → str_eq (to_lower (trim_space slug)) "" ≡ true
      → install b id' now' u slug (install b id now u slug w).1 ≡ install b id now u slug w
  unfolding install
  install-unnamed id id' now now' u slug w empty = rw empty refl

  install_plugin-catalog :
      (id : String) (now : ℕ) (u : String) (p : Plugin) (w : World b)
      → (install_plugin b id now u p w).1.catalog ≡ w.catalog
  install_plugin-catalog id now u p w = elim (c.find_one_law (pair_query u p.id) w.installs) [
    | inl (hit i x there fits r) ↦ ap (λ r. r.1.catalog) (install_plugin-found b id now u p w x r)
    | inl (no_hit alone r) ↦
        ap (λ r. r.1.catalog)
          (install_plugin-new b id now u p w r
            (create-some c up (new_install id now u p) w.installs).0)
    | inr r ↦ absurd (up.find_one _ _ r)
  ]

  -- Over a store that keeps the contract and does not fail, a second Install of a plugin by its
  -- user gives the answer of the first, and changes nothing, whatever its clock and its new id.
  pub install-twice :
      (id id' : String) (now now' : ℕ) (u slug : String) (w : World b)
      → install b id' now' u slug (install b id now u slug w).1 ≡ install b id now u slug w
  install-twice id id' now now' u slug w =
      let s = to_lower (trim_space slug) in
      elim (Bool-cases (str_eq s "")) [
        | inl empty ↦ install-unnamed id id' now now' u slug w empty
        | inr named ↦ elim (Result-cases (find_by_slug b.catalog s w.catalog)) [
          | inl (p, r) ↦
              let first = install-listed b id now u slug w named p r in
              let w' = (install_plugin b id now u p w).1 in
              let r' : find_by_slug b.catalog s w'.catalog ≡ ok p =
                ap (find_by_slug b.catalog s) (install_plugin-catalog id now u p w) ∙ r in
              ap (λ r. install b id' now' u slug r.1) first
              ∙ install-listed b id' now' u slug w' named p r'
              ∙ install_plugin-twice id id' now now' u p w
              ∙ sym first
          | inr (e, r) ↦
              let first = install-unlisted b id now u slug w named e r in
              ap (λ r. install b id' now' u slug r.1) first
              ∙ install-unlisted b id' now' u slug w named e r
              ∙ sym first
        ]
      ]
