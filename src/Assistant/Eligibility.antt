-- ===== src/Assistant/Eligibility.antt =====
-- The plugins that a turn may match, against those that the next turn takes up.
use smart_assistant_api.Common.{
  String, ◌≡◌, refl, sym, ◌∙◌, ap, subst, true, false, Option, none, some, List, [], ◌∷◌, In,
  map_source, arith, str_eq, eq_iff, Bool-cases, Option-cases, inl, inr,
}
use mathlib.Core.Option.{some-injective}
use smart_assistant_api.Common.Exec.{ok}
use smart_assistant_api.Store.Query.{new_query, where_eq, order_by, text}
use smart_assistant_api.Store.Contract.{Store, Contract}
use smart_assistant_api.Store.Contract.Effects.{IsReliable, find_by_id-some, find-some}
use smart_assistant_api.Plugin
use smart_assistant_api.Plugin.{Plugin}
use smart_assistant_api.UserPlugin
use smart_assistant_api.UserPlugin.{UserPlugin, find_by_user_id}
use smart_assistant_api.UserPlugin.Service.{plugin_by_id}
use smart_assistant_api.Assistant.Installed.{
  eligible, PluginInstallState, needs_setup, state_of, states_of, catalog_query,
  list_installed_plugin_states, load_eligible_plugin,
}

-- The plugin that the map gives is one of the list, under the id.
plugin_by_id-In :
    (id : String) (ps : List Plugin) (p : Plugin)
    → plugin_by_id id ps ≡ some p
    → In p ps × (p.id ≡ id)
plugin_by_id-In id [] p h = absurd (cc)
plugin_by_id-In id (q ∷ ps) p h = elim (Option-cases (plugin_by_id id ps)) [
  | inl unlisted ↦ elim (Bool-cases (str_eq q.id id)) [
    | inl same ↦
        let e : q ≡ p = some-injective _ _ (rw (unlisted, same) at h) in
        (inl e, subst (λ x. x.id ≡ id) e ((eq_iff q.id id).0 same))
    | inr other ↦ absurd (let h' = rw (unlisted, other) at h in cc)
  ]
  | inr (r, listed) ↦
      let e : r ≡ p = some-injective _ _ (rw listed at h) in
      let (there, id_of) = plugin_by_id-In id ps p (listed ∙ ap some e) in (inr there, id_of)
]

-- An entry of the list that counts as eligible.
state_of-eligible :
    (up : UserPlugin) (o : Option Plugin) (x : PluginInstallState)
    → state_of up o ≡ x
    → x.state ≡ eligible
    → (p : Plugin) × (o ≡ some p)
      × (x.install ≡ up)
      × (x.catalog ≡ some p)
      × (up.enabled ≡ true)
      × (needs_setup up p ≡ false)
state_of-eligible up none x h e = absurd (let h' = ap (λ y. y.state) h ∙ e in cc)
state_of-eligible up (some p) x h e =
    let h' = ap (λ y. y.state) h ∙ e in
    elim (Bool-cases up.enabled) [
      | inl on ↦ elim (Bool-cases (needs_setup up p)) [
        | inl needs ↦ absurd (let h2 = rw (on, needs) at h' in cc)
        | inr done ↦ (p, refl, ap (λ y. y.install) (sym h), ap (λ y. y.catalog) (sym h), on, done)
      ]
      | inr off ↦ absurd (let h2 = rw off at h' in cc)
    ]

module _ {installs : Store UserPlugin} {catalog : Store Plugin}
    (ci : Contract UserPlugin.key UserPlugin.holds installs)
    (cp : Contract Plugin.key Plugin.holds catalog) (ui : IsReliable installs)
    (uc : IsReliable catalog) (is : installs.State) (cs : catalog.State)
    (keyed : (i : String) (x : UserPlugin) → ci.rows is i ≡ some x → x.id ≡ i)
    (keyed' : (i : String) (p : Plugin) → cp.rows cs i ≡ some p → p.id ≡ i) where
  loads :
      (u : String) (up : UserPlugin) (p : Plugin)
      → ci.rows is up.id ≡ some up
      → cp.rows cs p.id ≡ some p
      → up.user_id ≡ u
      → p.id ≡ up.plugin_id
      → up.enabled ≡ true
      → needs_setup up p ≡ false
      → load_eligible_plugin installs catalog u p.id up.id is cs
        ≡ ok (record { install = up; catalog = p })
  unfolding load_eligible_plugin
  loads u up p there there' mine entry on done =
      let same : str_eq up.user_id u ≡ true = (eq_iff up.user_id u).1 mine in
      let same' : str_eq up.plugin_id p.id ≡ true = (eq_iff up.plugin_id p.id).1 (sym entry) in
      rw
        (
          find_by_id-some ci ui up.id is up there,
          same,
          same',
          on,
          find_by_id-some cp uc p.id cs p there',
          done,
        )
        refl

  OwnInstalls : String → List UserPlugin → Type 0
  OwnInstalls u ups =
      (up : UserPlugin) → In up ups → (ci.rows is up.id ≡ some up) × (up.user_id ≡ u)

  StoredPlugins : List Plugin → Type 0
  StoredPlugins ps = (p : Plugin) → In p ps → cp.rows cs p.id ≡ some p

  found_installs :
      (u : String)
      → (ups : List UserPlugin) × (find_by_user_id installs u is ≡ ok ups) × OwnInstalls u ups
  unfolding find_by_user_id OwnInstalls
  found_installs u =
      let q = order_by "installed_at" true (where_eq "user_id" (text u) new_query) in
      let (ups, found, answer) = find-some ci ui q is refl refl in
      (
        ups,
        found,
        λ up i.
            let (k, stored, fits) = answer.only up i in
            (
              subst (λ j. ci.rows is j ≡ some up) (sym (keyed k up stored)) stored,
              ground (arith, eq_iff up.user_id u),
            ),
      )

  found_plugins :
      (ups : List UserPlugin)
      → (ps : List Plugin) × (catalog.find (catalog_query ups) cs ≡ ok ps) × StoredPlugins ps
  unfolding StoredPlugins
  found_plugins ups =
      let (ps, found, answer) = find-some cp uc (catalog_query ups) cs refl refl in
      (
        ps,
        found,
        λ p i.
            let (k, stored, fits) = answer.only p i in
            subst (λ j. cp.rows cs j ≡ some p) (sym (keyed' k p stored)) stored,
      )

  states_listed :
      (u : String) (ups : List UserPlugin) (states : List PluginInstallState)
      → find_by_user_id installs u is ≡ ok ups
      → list_installed_plugin_states installs catalog u is cs ≡ ok states
      → (ps : List Plugin) × (states ≡ states_of ups ps) × StoredPlugins ps
  unfolding list_installed_plugin_states StoredPlugins
  states_listed u [] states found h =
      let h' : ok [] ≡ ok states = rw found at h in ([], cc, λ p i. absurd i)
  states_listed u (up ∷ ups) states found h =
      let (ps, found', stored) = found_plugins (up ∷ ups) in
      let h' : ok (states_of (up ∷ ups) ps) ≡ ok states = rw (found, found') at h in
      (ps, cc, stored)

  -- Over databases that answer and hold each row under its id, every install that
  -- listInstalledPluginStates calls eligible is accepted by loadEligiblePlugin with its catalog
  -- entry, for the same user.
  pub eligible-loads :
      (u : String) (states : List PluginInstallState) (x : PluginInstallState)
      → list_installed_plugin_states installs catalog u is cs ≡ ok states
      → In x states
      → x.state ≡ eligible
      → (p : Plugin) × (x.catalog ≡ some p)
        × (load_eligible_plugin installs catalog u p.id x.install.id is cs
            ≡ ok (record { install = x.install; catalog = p }))
  unfolding OwnInstalls StoredPlugins
  eligible-loads u states x h i e =
      let (ups, found, sound) = found_installs u in
      let (ps, all_states, sound') = states_listed u ups states found h in
      let (up, there, from) =
        map_source (λ y. state_of y (plugin_by_id y.plugin_id ps)) x ups
          (subst (In x) all_states i) in
      let (p, entry, same, cat, on, done) = state_of-eligible up _ x from e in
      let (in_ps, id_of) = plugin_by_id-In up.plugin_id ps p entry in
      let (stored, mine) = sound up there in
      (
        p,
        cat,
        subst
            (λ y.
              load_eligible_plugin installs catalog u p.id y.id is cs
              ≡ ok (record { install = y; catalog = p }))
            (sym same) (loads u up p stored (sound' p in_ps) mine id_of on done),
      )
