-- ===== src/Assistant/Installed.antt =====
-- internal/domain/assistant/service.go: listInstalledPluginStates and loadEligiblePlugin.
use smart_assistant_api.Common.{
  String, Bool, not, ◌&&◌, ◌||◌, Option, none, some, List, [], ◌∷◌, map, str_eq, if◌then◌else◌,
}
use smart_assistant_api.Common.Exec.{Result, ok, err}
use smart_assistant_api.Response.{AppError, bad_request, forbidden, internal}
use smart_assistant_api.Store.Query.{Query, texts, new_query, where_in}
use smart_assistant_api.Store.Contract.{StoreError, Store}
use smart_assistant_api.Plugin.{Plugin}
use smart_assistant_api.UserPlugin.{UserPlugin, completed, find_by_user_id}
use smart_assistant_api.UserPlugin.Service.{plugin_by_id, install_error, plugin_error}

-- installedPluginState
pub data InstalledPluginState : Type 0 where
  eligible setup_incomplete disabled catalog_missing : InstalledPluginState

-- pluginInstallState
pub record PluginInstallState : Type 0 where
  pub install : UserPlugin
  pub catalog : Option Plugin
  pub state : InstalledPluginState

-- eligiblePlugin
pub record EligiblePlugin : Type 0 where
  pub install : UserPlugin
  pub catalog : Plugin

abbrev pub needs_setup : UserPlugin → Plugin → Bool
needs_setup up p = p.manifest.required_setup && not (str_eq up.setup_status completed)

-- one round of the loop of listInstalledPluginStates
abbrev pub state_of : UserPlugin → Option Plugin → PluginInstallState
state_of up none = record { install = up; catalog = none; state = catalog_missing }
state_of up (some p) = record {
  install = up;
  catalog = some p;
  state =
      if not up.enabled then disabled else if needs_setup up p then setup_incomplete else eligible;
}

abbrev pub states_of : List UserPlugin → List Plugin → List PluginInstallState
states_of ups plugins = map (λ up. state_of up (plugin_by_id up.plugin_id plugins)) ups

abbrev pub catalog_query : List UserPlugin → Query
catalog_query ups = where_in "id" (texts (map (λ up. up.plugin_id) ups)) new_query

module _ (installs : Store UserPlugin) (catalog : Store Plugin) where
  abbrev with_catalog :
      List UserPlugin → Result StoreError (List Plugin) → Result AppError (List PluginInstallState)
  with_catalog ups (ok plugins) = ok (states_of ups plugins)
  with_catalog ups (err e) = err (internal "failed to load plugin catalog")

  abbrev with_installs :
      Result StoreError (List UserPlugin)
      → catalog.State
      → Result AppError (List PluginInstallState)
  with_installs (ok []) s = ok []
  with_installs (ok (up ∷ ups)) s =
      with_catalog (up ∷ ups) (catalog.find (catalog_query (up ∷ ups)) s)
  with_installs (err e) s = err (internal "failed to list installed plugins")

  -- listInstalledPluginStates
  unfoldable pub list_installed_plugin_states :
      String → installs.State → catalog.State → Result AppError (List PluginInstallState)
  unfolding find_by_user_id
  list_installed_plugin_states user_id is cs =
      with_installs (find_by_user_id installs user_id is) cs

  abbrev checked : UserPlugin → Result StoreError Plugin → Result AppError EligiblePlugin
  checked up (ok p) =
      if needs_setup up p
      then err (bad_request "plugin setup is incomplete")
      else ok (record { install = up; catalog = p })
  checked up (err e) = err (plugin_error e)

  abbrev owned :
      String
      → String
      → Result StoreError UserPlugin
      → catalog.State
      → Result AppError EligiblePlugin
  owned user_id plugin_id (err e) cs = err (install_error e)
  owned user_id plugin_id (ok up) cs =
      if not (str_eq up.user_id user_id) || not (str_eq up.plugin_id plugin_id)
      then err (forbidden "plugin install mismatch")
      else if not up.enabled
      then err (bad_request "plugin is disabled")
      else checked up (catalog.find_by_id plugin_id cs)

  -- loadEligiblePlugin
  unfoldable pub load_eligible_plugin :
      String → String → String → installs.State → catalog.State → Result AppError EligiblePlugin
  load_eligible_plugin user_id plugin_id install_id is cs =
      owned user_id plugin_id (installs.find_by_id install_id is) cs
