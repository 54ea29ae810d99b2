-- ===== src/UserPlugin/Service.antt =====
-- internal/domain/user_plugin/service.go and dto.go. A method takes what `time.Now()` and
-- `uuid.NewString()` return at its call.
use smart_assistant_api.Common.{
  ℕ, String, Bool, true, not, Option, none, some, List, [], ◌∷◌, map, str_eq, if◌then◌else◌,
}
use smart_assistant_api.Common.Exec.{Result, ok, err, Exec, pure, raise, ◌>>=◌, ◌>>◌}
use smart_assistant_api.Common.Text.{trim_space, to_lower}
use smart_assistant_api.Response.{AppError, forbidden, not_found, internal, invalid}
use smart_assistant_api.Store.Query.{texts, new_query, where_in}
use smart_assistant_api.Store.Contract.{StoreError, missing, failure, Store, recast}
use smart_assistant_api.Plugin.{Plugin, find_by_slug}
use smart_assistant_api.UserPlugin.{
  UserPlugin, not_started, completed, find_by_user_id, find_by_user_id_and_plugin_id,
}

-- dto.go: PluginSummary
pub record PluginSummary : Type 0 where
  pub id : String
  pub slug : String
  pub name : String
  pub required_setup : Bool
  pub setup_type : String

-- dto.go: InstalledResponse
pub record InstalledResponse : Type 0 where
  pub id : String
  pub enabled : Bool
  pub setup_status : String
  pub plugin : PluginSummary

-- dto.go: ToInstalledResponse
abbrev pub to_installed_response : UserPlugin → Plugin → InstalledResponse
to_installed_response up p = record {
  id = up.id;
  enabled = up.enabled;
  setup_status = up.setup_status;
  plugin = record {
    id = p.id;
    slug = p.slug;
    name = p.name;
    required_setup = p.manifest.required_setup;
    setup_type = p.manifest.setup_type;
  };
}

-- the map pluginByID: of two plugins with one id the later counts
abbrev pub plugin_by_id : String → List Plugin → Option Plugin
plugin_by_id id [] = none
plugin_by_id id (p ∷ ps) = elim (plugin_by_id id ps) [
  | some q ↦ some q
  | none ↦ if str_eq p.id id then some p else none
]

-- dto.go: ToInstalledResponses; an install without its catalog entry is left out
unfoldable pub to_installed_responses : List UserPlugin → List Plugin → List InstalledResponse
to_installed_responses [] plugins = []
to_installed_responses (up ∷ ups) plugins =
    let rest = to_installed_responses ups plugins in
    elim (plugin_by_id up.plugin_id plugins) [
      | none ↦ rest
      | some p ↦ to_installed_response up p ∷ rest
    ]

-- What the service works on: its two repositories, and what stands behind its two cleaners.
pub record Backend : Type 1 where
  pub installs : Store UserPlugin
  pub catalog : Store Plugin
  pub Credentials : Type 0
  pub Reminders : Type 0
  -- CredentialsCleaner and ReminderCleaner
  pub delete_for_user_plugin : String → String → Exec Credentials AppError (Unit {0})
  pub cancel_all_for_user_plugin : String → String → Exec Reminders AppError (Unit {0})

pub record World (b : Backend) : Type 0 where
  pub installs : b.installs.State
  pub catalog : b.catalog.State
  pub credentials : b.Credentials
  pub reminders : b.Reminders

abbrev pub new_install : String → ℕ → String → Plugin → UserPlugin
new_install id now user_id p = record {
  id = id;
  user_id = user_id;
  plugin_id = p.id;
  enabled = true;
  setup_status = if p.manifest.required_setup then not_started else completed;
  setup_error = none;
  config = "{}";
  installed_at = now;
  updated_at = now;
}

abbrev pub install_error : StoreError → AppError
install_error missing = not_found "installed plugin not found"
install_error failure = internal "failed to load installed plugin"

abbrev pub plugin_error : StoreError → AppError
plugin_error missing = not_found "plugin not found"
plugin_error failure = internal "failed to load plugin"

module _ (b : Backend) where
  abbrev on_installs :
      {A : Type 0} → Exec b.installs.State StoreError A → Exec (World b) StoreError A
  on_installs m w = let (r, s) = m w.installs in (r, record w { installs = s })

  -- ListInstalled
  unfoldable pub list_installed : String → Exec (World b) AppError (List InstalledResponse)
  unfolding find_by_user_id to_installed_responses
  list_installed user_id w = elim (find_by_user_id b.installs user_id w.installs) [
    | err e ↦ raise (internal "failed to list installed plugins") w
    | ok [] ↦ pure [] w
    | ok (up ∷ ups) ↦
        elim (b.catalog.find (where_in "id" (texts (map (λ x. x.plugin_id) (up ∷ ups))) new_query)
          w.catalog) [
            | err e ↦ raise (internal "failed to load plugin catalog") w
            | ok plugins ↦ pure (to_installed_responses (up ∷ ups) plugins) w
          ]
  ]

  -- the answer to a failed Create: the row of the install that won the race
  unfoldable pub after_race :
      String → Plugin → World b → Result AppError InstalledResponse × World b
  unfolding find_by_user_id_and_plugin_id
  after_race user_id p w = elim (find_by_user_id_and_plugin_id b.installs user_id p.id w.installs) [
    | ok up ↦ pure (to_installed_response up p) w
    | err e ↦ raise (internal "failed to install plugin") w
  ]

  abbrev pub created :
      String
      → Plugin
      → UserPlugin
      → Result StoreError (Unit {0})
      → Exec (World b) AppError InstalledResponse
  created user_id p up (ok u) w = pure (to_installed_response up p) w
  created user_id p up (err e) w = after_race user_id p w

  -- the part of Install behind the check of the catalog
  unfoldable pub install_plugin :
      String → ℕ → String → Plugin → Exec (World b) AppError InstalledResponse
  unfolding find_by_user_id_and_plugin_id after_race
  install_plugin id now user_id p w =
      elim (find_by_user_id_and_plugin_id b.installs user_id p.id w.installs) [
        | ok up ↦ pure (to_installed_response up p) w
        | err failure ↦ raise (internal "failed to verify install state") w
        | err missing ↦
            let up = new_install id now user_id p in
            let (r, w') = on_installs (b.installs.create up) w in created user_id p up r w'
      ]

  -- Install
  unfoldable pub install : String → ℕ → String → String → Exec (World b) AppError InstalledResponse
  unfolding find_by_slug install_plugin trim_space to_lower
  install id now user_id plugin_slug w =
      let slug = to_lower (trim_space plugin_slug) in
      if str_eq slug ""
      then raise (invalid "plugin_slug" "must not be empty") w
      else (elim (find_by_slug b.catalog slug w.catalog) [
        | err e ↦ raise (plugin_error e) w
        | ok p ↦ install_plugin id now user_id p w
      ])

  -- the load of an install row, and the check that it is the caller's
  abbrev pub owned_install : String → String → Exec (World b) AppError UserPlugin
  owned_install user_id install_id = do
    up ← λ w. (recast install_error (b.installs.find_by_id install_id w.installs), w)
    if not (str_eq up.user_id user_id)
        then raise (forbidden "cannot modify another user's plugin")
        else pure up

  abbrev clean_credentials : String → String → Exec (World b) AppError (Unit {0})
  clean_credentials user_id plugin_id w =
      let (r, s) = b.delete_for_user_plugin user_id plugin_id w.credentials in
      (
        elim r [ ok u ↦ ok u | err e ↦ err (internal "failed to clean up plugin credentials") ],
        record w { credentials = s },
      )

  abbrev cancel_reminders : String → String → Exec (World b) AppError (Unit {0})
  cancel_reminders user_id install_id w =
      let (r, s) = b.cancel_all_for_user_plugin user_id install_id w.reminders in
      (
        elim r [ ok u ↦ ok u | err e ↦ err (internal "failed to cancel reminders") ],
        record w { reminders = s },
      )

  -- Uninstall
  unfoldable pub uninstall : String → String → Exec (World b) AppError (Unit {0})
  uninstall user_id install_id = do
    up ← owned_install user_id install_id
    clean_credentials user_id up.plugin_id
    p ← λ w. (recast plugin_error (b.catalog.find_by_id up.plugin_id w.catalog), w)
    if str_eq p.slug "reminder" then cancel_reminders user_id up.id else pure tt
    λ w.
        let (r, w') = on_installs (b.installs.delete install_id) w in
        (recast (λ e. internal "failed to uninstall plugin") r, w')

  -- SetEnabled
  unfoldable pub set_enabled :
      ℕ → String → String → Bool → Exec (World b) AppError InstalledResponse
  set_enabled now user_id install_id enabled = do
    up ← owned_install user_id install_id
    p ← λ w. (recast plugin_error (b.catalog.find_by_id up.plugin_id w.catalog), w)
    let up' : UserPlugin = record up { enabled = enabled; updated_at = now } in
        do
          λ w.
              let (r, w') = on_installs (b.installs.update install_id up') w in
              (recast (λ e. internal "failed to update installed plugin") r, w')
          pure (to_installed_response up' p)
