-- ===== src/UserPlugin.antt =====
-- internal/domain/user_plugin/entity.go and repository.go: which user has installed which plugin.
pub mod Service
pub mod Effects
pub mod Ownership
pub mod Unique
pub mod Install
pub mod Uninstall
mod Samples
use smart_assistant_api.Common.{
  ℕ, String, Bool, true, Option, none, some, List, str_eq, if◌then◌else◌,
}
use smart_assistant_api.Common.Exec.{Result}
use smart_assistant_api.Store.Query.{
  Value, text, instant, Condition, Query, new_query, where_eq, order_by,
}
use smart_assistant_api.Store.Meaning.{means}
use smart_assistant_api.Store.Contract.{StoreError, Store}

-- SetupStatus
abbrev pub not_started : String
not_started = "not_started"

abbrev pub completed : String
completed = "completed"

-- The free-form settings are kept as their JSON text.
pub record UserPlugin : Type 0 where
  pub id : String
  pub user_id : String
  pub plugin_id : String
  pub enabled : Bool
  pub setup_status : String
  pub setup_error : Option String
  pub config : String
  pub installed_at : ℕ
  pub updated_at : ℕ

abbrev pub column : UserPlugin → String → Option Value
column up field =
    if str_eq field "id"
    then some (text up.id)
    else if str_eq field "user_id"
    then some (text up.user_id)
    else if str_eq field "plugin_id"
    then some (text up.plugin_id)
    else if str_eq field "installed_at"
    then some (instant up.installed_at)
    else none

abbrev pub holds : UserPlugin → Condition → Bool
holds up c = means (column up c.field) c.operator c.value

abbrev pub key : UserPlugin → String
key up = up.id

abbrev pub pair_query : String → String → Query
pair_query user_id plugin_id =
    where_eq "plugin_id" (text plugin_id) (where_eq "user_id" (text user_id) new_query)

module _ (st : Store UserPlugin) where
  -- FindByUserID
  unfoldable pub find_by_user_id : String → st.State → Result StoreError (List UserPlugin)
  find_by_user_id user_id =
      st.find (order_by "installed_at" true (where_eq "user_id" (text user_id) new_query))

  -- FindByUserIDAndPluginID
  unfoldable pub find_by_user_id_and_plugin_id :
      String → String → st.State → Result StoreError UserPlugin
  find_by_user_id_and_plugin_id user_id plugin_id = st.find_one (pair_query user_id plugin_id)
