-- ===== src/Assistant/Executors.antt =====
-- internal/domain/assistant/executor.go: which executor runs a plugin. The client of Composio, the
-- executor of its agent (its model is Assistant.Composio.Agent) and the geocoder are parameters.
use smart_assistant_api.Common.{
  ℕ, String, Bool, true, not, ◌&&◌, ◌||◌, Option, none, some, List, [], ◌∷◌, str_eq, if◌then◌else◌,
}
use smart_assistant_api.Common.Assoc.{lookup}
use smart_assistant_api.Common.Exec.{Result, ok, err, Exec, pure, raise}
use smart_assistant_api.Store.Contract.{Store}
use smart_assistant_api.Dynamic.{Args, Argument, text, items, flag, as_string}
use smart_assistant_api.Time.Civil.{jakarta}
use smart_assistant_api.Plugin.{Plugin}
use smart_assistant_api.AssistantSettings.{Settings}
use smart_assistant_api.Reminder.{Reminder}
use smart_assistant_api.Assistant.MeetArguments.{strip_internal_args}
use smart_assistant_api.Assistant.Builtin.Errors.{ExecError, other}
use smart_assistant_api.Assistant.Builtin.Prompts.{
  reminder_slug, adapter_reminder, location_reminder_slug, adapter_location_reminder,
  google_calendar_meet_slug, adapter_google_calendar_meet,
}
use smart_assistant_api.Assistant.Builtin.Reminders.{ReminderClock, execute_reminder}
use smart_assistant_api.Assistant.Builtin.Locations.{Geocoded, Field, execute_location_reminder}
use smart_assistant_api.Assistant.Builtin.Meetings.{map_google_calendar_meet_args}

-- plugin.ExecutorTypeComposio, plugin.ExecutorTypeComposioMCP and plugin.ExecutorTypeBuiltin
abbrev pub executor_type_composio : String
executor_type_composio = "composio"

abbrev pub executor_type_composio_mcp : String
executor_type_composio_mcp = "composio_mcp"

abbrev pub executor_type_builtin : String
executor_type_builtin = "builtin"

-- What a tool of Composio answers: whether it was successful, and its data.
pub record ToolResult : Type 0 where
  pub successful : Bool
  pub data_text : String

-- The executors that are wired, and what they act on. A call of the client takes the user, the ids
-- of the accounts where the manifest lists them, the slug of the tool and its arguments.
pub record Wiring : Type 1 where
  pub reminders : Store Reminder
  pub settings : Store Settings
  pub Tools : Type 0
  pub composio :
      Option (String → Option (List String) → String → Args → Exec Tools ExecError ToolResult)
  pub composio_mcp : Option (String → Plugin → Args → Exec Tools ExecError (Option Args))
  pub builtin : Bool
  pub geocode : String → Geocoded
  pub encode : List (String × Field) → String

pub record Scene (b : Wiring) : Type 0 where
  pub reminders : b.reminders.State
  pub settings : b.settings.State
  pub tools : b.Tools

abbrev pub configured : Plugin → String → String
unfolding lookup
configured p key = as_string (lookup key p.manifest.executor.config)

abbrev tool_slug : Plugin → String
unfolding configured
tool_slug p =
    let slug = configured p "tool_slug" in if str_eq slug "" then configured p "slug" else slug

-- The ids that are texts; the list of a manifest holds no others here.
abbrev account_ids : Option Argument → Option (List String)
account_ids (some (items ids)) = some ids
account_ids _ = none

abbrev mapped_or_error : Option Args → Result ExecError (Option Args)
mapped_or_error none = err other
mapped_or_error (some args) = ok (some args)

-- mapBuiltinAdapterArgs; `none` is a nil map
unfoldable pub map_builtin_adapter_args : ℕ → Plugin → Args → Result ExecError (Option Args)
unfolding configured map_google_calendar_meet_args strip_internal_args
map_builtin_adapter_args now p args =
    let adapter = configured p "builtin_adapter" in
    if str_eq adapter "" && not (str_eq p.slug google_calendar_meet_slug)
    then ok none
    else if str_eq adapter "" || str_eq adapter adapter_google_calendar_meet
    then mapped_or_error (map_google_calendar_meet_args now (strip_internal_args args) jakarta)
    else err other

abbrev tool_output : ToolResult → Option Args
tool_output r = some (
    ("successful", flag r.successful)
    ∷ (if str_eq r.data_text "" then [] else ("data", text r.data_text) ∷ []))

-- StubExecutor
abbrev pub stub_result : Option Args
stub_result = some (("successful", flag true) ∷ ("stub", flag true) ∷ [])

abbrev pub builtin_adapter : Plugin → String
unfolding configured
builtin_adapter p =
    let adapter = configured p "builtin_adapter" in
    if not (str_eq adapter "")
    then adapter
    else if str_eq p.slug reminder_slug
    then adapter_reminder
    else if str_eq p.slug location_reminder_slug
    then adapter_location_reminder
    else ""

module _ (b : Wiring) where
  abbrev pub on_tools : {A : Type 0} → Exec b.Tools ExecError A → Exec (Scene b) ExecError A
  on_tools m s = let (r, tools) = m s.tools in (r, record s { tools = tools })

  abbrev pub on_reminders :
      {A : Type 0} → Exec b.reminders.State ExecError A → Exec (Scene b) ExecError A
  on_reminders m s = let (r, reminders) = m s.reminders in (r, record s { reminders = reminders })

  abbrev pub on_places :
      {A : Type 0}
      → Exec (b.reminders.State × b.settings.State) ExecError A
      → Exec (Scene b) ExecError A
  on_places m s =
      let (r, places) = m (s.reminders, s.settings) in
      (r, record s { reminders = places.0; settings = places.1 })

  module _ (t : ReminderClock) (user_id : String) (p : Plugin) where
    -- ComposioExecutor.Execute
    abbrev answered : Result ExecError ToolResult → Result ExecError (Option Args)
    answered (err x) = err x
    answered (ok r) = ok (tool_output r)

    abbrev call_tool :
        (String → Option (List String) → String → Args → Exec b.Tools ExecError ToolResult)
        → Args
        → Exec b.Tools ExecError (Option Args)
    unfolding lookup tool_slug
    call_tool client args tools =
        let (r, tools) =
          client user_id (account_ids (lookup "connected_account_ids" p.manifest.executor.config))
            (tool_slug p) args tools in
        (answered r, tools)

    abbrev mapped_call :
        (String → Option (List String) → String → Args → Exec b.Tools ExecError ToolResult)
        → Args
        → Result ExecError (Option Args)
        → Exec b.Tools ExecError (Option Args)
    unfolding call_tool
    mapped_call client args (err x) = raise x
    mapped_call client args (ok none) = call_tool client args
    mapped_call client args (ok (some adapted)) = call_tool client adapted

    unfoldable pub composio_execute :
        (String → Option (List String) → String → Args → Exec b.Tools ExecError ToolResult)
        → Args
        → Exec b.Tools ExecError (Option Args)
    unfolding mapped_call tool_slug map_builtin_adapter_args
    composio_execute client args =
        if not (str_eq p.manifest.executor.kind executor_type_composio)
        then raise other
        else if str_eq (tool_slug p) ""
        then raise other
        else mapped_call client args (map_builtin_adapter_args t.parsed p args)

    -- BuiltinExecutor.Execute
    unfoldable pub builtin_execute : Args → Exec (Scene b) ExecError (Option Args)
    unfolding builtin_adapter lookup execute_reminder execute_location_reminder
    builtin_execute args =
        let adapter = builtin_adapter p in
        if not (str_eq p.manifest.executor.kind executor_type_builtin)
        then raise other
        else if str_eq adapter adapter_reminder
        then on_reminders
            (execute_reminder b.reminders t user_id (as_string (lookup "install_id" args)) args)
        else if str_eq adapter adapter_location_reminder
        then on_places (
            execute_location_reminder b.reminders b.settings b.geocode b.encode t.id t.now t.checked
              user_id args)
        else raise other

    -- RoutingExecutor.Execute
    unfoldable pub execute : Args → Exec (Scene b) ExecError (Option Args)
    unfolding composio_execute builtin_execute
    execute args =
        let kind = p.manifest.executor.kind in
        if str_eq kind executor_type_composio
        then (elim b.composio [
          | none ↦ pure stub_result
          | some client ↦ on_tools (composio_execute client args)
        ])
        else if str_eq kind executor_type_composio_mcp
        then (elim b.composio_mcp [
          | none ↦ pure stub_result
          | some agent ↦ on_tools (agent user_id p args)
        ])
        else if str_eq kind executor_type_builtin
        then if b.builtin then builtin_execute args else pure stub_result
        else raise other
