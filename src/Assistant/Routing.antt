-- ===== src/Assistant/Routing.antt =====
-- internal/domain/assistant/executor.go: the reminders that any execution of a plugin may change.
use smart_assistant_api.Common.{
  ℕ, String, ◌≡◌, refl, Bool, true, false, not, ◌&&◌, Option, none, some, List, str_eq,
  if◌then◌else◌, inl, inr,
}
use smart_assistant_api.Common.Int.{ℤ}
use smart_assistant_api.Common.Results.{Result-cases}
use smart_assistant_api.Common.Assoc.{lookup}
use smart_assistant_api.Common.Exec.{Result, ok, err, Exec, pure, raise, ◌>>=◌}
use smart_assistant_api.Response.{AppError}
use smart_assistant_api.Store.Contract.{Store, Contract}
use smart_assistant_api.Dynamic.{Args, as_string, string_arg_value}
use smart_assistant_api.Plugin.{Plugin}
use smart_assistant_api.AssistantSettings.{Settings, get_or_create}
use smart_assistant_api.Reminder.{Reminder, key, holds}
use smart_assistant_api.Reminder.Service.{CreateInput, create_location}
use smart_assistant_api.Reminder.Lifecycle.{user}
use smart_assistant_api.Reminder.Lifecycle.Methods.{IsKeyed, AllMove, stays}
use smart_assistant_api.Reminder.Lifecycle.Batches.{create_location-Moves}
use smart_assistant_api.Assistant.LocationArguments.{
  location_mode_exact, location_mode_place_keyword, is_vague_place_query, normalize_place_keyword,
}
use smart_assistant_api.Assistant.Builtin.Errors.{ExecError, other}
use smart_assistant_api.Assistant.Builtin.Prompts.{adapter_reminder, adapter_location_reminder}
use smart_assistant_api.Assistant.Builtin.Reminders.{ReminderClock, served, execute_reminder}
use smart_assistant_api.Assistant.Builtin.Locations.{
  Geocoded, located, unprocessable, failed, Field, Places, on_reminders, on_settings,
  create_reminder, at_address, near_place, place_reminder, execute_location_reminder, exact_input,
  keyword_input,
}
use smart_assistant_api.Assistant.Executors
use smart_assistant_api.Assistant.Executors.{
  Wiring, Scene, ToolResult, stub_result, composio_execute, builtin_adapter, builtin_execute,
  execute, executor_type_builtin, executor_type_composio, executor_type_composio_mcp,
}
use smart_assistant_api.Assistant.Executions.{MovesOwn, execute_reminder-MovesOwn}

module _ {reminders : Store Reminder} (c : Contract key holds reminders) (settings : Store Settings)
    (geocode : String → Geocoded) (encode : List (String × Field) → String) (u : String)
    (rs : reminders.State) where
  abbrev Run : Type 0
  Run = Exec (Places reminders settings geocode encode) ExecError (Option Args)

  -- from these reminders and any settings, every reminder moves as the user may move it
  MovesPlaces : Run → Type 0
  MovesPlaces m = (ss : settings.State) → AllMove c (user u) rs (m (rs, ss)).1.0

  raise-MovesPlaces : (x : ExecError) → MovesPlaces (raise x)
  unfolding MovesPlaces
  raise-MovesPlaces x ss j = stays c (user u) j _

  either :
      (b : Bool) (m n : Run)
      → (b ≡ true → MovesPlaces m)
      → (b ≡ false → MovesPlaces n)
      → MovesPlaces (if b then m else n)
  either true m n h k = h refl
  either false m n h k = k refl

  -- A call of the service of the reminders, whose answer is then worked out.
  on_reminders-MovesPlaces :
      {A : Type 0} (m : Exec reminders.State AppError A) (f : A → Option Args)
      → AllMove c (user u) rs (m rs).1
      → MovesPlaces (on_reminders reminders settings geocode encode (served m) >>= λ a. pure (f a))
  unfolding MovesPlaces
  on_reminders-MovesPlaces m f h ss j = elim (Result-cases (m rs).0) [
    | inl (a, e) ↦ rw e (h j)
    | inr (x, e) ↦ rw e (h j)
  ]

  on_settings-MovesPlaces :
      {A : Type 0} (m : Exec settings.State AppError A) (f : A → Run)
      → ((a : A) → MovesPlaces (f a))
      → MovesPlaces (on_settings reminders settings geocode encode (served m) >>= f)
  unfolding MovesPlaces
  on_settings-MovesPlaces m f h ss j = elim (Result-cases (m ss).0) [
    | inl (a, e) ↦ rw e (h a (m ss).1 j)
    | inr (x, e) ↦ rw e (stays c (user u) j _)
  ]

  module _ (id : String) (now settings_at : ℕ) (fresh : c.rows rs id ≡ none) where
    create_reminder-MovesPlaces :
        (meters : ℤ) (label : String) (inp : CreateInput)
        → MovesPlaces (
            create_reminder reminders settings geocode encode id now settings_at u meters label inp)
    unfolding create_reminder
    create_reminder-MovesPlaces meters label inp =
        on_reminders-MovesPlaces (create_location reminders id now u inp) _
          (create_location-Moves c u id now inp rs fresh)

    at_address-MovesPlaces :
        (title : String) (meters : ℤ) (query : String) (g : Geocoded)
        → MovesPlaces
            (at_address reminders settings geocode encode id now settings_at u title meters query g)
    unfolding at_address
    at_address-MovesPlaces title meters query (located g) =
        create_reminder-MovesPlaces meters query (exact_input title meters query g)
    at_address-MovesPlaces title meters query unprocessable = raise-MovesPlaces _
    at_address-MovesPlaces title meters query (failed x) = raise-MovesPlaces x

    place_reminder-MovesPlaces :
        (title mode query : String) (s : Settings)
        → MovesPlaces (
            place_reminder reminders settings geocode encode id now settings_at u title mode query
              s)
    unfolding place_reminder near_place
    place_reminder-MovesPlaces title mode query s =
        let meters = s.location_reminder_threshold_meters in
        let keyword = normalize_place_keyword query in
        either (str_eq mode location_mode_exact) _ _
          (λ h.
            either (is_vague_place_query query) _ _ (λ h. raise-MovesPlaces _)
              λ h. at_address-MovesPlaces title meters query (geocode query))
          λ h.
            either (str_eq keyword "") _ _ (λ h. raise-MovesPlaces _)
              λ h. create_reminder-MovesPlaces meters keyword (keyword_input title meters keyword)

    execute_location_reminder-MovesPlaces :
        (args : Args)
        → MovesPlaces
            (execute_location_reminder reminders settings geocode encode id now settings_at u args)
    unfolding execute_location_reminder
    execute_location_reminder-MovesPlaces args =
        let title = string_arg_value args "title" in
        let mode = string_arg_value args "location_mode" in
        let query = string_arg_value args "place_query" in
        either (str_eq title "") _ _ (λ h. raise-MovesPlaces _)
          λ h.
            either
              (not (str_eq mode location_mode_exact)
                && not (str_eq mode location_mode_place_keyword))
              _ _ (λ h. raise-MovesPlaces _)
              λ h.
                either (str_eq query "") _ _ (λ h. raise-MovesPlaces _)
                  λ h.
                    on_settings-MovesPlaces (get_or_create settings settings_at u) _
                      (place_reminder-MovesPlaces title mode query)

-- The reminders that the execution of a plugin for the user may change.
module _ (b : Wiring) (c : Contract key holds b.reminders) (u : String) (s : Scene b) where
  abbrev Execution : Type 0
  Execution = Exec (Scene b) ExecError (Option Args)

  Keeps : Execution → Type 0
  Keeps m = AllMove c (user u) s.reminders (m s).1.reminders

  split : (x : Bool) (m n : Execution) → Keeps m → Keeps n → Keeps (if x then m else n)
  split true m n h k = h
  split false m n h k = k

  keeps_all : (r : Result ExecError (Option Args)) → Keeps (λ s'. (r, s'))
  unfolding Keeps
  keeps_all r j = stays c (user u) j _

  module _ (t : ReminderClock) (keyed : IsKeyed (c.rows s.reminders))
      (fresh : c.rows s.reminders t.id ≡ none) (p : Plugin) (args : Args) where
    reminder-Keeps : Keeps (
        Executors.on_reminders b
          (execute_reminder b.reminders t u (as_string (lookup "install_id" args)) args))
    unfolding Keeps MovesOwn
    reminder-Keeps =
        execute_reminder-MovesOwn c u s.reminders t keyed fresh
          (as_string (lookup "install_id" args)) args

    place-Keeps : Keeps (
        Executors.on_places b (
          execute_location_reminder b.reminders b.settings b.geocode b.encode t.id t.now t.checked u
            args))
    unfolding Keeps MovesPlaces
    place-Keeps =
        execute_location_reminder-MovesPlaces c b.settings b.geocode b.encode u s.reminders t.id
          t.now t.checked fresh args s.settings

    builtin_execute-Keeps : Keeps (builtin_execute b t u p args)
    unfolding builtin_execute
    builtin_execute-Keeps =
        split (not (str_eq p.manifest.executor.kind executor_type_builtin)) _ _ (keeps_all _) (
          split (str_eq (builtin_adapter p) adapter_reminder) _ _ reminder-Keeps (
            split (str_eq (builtin_adapter p) adapter_location_reminder) _ _ place-Keeps
              (keeps_all _)))

    composio-Keeps :
        (o : Option
          (String → Option (List String) → String → Args → Exec b.Tools ExecError ToolResult))
        → Keeps (elim o [
          | none ↦ pure stub_result
          | some client ↦ Executors.on_tools b (composio_execute b t u p client args)
        ])
    unfolding Keeps
    composio-Keeps none j = stays c (user u) j _
    composio-Keeps (some client) j = stays c (user u) j _

    agent-Keeps :
        (o : Option (String → Plugin → Args → Exec b.Tools ExecError (Option Args)))
        → Keeps (elim o [
          | none ↦ pure stub_result
          | some agent ↦ Executors.on_tools b (agent u p args)
        ])
    unfolding Keeps
    agent-Keeps none j = stays c (user u) j _
    agent-Keeps (some agent) j = stays c (user u) j _

    -- An execution for the user moves the reminders only as the user may move them.
    pub execute-AllMove : AllMove c (user u) s.reminders (execute b t u p args s).1.reminders
    unfolding execute Keeps
    execute-AllMove =
        let kind = p.manifest.executor.kind in
        split (str_eq kind executor_type_composio) _ _ (composio-Keeps b.composio) (
          split (str_eq kind executor_type_composio_mcp) _ _ (agent-Keeps b.composio_mcp) (
            split (str_eq kind executor_type_builtin) _ _
              (split b.builtin _ _ builtin_execute-Keeps (keeps_all (ok stub_result)))
              (keeps_all (err other))))
