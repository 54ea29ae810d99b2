-- ===== src/Assistant/Conversation/Consented.antt =====
-- internal/domain/assistant/service.go: every turn of a conversation keeps to the consent of the user.
use smart_assistant_api.Common.{
  String, ◌≡◌, refl, Bool, true, false, not, ◌||◌, Option, none, some, arith, str_eq, if◌then◌else◌,
  Bool-cases, inl, inr,
}
use smart_assistant_api.Common.Exec.{Result, ok, err, Exec, pure}
use smart_assistant_api.Dynamic.{Args, integer, flag, put, string_arg_value}
use smart_assistant_api.Response.{AppError}
use smart_assistant_api.AssistantSettings.{Settings, get_or_create}
use smart_assistant_api.Assistant.Session.{PendingAction}
use smart_assistant_api.Assistant.Installed.{EligiblePlugin}
use smart_assistant_api.Assistant.ReminderArguments.{
  reminder_needs_confirmation, infer_reminder_operation, infer_reminder_filter,
  first_missing_reminder_argument,
}
use smart_assistant_api.Common.Assoc.{lookup, insert}
use smart_assistant_api.Assistant.Patterns.{is_recommendation_intent, is_explicit_date_time}
use smart_assistant_api.Assistant.LocationArguments.{
  infer_location_reminder_from_text, first_missing_location_reminder_argument,
}
use smart_assistant_api.Assistant.MeetArguments.{
  recommendation_key, normalize_google_calendar_meet_args, next_missing_attendee_email,
  parse_explicit_meeting_time,
}
use smart_assistant_api.Assistant.Prompts.{first_missing_argument}
use smart_assistant_api.Assistant.Conversation.{
  Backend, World, Clock, Failure, Answer, is_reminder_plugin, is_google_calendar_meet_plugin,
  is_composio_ai_plugin, is_location_reminder_plugin,
}
use smart_assistant_api.Assistant.Conversation.Execution.{execute_plugin}
use smart_assistant_api.Assistant.Conversation.Advance.{
  is_set, split_message, run_or_ask, checked_reminder, normalized_reminder, split_reminder,
  advance_reminder, scheduled, timed, invited, advance_google_calendar_meet, with_radius, located,
  advance_location_reminder, checked_plugin, advance_other, advance_plugin,
}
use smart_assistant_api.Assistant.Conversation.Consent.{
  asks_first, IsConsented, if-IsConsented, raise-IsConsented, pure-IsConsented, execute-IsConsented,
  untouched, string_arg_value-put, infer_reminder_operation-trimmed,
  infer_reminder_filter-operation, first_missing_reminder_argument-operation,
}

module _ (b : Backend) (t : Clock) (user_id said : String) (p : Option PendingAction)
    (e : EligiblePlugin) where
  abbrev Consented : Exec (World b) Failure Answer → Type 0
  Consented m = IsConsented b user_id said p m

  answers : (a : Answer) → Consented (pure a)
  answers = pure-IsConsented b user_id said p

  either :
      (c : Bool) (m n : Exec (World b) Failure Answer)
      → (c ≡ true → Consented m)
      → (c ≡ false → Consented n)
      → Consented (if c then m else n)
  either = if-IsConsented b user_id said p

  runs :
      (args : Args)
      → asks_first e.catalog args ≡ false
      → Consented (execute_plugin b user_id e args)
  runs = execute-IsConsented b user_id said p e

  -- A plugin that is no reminder plugin asks as its manifest says, or is Composio's.
  asks_first-manifest :
      (args : Args)
      → is_reminder_plugin e.catalog ≡ false
      → e.catalog.manifest.confirmation_required ≡ false
      → asks_first e.catalog args ≡ false
  unfolding asks_first
  asks_first-manifest args h k = ground arith

  -- Composio's plugin asks for itself.
  composio_free :
      (args : Args)
      → is_reminder_plugin e.catalog ≡ false
      → is_google_calendar_meet_plugin e.catalog ≡ false
      → is_composio_ai_plugin e.catalog ≡ true
      → asks_first e.catalog args ≡ false
  unfolding asks_first
  composio_free args h h' c = rw (h, h', c) refl

  run_or_ask-Consented :
      (args : Args)
      → is_reminder_plugin e.catalog ≡ false
      → Consented (run_or_ask b t user_id e args)
  unfolding run_or_ask
  run_or_ask-Consented args h =
      either e.catalog.manifest.confirmation_required _ _ (λ c. answers _)
        λ c. runs args (asks_first-manifest args h c)

  -- the reminder plugin
  checked_reminder-Consented :
      (operation : String) (x : String × String × Args)
      → is_reminder_plugin e.catalog ≡ true
      → (reminder_needs_confirmation operation ≡ false
          → string_arg_value x.2 "operation" ≡ operation)
      → Consented (checked_reminder b t user_id e operation x)
  unfolding checked_reminder asks_first
  checked_reminder-Consented operation (name, prompt, args) h k =
      either (not (str_eq name "")) _ _ (λ c. answers _)
        λ c.
          either (reminder_needs_confirmation operation) _ _ (λ c'. answers _)
            λ c'. runs args (rw (h, k c') c')

  normalized_reminder-Consented :
      (operation : String) (x : Bool × String × Args)
      → is_reminder_plugin e.catalog ≡ true
      → str_eq operation "create" ≡ true
      → Consented (normalized_reminder b t user_id e operation x)
  unfolding normalized_reminder
  normalized_reminder-Consented operation (true, prompt, args) h c =
      checked_reminder-Consented operation (first_missing_reminder_argument operation args) h
        λ free. absurd (let free' = rw c at free in cc)
  normalized_reminder-Consented operation (false, prompt, args) h c = answers _

  -- Without a creation, the arguments that the plugin runs with hold the inferred operation.
  kept_operation :
      (args : Args)
      → string_arg_value
          (first_missing_reminder_argument (infer_reminder_operation said args) (
            if str_eq (infer_reminder_operation said args) "list"
            then infer_reminder_filter said
                (put "operation" (infer_reminder_operation said args) args)
            else put "operation" (infer_reminder_operation said args) args)).2
          "operation"
        ≡ infer_reminder_operation said args
  kept_operation args =
      let operation = infer_reminder_operation said args in
      let given = put "operation" operation args in
      ground (
        arith,
        first_missing_reminder_argument-operation operation (infer_reminder_filter said given),
        first_missing_reminder_argument-operation operation given,
        infer_reminder_filter-operation said given,
        string_arg_value-put "operation" operation "operation" args,
        infer_reminder_operation-trimmed said args,
      )

  split_reminder-Consented :
      (operation : String) (o : Option Args)
      → is_reminder_plugin e.catalog ≡ true
      → str_eq operation "create" ≡ true
      → Consented (split_reminder b t user_id e operation o)
  unfolding split_reminder
  split_reminder-Consented operation none h c = raise-IsConsented b user_id said p _
  split_reminder-Consented operation (some args) h c = normalized_reminder-Consented operation _ h c

  advance_reminder-Consented :
      (args : Args)
      → is_reminder_plugin e.catalog ≡ true
      → Consented (advance_reminder b t user_id e said args)
  unfolding advance_reminder
  advance_reminder-Consented args h =
      let operation = infer_reminder_operation said args in
      either (str_eq operation "create") _ _
        (λ c.
          split_reminder-Consented operation (split_message (put "operation" operation args)) h c)
        λ c. checked_reminder-Consented operation _ h λ free. kept_operation args

  -- the Google Calendar plugin
  scheduled-Consented :
      (args : Args)
      → is_reminder_plugin e.catalog ≡ false
      → Consented (scheduled b t user_id e args)
  unfolding scheduled
  scheduled-Consented args h =
      either e.catalog.manifest.confirmation_required _ _ (λ c. answers _)
        λ c. runs args (asks_first-manifest args h c)

  timed-Consented :
      (args : Args)
      → is_reminder_plugin e.catalog ≡ false
      → Consented (timed b t user_id e said args)
  unfolding timed
  timed-Consented args h =
      either (not (str_eq (string_arg_value args "start_time") "")) _ _
        (λ c. scheduled-Consented args h)
        λ c.
          either (is_recommendation_intent said || is_set (lookup recommendation_key args)) _ _
            (λ c. answers _)
            λ c.
              either (is_explicit_date_time said) _ _
                (λ c.
                  scheduled-Consented
                    (put "start_time"
                      (parse_explicit_meeting_time t.weekdays t.answered t.named said) args)
                    h)
                λ c. answers _

  invited-Consented :
      (args : Args) (o : Option String)
      → is_reminder_plugin e.catalog ≡ false
      → Consented (invited b t user_id e said args o)
  unfolding invited
  invited-Consented args (some name) h = answers _
  invited-Consented args none h = timed-Consented args h

  advance_google_calendar_meet-Consented :
      (args : Args)
      → is_reminder_plugin e.catalog ≡ false
      → Consented (advance_google_calendar_meet b t user_id e said args)
  unfolding advance_google_calendar_meet
  advance_google_calendar_meet-Consented given h =
      let args = normalize_google_calendar_meet_args given in
      let args =
        if is_recommendation_intent said
        then insert recommendation_key (flag true) args
        else args in
      invited-Consented args (next_missing_attendee_email args) h

  -- the location reminder plugin
  with_radius-Consented :
      (args : Args) (r : Result AppError Settings)
      → is_reminder_plugin e.catalog ≡ false
      → Consented (with_radius b t user_id e args r)
  unfolding with_radius
  with_radius-Consented args (err x) h = raise-IsConsented b user_id said p _
  with_radius-Consented args (ok settings) h =
      run_or_ask-Consented
        (insert "radius_meters" (integer settings.location_reminder_threshold_meters) args) h

  located-Consented :
      (x : String × String × Args)
      → is_reminder_plugin e.catalog ≡ false
      → Consented (located b t user_id e x)
  unfolding located IsConsented
  located-Consented (name, prompt, args) h w = elim (Bool-cases (str_eq name "")) [
    | inl found ↦
        let (r, settings) = get_or_create b.settings t.radius_at user_id w.settings in
        rw found (with_radius-Consented args r h (record w { settings = settings }))
    | inr asked ↦ rw asked (untouched, (refl, refl, refl, refl))
  ]

  advance_location_reminder-Consented :
      (args : Args)
      → is_reminder_plugin e.catalog ≡ false
      → Consented (advance_location_reminder b t user_id e args)
  unfolding advance_location_reminder
  advance_location_reminder-Consented args h =
      located-Consented
        (first_missing_location_reminder_argument (infer_location_reminder_from_text args)) h

  -- any other plugin
  advance_other-Consented :
      (args : Args)
      → is_reminder_plugin e.catalog ≡ false
      → Consented (advance_other b t user_id e args)
  unfolding advance_other checked_plugin
  advance_other-Consented args h =
      either (not (str_eq (first_missing_argument e.catalog.manifest.arguments args).0 "")) _ _
        (λ c. answers _) λ c. run_or_ask-Consented args h

  pub advance_plugin-Consented : (args : Args) → Consented (advance_plugin b t user_id e said args)
  unfolding advance_plugin
  advance_plugin-Consented args =
      either (is_reminder_plugin e.catalog) _ _ (advance_reminder-Consented args) λ h.
        either (is_google_calendar_meet_plugin e.catalog) _ _
          (λ c. advance_google_calendar_meet-Consented args h)
          λ h'.
            either (is_composio_ai_plugin e.catalog) _ _
              (λ c. runs (put "user_message" said (put "task" said args)) (composio_free _ h h' c))
              λ c.
                either (is_location_reminder_plugin e.catalog) _ _
                  (λ c. advance_location_reminder-Consented args h)
                  λ c. advance_other-Consented args h
