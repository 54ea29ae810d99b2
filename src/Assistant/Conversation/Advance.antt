-- ===== src/Assistant/Conversation/Advance.antt =====
-- internal/domain/assistant/service.go and google_calendar_meet.go: advancePlugin, which asks for what
-- is missing, asks for a confirmation, or runs the plugin.
use smart_assistant_api.Common.{
  String, Bool, true, false, not, ◌&&◌, ◌||◌, Option, none, some, str_eq, if◌then◌else◌,
}
use smart_assistant_api.Common.Assoc.{lookup, insert, erase}
use smart_assistant_api.Common.Exec.{Result, ok, err, Exec, pure, raise}
use smart_assistant_api.Dynamic.{Args, Argument, integer, flag, string_arg_value, put}
use smart_assistant_api.Response.{AppError}
use smart_assistant_api.Time.Civil.{jakarta}
use smart_assistant_api.Time.Format.{rfc3339}
use smart_assistant_api.AssistantSettings.{Settings, get_or_create}
use smart_assistant_api.Assistant.Session.{
  PendingAction, Reply, ReplyType, plain, follow_up, confirmation, pending, no_payload,
}
use smart_assistant_api.Assistant.Installed.{EligiblePlugin}
use smart_assistant_api.Assistant.Patterns.{is_recommendation_intent, is_explicit_date_time}
use smart_assistant_api.Assistant.ReminderArguments.{
  infer_reminder_operation, infer_reminder_filter, split_message_and_remind_at,
  normalize_reminder_args, first_missing_reminder_argument, reminder_needs_confirmation,
  confirmation_prompt_reminder,
}
use smart_assistant_api.Assistant.LocationArguments.{
  infer_location_reminder_from_text, first_missing_location_reminder_argument,
}
use smart_assistant_api.Assistant.MeetArguments.{
  internal_attendee_email_key, recommendation_key, normalize_google_calendar_meet_args,
  next_missing_attendee_email, string_slice_from_arg, email_collect_prompt, schedule_time_prompt,
  confirmation_prompt_google_calendar_meet, parse_explicit_meeting_time,
}
use smart_assistant_api.Assistant.Prompts.{first_missing_argument, confirmation_prompt}
use smart_assistant_api.Assistant.Conversation.{
  Backend, World, Clock, Failure, app, unexpected, Answer, SlotAnswer, slot, no_slot, failed,
  is_reminder_plugin, is_location_reminder_plugin, is_google_calendar_meet_plugin,
  is_composio_ai_plugin,
}
use smart_assistant_api.Assistant.Conversation.Execution.{about, execute_plugin}

-- a pending action that waits for an argument, and one that waits for a confirmation
abbrev pub waiting_for : EligiblePlugin → Args → String → PendingAction
waiting_for e args name = record {
  plugin_slug = e.catalog.slug;
  plugin_id = e.catalog.id;
  install_id = e.install.id;
  arguments = args;
  missing_argument = name;
  awaiting_confirmation = false;
  composio_session_id = "";
  composio_pending_kind = "";
  composio_prompt = "";
}

abbrev pub unconfirmed : EligiblePlugin → Args → PendingAction
unconfirmed e args = record (waiting_for e args "") { awaiting_confirmation = true }

abbrev pub asking : EligiblePlugin → ReplyType → String → Reply
asking e kind prompt = record {
  kind = kind;
  text = prompt;
  action = about e.catalog pending no_payload;
}

abbrev pub ask_for : EligiblePlugin → Args → String → String → Answer
ask_for e args name prompt = (asking e follow_up prompt, some (waiting_for e args name))

abbrev pub ask_to_confirm : EligiblePlugin → Args → String → Answer
ask_to_confirm e args prompt = (asking e confirmation prompt, some (unconfirmed e args))

abbrev pub saying : String → Reply
saying s = record { kind = plain; text = s; action = none }

abbrev pub is_set : Option Argument → Bool
is_set (some (flag b)) = b
is_set _ = false

-- the clause of a time that a message ends with, moved to its own argument
abbrev move_clause : Args → Option (String × String) → Option Args
move_clause args none = none
move_clause args (some (message, clause)) =
    some (if str_eq clause "" then args else put "remind_at" clause (put "message" message args))

unfoldable pub split_message : Args → Option Args
unfolding string_arg_value split_message_and_remind_at
split_message args =
    let message = string_arg_value args "message" in
    if not (str_eq message "") && str_eq (string_arg_value args "remind_at") ""
    then move_clause args (split_message_and_remind_at message)
    else some args

module _ (b : Backend) (t : Clock) (user_id : String) (e : EligiblePlugin) where
  -- the last steps of a plugin that may need a confirmation
  unfoldable pub run_or_ask : Args → Exec (World b) Failure Answer
  unfolding execute_plugin confirmation_prompt
  run_or_ask args =
      if e.catalog.manifest.confirmation_required
      then pure (ask_to_confirm e args (confirmation_prompt t.parsed t.shown e.catalog.name args))
      else execute_plugin b user_id e args

  -- advancePlugin for the reminder plugin, behind the inference of its operation
  unfoldable pub checked_reminder : String → String × String × Args → Exec (World b) Failure Answer
  unfolding execute_plugin confirmation_prompt_reminder
  checked_reminder operation (name, prompt, args) =
      if not (str_eq name "")
      then pure (ask_for e args name prompt)
      else if reminder_needs_confirmation operation
      then pure
          (ask_to_confirm e args (confirmation_prompt_reminder t.parsed t.shown operation args))
      else execute_plugin b user_id e args

  unfoldable pub normalized_reminder : String → Bool × String × Args → Exec (World b) Failure Answer
  unfolding checked_reminder first_missing_reminder_argument
  normalized_reminder operation (true, prompt, args) =
      checked_reminder operation (first_missing_reminder_argument operation args)
  normalized_reminder operation (false, prompt, args) = pure (ask_for e args "remind_at" prompt)

  -- the creation of a reminder, once its message is split; a slice may have been out of range
  unfoldable pub split_reminder : String → Option Args → Exec (World b) Failure Answer
  unfolding normalized_reminder normalize_reminder_args
  split_reminder operation none = raise (unexpected "panic: slice bounds out of range")
  split_reminder operation (some args) =
      normalized_reminder operation (normalize_reminder_args t.normalized args)

  unfoldable pub advance_reminder : String → Args → Exec (World b) Failure Answer
  unfolding split_reminder checked_reminder infer_reminder_operation infer_reminder_filter
      split_message first_missing_reminder_argument put
  advance_reminder said given =
      let operation = infer_reminder_operation said given in
      let args = put "operation" operation given in
      if str_eq operation "create"
      then split_reminder operation (split_message args)
      else (checked_reminder operation (
          first_missing_reminder_argument operation
            (if str_eq operation "list" then infer_reminder_filter said args else args)))

  -- recommendMeetingSlot
  abbrev recommended : Args → SlotAnswer → Answer
  unfolding rfc3339 erase put confirmation_prompt_google_calendar_meet
  recommended args no_slot = (
    saying
        "I couldn't find a mutual time in the next two weeks during working hours. Please try a different time or attendees.",
    none,
  )
  recommended args failed =
      (saying "I had trouble checking calendars. Please try again in a moment.", none)
  recommended args (slot at) =
      let args = erase recommendation_key (put "start_time" (rfc3339 jakarta at) args) in
      ask_to_confirm e args (confirmation_prompt_google_calendar_meet t.parsed args)

  unfoldable pub recommend_meeting_slot : Args → Answer
  unfolding recommended string_slice_from_arg
  recommend_meeting_slot args = elim b.availability [
    | none ↦ (saying "I can't look up availability right now. Please try again in a moment.", none)
    | some recommend ↦
        recommended args (recommend user_id (string_slice_from_arg args "attendee_emails"))
  ]

  -- advanceGoogleCalendarMeet, once the time is known
  unfoldable pub scheduled : Args → Exec (World b) Failure Answer
  unfolding execute_plugin confirmation_prompt_google_calendar_meet
  scheduled args =
      if e.catalog.manifest.confirmation_required
      then pure (ask_to_confirm e args (confirmation_prompt_google_calendar_meet t.parsed args))
      else execute_plugin b user_id e args

  unfoldable pub timed : String → Args → Exec (World b) Failure Answer
  unfolding scheduled string_arg_value lookup is_recommendation_intent is_explicit_date_time
      recommend_meeting_slot parse_explicit_meeting_time put schedule_time_prompt
  timed said args =
      if not (str_eq (string_arg_value args "start_time") "")
      then scheduled args
      else if is_recommendation_intent said || is_set (lookup recommendation_key args)
      then pure (recommend_meeting_slot args)
      else if is_explicit_date_time said
      then scheduled
          (put "start_time" (parse_explicit_meeting_time t.weekdays t.answered t.named said) args)
      else pure (ask_for e args "start_time" (schedule_time_prompt e.catalog.manifest.arguments))

  unfoldable pub invited : String → Args → Option String → Exec (World b) Failure Answer
  unfolding timed
  invited said args (some name) =
      pure (ask_for e args internal_attendee_email_key (email_collect_prompt name))
  invited said args none = timed said args

  unfoldable pub advance_google_calendar_meet : String → Args → Exec (World b) Failure Answer
  unfolding invited timed scheduled normalize_google_calendar_meet_args is_recommendation_intent
      insert next_missing_attendee_email
  advance_google_calendar_meet said given =
      let args = normalize_google_calendar_meet_args given in
      let args =
        if is_recommendation_intent said
        then insert recommendation_key (flag true) args
        else args in
      invited said args (next_missing_attendee_email args)

  -- advancePlugin for the location reminder plugin
  unfoldable pub with_radius : Args → Result AppError Settings → Exec (World b) Failure Answer
  unfolding run_or_ask insert
  with_radius args (err x) = raise (app x)
  with_radius args (ok settings) =
      run_or_ask (insert "radius_meters" (integer settings.location_reminder_threshold_meters) args)

  unfoldable pub located : String × String × Args → Exec (World b) Failure Answer
  unfolding with_radius get_or_create
  located (name, prompt, args) w =
      let (r, settings) = get_or_create b.settings t.radius_at user_id w.settings in
      if not (str_eq name "")
      then pure (ask_for e args name prompt) w
      else with_radius args r (record w { settings = settings })

  unfoldable pub advance_location_reminder : Args → Exec (World b) Failure Answer
  unfolding located with_radius run_or_ask infer_location_reminder_from_text
      first_missing_location_reminder_argument
  advance_location_reminder args =
      located (first_missing_location_reminder_argument (infer_location_reminder_from_text args))

  -- advancePlugin for any other plugin
  unfoldable pub checked_plugin : Args → String × String → Exec (World b) Failure Answer
  unfolding run_or_ask
  checked_plugin args (name, prompt) =
      if not (str_eq name "") then pure (ask_for e args name prompt) else run_or_ask args

  unfoldable pub advance_other : Args → Exec (World b) Failure Answer
  unfolding checked_plugin run_or_ask first_missing_argument
  advance_other args =
      checked_plugin args (first_missing_argument e.catalog.manifest.arguments args)

  -- advancePlugin
  unfoldable pub advance_plugin : String → Args → Exec (World b) Failure Answer
  unfolding advance_reminder advance_google_calendar_meet advance_location_reminder advance_other
      is_reminder_plugin is_google_calendar_meet_plugin is_composio_ai_plugin
      is_location_reminder_plugin execute_plugin put
  advance_plugin said args =
      if is_reminder_plugin e.catalog
      then advance_reminder said args
      else if is_google_calendar_meet_plugin e.catalog
      then advance_google_calendar_meet said args
      else if is_composio_ai_plugin e.catalog
      then execute_plugin b user_id e (put "user_message" said (put "task" said args))
      else if is_location_reminder_plugin e.catalog
      then advance_location_reminder args
      else advance_other args
