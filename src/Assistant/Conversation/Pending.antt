-- ===== src/Assistant/Conversation/Pending.antt =====
-- internal/domain/assistant/service.go and google_calendar_meet.go: a turn that answers a pending
-- action. The code writes to the arguments of the action; the new arguments are passed on here.
use Prim.Native.String.{◌++◌}
use smart_assistant_api.Common.{
  String, Bool, true, false, not, Option, none, some, str_eq, if◌then◌else◌,
}
use smart_assistant_api.Common.Assoc.{insert}
use smart_assistant_api.Common.Text.{trim_space}
use smart_assistant_api.Common.Exec.{Result, ok, err, Exec, pure, raise}
use smart_assistant_api.Dynamic.{Args, flag, put}
use smart_assistant_api.Response.{AppError}
use smart_assistant_api.Assistant.Session.{PendingAction, follow_up, confirmation}
use smart_assistant_api.Assistant.Installed.{EligiblePlugin, load_eligible_plugin}
use smart_assistant_api.Assistant.Patterns.{
  is_confirmation_yes, is_confirmation_no, is_recommendation_intent, is_explicit_date_time,
}
use smart_assistant_api.Assistant.ReminderArguments.{apply_reminder_follow_up}
use smart_assistant_api.Assistant.LocationArguments.{apply_location_reminder_follow_up}
use smart_assistant_api.Assistant.MeetArguments.{
  internal_attendee_email_key, append_attendee_email, schedule_time_prompt,
  parse_explicit_meeting_time,
}
use smart_assistant_api.Assistant.Prompts.{confirmation_prompt, quoted}
use smart_assistant_api.Assistant.Builtin.Prompts.{location_reminder_slug}
use smart_assistant_api.Assistant.Conversation.{
  Backend, World, Clock, Failure, app, unexpected, Answer, is_reminder_plugin,
  is_google_calendar_meet_plugin,
}
use smart_assistant_api.Assistant.Conversation.Execution.{execute_plugin}
use smart_assistant_api.Assistant.Conversation.Advance.{
  asking, saying, recommend_meeting_slot, advance_plugin,
}

abbrev pub declined : Answer
declined = (saying "Okay, I won't do that.", none)

-- an action without its missing argument, as the reminder plugin asks again for a time
abbrev ask_time_again : PendingAction → Args → PendingAction
ask_time_again p args = record {
  plugin_slug = p.plugin_slug;
  plugin_id = p.plugin_id;
  install_id = p.install_id;
  arguments = args;
  missing_argument = "remind_at";
  awaiting_confirmation = false;
  composio_session_id = "";
  composio_pending_kind = "";
  composio_prompt = "";
}

-- what handleComposioPendingAction adds to the arguments
unfoldable pub composio_args : PendingAction → String → Args
unfolding put trim_space
composio_args p said =
    put "user_message" (trim_space said)
      (put "composio_session_id" p.composio_session_id p.arguments)

abbrev composio_prompt_of : PendingAction → String
composio_prompt_of p =
    if str_eq p.composio_prompt "" then "Should I go ahead?" else p.composio_prompt

module _ (b : Backend) (t : Clock) (user_id : String) where
  -- handleComposioPendingAction
  unfoldable pub handle_composio_pending_action :
      EligiblePlugin → PendingAction → String → Exec (World b) Failure Answer
  unfolding composio_args execute_plugin is_confirmation_yes is_confirmation_no insert
  handle_composio_pending_action e p said =
      let args = composio_args p said in
      if str_eq p.composio_pending_kind "confirmation"
      then if is_confirmation_yes said
        then execute_plugin b user_id e (insert "confirmed" (flag true) args)
        else if is_confirmation_no said
        then pure declined
        else pure (asking e confirmation (composio_prompt_of p), some p)
      else execute_plugin b user_id e args

  -- handleGoogleCalendarMeetPending
  unfoldable pub handle_google_calendar_meet_pending :
      EligiblePlugin → PendingAction → String → Exec (World b) Failure Answer
  unfolding advance_plugin append_attendee_email is_recommendation_intent is_explicit_date_time
      recommend_meeting_slot parse_explicit_meeting_time put schedule_time_prompt
  handle_google_calendar_meet_pending e p said =
      if str_eq p.missing_argument internal_attendee_email_key
      then advance_plugin b t user_id e said (append_attendee_email said p.arguments)
      else if str_eq p.missing_argument "start_time"
      then if is_recommendation_intent said
        then pure (recommend_meeting_slot b t user_id e p.arguments)
        else if is_explicit_date_time said
        then advance_plugin b t user_id e said (
            put "start_time" (parse_explicit_meeting_time t.weekdays t.answered t.named said)
              p.arguments)
        else pure (asking e follow_up (schedule_time_prompt e.catalog.manifest.arguments), some p)
      else raise
          (unexpected ("unexpected google calendar meet pending arg " ++ quoted p.missing_argument))

  unfoldable pub answered_reminder :
      EligiblePlugin
      → PendingAction
      → String
      → Option (Bool × String × Args)
      → Exec (World b) Failure Answer
  unfolding advance_plugin
  answered_reminder e p said none = raise (unexpected "panic: slice bounds out of range")
  answered_reminder e p said (some (true, prompt, args)) = advance_plugin b t user_id e said args
  answered_reminder e p said (some (false, prompt, args)) =
      pure (asking e follow_up prompt, some (ask_time_again p args))

  unfoldable pub location_args : PendingAction → String → Bool × Args → Args
  unfolding put trim_space
  location_args p said (true, args) = args
  location_args p said (false, args) = put p.missing_argument (trim_space said) args

  -- the answer to a question for an argument
  unfoldable pub answer_missing :
      EligiblePlugin → PendingAction → String → Exec (World b) Failure Answer
  unfolding handle_google_calendar_meet_pending is_google_calendar_meet_plugin is_reminder_plugin
      advance_plugin location_args answered_reminder apply_location_reminder_follow_up
      apply_reminder_follow_up put trim_space
  answer_missing e p said =
      if is_google_calendar_meet_plugin e.catalog
      then handle_google_calendar_meet_pending e p said
      else if str_eq p.plugin_slug location_reminder_slug
      then advance_plugin b t user_id e said (
          location_args p said
            (apply_location_reminder_follow_up p.missing_argument said p.arguments))
      else if is_reminder_plugin e.catalog
      then answered_reminder e p said
          (apply_reminder_follow_up t.answered p.missing_argument said p.arguments)
      else advance_plugin b t user_id e said (put p.missing_argument (trim_space said) p.arguments)

  -- the answer to a question for a confirmation
  unfoldable pub answer_confirmation :
      EligiblePlugin → PendingAction → String → Exec (World b) Failure Answer
  unfolding is_confirmation_yes is_confirmation_no execute_plugin confirmation_prompt
  answer_confirmation e p said =
      if is_confirmation_yes said
      then execute_plugin b user_id e p.arguments
      else if is_confirmation_no said
      then pure declined
      else pure (
        asking e confirmation (confirmation_prompt t.parsed t.shown e.catalog.name p.arguments),
        some p,
      )

  unfoldable pub handle_loaded :
      PendingAction → String → EligiblePlugin → Exec (World b) Failure Answer
  unfolding handle_composio_pending_action answer_confirmation answer_missing advance_plugin
  handle_loaded p said e =
      if not (str_eq p.composio_session_id "")
      then handle_composio_pending_action e p said
      else if p.awaiting_confirmation
      then answer_confirmation e p said
      else if not (str_eq p.missing_argument "")
      then answer_missing e p said
      else advance_plugin b t user_id e said p.arguments

  unfoldable pub with_eligible :
      PendingAction → String → Result AppError EligiblePlugin → Exec (World b) Failure Answer
  unfolding handle_loaded
  with_eligible p said (err x) = raise (app x)
  with_eligible p said (ok e) = handle_loaded p said e

  -- handlePendingAction
  unfoldable pub handle_pending_action : PendingAction → String → Exec (World b) Failure Answer
  unfolding with_eligible load_eligible_plugin
  handle_pending_action p said w =
      with_eligible p said
        (load_eligible_plugin b.installs b.catalog user_id p.plugin_id p.install_id w.installs
          w.catalog)
        w
