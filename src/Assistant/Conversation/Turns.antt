-- ===== src/Assistant/Conversation/Turns.antt =====
-- internal/domain/assistant/service.go: what ProcessMessage lets a plugin do, and when.
use smart_assistant_api.Common.{
  String, ◌≡◌, refl, sym, ◌∙◌, Bool, true, false, not, Option, none, some, [], ◌∷◌, List, arith,
  str_eq, if◌then◌else◌, Option-cases, inl, inr, ◌||◌, map,
}
use smart_assistant_api.Common.Assoc.{insert}
use smart_assistant_api.Common.Results.{Result-cases}
use smart_assistant_api.Common.Text.{trim_space}
use smart_assistant_api.Common.Exec.{Result, ok, err, Exec, pure}
use smart_assistant_api.Dynamic.{Args, put, flag}
use smart_assistant_api.Response.{AppError}
use smart_assistant_api.Store.Contract.{StoreError}
use smart_assistant_api.Assistant.Session.{Session, Message, PendingAction, find_by_session_id}
use smart_assistant_api.Assistant.Installed.{
  EligiblePlugin, PluginInstallState, load_eligible_plugin, list_installed_plugin_states,
}
use smart_assistant_api.Assistant.Builtin.Prompts.{location_reminder_slug}
use smart_assistant_api.Assistant.Patterns.{
  is_confirmation_yes, is_confirmation_no, is_recommendation_intent, is_explicit_date_time,
}
use smart_assistant_api.Assistant.ReminderArguments.{apply_reminder_follow_up}
use smart_assistant_api.Assistant.LocationArguments.{apply_location_reminder_follow_up}
use smart_assistant_api.Assistant.MeetArguments.{
  internal_attendee_email_key, append_attendee_email, parse_explicit_meeting_time,
}
use smart_assistant_api.Assistant.Conversation.{
  Backend, World, Clock, Failure, Answer, ClassifyResult, is_reminder_plugin,
  is_google_calendar_meet_plugin,
}
use smart_assistant_api.Assistant.Conversation.Execution.{execute_plugin}
use smart_assistant_api.Assistant.Conversation.Advance.{advance_plugin}
use smart_assistant_api.Assistant.Conversation.Pending.{
  composio_args, handle_composio_pending_action, handle_google_calendar_meet_pending,
  answered_reminder, location_args, answer_missing, answer_confirmation, handle_loaded,
  with_eligible, handle_pending_action,
}
use smart_assistant_api.Assistant.Conversation.Classification.{
  with_match, with_slug, classified, with_recent, with_plugins, eligible_plugins, with_states,
  classify_and_execute, candidate, recent_turns,
}
use smart_assistant_api.Assistant.Conversation.Messages.{orchestrate, orchestrate_with}
use smart_assistant_api.Assistant.Conversation.Consent.{
  ConsentAt, IsConsented, if-IsConsented, pure-IsConsented, raise-IsConsented, untouched, agreed,
  confirmed, resumed,
}
use smart_assistant_api.Assistant.Conversation.Consented.{advance_plugin-Consented}

module _ (b : Backend) (t : Clock) (user_id said : String) (p : Option PendingAction) where
  abbrev Consented : Exec (World b) Failure Answer → Type 0
  Consented m = IsConsented b user_id said p m

  answers : (a : Answer) → Consented (pure a)
  answers = pure-IsConsented b user_id said p

  either :
      (c : Bool) (m n : Exec (World b) Failure Answer)
      → (c ≡ true → Consented m)
      → (c ≡ false → Consented n)
      → Consented (if c then m else n)
  either = if-IsConsented b user_id said p

  advances : (e : EligiblePlugin) (args : Args) → Consented (advance_plugin b t user_id e said args)
  advances = advance_plugin-Consented b t user_id said p

  -- the answer to a question for an argument
  handle_google_calendar_meet_pending-Consented :
      (e : EligiblePlugin) (q : PendingAction)
      → Consented (handle_google_calendar_meet_pending b t user_id e q said)
  unfolding handle_google_calendar_meet_pending
  handle_google_calendar_meet_pending-Consented e q =
      either (str_eq q.missing_argument internal_attendee_email_key) _ _
        (λ c. advances e (append_attendee_email said q.arguments))
        λ c.
          either (str_eq q.missing_argument "start_time") _ _
            (λ c.
              either (is_recommendation_intent said) _ _ (λ c. answers _)
                λ c.
                  either (is_explicit_date_time said) _ _
                    (λ c. advances e (
                      put "start_time"
                        (parse_explicit_meeting_time t.weekdays t.answered t.named said)
                        q.arguments))
                    λ c. answers _)
            λ c. raise-IsConsented b user_id said p _

  answered_reminder-Consented :
      (e : EligiblePlugin) (q : PendingAction) (x : Option (Bool × String × Args))
      → Consented (answered_reminder b t user_id e q said x)
  unfolding answered_reminder
  answered_reminder-Consented e q none = raise-IsConsented b user_id said p _
  answered_reminder-Consented e q (some (true, prompt, args)) = advances e args
  answered_reminder-Consented e q (some (false, prompt, args)) = answers _

  answer_missing-Consented :
      (e : EligiblePlugin) (q : PendingAction) → Consented (answer_missing b t user_id e q said)
  unfolding answer_missing
  answer_missing-Consented e q =
      either (is_google_calendar_meet_plugin e.catalog) _ _
        (λ c. handle_google_calendar_meet_pending-Consented e q)
        λ c.
          either (str_eq q.plugin_slug location_reminder_slug) _ _
            (λ c. advances e (
              location_args b t user_id q said
                (apply_location_reminder_follow_up q.missing_argument said q.arguments)))
            λ c.
              either (is_reminder_plugin e.catalog) _ _
                (λ c.
                  answered_reminder-Consented e q
                    (apply_reminder_follow_up t.answered q.missing_argument said q.arguments))
                λ c. advances e (put q.missing_argument (trim_space said) q.arguments)

  module _ (w : World b) (q : PendingAction) (e : EligiblePlugin) (there : p ≡ some q)
      (loaded : load_eligible_plugin b.installs b.catalog user_id q.plugin_id q.install_id
          w.installs w.catalog
        ≡ ok e) where
    Keeps : Exec (World b) Failure Answer → Type 0
    Keeps m = ConsentAt b user_id said p w (m w).1

    pure-Keeps : (a : Answer) → Keeps (pure a)
    unfolding Keeps
    pure-Keeps a = (untouched, (refl, refl, refl, refl))

    if-Keeps :
        (c : Bool) (m n : Exec (World b) Failure Answer)
        → (c ≡ true → Keeps m)
        → (c ≡ false → Keeps n)
        → Keeps (if c then m else n)
    if-Keeps true m n h k = h refl
    if-Keeps false m n h k = k refl

    Consented-Keeps : (m : Exec (World b) Failure Answer) → Consented m → Keeps m
    unfolding Keeps IsConsented
    Consented-Keeps m h = h w

    confirmed-Keeps :
        str_eq q.composio_session_id "" ≡ false
        → is_confirmation_yes said ≡ true
        → Keeps (execute_plugin b user_id e (insert "confirmed" (flag true) (composio_args q said)))
    unfolding Keeps execute_plugin
    confirmed-Keeps c accepted = (confirmed q e there loaded c accepted, (refl, refl, refl, refl))

    resumed-Keeps :
        str_eq q.composio_session_id "" ≡ false
        → str_eq q.composio_pending_kind "confirmation" ≡ false
        → Keeps (execute_plugin b user_id e (composio_args q said))
    unfolding Keeps execute_plugin
    resumed-Keeps c k = (resumed q e there loaded c k, (refl, refl, refl, refl))

    agreed-Keeps :
        q.awaiting_confirmation ≡ true
        → is_confirmation_yes said ≡ true
        → Keeps (execute_plugin b user_id e q.arguments)
    unfolding Keeps execute_plugin
    agreed-Keeps c accepted = (agreed q e there loaded c accepted, (refl, refl, refl, refl))

    handle_composio_pending_action-Keeps :
        str_eq q.composio_session_id "" ≡ false
        → Keeps (handle_composio_pending_action b t user_id e q said)
    unfolding handle_composio_pending_action
    handle_composio_pending_action-Keeps c =
        if-Keeps (str_eq q.composio_pending_kind "confirmation") _ _
          (λ k. if-Keeps (is_confirmation_yes said) _ _ (confirmed-Keeps c) λ other.
            if-Keeps (is_confirmation_no said) _ _ (λ refused. pure-Keeps _)
              λ unclear. pure-Keeps _)
          (resumed-Keeps c)

    answer_confirmation-Keeps :
        q.awaiting_confirmation ≡ true → Keeps (answer_confirmation b t user_id e q said)
    unfolding answer_confirmation
    answer_confirmation-Keeps c = if-Keeps (is_confirmation_yes said) _ _ (agreed-Keeps c) λ other.
        if-Keeps (is_confirmation_no said) _ _ (λ refused. pure-Keeps _) λ unclear. pure-Keeps _

    handle_loaded-Keeps : Keeps (handle_loaded b t user_id q said e)
    unfolding handle_loaded
    handle_loaded-Keeps =
        if-Keeps (not (str_eq q.composio_session_id "")) _ _
          (λ c. handle_composio_pending_action-Keeps (ground arith))
          λ c. if-Keeps q.awaiting_confirmation _ _ answer_confirmation-Keeps λ k.
            if-Keeps (not (str_eq q.missing_argument "")) _ _
              (λ asked. Consented-Keeps _ (answer_missing-Consented e q))
              λ filled. Consented-Keeps _ (advances e q.arguments)

  handle_pending_action-Consented :
      (q : PendingAction) → p ≡ some q → Consented (handle_pending_action b t user_id q said)
  unfolding handle_pending_action with_eligible IsConsented Keeps
  handle_pending_action-Consented q there w =
      elim (Result-cases (
        load_eligible_plugin b.installs b.catalog user_id q.plugin_id q.install_id w.installs
          w.catalog)) [
            | inl (e, loaded) ↦ rw loaded (handle_loaded-Keeps w q e there loaded)
            | inr (x, refused) ↦ rw refused (untouched, (refl, refl, refl, refl))
          ]

  module _ (session_id : String) where
    with_match-Consented :
        (r : ClassifyResult) (o : Option EligiblePlugin)
        → Consented (with_match b t user_id session_id said r o)
    unfolding with_match
    with_match-Consented r none = answers _
    with_match-Consented r (some e) = advances e r.arguments

    classified-Consented :
        (es : List EligiblePlugin) (r : Result (Unit {0}) (Option ClassifyResult))
        → Consented (classified b t user_id session_id said es r)
    unfolding classified
    classified-Consented es (err x) = answers _
    classified-Consented es (ok none) = answers _
    classified-Consented es (ok (some r)) =
        either (not r.matched || str_eq r.plugin_slug "") _ _ (λ c. answers _)
          λ c. with_match-Consented r (with_slug r.plugin_slug es)

    with_recent-Consented :
        (es : List EligiblePlugin) (r : Result StoreError (List Message))
        → Consented (with_recent b t user_id session_id said es r)
    unfolding with_recent
    with_recent-Consented es (err x) = raise-IsConsented b user_id said p _
    with_recent-Consented es (ok msgs) = classified-Consented es (
        b.classify (record {
          text = said;
          plugins = map candidate es;
          recent_messages = recent_turns said msgs;
        }))

    with_plugins-Consented :
        (sts : List PluginInstallState) (es : List EligiblePlugin)
        → Consented (with_plugins b t user_id session_id said sts es)
    unfolding with_plugins IsConsented
    with_plugins-Consented sts [] w = (untouched, (refl, refl, refl, refl))
    with_plugins-Consented sts (e ∷ es) w =
        with_recent-Consented (e ∷ es) (find_by_session_id b.messages session_id w.messages) w

    with_states-Consented :
        (r : Result AppError (List PluginInstallState))
        → Consented (with_states b t user_id session_id said r)
    unfolding with_states
    with_states-Consented (err x) = raise-IsConsented b user_id said p _
    with_states-Consented (ok []) = answers _
    with_states-Consented (ok (st ∷ sts)) =
        with_plugins-Consented (st ∷ sts) (eligible_plugins (st ∷ sts))

    pub orchestrate-Consented :
        (s : Session) → s.pending_action ≡ p → Consented (orchestrate b t user_id session_id s said)
    unfolding orchestrate orchestrate_with classify_and_execute IsConsented
    orchestrate-Consented s h w = elim (Option-cases s.pending_action) [
      | inl fresh ↦ rw fresh (
          with_states-Consented
            (list_installed_plugin_states b.installs b.catalog user_id w.installs w.catalog) w)
      | inr (q, found) ↦ rw found (handle_pending_action-Consented q (sym h ∙ found) w)
    ]
