-- ===== src/Assistant/Wired.antt =====
-- internal/app/container.go: a conversation whose executor is the one of
-- internal/domain/assistant/executor.go. The settings that the executor reads stand in its own state.
mod Samples
use smart_assistant_api.Common.{
  ℕ, String, ◌≡◌, refl, Bool-cases, Option, Option-cases, inl, inr, none, some, str_eq,
}
use smart_assistant_api.Common.Results.{Result-cases}
use smart_assistant_api.Common.Exec.{ok, err}
use smart_assistant_api.Store.Contract.{Store, Contract}
use smart_assistant_api.AssistantSettings.{Settings, get_or_create}
use smart_assistant_api.Reminder.{Reminder, key, holds}
use smart_assistant_api.Reminder.Lifecycle.{user}
use smart_assistant_api.Reminder.Lifecycle.Methods.{IsKeyed, AllMove, stays}
use smart_assistant_api.Dynamic.{Args}
use smart_assistant_api.Assistant.Session.{PendingAction, session_status_active}
use smart_assistant_api.Assistant.Installed.{EligiblePlugin}
use smart_assistant_api.Assistant.WakeWord.{strip_wake_word}
use smart_assistant_api.Assistant.Conversation.{Backend, World, Clock}
use smart_assistant_api.Assistant.Conversation.Execution.{exec_args}
use smart_assistant_api.Assistant.Conversation.Messages.{
  ProcessMessageInput, heard, with_settings, with_session, process_message, load_owned_session,
}
use smart_assistant_api.Assistant.Conversation.Consent.{
  Consent, ran, untouched, agreed, confirmed, resumed, free,
}
use smart_assistant_api.Assistant.Conversation.Requests.{process_message-Consent}
use smart_assistant_api.Assistant.Builtin.Reminders.{ReminderClock}
use smart_assistant_api.Assistant.Executors.{Wiring, Scene, execute}
use smart_assistant_api.Assistant.Routing.{execute-AllMove}

-- the service, as the container puts it together
abbrev pub wired : Backend → Wiring → ReminderClock → Backend
wired b e t = record b { Outside = Scene e; execute = execute e t }

module _ (b : Backend) (e : Wiring) (t : ReminderClock) (c : Contract key holds e.reminders)
    (u : String) where
  -- the reminders of a world
  abbrev kept : World (wired b e t) → e.reminders.State
  kept w = w.outside.reminders

  module _ (w : World (wired b e t)) (keyed : IsKeyed (c.rows (kept w)))
      (fresh : c.rows (kept w) t.id ≡ none) where
    Owned : World (wired b e t) → Type 0
    Owned w' = AllMove c (user u) (kept w) (kept w')

    ran-Owned :
        (p : EligiblePlugin) (args : Args)
        → AllMove c (user u) (kept w) (ran (wired b e t) u p args w.outside).reminders
    unfolding exec_args
    ran-Owned p args = execute-AllMove e c u w.outside t keyed fresh p.catalog (exec_args p args)

    consent-Owned :
        (said : String) (q : Option PendingAction) (is : b.installs.State) (cs : b.catalog.State)
        (o : Scene e)
        → Consent (wired b e t) u said q is cs w.outside o
        → AllMove c (user u) (kept w) o.reminders
    consent-Owned said q is cs o untouched = λ j. stays c (user u) j _
    consent-Owned said q is cs o (agreed q' p _ _ _ _) = ran-Owned p q'.arguments
    consent-Owned said q is cs o (confirmed q' p _ _ _ _) = ran-Owned p _
    consent-Owned said q is cs o (resumed q' p _ _ _ _) = ran-Owned p _
    consent-Owned said q is cs o (free p args _) = ran-Owned p args

    module _ (k : Clock) (session_id : String) (given : ProcessMessageInput) where
      -- With the executor of executor.go, over a table of reminders that keeps the contract, has
      -- every reminder under its own id, and has none under the id that would be drawn next, a call
      -- of ProcessMessage by a user, on whatever session and with whatever utterance, classifier
      -- and Composio, changes each reminder at most as that user may change it: a new pending
      -- reminder of the user, the cancellation of one of the user's, or a mark of delivery or of
      -- the trigger on one of the user's; every other reminder is as it was.
      pub process_message-AllMove :
          AllMove c
            (user u)
            (kept w)
            (kept (process_message (wired b e t) k u session_id given w).1)
      unfolding process_message with_session with_settings heard
      process_message-AllMove =
          let b' = wired b e t in
          elim (Result-cases (load_owned_session b' u session_id w)) [
            | inr (x, owned) ↦ rw owned (λ j. stays c (user u) j _)
            | inl (s, owned) ↦
                elim (Result-cases (get_or_create b.settings k.settings_at u w.settings).0) [
                  | inr (x, found) ↦ elim (Bool-cases (str_eq s.status session_status_active)) [
                    | inl active ↦ rw (owned, active, found) (λ j. stays c (user u) j _)
                    | inr closed ↦ rw (owned, closed) (λ j. stays c (user u) j _)
                  ]
                  | inl (settings, found) ↦
                      elim (Option-cases
                        (strip_wake_word given.text settings.wake_word given.source)) [
                          | inl read ↦ elim (Bool-cases (str_eq s.status session_status_active)) [
                            | inl active ↦
                                rw (owned, active, found, read) (λ j. stays c (user u) j _)
                            | inr closed ↦ rw (owned, closed) (λ j. stays c (user u) j _)
                          ]
                          | inr (said, read) ↦
                              consent-Owned said s.pending_action w.installs w.catalog _ (
                                process_message-Consent b' k u session_id given w s settings said
                                  owned found read)
                        ]
                ]
          ]
