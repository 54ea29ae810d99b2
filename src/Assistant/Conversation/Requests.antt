-- ===== src/Assistant/Conversation/Requests.antt =====
-- internal/domain/assistant/service.go: what a call of ProcessMessage does, from its first check to the
-- reply that it writes.
use smart_assistant_api.Common.{
  String, ◌≡◌, ◌≢◌, ◌⊎◌, refl, false, none, some, arith, str_eq, eq_iff, Bool-cases, inl, inr,
}
use smart_assistant_api.Common.Results.{Result-cases}
use smart_assistant_api.Common.Text.{trim_space}
use smart_assistant_api.Common.Exec.{ok, err}
use smart_assistant_api.Response.{AppError, forbidden, internal}
use smart_assistant_api.Store.Contract.{Contract}
use smart_assistant_api.AssistantSettings.{Settings, get_or_create}
use smart_assistant_api.Assistant.Session.{
  Session, session_key, session_holds, session_status_active, role_user,
}
use smart_assistant_api.Assistant.WakeWord.{strip_wake_word}
use smart_assistant_api.Assistant.Conversation.{Backend, World, Clock, app, Answer}
use smart_assistant_api.Assistant.Conversation.Messages.{
  ProcessMessageInput, new_message, after_turn, persist_message, orchestrate, write_reply, saved,
  finish_turn, finish, take_turn, heard, with_settings, with_session, process_message,
  load_owned_session, list_messages, list_owned,
}
use smart_assistant_api.Assistant.Conversation.Consent.{Consent, IsConsented, untouched}
use smart_assistant_api.Assistant.Conversation.Turns.{orchestrate-Consented}

module _ (b : Backend) where
  module _ (t : Clock) (user_id session_id : String) where
    finish-outside :
        (s : Session) (a : Answer) (w : World b)
        → (finish b t user_id session_id s a w).1.outside ≡ w.outside
    unfolding finish finish_turn saved write_reply persist_message
    finish-outside s (r, p) w =
        elim (Result-cases
          (b.sessions.update session_id (after_turn s p t.saved_at) w.sessions).0) [
            | inl (u, h) ↦ rw h refl
            | inr (x, h) ↦ rw h refl
          ]

    take_turn-Consent :
        (s : Session) (said : String) (w : World b)
        → Consent b user_id said s.pending_action w.installs w.catalog w.outside
            (take_turn b t user_id session_id s said w).1.outside
    unfolding take_turn persist_message IsConsented
    take_turn-Consent s said w =
        let m = new_message t.heard_id t.heard_at session_id role_user said none in
        let w1 = record w { messages = (b.messages.create m w.messages).1 } in
        let planned =
          (orchestrate-Consented b t user_id said s.pending_action session_id s refl w1).0 in
        elim (Result-cases (b.messages.create m w.messages).0) [
          | inl (u, h) ↦ elim (Result-cases (orchestrate b t user_id session_id s said w1).0) [
            | inl (a, h') ↦
                rw (h, h', finish-outside s a (orchestrate b t user_id session_id s said w1).1)
                  planned
            | inr (x, h') ↦ rw (h, h') planned
          ]
          | inr (x, h) ↦ rw h untouched
        ]

    -- When the session is the caller's, the settings load and stripWakeWord yields an utterance,
    -- ProcessMessage acts on the outside of the service at most by one call of the executor: with
    -- the stored arguments of the pending action, of an install that loads as eligible, when the
    -- action awaits a confirmation and the utterance is a yes; to go on with a pending Composio
    -- session, with a yes where that asks for a confirmation; or, whether the utterance answers a
    -- question or was classified, of a plugin that needs no confirmation with these arguments: a
    -- reminder operation other than create and delete, Composio's plugin, or a manifest that
    -- requires none. Otherwise the outside is left as it was.
    pub process_message-Consent :
        (given : ProcessMessageInput) (w : World b) (s : Session) (settings : Settings)
        (said : String)
        → load_owned_session b user_id session_id w ≡ ok s
        → (get_or_create b.settings t.settings_at user_id w.settings).0 ≡ ok settings
        → strip_wake_word given.text settings.wake_word given.source ≡ some said
        → Consent b user_id said s.pending_action w.installs w.catalog w.outside
            (process_message b t user_id session_id given w).1.outside
    unfolding process_message with_session with_settings heard
    process_message-Consent given w s settings said owned found read =
        let store = (get_or_create b.settings t.settings_at user_id w.settings).1 in
        elim (Bool-cases (str_eq s.status session_status_active)) [
          | inl active ↦ elim (Bool-cases (str_eq (trim_space said) "")) [
            | inl blank ↦ rw (owned, active, found, read, blank) untouched
            | inr worded ↦
                rw (owned, active, found, read, worded)
                  (take_turn-Consent s said (record w { settings = store }))
          ]
          | inr closed ↦ rw (owned, closed) untouched
        ]

-- The error of a call on a session that the caller may not use, or that could not be loaded.
abbrev pub IsRefusal : AppError → Type 0
IsRefusal x =
    (x ≡ forbidden "cannot access another user's session") ⊎ (x ≡ internal "failed to load session")

module _ {b : Backend} (c : Contract session_key session_holds b.sessions) (t : Clock)
    (user_id session_id : String) (w : World b) (s : Session)
    (there : c.rows w.sessions session_id ≡ some s) (foreign : s.user_id ≢ user_id) where
  not_mine : str_eq s.user_id user_id ≡ false
  not_mine = ground (arith, eq_iff s.user_id user_id)

  load_refused : (x : AppError) × IsRefusal x × (load_owned_session b user_id session_id w ≡ err x)
  unfolding load_owned_session
  load_refused = elim (c.find_by_id_law session_id w.sessions) [
    | inl h ↦ (_, inl refl, rw (h, there, not_mine) refl)
    | inr h ↦ (_, inr refl, rw h refl)
  ]

  -- Over a store of sessions that keeps the contract, ProcessMessage and ListMessages on a session
  -- of another user fail with the same error, which says that the session is another user's or that
  -- it could not be loaded, and nothing changes.
  pub process_message-foreign :
      (given : ProcessMessageInput)
      → (x : AppError) × IsRefusal x
        × (process_message b t user_id session_id given w ≡ (err (app x), w))
        × (list_messages b user_id session_id w ≡ err x)
  unfolding process_message with_session list_messages list_owned
  process_message-foreign given =
      let (x, kind, refused) = load_refused in (x, kind, rw refused refl, rw refused refl)
