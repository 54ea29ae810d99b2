-- ===== src/Assistant/Conversation/Messages.antt =====
-- internal/domain/assistant/service.go: CreateSession, ProcessMessage and ListMessages.
use smart_assistant_api.Common.{ℕ, String, not, Option, none, some, List, str_eq, if◌then◌else◌}
use smart_assistant_api.Common.Text.{trim_space}
use smart_assistant_api.Common.Exec.{Result, ok, err, Exec, raise, ◌>>=◌, ◌>>◌}
use smart_assistant_api.Response.{AppError, bad_request, forbidden, not_found, internal, invalid}
use smart_assistant_api.Store.Contract.{StoreError, missing, failure}
use smart_assistant_api.AssistantSettings.{Settings, get_or_create}
use smart_assistant_api.Assistant.Session.{
  Session, Message, PendingAction, Reply, ReplyType, ActionInfo, MessageHistoryItem,
  to_message_history, find_by_session_id, session_status_active, role_user, role_assistant,
}
use smart_assistant_api.Assistant.WakeWord.{strip_wake_word}
use smart_assistant_api.Assistant.Conversation.{
  Backend, World, Clock, Failure, app, unexpected, Answer,
}
use smart_assistant_api.Assistant.Conversation.Pending.{handle_pending_action}
use smart_assistant_api.Assistant.Conversation.Classification.{classify_and_execute}

-- ProcessMessageInput
pub record ProcessMessageInput : Type 0 where
  pub text : String
  pub source : String

-- ProcessMessageResponse
pub record ProcessMessageResponse : Type 0 where
  pub session_id : String
  pub reply : Reply
  pub session_status : String

abbrev pub new_session : String → String → ℕ → Session
new_session id user_id now = record {
  id = id;
  user_id = user_id;
  status = session_status_active;
  pending_action = none;
  created_at = now;
  updated_at = now;
}

abbrev pub new_message :
    String → ℕ → String → String → String → Option (ReplyType × Option ActionInfo) → Message
new_message id now session_id role content metadata = record {
  id = id;
  session_id = session_id;
  role = role;
  content = content;
  metadata = metadata;
  created_at = now;
}

-- the session at the end of a turn
abbrev pub after_turn : Session → Option PendingAction → ℕ → Session
after_turn s p now = record s {
  pending_action = p;
  status = session_status_active;
  updated_at = now;
}

abbrev started : String → Result StoreError (Unit {0}) → Result Failure String
started id (ok u) = ok id
started id (err x) = err (app (internal "failed to create session"))

abbrev pub persisted : Result StoreError (Unit {0}) → Result Failure (Unit {0})
persisted (ok u) = ok u
persisted (err x) = err (app (internal "failed to persist message"))

module _ (b : Backend) where
  -- CreateSession, with the id that uuid.NewString() returns
  unfoldable pub create_session : String → ℕ → String → Exec (World b) Failure String
  create_session id now user_id w =
      let (r, sessions) = b.sessions.create (new_session id user_id now) w.sessions in
      (started id r, record w { sessions = sessions })

  abbrev owned_session : String → Result StoreError Session → Result AppError Session
  owned_session user_id (err missing) = err (not_found "session not found")
  owned_session user_id (err failure) = err (internal "failed to load session")
  owned_session user_id (ok s) =
      if not (str_eq s.user_id user_id)
      then err (forbidden "cannot access another user's session")
      else ok s

  -- loadOwnedSession
  unfoldable pub load_owned_session : String → String → World b → Result AppError Session
  load_owned_session user_id session_id w =
      owned_session user_id (b.sessions.find_by_id session_id w.sessions)

  -- persistMessage
  unfoldable pub persist_message : Message → Exec (World b) Failure (Unit {0})
  persist_message m w =
      let (r, messages) = b.messages.create m w.messages in
      (persisted r, record w { messages = messages })

  -- ListMessages
  abbrev listed : Result StoreError (List Message) → Result AppError (List MessageHistoryItem)
  unfolding to_message_history
  listed (err _) = err (internal "failed to load messages")
  listed (ok msgs) = ok (to_message_history msgs)

  unfoldable pub list_owned :
      String → World b → Result AppError Session → Result AppError (List MessageHistoryItem)
  unfolding listed find_by_session_id
  list_owned session_id w (err x) = err x
  list_owned session_id w (ok s) = listed (find_by_session_id b.messages session_id w.messages)

  unfoldable pub list_messages :
      String → String → World b → Result AppError (List MessageHistoryItem)
  unfolding list_owned load_owned_session
  list_messages user_id session_id w =
      list_owned session_id w (load_owned_session user_id session_id w)

  module _ (t : Clock) (user_id session_id : String) where
    -- orchestrate
    unfoldable pub orchestrate_with : String → Option PendingAction → Exec (World b) Failure Answer
    unfolding handle_pending_action classify_and_execute
    orchestrate_with said (some p) = handle_pending_action b t user_id p said
    orchestrate_with said none = classify_and_execute b t user_id session_id said

    unfoldable pub orchestrate : Session → String → Exec (World b) Failure Answer
    unfolding orchestrate_with
    orchestrate s said = orchestrate_with said s.pending_action

    -- the last steps of ProcessMessage: the session is saved and the reply is written
    abbrev pub replied : Reply → Result Failure (Unit {0}) → Result Failure ProcessMessageResponse
    replied r (err x) = err x
    replied r (ok u) =
        ok (record { session_id = session_id; reply = r; session_status = session_status_active })

    unfoldable pub write_reply : Reply → Exec (World b) Failure ProcessMessageResponse
    unfolding persist_message
    write_reply r w =
        let m =
          new_message t.replied_id t.replied_at session_id role_assistant r.text
            (some (r.kind, r.action)) in
        let (x, w) = persist_message m w in (replied r x, w)

    unfoldable pub saved :
        Reply → Result StoreError (Unit {0}) → Exec (World b) Failure ProcessMessageResponse
    unfolding write_reply
    saved r (ok u) = write_reply r
    saved r (err x) = raise (app (internal "failed to update session"))

    unfoldable pub finish_turn :
        Session → Reply → Option PendingAction → Exec (World b) Failure ProcessMessageResponse
    unfolding saved write_reply
    finish_turn s r p w =
        let (x, sessions) = b.sessions.update session_id (after_turn s p t.saved_at) w.sessions in
        saved r x (record w { sessions = sessions })

    unfoldable pub finish : Session → Answer → Exec (World b) Failure ProcessMessageResponse
    unfolding finish_turn
    finish s (r, p) = finish_turn s r p

    -- the part of ProcessMessage behind the checks
    unfoldable pub take_turn : Session → String → Exec (World b) Failure ProcessMessageResponse
    unfolding persist_message orchestrate finish
    take_turn s said =
        persist_message (new_message t.heard_id t.heard_at session_id role_user said none)
        >> orchestrate s said
        >>= finish s

    unfoldable pub heard : Session → Option String → Exec (World b) Failure ProcessMessageResponse
    unfolding take_turn trim_space
    heard s none = raise (unexpected "panic: index out of range")
    heard s (some said) =
        if str_eq (trim_space said) ""
        then raise (app (invalid "text" "must not be empty after wake word removal"))
        else take_turn s said

    unfoldable pub with_settings :
        ProcessMessageInput
        → Session
        → Result AppError Settings
        → Exec (World b) Failure ProcessMessageResponse
    unfolding heard strip_wake_word
    with_settings given s (err x) = raise (app x)
    with_settings given s (ok settings) =
        heard s (strip_wake_word given.text settings.wake_word given.source)

    unfoldable pub with_session :
        ProcessMessageInput
        → Result AppError Session
        → Exec (World b) Failure ProcessMessageResponse
    unfolding with_settings get_or_create
    with_session given (err x) w = (err (app x), w)
    with_session given (ok s) w =
        let (r, settings) = get_or_create b.settings t.settings_at user_id w.settings in
        if not (str_eq s.status session_status_active)
        then (err (app (bad_request "session is not active")), w)
        else with_settings given s r (record w { settings = settings })

    -- ProcessMessage; a panic of stripWakeWord is an unexpected failure
    unfoldable pub process_message :
        ProcessMessageInput → Exec (World b) Failure ProcessMessageResponse
    unfolding with_session load_owned_session
    process_message given w = with_session given (load_owned_session user_id session_id w) w
