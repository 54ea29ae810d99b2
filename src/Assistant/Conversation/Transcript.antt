-- ===== src/Assistant/Conversation/Transcript.antt =====
-- internal/domain/assistant/service.go: what a successful call of ProcessMessage leaves in the tables of
-- sessions and messages.
use smart_assistant_api.Common.{
  ◌∙◌, String, ◌≡◌, refl, sym, ap, subst, Option, none, some, str_eq, Bool-cases, inl, inr,
}
use smart_assistant_api.Common.Results.{Result-cases}
use smart_assistant_api.Common.Text.{trim_space}
use smart_assistant_api.Common.Exec.{Result, ok, err}
use smart_assistant_api.Store.Contract.{Put, Contract}
use smart_assistant_api.AssistantSettings.{Settings, get_or_create}
use smart_assistant_api.Assistant.Session.{
  Session, Message, PendingAction, Reply, session_key, session_holds, message_key, message_holds,
  session_status_active, role_user, role_assistant,
}
use smart_assistant_api.Assistant.WakeWord.{strip_wake_word}
use smart_assistant_api.Assistant.Conversation.{Backend, World, Clock, Failure}
use smart_assistant_api.Assistant.Conversation.Messages.{
  ProcessMessageInput, ProcessMessageResponse, new_message, after_turn, persist_message,
  orchestrate, persisted, write_reply, saved, finish_turn, finish, take_turn, heard, with_settings,
  with_session, process_message, load_owned_session,
}
use smart_assistant_api.Assistant.Conversation.Consent.{IsConsented}
use smart_assistant_api.Assistant.Conversation.Turns.{orchestrate-Consented}

reply_of : Reply → Result Failure ProcessMessageResponse → Reply
reply_of d (ok r) = r.reply
reply_of d (err x) = d

module _ (b : Backend) (cs : Contract session_key session_holds b.sessions)
    (cm : Contract message_key message_holds b.messages) where
  -- a message is stored, when it could be
  stored :
      (m : Message) (ms : b.messages.State)
      → persisted (b.messages.create m ms).0 ≡ ok tt
      → Put m.id m (cm.rows ms) (cm.rows (b.messages.create m ms).1)
  stored m ms h = elim (cm.create_law m ms) [
    | inl (r, put) ↦ put
    | inr (r, same) ↦ absurd (let h' = rw r at h in cc)
  ]

  updated :
      (i : String) (s : Session) (ss : b.sessions.State)
      → (b.sessions.update i s ss).0 ≡ ok tt
      → Put i s (cs.rows ss) (cs.rows (b.sessions.update i s ss).1)
  updated i s ss h = elim (cs.update_law i s ss) [
    | inl (there, r, put) ↦ put
    | inr (inl (absent, r, same)) ↦ absurd (cc)
    | inr (inr (r, same)) ↦ absurd (cc)
  ]

  module _ (t : Clock) (user_id session_id : String) where
    abbrev reply_message : Reply → Message
    reply_message r =
        new_message t.replied_id t.replied_at session_id role_assistant r.text
          (some (r.kind, r.action))

    -- What a turn leaves: the two messages, one after the other, and the session.
    pub record IsTurn (s : Session) (said : String) (w w' : World b) (r : ProcessMessageResponse)
        : Type 0 where
      pub at : World b
      pub pending : Option PendingAction
      pub same : (at.installs ≡ w.installs) × (at.catalog ≡ w.catalog) × (at.outside ≡ w.outside)
      pub planned : (orchestrate b t user_id session_id s said at).0 ≡ ok (r.reply, pending)
      pub asked :
          Put t.heard_id
            (new_message t.heard_id t.heard_at session_id role_user said none)
            (cm.rows w.messages)
            (cm.rows at.messages)
      pub answered :
          Put t.replied_id (reply_message r.reply) (cm.rows at.messages) (cm.rows w'.messages)
      pub session :
          Put session_id
            (record s {
              pending_action = pending;
              status = session_status_active;
              updated_at = t.saved_at;
            })
            (cs.rows w.sessions)
            (cs.rows w'.sessions)

    written :
        (reply : Reply) (w w' : World b) (r : ProcessMessageResponse)
        → write_reply b t user_id session_id reply w ≡ (ok r, w')
        → (r.reply ≡ reply)
          × (w'.sessions ≡ w.sessions)
          × Put t.replied_id (reply_message reply) (cm.rows w.messages) (cm.rows w'.messages)
    unfolding write_reply persist_message reply_of
    written reply w w' r h =
        let m = reply_message reply in
        let tables = ap (λ x. x.1.messages) h in
        elim (Result-cases (b.messages.create m w.messages).0) [
          | inl (u, done) ↦
              let answer = rw done at (ap (λ x. x.0) h) in
              (
                sym (ap (reply_of reply) answer),
                sym (ap (λ x. x.1.sessions) h),
                subst (λ x. Put t.replied_id m (cm.rows w.messages) (cm.rows x)) tables
                    (stored m w.messages (rw done refl)),
              )
          | inr (x, failed) ↦ absurd (let answer = rw failed at (ap (λ x. x.0) h) in cc)
        ]

    -- what the last steps leave, for a session and what is pending
    finished :
        (s : Session) (reply : Reply) (p : Option PendingAction) (w w' : World b)
        (r : ProcessMessageResponse)
        → finish b t user_id session_id s (reply, p) w ≡ (ok r, w')
        → (r.reply ≡ reply)
          × Put t.replied_id (reply_message reply) (cm.rows w.messages) (cm.rows w'.messages)
          × Put session_id (after_turn s p t.saved_at) (cs.rows w.sessions) (cs.rows w'.sessions)
    unfolding finish finish_turn saved
    finished s reply p w w' r h =
        let row = after_turn s p t.saved_at in
        let ss = (b.sessions.update session_id row w.sessions).1 in
        elim (Result-cases (b.sessions.update session_id row w.sessions).0) [
          | inl (u, done) ↦
              let (kept, tables, answered) =
                written reply (record w { sessions = ss }) w' r (rw done at h) in
              (
                kept,
                answered,
                subst (λ x. Put session_id row (cs.rows w.sessions) (cs.rows x)) (sym tables)
                    (updated session_id row w.sessions done),
              )
          | inr (x, failed) ↦ absurd (let h' = ap (λ y. y.0) (rw failed at h) in cc)
        ]

    taken :
        (s : Session) (said : String) (w w' : World b) (r : ProcessMessageResponse)
        → take_turn b t user_id session_id s said w ≡ (ok r, w')
        → IsTurn s said w w' r
    unfolding take_turn persist_message IsConsented
    taken s said w w' r h =
        let m = new_message t.heard_id t.heard_at session_id role_user said none in
        let w1 = record w { messages = (b.messages.create m w.messages).1 } in
        let frame =
          (orchestrate-Consented b t user_id said s.pending_action session_id s refl w1).1 in
        let w2 = (orchestrate b t user_id session_id s said w1).1 in
        elim (Result-cases (b.messages.create m w.messages).0) [
          | inl (u, done) ↦ elim (Result-cases (orchestrate b t user_id session_id s said w1).0) [
            | inl ((reply, p), decided) ↦
                let (kept, answered, session) =
                  finished s reply p w2 w' r (rw (done, decided) at h) in
                record {
                  at = w1;
                  pending = p;
                  same = (refl, refl, refl);
                  planned = decided ∙ ap (λ x. ok (x, p)) (sym kept);
                  asked = stored m w.messages (rw done refl);
                  answered =
                      subst
                        (λ x.
                          Put t.replied_id (reply_message x) (cm.rows w1.messages)
                            (cm.rows w'.messages))
                        (sym kept)
                        (subst
                          (λ x.
                            Put t.replied_id (reply_message reply) (cm.rows x)
                              (cm.rows w'.messages))
                          frame.1 answered);
                  session =
                      subst
                        (λ x.
                          Put session_id (after_turn s p t.saved_at) (cs.rows x)
                            (cs.rows w'.sessions))
                        frame.0 session;
                }
            | inr (x, failed) ↦ absurd (let h' = ap (λ y. y.0) (rw (done, failed) at h) in cc)
          ]
          | inr (x, failed) ↦ absurd (let h' = ap (λ y. y.0) (rw failed at h) in cc)
        ]

    -- Over stores that keep the contract, when the session is the caller's, the settings load,
    -- stripWakeWord yields an utterance, and ProcessMessage succeeds, exactly two messages are
    -- written: the utterance, as the user's, and then the text of the reply that is returned, as
    -- the assistant's, with its type and action; the reply and the pending action are what
    -- orchestrate answers, with the utterance already in the transcript and the installs, the
    -- catalog and the outside as they were; and of the sessions exactly this one is rewritten, as
    -- active, with that pending action and the time of the update.
    pub process_message-IsTurn :
        (given : ProcessMessageInput) (w w' : World b) (s : Session) (settings : Settings)
        (said : String) (r : ProcessMessageResponse)
        → load_owned_session b user_id session_id w ≡ ok s
        → (get_or_create b.settings t.settings_at user_id w.settings).0 ≡ ok settings
        → strip_wake_word given.text settings.wake_word given.source ≡ some said
        → process_message b t user_id session_id given w ≡ (ok r, w')
        → IsTurn s said w w' r
    unfolding process_message with_session with_settings heard
    process_message-IsTurn given w w' s settings said r owned found read h =
        let store = (get_or_create b.settings t.settings_at user_id w.settings).1 in
        elim (Bool-cases (str_eq s.status session_status_active)) [
          | inl active ↦ elim (Bool-cases (str_eq (trim_space said) "")) [
            | inl blank ↦
                absurd (let h' = ap (λ y. y.0) (rw (owned, active, found, read, blank) at h) in cc)
            | inr worded ↦
                let x =
                  taken s said (record w { settings = store }) w' r
                    (rw (owned, active, found, read, worded) at h) in
                record {
                  pending = x.pending;
                  at = x.at;
                  same = x.same;
                  planned = x.planned;
                  asked = x.asked;
                  answered = x.answered;
                  session = x.session;
                }
          ]
          | inr closed ↦ absurd (let h' = ap (λ y. y.0) (rw (owned, closed) at h) in cc)
        ]
