-- ===== src/Assistant/Agreed.antt =====
-- internal/domain/assistant/builtin/reminder.go: the reminder that the executor stores.
use Prim.Native.String.{◌++◌}
use smart_assistant_api.Common.{
  ℕ, lt→ltb, ◌*◌, ◌/◌, ◌<◌, String, ◌≡◌, refl, false, some, [], ◌∷◌, str_eq,
}
use smart_assistant_api.Common.Text.{trim_space}
use smart_assistant_api.Common.Exec.{ok}
use smart_assistant_api.Store.Contract.{Store, Contract, Put}
use smart_assistant_api.Store.Contract.Effects.{IsReliable, create-some}
use smart_assistant_api.Time.Civil.{second, day, year_of, utc}
use smart_assistant_api.Time.Format.{rfc3339}
use smart_assistant_api.Dynamic.{Args, text, string_arg_value}
use smart_assistant_api.Reminder.{Reminder, key, holds}
use smart_assistant_api.Reminder.Service.{create, new_time_reminder}
use smart_assistant_api.Assistant.Times.{rfc3339-trimmed, parse_date_time-rfc3339}
use smart_assistant_api.Assistant.Builtin.Prompts.{format_reminder_time}
use smart_assistant_api.Assistant.Builtin.Reminders.{
  ReminderClock, install_of, create_at, execute_reminder_create, execute_reminder,
}
use smart_assistant_api.Assistant.Conversation.Consent.{string_arg_value-trimmed}

module _ {st : Store Reminder} (c : Contract key holds st) (up : IsReliable st) (t : ReminderClock)
    (u install_id : String) (args : Args) (at : ℕ) (s : st.State) where
  abbrev message : String
  message = string_arg_value args "message"

  abbrev agreed : Reminder
  agreed = new_time_reminder t.id t.now u (install_of install_id) message (at / second * second)

  -- Over a store of reminders that keeps the contract and answers every call, executeReminder with
  -- the operation create, a message, and a time that is printed in UTC as RFC 3339, of the years 1
  -- to 9999 and whose second is after the clock of the check, stores exactly one reminder, under
  -- the new id: pending, of this user and this install, with the trimmed message, at that second;
  -- and the reply names its time and its id.
  pub execute_reminder-created :
      string_arg_value args "operation" ≡ "create"
      → str_eq message "" ≡ false
      → string_arg_value args "remind_at" ≡ rfc3339 utc at
      → year_of (at / day) < 10000
      → t.checked < at / second * second
      → ((execute_reminder st t u install_id args s).0
          ≡ ok (
              some (
                (
                  "reply_text",
                  text (
                      "Reminder set for "
                      ++ (format_reminder_time (at / second * second) ++ (": " ++ message))),
                )
                ∷ ("reminder_id", text t.id)
                ∷ [])))
        × Put t.id agreed (c.rows s) (c.rows (execute_reminder st t u install_id args s).1)
  unfolding execute_reminder execute_reminder_create create_at create
  execute_reminder-created op filled given recent ahead =
      let (made, put) = create-some c up agreed s in
      let (_, worded) = rfc3339-trimmed at recent in
      let read = (parse_date_time-rfc3339 t.parsed at utc recent).0 in
      let same : trim_space message ≡ message = string_arg_value-trimmed args "message" in
      rw
        (
          op,
          filled,
          given,
          worded,
          read,
          same,
          filled,
          lt→ltb t.checked (at / second * second) ahead,
          made,
        )
        (refl, put)
