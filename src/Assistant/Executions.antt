-- ===== src/Assistant/Executions.antt =====
-- internal/domain/assistant/executor.go and builtin: what the execution of a plugin does to the reminders.
use Prim.Native.String.{◌++◌}
use smart_assistant_api.Common.{
  ℕ, String, ◌≡◌, refl, Bool, true, false, Option, none, some, str_eq, if◌then◌else◌, inl, inr,
}
use smart_assistant_api.Common.Results.{Result-cases}
use smart_assistant_api.Common.Exec.{Result, Exec, raise, ◌>>=◌}
use smart_assistant_api.Response.{AppError}
use smart_assistant_api.Store.Contract.{Store, Contract}
use smart_assistant_api.Time.Civil.{utc, Moment}
use smart_assistant_api.Dynamic.{Args, string_arg_value}
use smart_assistant_api.Reminder.{Reminder, key, holds}
use smart_assistant_api.Reminder.Repository.{filter_today}
use smart_assistant_api.Reminder.Service.{create, list, delete_by_message}
use smart_assistant_api.Reminder.Lifecycle.{user}
use smart_assistant_api.Reminder.Lifecycle.Methods.{IsKeyed, AllMove, stays}
use smart_assistant_api.Reminder.Lifecycle.Batches.{create-Moves, delete_by_message-Moves}
use smart_assistant_api.Assistant.Builtin.DateTime.{parse_date_time}
use smart_assistant_api.Assistant.Builtin.Errors.{ExecError}
use smart_assistant_api.Assistant.Builtin.Reminders.{
  ReminderClock, served, candidate, install_of, created_result, replying, format_reminder_list,
  create_at, execute_reminder_create, execute_reminder_list, execute_reminder_delete,
  execute_reminder,
}

module _ {st : Store Reminder} (c : Contract key holds st) (u : String) (s : st.State) where
  -- from this state, every reminder moves as the user may move it
  unfoldable pub MovesOwn : Exec st.State ExecError (Option Args) → Type 0
  MovesOwn m = AllMove c (user u) s (m s).1

  raise-MovesOwn : (x : ExecError) → MovesOwn (raise x)
  unfolding MovesOwn
  raise-MovesOwn x j = stays c (user u) j _

  either :
      (b : Bool) (m n : Exec st.State ExecError (Option Args))
      → (b ≡ true → MovesOwn m)
      → (b ≡ false → MovesOwn n)
      → MovesOwn (if b then m else n)
  either true m n h k = h refl
  either false m n h k = k refl

  -- A call of the service, whose answer is then worked out.
  served-MovesOwn :
      {A : Type 0} (m : Exec st.State AppError A) (f : A → Result ExecError (Option Args))
      → AllMove c (user u) s (m s).1
      → MovesOwn (served m >>= λ a s. (f a, s))
  unfolding MovesOwn
  served-MovesOwn m f h j = elim (Result-cases (m s).0) [
    | inl (a, e) ↦ rw e (h j)
    | inr (x, e) ↦ rw e (h j)
  ]

  list-Moves : (now : ℕ) (filter : String) → AllMove c (user u) s (list st now u filter s).1
  unfolding list
  list-Moves now filter j = stays c (user u) j _

  module _ (t : ReminderClock) (keyed : IsKeyed (c.rows s)) (fresh : c.rows s t.id ≡ none) where
    create_at-MovesOwn :
        (install_id message : String) (o : Option Moment)
        → MovesOwn (create_at st t u install_id message o)
    unfolding create_at
    create_at-MovesOwn install_id message none = raise-MovesOwn _
    create_at-MovesOwn install_id message (some m) =
        served-MovesOwn (create st t.checked t.id t.now u (install_of install_id) message m.instant)
          (created_result message)
          (create-Moves c u t.checked t.id t.now (install_of install_id) message m.instant s fresh)

    execute_reminder_create-MovesOwn :
        (install_id : String) (args : Args)
        → MovesOwn (execute_reminder_create st t u install_id args)
    unfolding execute_reminder_create
    execute_reminder_create-MovesOwn install_id args =
        either (str_eq (string_arg_value args "message") "") _ _ (λ h. raise-MovesOwn _)
          λ h.
            either (str_eq (string_arg_value args "remind_at") "") _ _ (λ h. raise-MovesOwn _)
              λ h.
                create_at-MovesOwn install_id (string_arg_value args "message")
                  (parse_date_time t.parsed (string_arg_value args "remind_at") utc)

    execute_reminder_list-MovesOwn : (args : Args) → MovesOwn (execute_reminder_list st t u args)
    unfolding execute_reminder_list
    execute_reminder_list-MovesOwn args =
        let given = string_arg_value args "filter" in
        let filter = if str_eq given "" then filter_today else given in
        served-MovesOwn (list st t.now u filter)
          (λ items. replying (format_reminder_list items filter)) (list-Moves t.now filter)

    execute_reminder_delete-MovesOwn :
        (args : Args) → MovesOwn (execute_reminder_delete st t u args)
    unfolding execute_reminder_delete
    execute_reminder_delete-MovesOwn args =
        let message = string_arg_value args "message" in
        either (str_eq message "") _ _ (λ h. raise-MovesOwn _)
          λ h.
            served-MovesOwn (delete_by_message st candidate t.now u message)
              (λ done. replying (some ("Deleted reminder: " ++ message)))
              (delete_by_message-Moves c u candidate t.now message s keyed)

    pub execute_reminder-MovesOwn :
        (install_id : String) (args : Args) → MovesOwn (execute_reminder st t u install_id args)
    unfolding execute_reminder
    execute_reminder-MovesOwn install_id args =
        let given = string_arg_value args "operation" in
        let operation = if str_eq given "" then "create" else given in
        either (str_eq operation "create") _ _
          (λ h. execute_reminder_create-MovesOwn install_id args)
          λ h.
            either (str_eq operation "list") _ _ (λ h. execute_reminder_list-MovesOwn args)
              λ h.
                either (str_eq operation "delete") _ _ (λ h. execute_reminder_delete-MovesOwn args)
                  λ h. raise-MovesOwn _
