-- ===== src/Assistant/Builtin/Reminders.antt =====
-- internal/domain/assistant/builtin/reminder.go: the executor of the reminder plugin, over the service
-- of internal/domain/reminder. A missing time of a reminder, which would panic, counts as an error.
use Prim.Native.String.{◌++◌}
use smart_assistant_api.Common.{
  ℕ, suc, String, Option, none, some, List, [], ◌∷◌, str_eq, if◌then◌else◌,
}
use smart_assistant_api.Common.Text.{decimal, join}
use smart_assistant_api.Common.Exec.{Result, ok, err, Exec, raise, ◌>>=◌, ◌>>◌}
use smart_assistant_api.Response.{AppError, invalid}
use smart_assistant_api.Store.Contract.{Store}
use smart_assistant_api.Time.Civil.{utc, Moment}
use smart_assistant_api.Time.Format.{rfc3339}
use smart_assistant_api.Dynamic.{Args, text, string_arg_value}
use smart_assistant_api.Reminder.{Reminder}
use smart_assistant_api.Reminder.Repository.{filter_today, filter_tomorrow}
use smart_assistant_api.Reminder.Service.{create, list, delete_by_message}
use smart_assistant_api.Assistant.Prompts.{quoted}
use smart_assistant_api.Assistant.Builtin.DateTime.{parse_date_time}
use smart_assistant_api.Assistant.Builtin.Errors.{ExecError, app, other}
use smart_assistant_api.Assistant.Builtin.Prompts.{format_reminder_time}

-- What `time.Now()` and `uuid.NewString()` return in one call of the executor.
pub record ReminderClock : Type 0 where
  pub parsed : ℕ
  pub checked : ℕ
  pub id : String
  pub now : ℕ

-- An error of a service is an error of the executor.
module _ {A : Type 0} where
  abbrev pub recast : Result AppError A → Result ExecError A
  recast (ok a) = ok a
  recast (err x) = err (app x)

module _ {S A : Type 0} where
  abbrev pub served : Exec S AppError A → Exec S ExecError A
  served m s = let (r, s') = m s in (recast r, s')

abbrev pub filter_all : String
filter_all = "all"

-- reminderFilterLabel
abbrev pub reminder_filter_label : String → String
reminder_filter_label filter =
    if str_eq filter filter_tomorrow
    then "tomorrow"
    else if str_eq filter filter_all
    then "all dates"
    else "today"

-- formatReminderList, from the number of the first line
unfoldable pub reminder_lines : ℕ → List Reminder → Option (List String)
unfolding decimal format_reminder_time
reminder_lines n [] = some []
reminder_lines n (r ∷ rs) =
    let rest = reminder_lines (suc n) rs in
    elim r.remind_at [
      | none ↦ none
      | some at ↦ elim rest [
        | none ↦ none
        | some lines ↦
            some
              ((decimal n ++ (". " ++ (r.message ++ (" at " ++ format_reminder_time at)))) ∷ lines)
      ]
    ]

unfoldable pub format_reminder_list : List Reminder → String → Option String
unfolding reminder_lines join
format_reminder_list [] filter =
    some ("You have no reminders for " ++ (reminder_filter_label filter ++ "."))
format_reminder_list (r ∷ rs) filter = elim (reminder_lines 1 (r ∷ rs)) [
  | none ↦ none
  | some lines ↦ some (join "\n" lines)
]

-- DeleteByMessage: how one of several matches is shown
abbrev time_shown : Option ℕ → String
unfolding rfc3339
time_shown none = ""
time_shown (some at) = rfc3339 utc at

abbrev pub candidate : Reminder → String
unfolding time_shown
candidate r = quoted r.message ++ (" (" ++ (time_shown r.remind_at ++ ")"))

abbrev pub install_of : String → Option String
install_of install_id = if str_eq install_id "" then none else some install_id

abbrev pub replying : Option String → Result ExecError (Option Args)
replying none = err other
replying (some s) = ok (some (("reply_text", text s) ∷ []))

-- the result of a creation
abbrev set_text : String → Reminder → Option String
unfolding format_reminder_time
set_text message r = elim r.remind_at [
  | none ↦ none
  | some at ↦ some ("Reminder set for " ++ (format_reminder_time at ++ (": " ++ message)))
]

abbrev pub created_result : String → Reminder → Result ExecError (Option Args)
unfolding set_text
created_result message r = elim (set_text message r) [
  | none ↦ err other
  | some s ↦ ok (some (("reply_text", text s) ∷ ("reminder_id", text r.id) ∷ []))
]

module _ (st : Store Reminder) (t : ReminderClock) (user_id : String) where
  -- executeReminderCreate
  unfoldable pub create_at : String → String → Option Moment → Exec st.State ExecError (Option Args)
  unfolding create created_result
  create_at install_id message none = raise (app (invalid "remind_at" "could not parse"))
  create_at install_id message (some m) = do
    r ← served (create st t.checked t.id t.now user_id (install_of install_id) message m.instant)
    λ s. (created_result message r, s)

  unfoldable pub execute_reminder_create : String → Args → Exec st.State ExecError (Option Args)
  unfolding string_arg_value create_at parse_date_time
  execute_reminder_create install_id args =
      let message = string_arg_value args "message" in
      let raw_at = string_arg_value args "remind_at" in
      if str_eq message ""
      then raise other
      else if str_eq raw_at ""
      then raise other
      else create_at install_id message (parse_date_time t.parsed raw_at utc)

  -- executeReminderList
  unfoldable pub execute_reminder_list : Args → Exec st.State ExecError (Option Args)
  unfolding string_arg_value list format_reminder_list
  execute_reminder_list args =
      let given = string_arg_value args "filter" in
      let filter = if str_eq given "" then filter_today else given in
      do
        items ← served (list st t.now user_id filter)
        λ s. (replying (format_reminder_list items filter), s)

  -- executeReminderDelete
  unfoldable pub execute_reminder_delete : Args → Exec st.State ExecError (Option Args)
  unfolding string_arg_value delete_by_message
  execute_reminder_delete args =
      let message = string_arg_value args "message" in
      if str_eq message "" then raise other else (do
        served (delete_by_message st candidate t.now user_id message)
        λ s. (replying (some ("Deleted reminder: " ++ message)), s))

  -- ExecuteReminder
  unfoldable pub execute_reminder : String → Args → Exec st.State ExecError (Option Args)
  unfolding string_arg_value execute_reminder_create execute_reminder_list execute_reminder_delete
  execute_reminder install_id args =
      let given = string_arg_value args "operation" in
      let operation = if str_eq given "" then "create" else given in
      if str_eq operation "create"
      then execute_reminder_create install_id args
      else if str_eq operation "list"
      then execute_reminder_list args
      else if str_eq operation "delete"
      then execute_reminder_delete args
      else raise other
