-- ===== src/Reminder/Repository.antt =====
-- internal/domain/reminder/repository.go: the queries over any `Store[Reminder]`.
use smart_assistant_api.Common.{
  ℕ, ◌+◌, ◌-◌, ◌*◌, ◌%◌, String, Bool, true, false, none, some, List, [], ◌∷◌, keep, str_eq,
  if◌then◌else◌,
}
use Prim.Native.String
use smart_assistant_api.Common.Exec.{Result, ok, err, Exec, pure, ◌>>=◌, ◌>>◌}
use smart_assistant_api.Common.Text.{trim_space}
use smart_assistant_api.Store.Query.{
  Query, text, instant, texts, new_query, where_eq, where_gte, where_lt, where_lte, where_in,
  where_like, order_by,
}
use smart_assistant_api.Store.Contract.{StoreError, Store}
use smart_assistant_api.Reminder.{
  Reminder, trigger_time, trigger_location, pending, notified, cancelled,
}

-- dto.go: ListFilter, a string of which two values have a meaning.
abbrev pub filter_today : String
filter_today = "today"

abbrev pub filter_tomorrow : String
filter_tomorrow = "tomorrow"

abbrev pub day : ℕ
day = 24 * 3600 * 1000000000

-- utcDayBounds: the zero time is a midnight in UTC.
abbrev pub day_start : ℕ → ℕ
day_start t = t - t % day

abbrev pub within_day : ℕ → Query → Query
within_day t q =
    where_lt "remind_at" (instant (day_start t + day))
      (where_gte "remind_at" (instant (day_start t)) q)

abbrev pub due_query : ℕ → Query
due_query before = order_by "remind_at" false (
    where_lte "remind_at" (instant before)
      (where_eq "status" (text pending) (where_eq "trigger_type" (text trigger_time) new_query)))

abbrev pub active_query : String → Query
active_query user_id = order_by "remind_at" false (
    where_in "status" (texts (pending ∷ notified ∷ []))
      (where_eq "trigger_type" (text trigger_time) (where_eq "user_id" (text user_id) new_query)))

abbrev pub filtered_query : ℕ → String → String → Query
filtered_query now user_id filter =
    if str_eq filter filter_today
    then within_day now (active_query user_id)
    else if str_eq filter filter_tomorrow
    then within_day (now + day) (active_query user_id)
    else active_query user_id

abbrev pub message_query : String → String → Query
message_query user_id message = order_by "remind_at" false (
    where_like "message" (text (String.◌++◌ "%" (String.◌++◌ (trim_space message) "%"))) (
      where_eq "status" (text pending) (
        where_eq "trigger_type" (text trigger_time) (where_eq "user_id" (text user_id) new_query))))

abbrev pub delivery_query : String → Query
delivery_query user_id = order_by "remind_at" false (
    where_eq "status" (text notified)
      (where_eq "trigger_type" (text trigger_time) (where_eq "user_id" (text user_id) new_query)))

abbrev pub install_query : String → String → Query
install_query user_id user_plugin_id = where_eq "status" (text pending) (
    where_eq "user_plugin_id" (text user_plugin_id)
      (where_eq "trigger_type" (text trigger_time) (where_eq "user_id" (text user_id) new_query)))

abbrev pub status_query : String → String → Query
status_query user_id status = order_by "created_at" true (
    where_eq "status" (text status) (
      where_eq "trigger_type" (text trigger_location)
        (where_eq "user_id" (text user_id) new_query)))

abbrev pub undelivered : Reminder → Bool
undelivered r = elim r.delivered_at [ none ↦ true | some _ ↦ false ]

abbrev pub only_undelivered : Result StoreError (List Reminder) → Result StoreError (List Reminder)
only_undelivered (ok items) = ok (keep undelivered items)
only_undelivered (err e) = err e

module _ (st : Store Reminder) where
  unfoldable pub find_due : ℕ → st.State → Result StoreError (List Reminder)
  find_due before = st.find (due_query before)

  unfoldable pub find_active_by_user :
      ℕ → String → String → st.State → Result StoreError (List Reminder)
  find_active_by_user now user_id filter = st.find (filtered_query now user_id filter)

  unfoldable pub find_pending_by_user_and_message :
      String → String → st.State → Result StoreError (List Reminder)
  find_pending_by_user_and_message user_id message = st.find (message_query user_id message)

  unfoldable pub find_pending_delivery_by_user :
      String → st.State → Result StoreError (List Reminder)
  find_pending_delivery_by_user user_id s = only_undelivered (st.find (delivery_query user_id) s)

  unfoldable pub find_by_user_and_status :
      String → String → st.State → Result StoreError (List Reminder)
  find_by_user_and_status user_id status = st.find (status_query user_id status)

  -- the loop of CancelPendingForUserPlugin; the first error ends it
  unfoldable pub cancel_each : ℕ → List Reminder → Exec st.State StoreError (Unit {0})
  cancel_each now [] = pure tt
  cancel_each now (r ∷ rs) = do
    st.update r.id (record r { status = cancelled; updated_at = now })
    cancel_each now rs

  unfoldable pub cancel_pending_for_user_plugin :
      ℕ → String → String → Exec st.State StoreError (Unit {0})
  unfolding cancel_each
  cancel_pending_for_user_plugin now user_id user_plugin_id = do
    items ← λ s. (st.find (install_query user_id user_plugin_id) s, s)
    cancel_each now items
