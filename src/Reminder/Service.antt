-- ===== src/Reminder/Service.antt =====
-- internal/domain/reminder/service.go. A method takes what `time.Now()` and `uuid.NewString()`
-- return at each of its calls.
use smart_assistant_api.Common.{
  ℕ, ltb, String, not, ◌&&◌, Option, none, some, List, [], ◌∷◌, map, str_eq, if◌then◌else◌,
}
use Prim.Native.String
use smart_assistant_api.Common.Exec.{Exec, pure, raise, ◌>>=◌, ◌>>◌}
use smart_assistant_api.Common.Text.{trim_space, join}
use smart_assistant_api.Response.{AppError, forbidden, not_found, conflict, internal, invalid}
use smart_assistant_api.Store.Contract.{StoreError, missing, failure, Store, reading, writing}
use smart_assistant_api.Reminder.{
  Reminder, blank, trigger_time, trigger_location, mode_exact, mode_place_keyword, pending,
  notified, triggered, cancelled,
}
use smart_assistant_api.Reminder.Repository.{
  find_due, find_active_by_user, find_pending_by_user_and_message, find_pending_delivery_by_user,
  find_by_user_and_status, cancel_pending_for_user_plugin,
}

-- dto.go: CreateInput. A radius below one is all that the service tells apart, so zero stands for
-- the negative ones.
pub record CreateInput : Type 0 where
  pub title : String
  pub trigger_type : String
  pub location_mode : Option String
  pub place_query : Option String
  pub latitude : Option ℕ
  pub longitude : Option ℕ
  pub place_keyword : Option String
  pub radius_meters : ℕ

abbrev pub load_error : StoreError → AppError
load_error missing = not_found "reminder not found"
load_error failure = internal "failed to load reminder"

-- The records that the methods write.
abbrev pub as_notified : ℕ → Reminder → Reminder
as_notified now r = record r { status = notified; notified_at = some now; updated_at = now }

abbrev pub as_delivered : ℕ → Reminder → Reminder
as_delivered now r = record r { delivered_at = some now; updated_at = now }

abbrev pub as_cancelled : ℕ → Reminder → Reminder
as_cancelled now r = record r { status = cancelled; updated_at = now }

abbrev pub as_triggered : ℕ → Reminder → Reminder
as_triggered now r = record r { status = triggered; triggered_at = some now; updated_at = now }

abbrev pub new_time_reminder : String → ℕ → String → Option String → String → ℕ → Reminder
new_time_reminder id now user_id user_plugin_id message remind_at = record blank {
  id = id;
  user_id = user_id;
  trigger_type = trigger_time;
  user_plugin_id = user_plugin_id;
  message = message;
  remind_at = some remind_at;
  status = pending;
  created_at = now;
  updated_at = now;
}

abbrev pub new_location_reminder : String → ℕ → String → CreateInput → String → String → Reminder
new_location_reminder id now user_id inp title mode = record blank {
  id = id;
  user_id = user_id;
  trigger_type = trigger_location;
  title = title;
  location_mode = some mode;
  place_query = inp.place_query;
  latitude = inp.latitude;
  longitude = inp.longitude;
  place_keyword = inp.place_keyword;
  radius_meters = inp.radius_meters;
  status = pending;
  created_at = now;
  updated_at = now;
}

abbrev pub mode_text : Option String → String
mode_text none = ""
mode_text (some m) = trim_space m

module _ (st : Store Reminder) where
  -- Create: `checked` is the clock of the test, `now` the clock of the record.
  unfoldable pub create :
      ℕ → String → ℕ → String → Option String → String → ℕ → Exec st.State AppError Reminder
  create checked id now user_id user_plugin_id raw remind_at =
      let message = trim_space raw in
      let r = new_time_reminder id now user_id user_plugin_id message remind_at in
      if str_eq message ""
      then raise (invalid "message" "must not be empty")
      else if not (ltb checked remind_at)
      then raise (invalid "remind_at" "must be in the future")
      else (do writing (λ _. internal "failed to create reminder") (st.create r); pure r)

  -- CreateLocation
  unfoldable pub create_location :
      String → ℕ → String → CreateInput → Exec st.State AppError Reminder
  create_location id now user_id inp =
      let title = trim_space inp.title in
      let mode = mode_text inp.location_mode in
      let r = new_location_reminder id now user_id inp title mode in
      if str_eq title ""
      then raise (invalid "title" "must not be empty")
      else if not (str_eq (trim_space inp.trigger_type) trigger_location)
      then raise (invalid "trigger_type" "must be location")
      else if ltb inp.radius_meters 1
      then raise (invalid "radius_meters" "must be at least 1")
      else if str_eq mode ""
      then raise (invalid "location_mode" "is required when trigger_type is location")
      else if not (str_eq mode mode_exact) && not (str_eq mode mode_place_keyword)
      then raise (invalid "location_mode" "must be exact or place_keyword")
      else (do writing (λ _. internal "failed to create reminder") (st.create r); pure r)

  -- List
  unfoldable pub list : ℕ → String → String → Exec st.State AppError (List Reminder)
  unfolding find_active_by_user
  list now user_id filter =
      reading (λ _. internal "failed to list reminders") (find_active_by_user st now user_id filter)

  -- ListByUser
  unfoldable pub list_by_user : String → String → Exec st.State AppError (List Reminder)
  unfolding find_by_user_and_status
  list_by_user user_id raw =
      let status = trim_space raw in
      reading (λ _. internal "failed to list reminders")
        (find_by_user_and_status st user_id (if str_eq status "" then pending else status))

  -- GetByID
  unfoldable pub get_by_id : String → String → Exec st.State AppError Reminder
  get_by_id user_id id = do
    r ← reading load_error (st.find_by_id id)
    if not (str_eq r.user_id user_id) then raise (not_found "reminder not found") else pure r

  -- FindOwnedByID
  unfoldable pub find_owned_by_id : String → String → Exec st.State AppError Reminder
  find_owned_by_id user_id id = do
    r ← reading load_error (st.find_by_id id)
    if not (str_eq r.user_id user_id)
        then raise (forbidden "cannot access another user's reminder")
        else pure r

  -- the switch of DeleteByMessage on the number of matches; `candidate` writes one of several
  unfoldable pub delete_match :
      (Reminder → String) → ℕ → List Reminder → Exec st.State AppError (Unit {0})
  unfolding join
  delete_match candidate now [] = raise (not_found "reminder not found")
  delete_match candidate now (r ∷ []) =
      writing (λ _. internal "failed to delete reminder") (st.update r.id (as_cancelled now r))
  delete_match candidate now (r ∷ r' ∷ rs) = raise (
      conflict (String.◌++◌ "ambiguous reminder match: " (join "; " (map candidate (r ∷ r' ∷ rs)))))

  -- DeleteByMessage
  unfoldable pub delete_by_message :
      (Reminder → String) → ℕ → String → String → Exec st.State AppError (Unit {0})
  unfolding delete_match find_pending_by_user_and_message
  delete_by_message candidate now user_id raw =
      let query = trim_space raw in
      if str_eq query "" then raise (invalid "message" "must not be empty") else (do
        matches ←
            reading (λ _. internal "failed to find reminders")
              (find_pending_by_user_and_message st user_id query)
        delete_match candidate now matches)

  -- FindDue
  unfoldable pub find_due_reminders : ℕ → Exec st.State AppError (List Reminder)
  unfolding find_due
  find_due_reminders before =
      reading (λ _. internal "failed to find due reminders") (find_due st before)

  -- MarkNotified
  unfoldable pub mark_notified : ℕ → String → Exec st.State AppError (Unit {0})
  mark_notified now id = do
    r ← reading load_error (st.find_by_id id)
    if not (str_eq r.status pending)
        then raise (conflict "reminder is not pending")
        else writing (λ _. internal "failed to mark reminder notified")
            (st.update id (as_notified now r))

  -- MarkDelivered
  unfoldable pub mark_delivered : ℕ → String → String → Exec st.State AppError (Unit {0})
  mark_delivered now user_id id = do
    r ← reading load_error (st.find_by_id id)
    if not (str_eq r.user_id user_id)
        then raise (forbidden "cannot modify another user's reminder")
        else if not (str_eq r.status notified)
        then raise (conflict "reminder is not notified")
        else writing (λ _. internal "failed to mark reminder delivered")
            (st.update id (as_delivered now r))

  -- ListPendingDelivery
  unfoldable pub list_pending_delivery : String → Exec st.State AppError (List Reminder)
  unfolding find_pending_delivery_by_user
  list_pending_delivery user_id =
      reading (λ _. internal "failed to list pending delivery reminders")
        (find_pending_delivery_by_user st user_id)

  -- Cancel
  unfoldable pub cancel : ℕ → String → String → Exec st.State AppError Reminder
  unfolding get_by_id
  cancel now user_id id = do
    r ← get_by_id user_id id
    if str_eq r.status cancelled then pure r else (do
      writing (λ _. internal "failed to cancel reminder") (st.update id (as_cancelled now r))
      pure (as_cancelled now r))

  -- MarkTriggered
  unfoldable pub mark_triggered : ℕ → String → String → Exec st.State AppError Reminder
  unfolding get_by_id
  mark_triggered now user_id id = do
    r ← get_by_id user_id id
    if str_eq r.status triggered then pure r else (do
      writing (λ _. internal "failed to mark reminder triggered")
          (st.update id (as_triggered now r))
      pure (as_triggered now r))

  -- CancelAllForUserPlugin, also behind the adapter of cleaner.go
  unfoldable pub cancel_all_for_user_plugin :
      ℕ → String → String → Exec st.State AppError (Unit {0})
  unfolding cancel_pending_for_user_plugin
  cancel_all_for_user_plugin now user_id user_plugin_id =
      writing (λ _. internal "failed to cancel reminders")
        (cancel_pending_for_user_plugin st now user_id user_plugin_id)
