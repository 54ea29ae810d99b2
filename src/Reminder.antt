-- ===== src/Reminder.antt =====
-- internal/domain/reminder/entity.go: reminders, and their columns.
pub mod Repository
pub mod Service
pub mod Dispatcher
pub mod Requests
pub mod Lifecycle
mod Samples
use smart_assistant_api.Common.{
  ℕ, String, Bool, Option, none, some, List, [], ◌∷◌, str_eq, if◌then◌else◌,
}
use smart_assistant_api.Store.Query.{Value, text, number, instant, pointer, nil, Condition}
use smart_assistant_api.Store.Meaning.{means}
use smart_assistant_api.Store.Memory.{Entity, storage_field}

-- Instants are nanoseconds; a coordinate, only stored and passed on, is the bits of a float64.
pub record Reminder : Type 0 where
  pub id : String
  pub user_id : String
  pub trigger_type : String
  pub user_plugin_id : Option String
  pub message : String
  pub remind_at : Option ℕ
  pub title : String
  pub location_mode : Option String
  pub place_query : Option String
  pub latitude : Option ℕ
  pub longitude : Option ℕ
  pub place_keyword : Option String
  pub radius_meters : ℕ
  pub status : String
  pub notified_at : Option ℕ
  pub delivered_at : Option ℕ
  pub triggered_at : Option ℕ
  pub created_at : ℕ
  pub updated_at : ℕ

abbrev pub trigger_time : String
trigger_time = "time"

abbrev pub trigger_location : String
trigger_location = "location"

abbrev pub mode_exact : String
mode_exact = "exact"

abbrev pub mode_place_keyword : String
mode_place_keyword = "place_keyword"

abbrev pub pending : String
pending = "pending"

abbrev pub notified : String
notified = "notified"

abbrev pub triggered : String
triggered = "triggered"

abbrev pub cancelled : String
cancelled = "cancelled"

-- A reminder as the constructors of the service start it.
abbrev pub blank : Reminder
blank = record {
  id = "";
  user_id = "";
  trigger_type = "";
  user_plugin_id = none;
  message = "";
  remind_at = none;
  title = "";
  location_mode = none;
  place_query = none;
  latitude = none;
  longitude = none;
  place_keyword = none;
  radius_meters = 0;
  status = "";
  notified_at = none;
  delivered_at = none;
  triggered_at = none;
  created_at = 0;
  updated_at = 0;
}

abbrev pub text_or_nil : Option String → Value
text_or_nil none = nil
text_or_nil (some s) = text s

abbrev pub instant_or_nil : Option ℕ → Value
instant_or_nil none = nil
instant_or_nil (some t) = instant t

-- The columns by which the repository filters and orders, as a database holds them.
abbrev pub column : Reminder → String → Option Value
column r field =
    if str_eq field "id"
    then some (text r.id)
    else if str_eq field "user_id"
    then some (text r.user_id)
    else if str_eq field "trigger_type"
    then some (text r.trigger_type)
    else if str_eq field "user_plugin_id"
    then some (text_or_nil r.user_plugin_id)
    else if str_eq field "message"
    then some (text r.message)
    else if str_eq field "remind_at"
    then some (instant_or_nil r.remind_at)
    else if str_eq field "status"
    then some (text r.status)
    else if str_eq field "created_at"
    then some (instant r.created_at)
    else none

-- What a condition says of a row.
abbrev pub holds : Reminder → Condition → Bool
holds r c = means (column r c.field) c.operator c.value

abbrev pub key : Reminder → String
key r = r.id
