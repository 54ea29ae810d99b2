-- ===== src/AssistantSettings.antt =====
-- internal/domain/assistant_settings: a user's settings, one row under the user's id. A method takes
-- what `time.Now()` returns at each of its calls.
pub mod Sound
pub mod Freshness
mod Samples
use smart_assistant_api.Common.{
  ℕ, String, Bool, true, false, ◌||◌, Option, none, some, ltb, str_eq, if◌then◌else◌,
}
use smart_assistant_api.Common.Int.{ℤ, pos, negsuc}
use smart_assistant_api.Common.Text.{trim_space, rune_count}
use smart_assistant_api.Common.Exec.{Result, ok, err, Exec, pure, raise, lift, ◌>>=◌, ◌>>◌}
use smart_assistant_api.Response.{AppError, invalid, internal}
use smart_assistant_api.Store.Query.{Value, text, Condition}
use smart_assistant_api.Store.Meaning.{means}
use smart_assistant_api.Store.Contract.{StoreError, missing, failure, Store, writing}

abbrev pub default_wake_word : String
default_wake_word = "Jarvis"

abbrev pub default_location_reminder_threshold_meters : ℤ
default_location_reminder_threshold_meters = pos 100

pub record Settings : Type 0 where
  pub user_id : String
  pub wake_word : String
  pub active_listening_enabled : Bool
  pub location_reminder_threshold_meters : ℤ
  pub updated_at : ℕ

pub record UpdateInput : Type 0 where
  pub wake_word : String
  pub active_listening_enabled : Bool
  pub location_reminder_threshold_meters : Option ℤ

abbrev pub key : Settings → String
key x = x.user_id

-- The services look for no other column.
abbrev pub holds : Settings → Condition → Bool
holds x c =
    means (if str_eq c.field "user_id" then some (text x.user_id) else none) c.operator c.value

abbrev pub defaults : ℕ → String → Settings
defaults now user_id = record {
  user_id = user_id;
  wake_word = default_wake_word;
  active_listening_enabled = false;
  location_reminder_threshold_meters = default_location_reminder_threshold_meters;
  updated_at = now;
}

-- meters < 10 || meters > 5000
abbrev pub out_of_range : ℤ → Bool
out_of_range (pos n) = ltb n 10 || ltb 5000 n
out_of_range (negsuc n) = true

-- validateLocationReminderThreshold, and the threshold that Update goes on with
abbrev pub chosen_threshold : Option ℤ → ℤ → Result AppError ℤ
chosen_threshold none old = ok old
chosen_threshold (some meters) old =
    if out_of_range meters
    then err (invalid "location_reminder_threshold_meters" "must be between 10 and 5000 meters")
    else ok meters

abbrev pub changed : ℕ → String → UpdateInput → ℤ → Settings → Settings
changed now wake_word given meters x = record x {
  wake_word = wake_word;
  active_listening_enabled = given.active_listening_enabled;
  location_reminder_threshold_meters = meters;
  updated_at = now;
}

module _ (st : Store Settings) where
  -- the answer to a failed Create: the row of the request that won the race
  abbrev after_race : Result StoreError Settings → Result AppError Settings
  after_race (ok x) = ok x
  after_race (err e) = err (internal "failed to create assistant settings")

  abbrev created :
      String → Settings → Result StoreError (Unit {0}) → Exec st.State AppError Settings
  created user_id d (ok u) s = (ok d, s)
  created user_id d (err e) s = (after_race (st.find_by_id user_id s), s)

  -- GetOrCreate
  unfoldable pub get_or_create : ℕ → String → Exec st.State AppError Settings
  get_or_create now user_id s = elim (st.find_by_id user_id s) [
    | ok x ↦ (ok x, s)
    | err failure ↦ (err (internal "failed to load assistant settings"), s)
    | err missing ↦
        let d = defaults now user_id in let (r, s') = st.create d s in created user_id d r s'
  ]

  -- the part of Update behind the check of the wake word; `read_at` is the time of GetOrCreate
  unfoldable pub update_checked :
      ℕ → ℕ → String → String → UpdateInput → Exec st.State AppError Settings
  unfolding get_or_create
  update_checked read_at now user_id wake_word given = do
    x ← get_or_create read_at user_id
    meters ← lift (
        chosen_threshold given.location_reminder_threshold_meters
          x.location_reminder_threshold_meters)
    let x' = changed now wake_word given meters x in
        writing (λ e. internal "failed to update assistant settings") (st.update user_id x')
        >> pure x'

  -- Update
  unfoldable pub update : ℕ → ℕ → String → UpdateInput → Exec st.State AppError Settings
  unfolding update_checked trim_space rune_count
  update read_at now user_id given =
      let wake_word = trim_space given.wake_word in
      if str_eq wake_word ""
      then raise (invalid "wake_word" "must not be empty")
      else if ltb 32 (rune_count wake_word)
      then raise (invalid "wake_word" "must be at most 32 characters")
      else update_checked read_at now user_id wake_word given
