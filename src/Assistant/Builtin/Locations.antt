-- ===== src/Assistant/Builtin/Locations.antt =====
-- internal/domain/assistant/builtin/location_reminder.go: the executor of the location reminder plugin,
-- over the services of internal/domain/reminder and internal/domain/assistant_settings. The geocoder
-- of pkg/places and the print of a map for the client are parameters.
use Prim.Native.String.{◌++◌}
use smart_assistant_api.Common.{
  ℕ, String, not, ◌&&◌, Option, none, some, List, [], ◌∷◌, str_eq, if◌then◌else◌,
}
use smart_assistant_api.Common.Int.{ℤ, pos, negsuc}
use smart_assistant_api.Common.Exec.{Exec, pure, raise, ◌>>=◌}
use smart_assistant_api.Response.{invalid}
use smart_assistant_api.Store.Contract.{Store}
use smart_assistant_api.Dynamic.{Args, text, object, string_arg_value, int_text}
use smart_assistant_api.AssistantSettings.{Settings, get_or_create}
use smart_assistant_api.Reminder.{Reminder, trigger_location}
use smart_assistant_api.Reminder.Service.{CreateInput, create_location}
use smart_assistant_api.Assistant.LocationArguments.{
  location_mode_exact, location_mode_place_keyword, is_vague_place_query, normalize_place_keyword,
}
use smart_assistant_api.Assistant.Builtin.Errors.{ExecError, app}
use smart_assistant_api.Assistant.Builtin.Reminders.{served}

-- pkg/places: GeocodeResult, with the bits of its coordinates, and the two kinds of errors that
-- Unprocessable tells apart
pub record GeocodeResult : Type 0 where
  pub latitude : ℕ
  pub longitude : ℕ
  pub formatted_address : String

pub data Geocoded : Type 0 where
  located : GeocodeResult → Geocoded
  unprocessable : Geocoded
  failed : ExecError → Geocoded

-- a value of the payload: a text, an integer, a float64 by its bits, or nil
pub data Field : Type 0 where
  word : String → Field
  count : ℕ → Field
  bits : ℕ → Field
  nil : Field

abbrev pub put_word : String → Option String → List (String × Field) → List (String × Field)
put_word key none rest = rest
put_word key (some s) rest = (key, word s) ∷ rest

abbrev pub bits_or_nil : Option ℕ → Field
bits_or_nil none = nil
bits_or_nil (some n) = bits n

abbrev pub word_or_nil : Option String → Field
word_or_nil none = nil
word_or_nil (some s) = word s

-- buildLocationReminderClientPayload
unfoldable pub build_location_reminder_client_payload : Reminder → List (String × Field)
build_location_reminder_client_payload r =
    ("reminder_id", word r.id)
    ∷ ("title", word r.title)
    ∷ ("trigger_type", word r.trigger_type)
    ∷ ("radius_meters", count r.radius_meters)
    ∷ ("latitude", bits_or_nil r.latitude)
    ∷ ("longitude", bits_or_nil r.longitude)
    ∷ ("place_keyword", word_or_nil r.place_keyword)
    ∷ put_word "location_mode" r.location_mode (put_word "place_query" r.place_query [])

-- a radius below one, which CreateLocation refuses, is passed on as zero
abbrev pub radius : ℤ → ℕ
radius (pos n) = n
radius (negsuc n) = 0

abbrev pub address_of : String → GeocodeResult → String
address_of query g = if str_eq g.formatted_address "" then query else g.formatted_address

abbrev location_input : String → String → ℤ → CreateInput
location_input title mode meters = record {
  title = title;
  trigger_type = trigger_location;
  location_mode = some mode;
  place_query = none;
  latitude = none;
  longitude = none;
  place_keyword = none;
  radius_meters = radius meters;
}

-- the input for an exact address, and for a kind of place
unfoldable pub exact_input : String → ℤ → String → GeocodeResult → CreateInput
exact_input title meters query g = record (location_input title location_mode_exact meters) {
  place_query = some (address_of query g);
  latitude = some g.latitude;
  longitude = some g.longitude;
}

unfoldable pub keyword_input : String → ℤ → String → CreateInput
keyword_input title meters keyword =
    record (location_input title location_mode_place_keyword meters) {
      place_query = some keyword;
      place_keyword = some keyword;
    }

abbrev refused : String → String → ExecError
refused field msg = app (invalid field msg)

-- The services that the executor works on, with the state of each.
module _ (reminders : Store Reminder) (settings : Store Settings) (geocode : String → Geocoded)
    (encode : List (String × Field) → String) where
  abbrev pub Places : Type 0
  Places = reminders.State × settings.State

  abbrev pub on_reminders :
      {A : Type 0} → Exec reminders.State ExecError A → Exec Places ExecError A
  on_reminders m (rs, ss) = let (r, rs') = m rs in (r, (rs', ss))

  abbrev pub on_settings : {A : Type 0} → Exec settings.State ExecError A → Exec Places ExecError A
  on_settings m (rs, ss) = let (r, ss') = m ss in (r, (rs, ss'))

  abbrev set_text : String → ℤ → String → String
  unfolding int_text
  set_text title meters label =
      "Reminder set: I'll remind you to "
      ++ (title ++ (" when you're within " ++ (int_text meters ++ ("m of " ++ (label ++ ".")))))

  module _ (id : String) (now settings_at : ℕ) (user_id : String) where
    -- the creation, and what is answered
    unfoldable pub create_reminder : ℤ → String → CreateInput → Exec Places ExecError (Option Args)
    unfolding create_location set_text build_location_reminder_client_payload
    create_reminder meters label inp = do
      r ← on_reminders (served (create_location reminders id now user_id inp))
      pure (
          some (
            ("reply_text", text (set_text inp.title meters label))
            ∷ ("client_payload", object (encode (build_location_reminder_client_payload r)))
            ∷ []))

    unfoldable pub at_address : String → ℤ → String → Geocoded → Exec Places ExecError (Option Args)
    unfolding create_reminder exact_input
    at_address title meters query (located g) =
        create_reminder meters query (exact_input title meters query g)
    at_address title meters query unprocessable =
        raise (
          refused "place_query"
            "I couldn't find that address. Could you provide a clearer address?")
    at_address title meters query (failed x) = raise x

    unfoldable pub near_place : String → ℤ → String → Exec Places ExecError (Option Args)
    unfolding create_reminder keyword_input
    near_place title meters keyword =
        if str_eq keyword ""
        then raise (refused "place_query" "must not be empty")
        else create_reminder meters keyword (keyword_input title meters keyword)

    unfoldable pub place_reminder :
        String → String → String → Settings → Exec Places ExecError (Option Args)
    unfolding at_address near_place is_vague_place_query normalize_place_keyword
    place_reminder title mode query settings =
        let meters = settings.location_reminder_threshold_meters in
        if str_eq mode location_mode_exact
        then if is_vague_place_query query
          then raise (refused "place_query" "please provide a full street address")
          else at_address title meters query (geocode query)
        else near_place title meters (normalize_place_keyword query)

    -- ExecuteLocationReminder
    unfoldable pub execute_location_reminder : Args → Exec Places ExecError (Option Args)
    unfolding string_arg_value place_reminder get_or_create
    execute_location_reminder args =
        let title = string_arg_value args "title" in
        let mode = string_arg_value args "location_mode" in
        let query = string_arg_value args "place_query" in
        if str_eq title ""
        then raise (refused "title" "must not be empty")
        else if not (str_eq mode location_mode_exact)
            && not (str_eq mode location_mode_place_keyword)
        then raise (refused "location_mode" "must be exact or place_keyword")
        else if str_eq query ""
        then raise (refused "place_query" "must not be empty")
        else on_settings (served (get_or_create settings settings_at user_id))
          >>= place_reminder title mode query
