-- ===== src/Assistant/Conversation/Samples.antt =====
-- A conversation over the reference store: Ann asks for a note, which needs a confirmation.
use smart_assistant_api.Common.{
  ◌≤◌, length, String, ◌≡◌, ◌≢◌, refl, true, false, none, some, List, [], ◌∷◌, arith, eq_iff,
}
use smart_assistant_api.Common.Exec.{ok, err}
use smart_assistant_api.Common.Assoc.{lookup}
use smart_assistant_api.Common.Text.{trim_space}
use smart_assistant_api.Dynamic.{text, is_empty_value}
use smart_assistant_api.Response.{AppError}
use smart_assistant_api.Store.Contract.{Contract}
use smart_assistant_api.Store.Reference.{reference, reference-Contract}
use smart_assistant_api.Plugin
use smart_assistant_api.Plugin.{Plugin, ManifestArgument}
use smart_assistant_api.UserPlugin
use smart_assistant_api.UserPlugin.{UserPlugin}
use smart_assistant_api.UserPlugin.Service.{new_install}
use smart_assistant_api.AssistantSettings
use smart_assistant_api.AssistantSettings.{Settings, defaults, get_or_create}
use smart_assistant_api.Assistant.Session.{
  Session, PendingAction, session_key, session_holds, message_key, message_holds,
  session_status_active, action_result, success, no_payload,
}
use smart_assistant_api.Assistant.WakeWord.{strip_wake_word}
use smart_assistant_api.Assistant.Patterns.{is_confirmation_yes}
use smart_assistant_api.Assistant.Installed.{EligiblePlugin}
use smart_assistant_api.Assistant.Prompts.{first_missing_argument}
use smart_assistant_api.Assistant.Conversation.{
  Backend, World, Clock, app, is_reminder_plugin, is_google_calendar_meet_plugin,
  is_composio_ai_plugin, is_location_reminder_plugin,
}
use smart_assistant_api.Assistant.Conversation.Advance.{waiting_for}
use smart_assistant_api.Assistant.Conversation.Progress.{
  missing_count, talk, IsSettled, AllWorded, talk-IsSettled,
}
use smart_assistant_api.Assistant.Conversation.Messages.{
  ProcessMessageInput, ProcessMessageResponse, process_message, load_owned_session, list_messages,
}
use smart_assistant_api.Assistant.Conversation.Consent.{Consent}
use smart_assistant_api.Assistant.Conversation.Requests.{
  IsRefusal, process_message-Consent, process_message-foreign,
}
use smart_assistant_api.Assistant.Conversation.Transcript.{IsTurn, process_message-IsTurn}

abbrev notes : Plugin
notes = record {
  id = "p1";
  slug = "notes";
  name = "Notes";
  description = "";
  version = "1";
  manifest = record {
    triggers = [];
    required_setup = false;
    setup_type = "none";
    arguments = [];
    confirmation_required = true;
    executor = record { kind = "webhook"; config = [] };
  };
  created_at = 0;
  updated_at = 0;
}

-- The executor keeps a log of the plugins that it ran.
abbrev desk : Backend
desk = record {
  sessions = reference session_key session_holds;
  messages = reference message_key message_holds;
  settings = reference AssistantSettings.key AssistantSettings.holds;
  installs = reference UserPlugin.key UserPlugin.holds;
  catalog = reference Plugin.key Plugin.holds;
  Outside = List String;
  execute = λ u p args log. (ok none, p.slug ∷ log);
  classify = λ r. ok none;
  availability = none;
}

abbrev asked : PendingAction
asked = record {
  plugin_slug = "notes";
  plugin_id = "p1";
  install_id = "i1";
  arguments = ("title", text "milk") ∷ [];
  missing_argument = "";
  awaiting_confirmation = true;
  composio_session_id = "";
  composio_pending_kind = "";
  composio_prompt = "";
}

abbrev hers : Session
hers = record {
  id = "s1";
  user_id = "ann";
  status = session_status_active;
  pending_action = some asked;
  created_at = 1;
  updated_at = 1;
}

abbrev start : World desk
unfolding lookup
start = record {
  sessions = record { items = ("s1", hers) ∷ []; distinct = (refl, tt) };
  messages = record { items = []; distinct = tt };
  settings = record { items = ("ann", defaults 1 "ann") ∷ []; distinct = (refl, tt) };
  installs = record { items = ("i1", new_install "i1" 1 "ann" notes) ∷ []; distinct = (refl, tt) };
  catalog = record { items = ("p1", notes) ∷ []; distinct = (refl, tt) };
  outside = [];
}

abbrev clock : Clock
clock = record {
  heard_id = "m1";
  heard_at = 10;
  settings_at = 9;
  answered = 11;
  normalized = 11;
  named = 11;
  parsed = 11;
  shown = 11;
  radius_at = 11;
  saved_at = 12;
  replied_id = "m2";
  replied_at = 13;
  weekdays = ("sunday", 0) ∷ ("monday", 1) ∷ [];
}

session_law : Contract session_key session_holds desk.sessions
session_law = reference-Contract session_key session_holds

message_law : Contract message_key message_holds desk.messages
message_law = reference-Contract message_key message_holds

is_hers : load_owned_session desk "ann" "s1" start ≡ ok hers
unfolding load_owned_session lookup
is_hers = refl

has_settings :
    (get_or_create desk.settings clock.settings_at "ann" start.settings).0 ≡ ok (defaults 1 "ann")
unfolding get_or_create lookup
has_settings = refl

-- What is left of a yes behind the wake word and a comma counts as no yes.
heard_yes : strip_wake_word "Jarvis, yes" "Jarvis" "wake_word" ≡ some ", yes"
unfolding strip_wake_word
heard_yes = refl

no_yes : is_confirmation_yes ", yes" ≡ false
unfolding is_confirmation_yes
no_yes = refl

abbrev accepting : ProcessMessageInput
accepting = record { text = "yes"; source = "text" }

heard : strip_wake_word accepting.text (defaults 1 "ann").wake_word accepting.source ≡ some "yes"
unfolding strip_wake_word
heard = refl

abbrev done : ProcessMessageResponse
done = record {
  session_id = "s1";
  reply = record {
    kind = action_result;
    text = "Done. Notes completed successfully.";
    action = some (record { plugin_slug = "notes"; status = success; payload = no_payload });
  };
  session_status = "active";
}

abbrev later : World desk
unfolding process_message start
later = (process_message desk clock "ann" "s1" accepting start).1

answers : process_message desk clock "ann" "s1" accepting start ≡ (ok done, later)
unfolding process_message lookup start
answers = refl

ran_once : (process_message desk clock "ann" "s1" accepting start).1.outside ≡ "notes" ∷ []
unfolding process_message lookup start
ran_once = refl

process_message-Consent_example :
    Consent desk "ann" "yes"
      (some asked)
      start.installs
      start.catalog
      start.outside
      (process_message desk clock "ann" "s1" accepting start).1.outside
process_message-Consent_example =
    process_message-Consent desk clock "ann" "s1" accepting start hers (defaults 1 "ann") "yes"
      is_hers has_settings heard

there : session_law.rows start.sessions "s1" ≡ some hers
unfolding lookup session_law reference-Contract
there = refl

ann_not_bob : hers.user_id ≢ "bob"
ann_not_bob = ground (arith, eq_iff "ann" "bob")

process_message-foreign_example :
    (x : AppError) × IsRefusal x
    × (process_message desk clock "bob" "s1" accepting start ≡ (err (app x), start))
    × (list_messages desk "bob" "s1" start ≡ err x)
process_message-foreign_example =
    process_message-foreign session_law clock "bob" "s1" start hers there ann_not_bob accepting

process_message-IsTurn_example :
    IsTurn desk session_law message_law clock "ann" "s1" hers "yes" start later done
process_message-IsTurn_example =
    process_message-IsTurn desk session_law message_law clock "ann" "s1" accepting start later hers
      (defaults 1 "ann") "yes" done is_hers has_settings heard answers

-- A plugin that lacks two arguments.
abbrev wanting : String → ManifestArgument
wanting name = record {
  name = name;
  kind = "string";
  required = true;
  description = "";
  prompt = "Which one?";
}

abbrev trips : Plugin
trips = record notes {
  slug = "trips";
  manifest = record notes.manifest { arguments = wanting "from" ∷ wanting "to" ∷ [] };
}

abbrev trip : EligiblePlugin
trip = record { install = new_install "i1" 1 "ann" trips; catalog = trips }

no_reminder : is_reminder_plugin trips ≡ false
unfolding is_reminder_plugin
no_reminder = refl

no_meeting : is_google_calendar_meet_plugin trips ≡ false
unfolding is_google_calendar_meet_plugin
no_meeting = refl

no_composio : is_composio_ai_plugin trips ≡ false
unfolding is_composio_ai_plugin
no_composio = refl

no_place : is_location_reminder_plugin trips ≡ false
unfolding is_location_reminder_plugin
no_place = refl

abbrev cities : List (Clock × String)
cities = (clock, "Oslo") ∷ (clock, " Rome ") ∷ []

oslo : trim_space "Oslo" ≢ ""
unfolding trim_space
oslo = ground (arith, eq_iff "Oslo" "")

rome : trim_space " Rome " ≢ ""
unfolding trim_space
rome = ground (arith, eq_iff "Rome" "")

cities_worded : AllWorded desk "ann" trip no_reminder no_meeting no_composio no_place cities
unfolding AllWorded
cities_worded = (oslo, (rome, tt))

asks_from : (first_missing_argument trips.manifest.arguments []).0 ≢ ""
unfolding first_missing_argument is_empty_value lookup
asks_from = ground (arith, eq_iff "from" "")

two_missing : missing_count trips.manifest.arguments [] ≤ length cities
unfolding missing_count is_empty_value lookup
two_missing = omega arith

talk-IsSettled_example :
    IsSettled desk "ann" trip no_reminder no_meeting no_composio no_place start.outside (
      talk desk "ann" trip no_reminder no_meeting no_composio no_place cities
        (waiting_for trip [] (first_missing_argument trips.manifest.arguments []).0)
        start)
talk-IsSettled_example =
    talk-IsSettled desk "ann" trip no_reminder no_meeting no_composio no_place cities [] start
      cities_worded asks_from two_missing
