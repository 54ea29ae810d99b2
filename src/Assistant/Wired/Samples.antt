-- ===== src/Assistant/Wired/Samples.antt =====
-- Ann agrees to the deletion of her reminder, in a conversation with the executors of executor.go.
use Prim.Native.String.{◌++◌}
use smart_assistant_api.Assistant.Builtin.Prompts.{format_reminder_time}
use smart_assistant_api.Common.{
  ℕ, ◌*◌, ◌/◌, ◌<◌, str_eq, ◌≡◌, refl, true, false, none, some, [], ◌∷◌, arith, eq_iff,
}
use smart_assistant_api.Common.Exec.{ok}
use smart_assistant_api.Common.Assoc.{lookup}
use smart_assistant_api.Common.Text.{trim_percent}
use smart_assistant_api.Dynamic.{text, Args, string_arg_value}
use smart_assistant_api.Store.Contract.{Contract, Put}
use smart_assistant_api.Store.Memory.Crud.{Items}
use smart_assistant_api.Store.Reference.{reference, reference-Contract, reference-IsReliable}
use smart_assistant_api.Plugin
use smart_assistant_api.Plugin.{Plugin}
use smart_assistant_api.UserPlugin
use smart_assistant_api.UserPlugin.Service.{new_install}
use smart_assistant_api.AssistantSettings
use smart_assistant_api.AssistantSettings.{defaults}
use smart_assistant_api.Reminder.{Reminder, key, holds}
use smart_assistant_api.Reminder.Service.{new_time_reminder, as_cancelled}
use smart_assistant_api.Reminder.Lifecycle.{user}
use smart_assistant_api.Reminder.Lifecycle.Methods.{IsKeyed, AllMove}
use smart_assistant_api.Assistant.Session.{
  Session, PendingAction, session_key, session_holds, message_key, message_holds,
  session_status_active,
}
use smart_assistant_api.Assistant.Conversation.{Backend, World, Clock}
use smart_assistant_api.Assistant.Conversation.Messages.{ProcessMessageInput, process_message}
use smart_assistant_api.Assistant.Builtin.Reminders.{ReminderClock, execute_reminder}
use smart_assistant_api.Assistant.Agreed.{execute_reminder-created}
use smart_assistant_api.Time.Civil.{second, day, year_of, utc, years_before}
use smart_assistant_api.Assistant.Times.{rfc3339-trimmed}
use smart_assistant_api.Time.Format.{rfc3339}
use smart_assistant_api.Assistant.Builtin.Locations.{unprocessable}
use smart_assistant_api.Assistant.Executors.{Wiring, execute}
use smart_assistant_api.Assistant.Wired.{wired, process_message-AllMove}

abbrev remind : Plugin
remind = record {
  id = "p1";
  slug = "reminder";
  name = "Reminders";
  description = "";
  version = "1";
  manifest = record {
    triggers = [];
    required_setup = false;
    setup_type = "none";
    arguments = [];
    confirmation_required = false;
    executor = record { kind = "builtin"; config = [] };
  };
  created_at = 0;
  updated_at = 0;
}

abbrev executors : Wiring
executors = record {
  reminders = reference key holds;
  settings = reference AssistantSettings.key AssistantSettings.holds;
  Tools = Unit {0};
  composio = none;
  composio_mcp = none;
  builtin = true;
  geocode = λ query. unprocessable;
  encode = λ fields. "{}";
}

abbrev times : ReminderClock
times = record { parsed = 14; checked = 14; id = "r9"; now = 14 }

abbrev box : Backend
box = record {
  sessions = reference session_key session_holds;
  messages = reference message_key message_holds;
  settings = reference AssistantSettings.key AssistantSettings.holds;
  installs = reference UserPlugin.key UserPlugin.holds;
  catalog = reference Plugin.key Plugin.holds;
  Outside = Unit {0};
  execute = λ u p args s. (ok none, s);
  classify = λ r. ok none;
  availability = none;
}

abbrev home : Backend
home = wired box executors times

abbrev asked : PendingAction
asked = record {
  plugin_slug = "reminder";
  plugin_id = "p1";
  install_id = "i1";
  arguments = ("operation", text "delete") ∷ ("message", text "tea") ∷ [];
  missing_argument = "";
  awaiting_confirmation = true;
  composio_session_id = "";
  composio_pending_kind = "";
  composio_prompt = "";
}

abbrev hers : Session
hers = record {
  id = "s1";
  user_id = "ann";
  status = session_status_active;
  pending_action = some asked;
  created_at = 1;
  updated_at = 1;
}

abbrev ann_tea : Reminder
ann_tea = new_time_reminder "r1" 2 "ann" none "tea" 99

abbrev bob_tea : Reminder
bob_tea = new_time_reminder "r2" 3 "bob" none "tea" 99

abbrev two_teas : Items Reminder
unfolding lookup
two_teas = record { items = ("r1", ann_tea) ∷ ("r2", bob_tea) ∷ []; distinct = (refl, (refl, tt)) }

abbrev start : World home
unfolding lookup
start = record {
  sessions = record { items = ("s1", hers) ∷ []; distinct = (refl, tt) };
  messages = record { items = []; distinct = tt };
  settings = record { items = ("ann", defaults 1 "ann") ∷ []; distinct = (refl, tt) };
  installs = record { items = ("i1", new_install "i1" 1 "ann" remind) ∷ []; distinct = (refl, tt) };
  catalog = record { items = ("p1", remind) ∷ []; distinct = (refl, tt) };
  outside = record {
    reminders = two_teas;
    settings = record { items = []; distinct = tt };
    tools = tt;
  };
}

abbrev clock : Clock
clock = record {
  heard_id = "m1";
  heard_at = 10;
  settings_at = 9;
  answered = 11;
  normalized = 11;
  named = 11;
  parsed = 11;
  shown = 11;
  radius_at = 11;
  saved_at = 15;
  replied_id = "m2";
  replied_at = 16;
  weekdays = ("sunday", 0) ∷ ("monday", 1) ∷ [];
}

law : Contract key holds executors.reminders
law = reference-Contract key holds

teas-IsKeyed : IsKeyed (law.rows two_teas)
unfolding law reference-Contract lookup
teas-IsKeyed i r h = ground (arith, eq_iff "r1" i, eq_iff "r2" i)

free_id : law.rows two_teas "r9" ≡ none
unfolding law reference-Contract lookup
free_id = refl

abbrev accepting : ProcessMessageInput
accepting = record { text = "yes"; source = "text" }

abbrev later : World home
unfolding process_message start
later = (process_message home clock "ann" "s1" accepting start).1

hers_cancelled : law.rows later.outside.reminders "r1" ≡ some (as_cancelled 14 ann_tea)
unfolding process_message execute law reference-Contract lookup start trim_percent
hers_cancelled = refl

his_untouched : law.rows later.outside.reminders "r2" ≡ some bob_tea
unfolding process_message execute law reference-Contract lookup start trim_percent
his_untouched = refl

process_message-AllMove_example :
    AllMove law
      (user "ann")
      two_teas
      (process_message home clock "ann" "s1" accepting start).1.outside.reminders
unfolding start two_teas
process_message-AllMove_example =
    process_message-AllMove box executors times law "ann" start teas-IsKeyed free_id clock "s1"
      accepting

abbrev at_one : ℕ
at_one = 3600 * second

abbrev wanted : Args
wanted =
    ("operation", text "create")
    ∷ ("message", text " milk ")
    ∷ ("remind_at", text (rfc3339 utc at_one))
    ∷ []

an_operation : string_arg_value wanted "operation" ≡ "create"
unfolding string_arg_value lookup
an_operation = refl

a_message : str_eq (string_arg_value wanted "message") "" ≡ false
unfolding string_arg_value lookup
a_message = refl

early : year_of (at_one / day) < 10000
unfolding year_of years_before
early = omega arith

a_time : string_arg_value wanted "remind_at" ≡ rfc3339 utc at_one
unfolding string_arg_value lookup
a_time = (rfc3339-trimmed at_one early).0

abbrev milk : Reminder
milk = new_time_reminder "r9" 14 "ann" (some "i1") "milk" at_one

execute_reminder-created_example :
    ((execute_reminder executors.reminders times "ann" "i1" wanted two_teas).0
      ≡ ok (
          some (
            (
              "reply_text",
              text ("Reminder set for " ++ (format_reminder_time at_one ++ (": " ++ "milk"))),
            )
            ∷ ("reminder_id", text "r9")
            ∷ [])))
    × Put "r9" milk
        (law.rows two_teas)
        (law.rows (execute_reminder executors.reminders times "ann" "i1" wanted two_teas).1)
unfolding string_arg_value lookup
execute_reminder-created_example =
    execute_reminder-created law (reference-IsReliable key holds) times "ann" "i1" wanted at_one
      two_teas an_operation a_message a_time early (omega arith)
