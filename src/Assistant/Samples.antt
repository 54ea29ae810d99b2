-- ===== src/Assistant/Samples.antt =====
-- A user with the reminder plugin installed, and utterances with the wake word.

use smart_assistant_api.Common.{
  ℕ, ◌*◌, ◌/◌, ◌+◌, ◌<◌, ◌≤◌, String, ◌≡◌, ◌≢◌, ◌↔◌, refl, true, false, none, some, [], ◌∷◌, inl,
  arith, eq_iff,
}
use smart_assistant_api.Common.Exec.{ok}
use smart_assistant_api.Common.Assoc.{lookup}
use smart_assistant_api.Common.Text.{trim_space, to_lower, has_prefix, byte_len}
use smart_assistant_api.Store.Contract.{Store, Contract}
use smart_assistant_api.Store.Memory.Crud.{Items}
use smart_assistant_api.Store.Reference.{reference, reference-Contract, reference-IsReliable}
use smart_assistant_api.Plugin
use smart_assistant_api.Plugin.{Plugin}
use smart_assistant_api.UserPlugin
use smart_assistant_api.UserPlugin.{UserPlugin}
use smart_assistant_api.UserPlugin.Service.{new_install}
use smart_assistant_api.Assistant.Installed.{
  eligible, PluginInstallState, list_installed_plugin_states, load_eligible_plugin,
}
use smart_assistant_api.Assistant.Eligibility.{eligible-loads}
use smart_assistant_api.Assistant.WakeWord.{strip_wake_word}
use smart_assistant_api.Time.Civil.{
  second, day, year_of, utc, jakarta, year_day, months_before, days_in, day_number,
  days_before_year, days_of_months, years_before, month_of, day_of,
}
use smart_assistant_api.Time.Format.{rfc3339}
use smart_assistant_api.Assistant.Builtin.DateTime.{
  parse_date_time, parse_natural_date_time, time_of_day, parse_clock,
}
use smart_assistant_api.Assistant.Ahead.{parse_natural_date_time-ahead}
use smart_assistant_api.Common.Int.{pos}
use smart_assistant_api.Assistant.ReminderArguments.{
  normalize_reminder_remind_at, split_message_and_remind_at,
}
use smart_assistant_api.Assistant.LocationArguments.{
  normalize_place_keyword, leading_phrase, filler_phrases,
}
use smart_assistant_api.Assistant.Keywords.{normalize_place_keyword-leading_phrase}
use smart_assistant_api.Assistant.Times.{parse_date_time-rfc3339}
use smart_assistant_api.Assistant.Stripping.{Stripped, keeps_size, strip_wake_word-Stripped}
use smart_assistant_api.Assistant.Panics.{strip_wake_word-none}

abbrev remind : Plugin
remind = record {
  id = "p1";
  slug = "reminder";
  name = "Reminders";
  description = "";
  version = "1";
  manifest = record {
    triggers = [];
    required_setup = true;
    setup_type = "form";
    arguments = [];
    confirmation_required = false;
    executor = record { kind = "builtin"; config = [] };
  };
  created_at = 0;
  updated_at = 0;
}

abbrev hers : UserPlugin
hers = record (new_install "i1" 1 "ann" remind) { setup_status = "completed" }

abbrev installs : Store UserPlugin
installs = reference UserPlugin.key UserPlugin.holds

abbrev catalog : Store Plugin
catalog = reference Plugin.key Plugin.holds

abbrev one_install : Items UserPlugin
unfolding lookup
one_install = record { items = ("i1", hers) ∷ []; distinct = (refl, tt) }

abbrev one_plugin : Items Plugin
unfolding lookup
one_plugin = record { items = ("p1", remind) ∷ []; distinct = (refl, tt) }

abbrev install_law : Contract UserPlugin.key UserPlugin.holds installs
install_law = reference-Contract UserPlugin.key UserPlugin.holds

abbrev catalog_law : Contract Plugin.key Plugin.holds catalog
catalog_law = reference-Contract Plugin.key Plugin.holds

keyed : (i : String) (x : UserPlugin) → install_law.rows one_install i ≡ some x → x.id ≡ i
unfolding reference-Contract lookup
keyed i x h = ground (arith, eq_iff "i1" i)

keyed_plugin : (i : String) (p : Plugin) → catalog_law.rows one_plugin i ≡ some p → p.id ≡ i
unfolding reference-Contract lookup
keyed_plugin i p h = ground (arith, eq_iff "p1" i)

abbrev entry : PluginInstallState
entry = record { install = hers; catalog = some remind; state = eligible }

listed :
    list_installed_plugin_states installs catalog "ann" one_install one_plugin ≡ ok (entry ∷ [])
unfolding list_installed_plugin_states one_install one_plugin
listed = refl

eligible-loads_example :
    (p : Plugin) × (entry.catalog ≡ some p)
    × (load_eligible_plugin installs catalog "ann" p.id "i1" one_install one_plugin
        ≡ ok (record { install = hers; catalog = p }))
eligible-loads_example =
    eligible-loads install_law catalog_law (reference-IsReliable UserPlugin.key UserPlugin.holds)
      (reference-IsReliable Plugin.key Plugin.holds) one_install one_plugin keyed keyed_plugin "ann"
      (entry ∷ []) entry listed (inl refl) refl

stripped :
    strip_wake_word " Hey Luna, list my reminders" "hey luna" "button" ≡ some ", list my reminders"
unfolding strip_wake_word
stripped = refl

kept_whole : strip_wake_word "Lunatic plans" "luna" "wake_word" ≡ some "Lunatic plans"
unfolding strip_wake_word
kept_whole = refl

-- A wake word of white space makes the code index an empty text.
blank_wake_word : strip_wake_word "list my reminders" " " "button" ≡ none
unfolding strip_wake_word
blank_wake_word = refl

abbrev luna : String
luna = "Luna"

luna_given : trim_space luna ≢ ""
unfolding trim_space
luna_given = ground (arith, eq_iff "Luna" "")

plain : keeps_size (trim_space "luna stop") ≡ true
unfolding keeps_size trim_space
plain = refl

strip_wake_word-Stripped_example :
    Stripped
      (trim_space "luna stop")
      (to_lower (trim_space luna))
      (strip_wake_word "luna stop" luna "button")
strip_wake_word-Stripped_example =
    strip_wake_word-Stripped "luna stop" luna "button" luna_given plain

-- A wake word that is longer in lower case: two bytes for the first letter, then three.
abbrev barred : String
barred = "Ⱥlex"

behind_its_end : strip_wake_word barred barred "button" ≡ none
unfolding strip_wake_word
behind_its_end = refl

barred_given : trim_space barred ≢ ""
unfolding trim_space
barred_given = ground (arith, eq_iff "Ⱥlex" "")

strip_wake_word-none_example : strip_wake_word barred barred "button" ≡ none ↔ (
    (trim_space barred ≢ "")
    × (has_prefix (to_lower (trim_space barred)) (to_lower (trim_space barred)) ≡ true)
    × (byte_len (trim_space barred) < byte_len (to_lower (trim_space barred))))
strip_wake_word-none_example = strip_wake_word-none barred barred "button" barred_given

abbrev noon : ℕ
noon = 738944 * day + 43200 * second

early : year_of (noon / day) < 10000
unfolding year_of year_day months_before days_in day_number days_before_year days_of_months
    years_before month_of day_of
early = omega arith

parse_date_time-rfc3339_example :
    (parse_date_time 0 (rfc3339 utc noon) jakarta
      ≡ some (record { instant = noon / second * second; offset = utc }))
    × (normalize_reminder_remind_at 0 (rfc3339 utc noon)
        ≡ some (rfc3339 utc (noon / second * second)))
parse_date_time-rfc3339_example = parse_date_time-rfc3339 0 noon jakarta early

without_phrases : normalize_place_keyword "  any nearby  Any   coffee shop" ≡ "coffee shop"
unfolding normalize_place_keyword
without_phrases = refl

normalize_place_keyword-leading_phrase_example :
    leading_phrase (to_lower (normalize_place_keyword "nearby any cafe")) filler_phrases ≡ none
normalize_place_keyword-leading_phrase_example =
    normalize_place_keyword-leading_phrase "nearby any cafe"

three : time_of_day (to_lower (trim_space "Call Bob at 3 pm")) ≡ some (pos 15, pos 0)
unfolding time_of_day to_lower trim_space
three = refl

-- An hour has no bounds.
ninety_nine : parse_clock "99" ≡ some (pos 99, pos 0)
unfolding parse_clock
ninety_nine = refl

parse_natural_date_time-ahead_example :
    (t : ℕ) × (parse_natural_date_time noon "Call Bob at 3 pm" jakarta ≡ some t)
    × (noon < t)
    × (t ≤ noon + 2 * day)
parse_natural_date_time-ahead_example =
    parse_natural_date_time-ahead 420 noon 15 0 "Call Bob at 3 pm" three (omega arith) (omega arith)

-- Ten letters that are longer in lower case: the position of the period is behind the end.
behind_the_message : split_message_and_remind_at "ȺȺȺȺȺȺȺȺȺȺ evening" ≡ none
unfolding split_message_and_remind_at
behind_the_message = refl

two_parts : split_message_and_remind_at "Buy milk this evening" ≡ some ("Buy milk", "this evening")
unfolding split_message_and_remind_at
two_parts = refl
