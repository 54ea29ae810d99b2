-- ===== src/AssistantSettings/Samples.antt =====
-- The settings of a user, over the reference store.
use smart_assistant_api.Common.{◌≡◌, refl, true, some, List, [], ◌∷◌}
use smart_assistant_api.Common.Int.{pos}
use smart_assistant_api.Common.Assoc.{lookup, insert}
use smart_assistant_api.Common.Text.{trim_space, to_lower}
use smart_assistant_api.Common.Exec.{ok, err}
use smart_assistant_api.Response.{invalid}
use smart_assistant_api.Store.Contract.{Store, Contract}
use smart_assistant_api.Store.Memory.Crud.{Items}
use smart_assistant_api.Store.Reference.{reference, reference-Contract, reference-IsReliable}
use smart_assistant_api.Assistant.WakeWord.{strip_wake_word}
use smart_assistant_api.Assistant.Stripping.{Stripped, keeps_size}
use smart_assistant_api.AssistantSettings.{Settings, UpdateInput, key, holds, get_or_create, update}
use smart_assistant_api.AssistantSettings.Sound.{
  Call, read, write, after_all, IsSoundTable, after_all-IsSoundTable, strip_wake_word-get_or_create,
}
use smart_assistant_api.AssistantSettings.Freshness.{get_or_create-update}

abbrev db : Store Settings
db = reference key holds

abbrev law : Contract key holds db
law = reference-Contract key holds

abbrev empty : Items Settings
empty = record { items = []; distinct = tt }

abbrev wish : UpdateInput
wish = record {
  wake_word = " Luna ";
  active_listening_enabled = true;
  location_reminder_threshold_meters = some (pos 250);
}

abbrev luna : Settings
luna = record {
  user_id = "ann";
  wake_word = "Luna";
  active_listening_enabled = true;
  location_reminder_threshold_meters = pos 250;
  updated_at = 3;
}

abbrev calls : List Call
calls = read 1 "ann" ∷ write 2 3 "ann" wish ∷ []

updated : (update db 2 3 "ann" wish empty).0 ≡ ok luna
unfolding update insert lookup
updated = refl

too_near :
    (update db 2 3 "ann"
      (record wish { location_reminder_threshold_meters = some (pos 9) })
      empty).0
    ≡ err (invalid "location_reminder_threshold_meters" "must be between 10 and 5000 meters")
unfolding update insert lookup
too_near = refl

read_back : (get_or_create db 4 "ann" (after_all db calls empty)).0 ≡ ok luna
unfolding get_or_create update insert lookup
read_back = refl

empty-IsSoundTable : IsSoundTable (law.rows empty)
unfolding reference-Contract lookup
empty-IsSoundTable i = tt

after_all-IsSoundTable_example : IsSoundTable (law.rows (after_all db calls empty))
after_all-IsSoundTable_example = after_all-IsSoundTable law calls empty empty-IsSoundTable

plain : keeps_size (trim_space "luna, list my reminders") ≡ true
unfolding keeps_size trim_space
plain = refl

strip_wake_word-get_or_create_example :
    Stripped
      (trim_space "luna, list my reminders")
      (to_lower (trim_space luna.wake_word))
      (strip_wake_word "luna, list my reminders" luna.wake_word "button")
strip_wake_word-get_or_create_example =
    strip_wake_word-get_or_create law calls empty 4 "ann" luna "luna, list my reminders" "button"
      empty-IsSoundTable read_back plain

get_or_create-update_example :
    (luna.wake_word ≡ trim_space wish.wake_word)
    × (luna.active_listening_enabled ≡ wish.active_listening_enabled)
    × ((get_or_create db 5 "ann" (update db 2 3 "ann" wish empty).1).0 ≡ ok luna)
get_or_create-update_example =
    get_or_create-update law (reference-IsReliable key holds) 2 3 5 "ann" wish empty luna updated
