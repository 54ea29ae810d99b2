-- ===== src/UserPlugin/Samples.antt =====
-- Two users and the reminder plugin, over the reference store.
use smart_assistant_api.Common.{String, ◌≡◌, refl, ◌≢◌, false, some, List, [], ◌∷◌, arith, eq_iff}
use smart_assistant_api.Common.Exec.{ok}
use smart_assistant_api.Common.Assoc.{lookup, insert, erase}
use smart_assistant_api.Store.Contract.{Contract}
use smart_assistant_api.Store.Reference.{reference, reference-Contract, reference-IsReliable}
use smart_assistant_api.Plugin
use smart_assistant_api.Plugin.{Plugin}
use smart_assistant_api.UserPlugin.{key, holds}
use smart_assistant_api.UserPlugin.Service.{
  Backend, World, install, uninstall, set_enabled, new_install, to_installed_response,
}
use smart_assistant_api.UserPlugin.Ownership.{IsRefused, foreign-IsRefused}
use smart_assistant_api.UserPlugin.Unique.{
  IsUnique, Call, add, remove, switch, after_all, after_all-IsUnique,
}
use smart_assistant_api.UserPlugin.Install.{install-twice}
use smart_assistant_api.UserPlugin.Uninstall.{IsUninstalled, uninstall-IsUninstalled}

abbrev reminder_plugin : Plugin
reminder_plugin = record {
  id = "p1";
  slug = "reminder";
  name = "Reminders";
  description = "";
  version = "1";
  manifest = record {
    triggers = [];
    required_setup = false;
    setup_type = "none";
    arguments = [];
    confirmation_required = false;
    executor = record { kind = "builtin"; config = [] };
  };
  created_at = 0;
  updated_at = 0;
}

-- The cleaners keep a log of their calls.
abbrev logging : Backend
logging = record {
  installs = reference key holds;
  catalog = reference Plugin.key Plugin.holds;
  Credentials = List String;
  Reminders = List String;
  delete_for_user_plugin = λ u p s. (ok tt, p ∷ s);
  cancel_all_for_user_plugin = λ u i s. (ok tt, i ∷ s);
}

abbrev law : Contract key holds logging.installs
law = reference-Contract key holds

abbrev start : World logging
unfolding lookup
start = record {
  installs = record { items = []; distinct = tt };
  catalog = record { items = ("p1", reminder_plugin) ∷ []; distinct = (refl, tt) };
  credentials = [];
  reminders = [];
}

abbrev installed : World logging
unfolding lookup
installed = record start {
  installs = record {
    items = ("i1", new_install "i1" 1 "ann" reminder_plugin) ∷ [];
    distinct = (refl, tt);
  };
}

installed_there : law.rows installed.installs "i1" ≡ some (new_install "i1" 1 "ann" reminder_plugin)
unfolding reference-Contract lookup
installed_there = refl

installs_it :
    (install logging "i1" 1 "ann" " Reminder " start).0
    ≡ ok (to_installed_response (new_install "i1" 1 "ann" reminder_plugin) reminder_plugin)
unfolding install lookup insert
installs_it = refl

ann_not_bob : (new_install "i1" 1 "ann" reminder_plugin).user_id ≢ "bob"
ann_not_bob = ground (arith, eq_iff "ann" "bob")

foreign-IsRefused_example :
    (IsRefused (uninstall logging "bob" "i1" installed).0
      × ((uninstall logging "bob" "i1" installed).1 ≡ installed))
    × (IsRefused (set_enabled logging 5 "bob" "i1" false installed).0
        × ((set_enabled logging 5 "bob" "i1" false installed).1 ≡ installed))
foreign-IsRefused_example =
    foreign-IsRefused law "bob" "i1" installed (new_install "i1" 1 "ann" reminder_plugin)
      installed_there ann_not_bob 5 false

start-IsUnique : IsUnique (law.rows start.installs)
unfolding reference-Contract lookup
start-IsUnique i j x y hx hy user plugin = absurd (cc)

abbrev calls : List Call
calls =
    add "i1" 1 "ann" "reminder"
    ∷ add "i2" 2 "ann" "Reminder"
    ∷ switch 3 "ann" "i1" false
    ∷ remove "bob" "i1"
    ∷ []

after_all-IsUnique_example : IsUnique (law.rows (after_all logging calls start).installs)
after_all-IsUnique_example = after_all-IsUnique law calls start start-IsUnique

install-twice_example :
    install logging "i2" 2 "ann" "reminder" (install logging "i1" 1 "ann" "reminder" start).1
    ≡ install logging "i1" 1 "ann" "reminder" start
install-twice_example =
    install-twice law (reference-IsReliable key holds) "i1" "i2" 1 2 "ann" "reminder" start

uninstalls : (uninstall logging "ann" "i1" installed).0 ≡ ok tt
unfolding uninstall lookup erase
uninstalls = refl

uninstall-IsUninstalled_example :
    IsUninstalled law "ann" "i1" installed (uninstall logging "ann" "i1" installed).1
uninstall-IsUninstalled_example = uninstall-IsUninstalled law "ann" "i1" installed uninstalls
