-- ===== src/Assistant/Conversation/Consent.antt =====
-- When a turn of a conversation may run a plugin: with the user's yes, or without a confirmation where
-- the plugin needs none.
use smart_assistant_api.Common.{
  String, ◌≡◌, refl, Bool, true, false, Option, none, some, arith, str_eq, if◌then◌else◌,
}
use smart_assistant_api.Common.Assoc.{insert, lookup, lookup-insert}
use smart_assistant_api.Common.Text.{trim_space}
use smart_assistant_api.Common.Trimming.{trim_space-twice}
use smart_assistant_api.Common.Exec.{ok, Exec, pure, raise}
use smart_assistant_api.Dynamic.{
  Args, flag, put, sprint, printed, Argument, null, text, integer, float, texts, items, object,
  string_arg_value,
}
use smart_assistant_api.Plugin.{Plugin}
use smart_assistant_api.Assistant.Session.{PendingAction}
use smart_assistant_api.Assistant.Installed.{EligiblePlugin, load_eligible_plugin}
use smart_assistant_api.Assistant.Patterns.{is_confirmation_yes}
use smart_assistant_api.Assistant.ReminderArguments.{
  reminder_needs_confirmation, infer_reminder_operation, infer_reminder_filter,
  first_missing_reminder_argument,
}
use smart_assistant_api.Assistant.Conversation.{
  Backend, World, Failure, Answer, is_reminder_plugin, is_google_calendar_meet_plugin,
  is_composio_ai_plugin,
}
use smart_assistant_api.Assistant.Conversation.Execution.{exec_args, execute_plugin}
use smart_assistant_api.Assistant.Conversation.Pending.{composio_args}

-- whether a plugin is to ask before it runs with the arguments
unfoldable pub asks_first : Plugin → Args → Bool
unfolding is_reminder_plugin is_google_calendar_meet_plugin is_composio_ai_plugin string_arg_value
asks_first p args =
    if is_reminder_plugin p
    then reminder_needs_confirmation (string_arg_value args "operation")
    else if is_google_calendar_meet_plugin p
    then p.manifest.confirmation_required
    else if is_composio_ai_plugin p
    then false
    else p.manifest.confirmation_required

-- what the executor acts on, after one call of it
abbrev pub ran : (b : Backend) → String → EligiblePlugin → Args → b.Outside → b.Outside
ran b user_id e args o = (b.execute user_id e.catalog (exec_args e args) o).1

-- What a turn with an utterance and a pending action may do to what the executor acts on: nothing, or
-- one call of the executor, which the user has agreed to, which goes on with a Composio session, or
-- which needs no confirmation.
pub data Consent (b : Backend) (user_id said : String) (p : Option PendingAction)
    (is : b.installs.State) (cs : b.catalog.State) (o : b.Outside) : b.Outside → Type 0 where
  untouched : Consent b user_id said p is cs o o
  agreed :
      (q : PendingAction) (e : EligiblePlugin)
      → p ≡ some q
      → load_eligible_plugin b.installs b.catalog user_id q.plugin_id q.install_id is cs ≡ ok e
      → q.awaiting_confirmation ≡ true
      → is_confirmation_yes said ≡ true
      → Consent b user_id said p is cs o (ran b user_id e q.arguments o)
  confirmed :
      (q : PendingAction) (e : EligiblePlugin)
      → p ≡ some q
      → load_eligible_plugin b.installs b.catalog user_id q.plugin_id q.install_id is cs ≡ ok e
      → str_eq q.composio_session_id "" ≡ false
      → is_confirmation_yes said ≡ true
      → Consent b user_id said p is cs o
          (ran b user_id e (insert "confirmed" (flag true) (composio_args q said)) o)
  resumed :
      (q : PendingAction) (e : EligiblePlugin)
      → p ≡ some q
      → load_eligible_plugin b.installs b.catalog user_id q.plugin_id q.install_id is cs ≡ ok e
      → str_eq q.composio_session_id "" ≡ false
      → str_eq q.composio_pending_kind "confirmation" ≡ false
      → Consent b user_id said p is cs o (ran b user_id e (composio_args q said) o)
  free :
      (e : EligiblePlugin) (args : Args)
      → asks_first e.catalog args ≡ false
      → Consent b user_id said p is cs o (ran b user_id e args o)

-- The parts of the world that planning an answer leaves alone.
abbrev pub IsFramed : {b : Backend} → World b → World b → Type 0
IsFramed w w' =
    (w'.sessions ≡ w.sessions)
    × (w'.messages ≡ w.messages)
    × (w'.installs ≡ w.installs)
    × (w'.catalog ≡ w.catalog)

module _ (b : Backend) (user_id said : String) (p : Option PendingAction) where
  -- from one world, and from every world
  abbrev pub ConsentAt : World b → World b → Type 0
  ConsentAt w w' =
      Consent b user_id said p w.installs w.catalog w.outside w'.outside × IsFramed w w'

  unfoldable pub IsConsented : Exec (World b) Failure Answer → Type 0
  IsConsented m = (w : World b) → ConsentAt w (m w).1

module _ (b : Backend) (user_id said : String) (p : Option PendingAction) where
  pub pure-IsConsented : (a : Answer) → IsConsented b user_id said p (pure a)
  unfolding IsConsented
  pure-IsConsented a w = (untouched, (refl, refl, refl, refl))

  pub raise-IsConsented : (x : Failure) → IsConsented b user_id said p (raise x)
  unfolding IsConsented
  raise-IsConsented x w = (untouched, (refl, refl, refl, refl))

  pub if-IsConsented :
      (c : Bool) (m n : Exec (World b) Failure Answer)
      → (c ≡ true → IsConsented b user_id said p m)
      → (c ≡ false → IsConsented b user_id said p n)
      → IsConsented b user_id said p (if c then m else n)
  if-IsConsented true m n h k = h refl
  if-IsConsented false m n h k = k refl

  pub execute-IsConsented :
      (e : EligiblePlugin) (args : Args)
      → asks_first e.catalog args ≡ false
      → IsConsented b user_id said p (execute_plugin b user_id e args)
  unfolding IsConsented execute_plugin
  execute-IsConsented e args h w = (free e args h, (refl, refl, refl, refl))

pub string_arg_value-put :
    (k v j : String) (args : Args)
    → string_arg_value (put k v args) j
      ≡ (if str_eq k j then trim_space v else string_arg_value args j)
unfolding string_arg_value put sprint printed
string_arg_value-put k v j args = ground (arith, lookup-insert k j (text v) args)

trim_space-printed : (o : Option Argument) → trim_space (printed o) ≡ printed o
unfolding trim_space printed
trim_space-printed none = refl
trim_space-printed (some null) = refl
trim_space-printed (some (text s)) = trim_space-twice (sprint (text s))
trim_space-printed (some (integer n)) = trim_space-twice (sprint (integer n))
trim_space-printed (some (float n s)) = trim_space-twice (sprint (float n s))
trim_space-printed (some (flag c)) = trim_space-twice (sprint (flag c))
trim_space-printed (some (texts xs)) = trim_space-twice (sprint (texts xs))
trim_space-printed (some (items xs)) = trim_space-twice (sprint (items xs))
trim_space-printed (some (object s)) = trim_space-twice (sprint (object s))

trim_space-if :
    {x y : String} (c : Bool)
    → trim_space x ≡ x
    → trim_space y ≡ y
    → trim_space (if c then x else y) ≡ (if c then x else y)
trim_space-if true h k = h
trim_space-if false h k = k

listed : trim_space "list" ≡ "list"
unfolding trim_space
listed = refl

deleted : trim_space "delete" ≡ "delete"
unfolding trim_space
deleted = refl

created : trim_space "create" ≡ "create"
unfolding trim_space
created = refl

pub string_arg_value-trimmed :
    (args : Args) (k : String) → trim_space (string_arg_value args k) ≡ string_arg_value args k
unfolding string_arg_value
string_arg_value-trimmed args k = trim_space-printed (lookup k args)

-- an inferred operation is trimmed
pub infer_reminder_operation-trimmed :
    (said : String) (args : Args)
    → trim_space (infer_reminder_operation said args) ≡ infer_reminder_operation said args
unfolding infer_reminder_operation
infer_reminder_operation-trimmed said args =
    trim_space-if _ (string_arg_value-trimmed args "operation")
      (trim_space-if _ listed (trim_space-if _ deleted created))

-- The later steps leave the operation alone.
pub infer_reminder_filter-operation :
    (said : String) (args : Args)
    → string_arg_value (infer_reminder_filter said args) "operation"
      ≡ string_arg_value args "operation"
unfolding infer_reminder_filter
infer_reminder_filter-operation said args = ground (
  arith,
  string_arg_value-put "filter" "today" "operation" args,
  string_arg_value-put "filter" "tomorrow" "operation" args,
  string_arg_value-put "filter" "all" "operation" args,
)

pub first_missing_reminder_argument-operation :
    (operation : String) (args : Args)
    → string_arg_value (first_missing_reminder_argument operation args).2 "operation"
      ≡ string_arg_value args "operation"
unfolding first_missing_reminder_argument
first_missing_reminder_argument-operation operation args =
    ground (arith, string_arg_value-put "filter" "today" "operation" args)
