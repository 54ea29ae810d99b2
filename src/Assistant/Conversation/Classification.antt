-- ===== src/Assistant/Conversation/Classification.antt =====
-- internal/domain/assistant/service.go: a turn with no pending action, which asks the classifier for a
-- plugin.
use Prim.Native.String.{◌++◌}
use smart_assistant_api.Common.{
  ℕ, ◌-◌, String, Bool, true, false, not, ◌&&◌, ◌||◌, Option, none, some, List, [], ◌∷◌, map,
  length, drop, str_eq, if◌then◌else◌,
}
use smart_assistant_api.Common.Text.{trim_space}
use smart_assistant_api.Common.Exec.{Result, ok, err, Exec, pure, raise}
use smart_assistant_api.Response.{AppError, internal}
use smart_assistant_api.Plugin.{Plugin}
use smart_assistant_api.UserPlugin.{UserPlugin}
use smart_assistant_api.Store.Contract.{StoreError}
use smart_assistant_api.Assistant.Session.{
  Message, Reply, plain, pending, fields, find_by_session_id, role_user, role_assistant,
}
use smart_assistant_api.Assistant.Installed.{
  EligiblePlugin, PluginInstallState, InstalledPluginState, eligible, setup_incomplete, disabled,
  list_installed_plugin_states,
}
use smart_assistant_api.Assistant.Conversation.{
  Backend, World, Clock, Failure, app, Answer, ConversationTurn, PluginCandidate, ClassifyResult,
}
use smart_assistant_api.Assistant.Conversation.Advance.{saying, advance_plugin}

abbrev pub no_action_text : String
no_action_text = "I heard you, but no action is configured."

abbrev pub no_match_text : String
no_match_text = "I don't know how to do that yet."

abbrev pub classifier_unavailable_text : String
classifier_unavailable_text =
    "I'm having trouble understanding that right now. Please try again in a moment."

abbrev pub action_reason_setup_incomplete : String
action_reason_setup_incomplete = "setup_incomplete"

abbrev pub action_reason_plugin_disabled : String
action_reason_plugin_disabled = "plugin_disabled"

abbrev pub delegation_recent_messages_limit : ℕ
delegation_recent_messages_limit = 6

-- blockedPluginReply
abbrev name_of : Option Plugin → String
name_of none = "This plugin"
name_of (some p) = p.name

abbrev slug_of : Option Plugin → String
slug_of none = ""
slug_of (some p) = p.slug

abbrev blocked_text : String → String → String
blocked_text name reason =
    if str_eq reason action_reason_setup_incomplete
    then name ++ " is installed but still needs setup before I can help with that."
    else if str_eq reason action_reason_plugin_disabled
    then name ++ " is installed but disabled. Please enable it to use this feature."
    else no_action_text

unfoldable pub blocked_plugin_reply : PluginInstallState → String → Reply
blocked_plugin_reply st reason = record {
  kind = plain;
  text = blocked_text (name_of st.catalog) reason;
  action = some (record {
    plugin_slug = slug_of st.catalog;
    status = pending;
    payload = fields (
        ("reason", reason)
        ∷ ("install_id", st.install.id)
        ∷ ("plugin_slug", slug_of st.catalog)
        ∷ []);
  });
}

-- the loop that collects the eligible plugins
abbrev kept : UserPlugin → Option Plugin → InstalledPluginState → Option EligiblePlugin
kept up (some p) eligible = some (record { install = up; catalog = p })
kept up _ _ = none

abbrev add_eligible : Option EligiblePlugin → List EligiblePlugin → List EligiblePlugin
add_eligible none es = es
add_eligible (some e) es = e ∷ es

unfoldable pub eligible_plugins : List PluginInstallState → List EligiblePlugin
eligible_plugins [] = []
eligible_plugins (st ∷ sts) =
    let rest = eligible_plugins sts in add_eligible (kept st.install st.catalog st.state) rest

-- the loops that look for the first state of a kind
abbrev needs_setup : InstalledPluginState → Bool
needs_setup setup_incomplete = true
needs_setup _ = false

abbrev is_disabled : InstalledPluginState → Bool
is_disabled disabled = true
is_disabled _ = false

unfoldable pub first_in :
    (InstalledPluginState → Bool) → List PluginInstallState → Option PluginInstallState
first_in f [] = none
first_in f (st ∷ sts) = let rest = first_in f sts in if f st.state then some st else rest

-- the answer when no installed plugin is eligible
abbrev otherwise_disabled : Option PluginInstallState → Answer
unfolding blocked_plugin_reply
otherwise_disabled (some st) = (blocked_plugin_reply st action_reason_plugin_disabled, none)
otherwise_disabled none = (saying no_action_text, none)

abbrev otherwise_incomplete : List PluginInstallState → Option PluginInstallState → Answer
unfolding blocked_plugin_reply otherwise_disabled first_in
otherwise_incomplete states (some st) =
    (blocked_plugin_reply st action_reason_setup_incomplete, none)
otherwise_incomplete states none = otherwise_disabled (first_in is_disabled states)

unfoldable pub none_eligible : List PluginInstallState → Answer
unfolding otherwise_incomplete first_in
none_eligible states = otherwise_incomplete states (first_in needs_setup states)

abbrev pub candidate : EligiblePlugin → PluginCandidate
candidate e = record {
  slug = e.catalog.slug;
  name = e.catalog.name;
  description = e.catalog.description;
  triggers = e.catalog.manifest.triggers;
  arguments = e.catalog.manifest.arguments;
}

-- recentMessagesForClassification: without the message that the turn has just written
unfoldable pub drop_current : String → List Message → List Message
unfolding trim_space
drop_current said [] = []
drop_current said (m ∷ []) =
    if str_eq m.role role_user && str_eq (trim_space m.content) said then [] else m ∷ []
drop_current said (m ∷ (n ∷ ms)) = m ∷ drop_current said (n ∷ ms)

unfoldable pub turns_of : List Message → List ConversationTurn
unfolding trim_space
turns_of [] = []
turns_of (m ∷ ms) =
    let rest = turns_of ms in
    let content = trim_space m.content in
    if not (str_eq m.role role_user) && not (str_eq m.role role_assistant)
    then rest
    else if str_eq content ""
    then rest
    else record { role = m.role; content = content } ∷ rest

unfoldable pub recent_turns : String → List Message → List ConversationTurn
unfolding drop_current turns_of trim_space
recent_turns said msgs =
    let msgs = drop_current (trim_space said) msgs in
    turns_of (drop (length msgs - delegation_recent_messages_limit) msgs)

-- the first eligible plugin with the slug
unfoldable pub with_slug : String → List EligiblePlugin → Option EligiblePlugin
with_slug slug [] = none
with_slug slug (e ∷ es) =
    let rest = with_slug slug es in if str_eq e.catalog.slug slug then some e else rest

module _ (b : Backend) (t : Clock) (user_id : String) (session_id : String) (said : String) where
  unfoldable pub with_match : ClassifyResult → Option EligiblePlugin → Exec (World b) Failure Answer
  unfolding advance_plugin
  with_match r none = pure (saying no_match_text, none)
  with_match r (some e) = advance_plugin b t user_id e said r.arguments

  unfoldable pub classified :
      List EligiblePlugin
      → Result (Unit {0}) (Option ClassifyResult)
      → Exec (World b) Failure Answer
  unfolding with_match with_slug
  classified es (err _) = pure (saying classifier_unavailable_text, none)
  classified es (ok none) = pure (saying no_match_text, none)
  classified es (ok (some r)) =
      if not r.matched || str_eq r.plugin_slug ""
      then pure (saying no_match_text, none)
      else with_match r (with_slug r.plugin_slug es)

  unfoldable pub with_recent :
      List EligiblePlugin → Result StoreError (List Message) → Exec (World b) Failure Answer
  unfolding classified recent_turns
  with_recent es (err _) = raise (app (internal "failed to load recent messages"))
  with_recent es (ok msgs) = classified es (
      b.classify (record {
        text = said;
        plugins = map candidate es;
        recent_messages = recent_turns said msgs;
      }))

  unfoldable pub with_plugins :
      List PluginInstallState → List EligiblePlugin → Exec (World b) Failure Answer
  unfolding with_recent none_eligible find_by_session_id
  with_plugins states [] w = pure (none_eligible states) w
  with_plugins states (e ∷ es) w =
      with_recent (e ∷ es) (find_by_session_id b.messages session_id w.messages) w

  unfoldable pub with_states :
      Result AppError (List PluginInstallState) → Exec (World b) Failure Answer
  unfolding with_plugins eligible_plugins
  with_states (err x) = raise (app x)
  with_states (ok []) = pure (saying no_action_text, none)
  with_states (ok (st ∷ sts)) = with_plugins (st ∷ sts) (eligible_plugins (st ∷ sts))

  -- classifyAndExecute
  unfoldable pub classify_and_execute : Exec (World b) Failure Answer
  unfolding with_states list_installed_plugin_states
  classify_and_execute w =
      with_states (list_installed_plugin_states b.installs b.catalog user_id w.installs w.catalog) w
