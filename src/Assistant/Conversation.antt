-- ===== src/Assistant/Conversation.antt =====
-- internal/domain/assistant/service.go and google_calendar_meet.go: a turn of a conversation.
pub mod Execution
pub mod Advance
pub mod Pending
pub mod Classification
pub mod Messages
pub mod Consent
pub mod Consented
pub mod Turns
pub mod Requests
pub mod Transcript
pub mod Progress
mod Samples
use smart_assistant_api.Common.{
  ℕ, String, Bool, true, false, Option, none, some, List, [], ◌∷◌, ◌||◌, str_eq, if◌then◌else◌,
}
use smart_assistant_api.Common.Assoc.{lookup}
use smart_assistant_api.Common.Exec.{Result, ok, err, Exec}
use smart_assistant_api.Dynamic.{Args, Argument, as_string}
use smart_assistant_api.Response.{AppError}
use smart_assistant_api.Store.Contract.{Store}
use smart_assistant_api.Plugin.{Plugin, ManifestArgument}
use smart_assistant_api.UserPlugin.{UserPlugin}
use smart_assistant_api.AssistantSettings.{Settings}
use smart_assistant_api.Assistant.Session.{Session, Message, PendingAction, Reply}
use smart_assistant_api.Assistant.MeetArguments.{Weekdays}
use smart_assistant_api.Assistant.Builtin.Errors.{ExecError}
use smart_assistant_api.Assistant.Builtin.Prompts.{
  reminder_slug, adapter_reminder, location_reminder_slug, adapter_location_reminder,
  google_calendar_meet_slug, adapter_google_calendar_meet,
}

-- pkg/llm/classifier.go
pub record ConversationTurn : Type 0 where
  pub role : String
  pub content : String

pub record PluginCandidate : Type 0 where
  pub slug : String
  pub name : String
  pub description : String
  pub triggers : List String
  pub arguments : List ManifestArgument

pub record ClassifyRequest : Type 0 where
  pub text : String
  pub plugins : List PluginCandidate
  pub recent_messages : List ConversationTurn

pub record ClassifyResult : Type 0 where
  pub matched : Bool
  pub plugin_slug : String
  pub arguments : Args

-- What RecommendSlot returns: an instant, ErrNoAvailableSlot, or another error.
pub data SlotAnswer : Type 0 where
  slot : ℕ → SlotAnswer
  no_slot failed : SlotAnswer

-- What the service works on: its repositories, the executor of plugins with what it acts on, the
-- classifier (`none` is a nil result), and the availability service, which may be missing.
pub record Backend : Type 1 where
  pub sessions : Store Session
  pub messages : Store Message
  pub settings : Store Settings
  pub installs : Store UserPlugin
  pub catalog : Store Plugin
  pub Outside : Type 0
  pub execute : String → Plugin → Args → Exec Outside ExecError (Option Args)
  pub classify : ClassifyRequest → Result (Unit {0}) (Option ClassifyResult)
  pub availability : Option (String → List String → SlotAnswer)

pub record World (b : Backend) : Type 0 where
  pub sessions : b.sessions.State
  pub messages : b.messages.State
  pub settings : b.settings.State
  pub installs : b.installs.State
  pub catalog : b.catalog.State
  pub outside : b.Outside

-- What `uuid.NewString()` and `time.Now()` return at their calls in a turn: the two messages'
-- ids and times, the times of GetOrCreate, of the parsers, of a prompt, and of the session.
pub record Clock : Type 0 where
  pub heard_id : String
  pub heard_at : ℕ
  pub settings_at : ℕ
  pub answered : ℕ
  pub normalized : ℕ
  pub named : ℕ
  pub parsed : ℕ
  pub shown : ℕ
  pub radius_at : ℕ
  pub saved_at : ℕ
  pub replied_id : String
  pub replied_at : ℕ
  pub weekdays : Weekdays

-- An error that a turn ends with: an application error, or one that fmt.Errorf made.
pub data Failure : Type 0 where
  app : AppError → Failure
  unexpected : String → Failure

-- The reply of a turn, and the action that it leaves pending. The status of the session, which the
-- code returns too, is always active.
abbrev pub Answer : Type 0
Answer = Reply × Option PendingAction

abbrev pub adapter_of : Plugin → String
unfolding lookup
adapter_of p = as_string (lookup "builtin_adapter" p.manifest.executor.config)

-- isReminderPlugin, isLocationReminderPlugin, isGoogleCalendarMeetPlugin, isComposioAIPlugin
unfoldable pub is_reminder_plugin : Plugin → Bool
unfolding adapter_of
is_reminder_plugin p = str_eq p.slug reminder_slug || str_eq (adapter_of p) adapter_reminder

unfoldable pub is_location_reminder_plugin : Plugin → Bool
unfolding adapter_of
is_location_reminder_plugin p =
    str_eq p.slug location_reminder_slug || str_eq (adapter_of p) adapter_location_reminder

unfoldable pub is_google_calendar_meet_plugin : Plugin → Bool
unfolding adapter_of
is_google_calendar_meet_plugin p =
    str_eq p.slug google_calendar_meet_slug || str_eq (adapter_of p) adapter_google_calendar_meet

unfoldable pub is_composio_ai_plugin : Plugin → Bool
is_composio_ai_plugin p =
    str_eq p.slug "composio-ai" || str_eq p.manifest.executor.kind "composio_mcp"
