-- ===== src/Assistant/Session.antt =====
-- internal/domain/assistant/entity.go, dto.go and repository.go: conversations and their messages.
use smart_assistant_api.Common.{
  ℕ, String, Bool, false, Option, none, some, List, [], ◌∷◌, str_eq, if◌then◌else◌,
}
use smart_assistant_api.Common.Exec.{Result}
use smart_assistant_api.Dynamic.{Args}
use smart_assistant_api.Store.Query.{
  Value, text, instant, Condition, Query, new_query, where_eq, order_by,
}
use smart_assistant_api.Store.Meaning.{means}
use smart_assistant_api.Store.Contract.{StoreError, Store}

-- SessionStatus and MessageRole
abbrev pub session_status_active : String
session_status_active = "active"

abbrev pub role_user : String
role_user = "user"

abbrev pub role_assistant : String
role_assistant = "assistant"

abbrev pub role_system : String
role_system = "system"

pub record PendingAction : Type 0 where
  pub plugin_slug : String
  pub plugin_id : String
  pub install_id : String
  pub arguments : Args
  pub missing_argument : String
  pub awaiting_confirmation : Bool
  pub composio_session_id : String
  pub composio_pending_kind : String
  pub composio_prompt : String

pub record Session : Type 0 where
  pub id : String
  pub user_id : String
  pub status : String
  pub pending_action : Option PendingAction
  pub created_at : ℕ
  pub updated_at : ℕ

-- ReplyType and ActionStatus
pub data ReplyType : Type 0 where
  plain follow_up confirmation action_result : ReplyType

pub data ActionStatus : Type 0 where
  pending success failed : ActionStatus

-- What an action carries: nothing, the map that the executor made for the client, by its print, or
-- the fields that the service writes.
pub data Payload : Type 0 where
  no_payload : Payload
  client : String → Payload
  fields : List (String × String) → Payload

pub record ActionInfo : Type 0 where
  pub plugin_slug : String
  pub status : ActionStatus
  pub payload : Payload

pub record Reply : Type 0 where
  pub kind : ReplyType
  pub text : String
  pub action : Option ActionInfo

-- The metadata of a message is empty, or what the service keeps of a reply.
pub record Message : Type 0 where
  pub id : String
  pub session_id : String
  pub role : String
  pub content : String
  pub metadata : Option (ReplyType × Option ActionInfo)
  pub created_at : ℕ

abbrev pub session_key : Session → String
session_key s = s.id

abbrev pub session_holds : Session → Condition → Bool
session_holds s c =
    means (if str_eq c.field "id" then some (text s.id) else none) c.operator c.value

abbrev pub message_key : Message → String
message_key m = m.id

abbrev pub message_column : Message → String → Option Value
message_column m field =
    if str_eq field "id"
    then some (text m.id)
    else if str_eq field "session_id"
    then some (text m.session_id)
    else if str_eq field "created_at"
    then some (instant m.created_at)
    else none

abbrev pub message_holds : Message → Condition → Bool
message_holds m c = means (message_column m c.field) c.operator c.value

abbrev pub transcript_query : String → Query
transcript_query session_id =
    order_by "created_at" false (where_eq "session_id" (text session_id) new_query)

-- FindBySessionID
unfoldable pub find_by_session_id :
    (st : Store Message) → String → st.State → Result StoreError (List Message)
find_by_session_id st session_id = st.find (transcript_query session_id)

pub record MessageHistoryItem : Type 0 where
  pub role : String
  pub content : String
  pub created_at : ℕ

-- ToMessageHistory
unfoldable pub to_message_history : List Message → List MessageHistoryItem
to_message_history [] = []
to_message_history (m ∷ ms) =
    let rest = to_message_history ms in
    if str_eq m.role role_system
    then rest
    else record { role = m.role; content = m.content; created_at = m.created_at } ∷ rest
