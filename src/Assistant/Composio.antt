-- ===== src/Assistant/Composio.antt =====
-- internal/domain/assistant/composio_mcp_executor.go: what an answer of Composio means. The JSON
-- decoder is a parameter: the map that json.Unmarshal leaves.
pub mod Agent
pub mod Outcomes
pub mod Sessions
pub mod Budget
mod Samples
use smart_assistant_api.Common.{
  String, Bool, true, false, ◌&&◌, ◌||◌, not, Option, none, some, List, [], ◌∷◌, str_eq,
  if◌then◌else◌,
}
use smart_assistant_api.Common.Assoc.{lookup, insert}
use smart_assistant_api.Common.Text.{trim_space, to_lower, contains, has_prefix, skip, rune_count}
use smart_assistant_api.Dynamic.{Args, text, flag, string_arg_value}

-- the first of the fields that is not empty; stringFieldFromMap is stringArgValue
unfoldable pub first_field : List String → Args → String
unfolding string_arg_value
first_field [] fields = ""
first_field (k ∷ ks) fields =
    let rest = first_field ks fields in
    let v = string_arg_value fields k in if str_eq v "" then rest else v

-- promptFromComposioData
abbrev call_prefix : String
call_prefix = "composio: session execute: "

abbrev failure_text : Option String → String
unfolding has_prefix skip rune_count
failure_text none = ""
failure_text (some msg) =
    if has_prefix msg call_prefix then skip (rune_count call_prefix) msg else msg

unfoldable pub prompt_from_composio_data : Args → Option String → String
unfolding first_field failure_text
prompt_from_composio_data fields error =
    let given = first_field ("prompt" ∷ "message" ∷ "question" ∷ []) fields in
    if str_eq given "" then failure_text error else given

-- replyTextFromComposioData
unfoldable pub reply_text_from_composio_data : Args → String
unfolding first_field
reply_text_from_composio_data = first_field ("reply_text" ∷ "message" ∷ "summary" ∷ "result" ∷ [])

-- authURLFromComposioData
unfoldable pub first_url : List String → Args → String
unfolding string_arg_value has_prefix
first_url [] fields = ""
first_url (k ∷ ks) fields =
    let rest = first_url ks fields in
    let v = string_arg_value fields k in
    if not (str_eq v "") && has_prefix v "http" then v else rest

unfoldable pub auth_url_from_composio_data : Args → String
unfolding first_url
auth_url_from_composio_data = first_url ("auth_url" ∷ "connect_url" ∷ "url" ∷ [])

-- kindToStatus
abbrev pub kind_to_status : String → String
kind_to_status kind =
    if str_eq kind "confirmation"
    then "needs_confirmation"
    else if str_eq kind "auth"
    then "needs_auth"
    else "needs_input"

abbrev pub or_default : String → String → String
unfolding trim_space
or_default fallback prompt = if str_eq (trim_space prompt) "" then fallback else prompt

unfoldable pub composio_pending_outcome : String → String → String → Args
unfolding or_default
composio_pending_outcome session_id kind prompt =
    ("status", text (kind_to_status kind))
    ∷ ("prompt", text (or_default "I need a bit more information to continue." prompt))
    ∷ ("composio_session_id", text session_id)
    ∷ ("composio_pending_kind", text kind)
    ∷ []

unfoldable pub composio_auth_outcome : String → Args → String → Args
unfolding composio_pending_outcome auth_url_from_composio_data insert or_default
composio_auth_outcome session_id fields prompt =
    let url = auth_url_from_composio_data fields in
    let out = insert "status" (text "needs_auth") (
      composio_pending_outcome session_id "auth"
        (or_default "Please connect the required app to continue." prompt)) in
    if str_eq url "" then out else insert "auth_url" (text url) out

abbrev pub finished : Bool → String → Args
finished successful reply = ("successful", flag successful) ∷ ("reply_text", text reply) ∷ []

abbrev pub finished_in : String → String → Args
finished_in session_id reply =
    ("successful", flag true)
    ∷ ("reply_text", text reply)
    ∷ ("composio_session_id", text session_id)
    ∷ []

-- rateLimitOutcome
abbrev pub busy : Args
busy = finished false "Composio is busy right now. Please try again in a moment."

unfoldable pub rate_limit_outcome : String → Option Args
unfolding contains to_lower
rate_limit_outcome msg =
    if contains msg "status 429" || contains (to_lower msg) "rate limit" then some busy else none

module _ (decode : String → Args) (session_id : String) where
  -- the fields of a result, where there is one with data
  abbrev pub fields_of : Option String → Args
  fields_of none = []
  fields_of (some raw) = if str_eq raw "" then [] else decode raw

  abbrev asking : String → Args → Option String → Option Args
  unfolding composio_pending_outcome prompt_from_composio_data
  asking kind fields error =
      some (composio_pending_outcome session_id kind (prompt_from_composio_data fields error))

  abbrev connecting : Args → Option String → Option Args
  unfolding composio_auth_outcome prompt_from_composio_data
  connecting fields error =
      some (composio_auth_outcome session_id fields (prompt_from_composio_data fields error))

  -- the last part of interpretComposioOutcome: an error, or a reply
  abbrev pub failed_call : String → Args → Option Args
  unfolding asking contains to_lower rate_limit_outcome
  failed_call msg fields =
      let lower = to_lower msg in
      if contains lower "needs user input" || contains lower "needs_input"
      then asking "input" fields (some msg)
      else if contains lower "confirmation"
      then asking "confirmation" fields (some msg)
      else rate_limit_outcome msg

  abbrev pub answered : Args → Option Args
  unfolding reply_text_from_composio_data
  answered fields =
      let reply = reply_text_from_composio_data fields in
      if str_eq reply "" then none else some (finished_in session_id reply)

  abbrev pub without_kind : Option String → Args → Option String → Option Args
  unfolding failed_call answered
  without_kind result fields (some msg) = failed_call msg fields
  without_kind none fields none = none
  without_kind (some raw) fields none = if str_eq raw "" then none else answered fields

  -- interpretComposioOutcome from its test of the type
  unfoldable pub by_type : Option String → Args → Option String → Option Args
  unfolding asking connecting without_kind string_arg_value to_lower auth_url_from_composio_data
  by_type result fields error =
      let kind = to_lower (string_arg_value fields "type") in
      if str_eq kind "elicitation"
      then asking "input" fields error
      else if str_eq kind "confirmation"
      then asking "confirmation" fields error
      else if not (str_eq (auth_url_from_composio_data fields) "")
      then connecting fields error
      else without_kind result fields error

  unfoldable pub by_status : Option String → Args → Option String → Option Args
  unfolding asking connecting by_type string_arg_value to_lower reply_text_from_composio_data
  by_status result fields error =
      let status = to_lower (string_arg_value fields "status") in
      if str_eq status "needs_input"
      then asking "input" fields error
      else if str_eq status "needs_confirmation"
      then asking "confirmation" fields error
      else if str_eq status "auth_required" || str_eq status "needs_auth"
      then connecting fields error
      else if str_eq status "cannot_handle"
      then some (finished false "I can't do that with your connected apps.")
      else if str_eq status "completed" || str_eq status "success"
      then some (finished true (reply_text_from_composio_data fields))
      else by_type result fields error

  -- interpretComposioOutcome: the data of a result, `none` for a nil result, and the text of an error
  unfoldable pub interpret_composio_outcome : Option String → Option String → Option Args
  unfolding by_status
  interpret_composio_outcome result error = by_status result (fields_of result) error
