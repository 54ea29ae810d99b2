-- ===== src/Assistant/Conversation/Execution.antt =====
-- internal/domain/assistant/service.go: executePlugin, and what becomes of the executor's result.
use Prim.Native.String.{◌++◌}
use smart_assistant_api.Common.{
  String, Bool, false, not, ◌&&◌, Option, none, some, [], ◌∷◌, str_eq, if◌then◌else◌,
}
use smart_assistant_api.Common.Assoc.{lookup, insert}
use smart_assistant_api.Common.Text.{trim_space}
use smart_assistant_api.Common.Exec.{Result, ok, err, Exec}
use smart_assistant_api.Dynamic.{Args, Argument, text, flag, object, as_string}
use smart_assistant_api.Plugin.{Plugin}
use smart_assistant_api.Assistant.Session.{
  PendingAction, Reply, plain, follow_up, confirmation, action_result, ActionInfo, ActionStatus,
  pending, success, failed, Payload, no_payload, client, fields,
}
use smart_assistant_api.Assistant.Installed.{EligiblePlugin}
use smart_assistant_api.Assistant.MeetArguments.{strip_internal_args}
use smart_assistant_api.Assistant.Builtin.Errors.{
  ExecError, setup_incomplete, executor_error_text, location_reminder_executor_error_text,
}
use smart_assistant_api.Assistant.Conversation.{
  Backend, World, Failure, Answer, is_location_reminder_plugin, is_composio_ai_plugin,
}

abbrev pub about : Plugin → ActionStatus → Payload → Option ActionInfo
about p status payload = some (record { plugin_slug = p.slug; status = status; payload = payload })

abbrev pub blocked_fields : EligiblePlugin → Payload
blocked_fields e = fields (
    ("reason", "setup_incomplete")
    ∷ ("install_id", e.install.id)
    ∷ ("plugin_slug", e.catalog.slug)
    ∷ [])

-- composioPendingKindFromStatus
abbrev pub composio_pending_kind_from_status : String → String
composio_pending_kind_from_status status =
    if str_eq status "needs_confirmation"
    then "confirmation"
    else if str_eq status "needs_auth"
    then "auth"
    else "input"

abbrev completed_text : Plugin → String
completed_text p = "Done. " ++ (p.name ++ " completed successfully.")

abbrev custom_text : Plugin → Args → String
unfolding lookup trim_space
custom_text p result =
    let custom = as_string (lookup "reply_text" result) in
    if str_eq (trim_space custom) "" then completed_text p else custom

abbrev auth_payload : String → Args → Payload
unfolding lookup
auth_payload status result =
    let url = as_string (lookup "auth_url" result) in
    if str_eq status "needs_auth" && not (str_eq url "")
    then fields (("auth_url", url) ∷ [])
    else no_payload

abbrev is_true : Option Argument → Bool
is_true (some (flag b)) = b
is_true _ = false

abbrev composio_pending : EligiblePlugin → Args → String → Args → PendingAction
unfolding lookup
composio_pending e args status result = record {
  plugin_slug = e.catalog.slug;
  plugin_id = e.catalog.id;
  install_id = e.install.id;
  arguments = args;
  missing_argument = "";
  awaiting_confirmation = false;
  composio_session_id = as_string (lookup "composio_session_id" result);
  composio_pending_kind = composio_pending_kind_from_status status;
  composio_prompt = as_string (lookup "prompt" result);
}

-- mapComposioExecutorResult; `none` is a nil map
unfoldable pub map_composio_executor_result : EligiblePlugin → Args → Option Args → Answer
unfolding lookup composio_pending auth_payload custom_text
map_composio_executor_result e args none = (
  record {
    kind = action_result;
    text = "Something went wrong while running that task.";
    action = about e.catalog failed no_payload;
  },
  none,
)
map_composio_executor_result e args (some result) =
    let status = as_string (lookup "status" result) in
    if not (str_eq status "")
    then (
      record {
        kind = if str_eq status "needs_confirmation" then confirmation else follow_up;
        text = as_string (lookup "prompt" result);
        action = about e.catalog pending (auth_payload status result);
      },
      some (composio_pending e args status result),
    )
    else (
      record {
        kind = action_result;
        text = custom_text e.catalog result;
        action =
            about e.catalog (if is_true (lookup "successful" result) then success else failed)
              no_payload;
      },
      none,
    )

abbrev client_payload : Option Argument → Payload
client_payload (some (object s)) = client s
client_payload _ = no_payload

abbrev done_text : Plugin → Option Args → String
unfolding custom_text
done_text p none = completed_text p
done_text p (some result) = custom_text p result

abbrev done_payload : Option Args → Payload
unfolding lookup
done_payload none = no_payload
done_payload (some result) = client_payload (lookup "client_payload" result)

-- the reply to an error of the executor
unfoldable pub failed_reply : EligiblePlugin → ExecError → Reply
unfolding is_location_reminder_plugin executor_error_text location_reminder_executor_error_text
failed_reply e error = record {
  kind = action_result;
  text =
      if is_location_reminder_plugin e.catalog
      then location_reminder_executor_error_text error
      else executor_error_text error;
  action = about e.catalog failed no_payload;
}

abbrev pub still_needs_setup : EligiblePlugin → Reply
still_needs_setup e = record {
  kind = plain;
  text = e.catalog.name ++ " is installed but still needs setup before I can help with that.";
  action = about e.catalog pending (blocked_fields e);
}

-- the answer to what the executor returned
unfoldable pub executed : EligiblePlugin → Args → Result ExecError (Option Args) → Answer
unfolding is_composio_ai_plugin failed_reply map_composio_executor_result done_text done_payload
executed e args (err setup_incomplete) =
    if is_composio_ai_plugin e.catalog
    then (still_needs_setup e, none)
    else (failed_reply e setup_incomplete, none)
executed e args (err error) = (failed_reply e error, none)
executed e args (ok result) =
    if is_composio_ai_plugin e.catalog then map_composio_executor_result e args result else (
      record {
        kind = action_result;
        text = done_text e.catalog result;
        action = about e.catalog success (done_payload result);
      },
      none,
    )

-- what executePlugin hands to the executor
unfoldable pub exec_args : EligiblePlugin → Args → Args
unfolding insert strip_internal_args
exec_args e args = insert "install_id" (text e.install.id) (strip_internal_args args)

module _ (b : Backend) where
  -- executePlugin
  unfoldable pub execute_plugin : String → EligiblePlugin → Args → Exec (World b) Failure Answer
  unfolding exec_args executed
  execute_plugin user_id e args w =
      let (r, outside) = b.execute user_id e.catalog (exec_args e args) w.outside in
      (ok (executed e args r), record w { outside = outside })
