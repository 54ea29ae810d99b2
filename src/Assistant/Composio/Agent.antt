-- ===== src/Assistant/Composio/Agent.antt =====
-- internal/domain/assistant/composio_mcp_executor.go: the loop of the Composio agent. The client of
-- Composio, the credentials and the planner (pkg/llm) are parameters; an error of the client is its
-- text.
use smart_assistant_api.Common.{
  ℕ, suc, ◌==◌, String, Bool, false, ◌&&◌, ◌||◌, not, Option, none, some, List, [], ◌∷◌, str_eq,
  if◌then◌else◌,
}
use smart_assistant_api.Common.Assoc.{lookup, insert}
use smart_assistant_api.Common.Text.{trim_space}
use smart_assistant_api.Common.Exec.{Result, ok, err, Exec, pure, raise, ◌>>=◌}
use smart_assistant_api.Response.{AppError, not_found}
use smart_assistant_api.Dynamic.{Args, flag, as_string, string_arg_value, Argument}
use smart_assistant_api.Plugin.{Plugin}
use smart_assistant_api.Assistant.Builtin.Errors.{ExecError, app, setup_incomplete, other}
use smart_assistant_api.Assistant.Composio.{
  finished, finished_in, rate_limit_outcome, interpret_composio_outcome,
}

-- internal/domain/plugin_credential/entity.go
pub record ConnectedAccount : Type 0 where
  pub id : String
  pub toolkit_slug : String
  pub status : String
  pub alias : String

pub record ComposioPayload : Type 0 where
  pub api_key : String
  pub base_url : String
  pub connected_accounts : List ConnectedAccount

-- pkg/llm/composio_agent.go
pub record AgentRequest : Type 0 where
  pub task : String
  pub user_message : String
  pub search_results : String
  pub last_result : String
  pub confirmed : Bool
  pub iteration : ℕ

pub record AgentStep : Type 0 where
  pub action : String
  pub meta_slug : String
  pub tool_slug : String
  pub arguments : Args
  pub reply_text : String

-- What the executor works with. A call of a tool answers the data of its result (`none` is a nil
-- result) and the text of its error; the planner answers a step, `none` for a nil one.
pub record Composio : Type 1 where
  pub State : Type 0
  pub credentials : String → Exec State AppError ComposioPayload
  pub create_session :
      ComposioPayload → String → List (String × List String) → Exec State String String
  pub attach_session : ComposioPayload → String → Exec State String (Unit {0})
  pub search_tools : ComposioPayload → String → String → Exec State String String
  pub execute_meta :
      ComposioPayload → String → String → Args → State → (Option String × Option String) × State
  pub execute_tool :
      ComposioPayload → String → String → Args → State → (Option String × Option String) × State
  pub plan : AgentRequest → Exec State ExecError (Option AgentStep)
  pub decode : String → Args

abbrev pub composio_mcp_max_iterations : ℕ
composio_mcp_max_iterations = 10

-- connectedAccountsSnapshot
abbrev pub add_to : Option (List String) → String → List String
add_to none id = id ∷ []
add_to (some []) id = id ∷ []
add_to (some (x ∷ xs)) id = x ∷ add_to (some xs) id

unfoldable pub snapshot_from :
    List (String × List String) → List ConnectedAccount → List (String × List String)
unfolding lookup insert
snapshot_from out [] = out
snapshot_from out (a ∷ rest) =
    snapshot_from
      (if str_eq a.toolkit_slug "" || str_eq a.id ""
        then out
        else insert a.toolkit_slug (add_to (lookup a.toolkit_slug out) a.id) out)
      rest

unfoldable pub connected_accounts_snapshot : List ConnectedAccount → List (String × List String)
unfolding snapshot_from
connected_accounts_snapshot = snapshot_from []

unfoldable pub extract_composio_task : Args → String
unfolding string_arg_value
extract_composio_task args =
    let task = string_arg_value args "task" in
    if str_eq task "" then string_arg_value args "user_message" else task

-- the search before the first step: an outcome that ends the run, or what was found
pub data Searched : Type 0 where
  stopped : Args → Searched
  found : String → Searched

abbrev pub refused_search : Option Args → Result ExecError Searched
refused_search none = err other
refused_search (some outcome) = ok (stopped outcome)

unfoldable pub searched : Result String String → Result ExecError Searched
unfolding rate_limit_outcome
searched (ok raw) = ok (found raw)
searched (err msg) = refused_search (rate_limit_outcome msg)

abbrev pub done_reply : String → String
unfolding trim_space
done_reply said = let reply = trim_space said in if str_eq reply "" then "Done." else reply

abbrev pub last_of : Option String → String → String
last_of none last = last
last_of (some raw) last = raw

module _ (x : Composio) (payload : ComposioPayload) (session_id task : String) (resume : Bool) where
  abbrev pub Run : Type 0
  Run = Exec x.State ExecError Args

  unfoldable pub search_first : ℕ → Bool → String → Exec x.State ExecError Searched
  unfolding searched
  search_first i confirmed raw s =
      if i == 0 && not resume && not confirmed
      then (let (r, s') = x.search_tools payload session_id task s in (searched r, s'))
      else (ok (found raw), s)

  -- after the call of a tool
  abbrev pub judged : Option Args → Run → Run
  judged none go = go
  judged (some outcome) go = pure outcome

  unfoldable pub called :
      (x.State → (Option String × Option String) × x.State) → String → (String → Run) → Run
  unfolding interpret_composio_outcome
  called m last go s =
      let ((result, error), s') = m s in
      judged (interpret_composio_outcome x.decode session_id result error)
        (go (last_of result last)) s'

  -- one step of the plan
  unfoldable pub act : Option AgentStep → String → (String → Run) → Run
  unfolding called done_reply
  act none last go = raise other
  act (some step) last go =
      if str_eq step.action "done"
      then pure (finished_in session_id (done_reply step.reply_text))
      else if str_eq step.action "execute_meta"
      then called (x.execute_meta payload session_id step.meta_slug step.arguments) last go
      else if str_eq step.action "execute_tool"
      then called (x.execute_tool payload session_id step.tool_slug step.arguments) last go
      else raise other

  abbrev pub unless_stopped : (String → Run) → Searched → Run
  unless_stopped go (stopped outcome) = pure outcome
  unless_stopped go (found raw) = go raw

  abbrev pub request : ℕ → String → Bool → String → String → AgentRequest
  request i said confirmed raw last = record {
    task = task;
    user_message = said;
    search_results = raw;
    last_result = last;
    confirmed = confirmed && i == 0;
    iteration = i;
  }

  -- the rounds that are left, from the round `i` on
  unfoldable pub rounds : ℕ → ℕ → String → Bool → String → String → Run
  unfolding search_first act
  rounds Prim.Native.Nat.zero i said confirmed raw last =
      pure (finished false "I wasn't able to finish that task. Please try again.")
  rounds (suc n) i said confirmed raw last =
      search_first i confirmed raw
      >>= unless_stopped λ raw. x.plan (request i said confirmed raw last) >>= λ step.
          act step last (rounds n (suc i) "" false raw)

  -- runAgentLoop
  unfoldable pub run_agent_loop : String → Bool → Run
  unfolding rounds
  run_agent_loop said confirmed = rounds composio_mcp_max_iterations 0 said confirmed "" ""

abbrev is_true : Option Argument → Bool
is_true (some (flag b)) = b
is_true _ = false

abbrev pub no_credentials : AppError → ExecError
no_credentials (not_found msg) = setup_incomplete
no_credentials e = app e

abbrev pub loaded : Result AppError ComposioPayload → Result ExecError ComposioPayload
loaded (ok payload) = ok payload
loaded (err e) = err (no_credentials e)

abbrev pub created : Result String String → Result ExecError (String × String)
created (ok id) = ok (id, "")
created (err msg) = err other

abbrev pub attached :
    String → String → Result String (Unit {0}) → Result ExecError (String × String)
attached id said (ok u) = ok (id, said)
attached id said (err msg) = err other

module _ (x : Composio) where
  -- the session, with what the user said in it
  abbrev pub open_session :
      ComposioPayload → String → Args → Exec x.State ExecError (String × String)
  unfolding lookup trim_space connected_accounts_snapshot
  open_session payload user_id args s =
      let id = as_string (lookup "composio_session_id" args) in
      if str_eq (trim_space id) ""
      then (let (r, s') =
            x.create_session payload user_id
              (connected_accounts_snapshot payload.connected_accounts) s in
          (created r, s'))
      else (let (r, s') = x.attach_session payload id s in
          (attached id (as_string (lookup "user_message" args)) r, s'))

  abbrev pub run_task : ComposioPayload → String → Args → Exec x.State ExecError (Option Args)
  unfolding open_session run_agent_loop extract_composio_task lookup trim_space
  run_task payload user_id args =
      let task = extract_composio_task args in
      let resume = not (str_eq (trim_space (as_string (lookup "composio_session_id" args))) "") in
      if str_eq (trim_space payload.api_key) ""
      then raise setup_incomplete
      else if str_eq task ""
      then raise other
      else (do
        opened ← open_session payload user_id args
        out ←
            run_agent_loop x payload opened.0 task resume opened.1
              (is_true (lookup "confirmed" args))
        pure (some out))

  abbrev pub with_credentials : String → Exec x.State ExecError ComposioPayload
  with_credentials install_id s = let (r, s') = x.credentials install_id s in (loaded r, s')

  -- ComposioMCPExecutor.Execute
  unfoldable pub mcp_execute : String → Plugin → Args → Exec x.State ExecError (Option Args)
  unfolding run_task lookup
  mcp_execute user_id p args =
      let install_id = as_string (lookup "install_id" args) in
      if not (str_eq p.manifest.executor.kind "composio_mcp")
      then raise other
      else if str_eq install_id ""
      then raise other
      else with_credentials install_id >>= λ payload. run_task payload user_id args
