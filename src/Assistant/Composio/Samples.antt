-- ===== src/Assistant/Composio/Samples.antt =====
-- A run of the Composio agent that asks the user a question. The state counts the calls of tools.
use smart_assistant_api.Common.{ℕ, suc, ◌+◌, ◌≤◌, ◌≡◌, refl, true, false, none, some, [], ◌∷◌}
use smart_assistant_api.Common.Exec.{ok}
use smart_assistant_api.Dynamic.{Args, text}
use smart_assistant_api.Plugin.{Plugin}
use smart_assistant_api.UserPlugin.Service.{new_install}
use smart_assistant_api.Assistant.Installed.{EligiblePlugin}
use smart_assistant_api.Assistant.Composio.{composio_pending_outcome}
use smart_assistant_api.Assistant.Composio.Agent.{
  Composio, ComposioPayload, AgentStep, run_agent_loop,
}
use smart_assistant_api.Assistant.Composio.Outcomes.{Resumes}
use smart_assistant_api.Assistant.Composio.Sessions.{run_agent_loop-Resumes}
use smart_assistant_api.Assistant.Composio.Budget.{Counts, run_agent_loop-calls}

abbrev apps : Plugin
apps = record {
  id = "p1";
  slug = "composio-ai";
  name = "Apps";
  description = "";
  version = "1";
  manifest = record {
    triggers = [];
    required_setup = true;
    setup_type = "form";
    arguments = [];
    confirmation_required = false;
    executor = record { kind = "composio_mcp"; config = [] };
  };
  created_at = 0;
  updated_at = 0;
}

abbrev hers : EligiblePlugin
hers = record { install = new_install "i1" 1 "ann" apps; catalog = apps }

abbrev always : AgentStep
always = record {
  action = "execute_meta";
  meta_slug = "COMPOSIO_RUN_TASK";
  tool_slug = "";
  arguments = [];
  reply_text = "";
}

abbrev keys : ComposioPayload
keys = record { api_key = "k"; base_url = ""; connected_accounts = [] }

abbrev asking : Composio
asking = record {
  State = ℕ;
  credentials = λ id n. (ok keys, n);
  create_session = λ p u accounts n. (ok "s9", n);
  attach_session = λ p id n. (ok tt, n);
  search_tools = λ p id task n. (ok "[]", n);
  execute_meta = λ p id slug args n. ((some "{..}", none), suc n);
  execute_tool = λ p id slug args n. ((none, none), suc n);
  plan = λ r n. (ok (some always), n);
  decode = λ raw. ("status", text "needs_input") ∷ ("question", text "Which one?") ∷ [];
}

abbrev question : Args
unfolding composio_pending_outcome
question = composio_pending_outcome "s9" "input" "Which one?"

asks : (run_agent_loop asking keys "s9" "send the note" false "" false 0).0 ≡ ok question
unfolding run_agent_loop composio_pending_outcome
asks = refl

run_agent_loop-Resumes_example : Resumes hers [] "s9" question
run_agent_loop-Resumes_example =
    run_agent_loop-Resumes hers [] asking keys "s9" "send the note" false "" false 0 question asks

asking-Counts : Counts asking keys (λ n. n)
asking-Counts = record {
  by_meta = λ id slug args s. refl;
  by_tool = λ id slug args s. refl;
  by_search = λ id task s. refl;
  by_plan = λ r s. refl;
}

run_agent_loop-calls_example :
    (run_agent_loop asking keys "s9" "send the note" false "" false 0).1 ≤ 0 + 10
run_agent_loop-calls_example =
    run_agent_loop-calls asking keys "s9" "send the note" false (λ n. n) asking-Counts "" false 0
