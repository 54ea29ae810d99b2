-- ===== src/Assistant/Composio/Budget.antt =====
-- internal/domain/assistant/composio_mcp_executor.go: how many tools a run of the agent's loop calls.
use smart_assistant_api.Common.{
  ℕ, suc, ◌+◌, ◌≤◌, ◌==◌, String, ◌≡◌, refl, Bool, true, false, ◌&&◌, not, Option, none, some,
  Bool-cases, inl, inr, str_eq, if◌then◌else◌, arith,
}
use smart_assistant_api.Common.Exec.{Result, ok, err, Exec, continue, ◌>>=◌}
use smart_assistant_api.Dynamic.{Args}
use smart_assistant_api.Assistant.Builtin.Errors.{ExecError}
use smart_assistant_api.Assistant.Composio.{interpret_composio_outcome}
use smart_assistant_api.Assistant.Composio.Agent.{
  Composio, ComposioPayload, AgentRequest, AgentStep, Searched, stopped, found, last_of, Run,
  search_first, judged, called, act, unless_stopped, request, rounds, run_agent_loop,
  composio_mcp_max_iterations,
}

-- A count of the tools that were called: a call adds one to it, and a search and the planner nothing.
pub record Counts (x : Composio) (payload : ComposioPayload) (calls : x.State → ℕ) : Type 0 where
  pub by_meta :
      (id slug : String) (args : Args) (s : x.State)
      → calls (x.execute_meta payload id slug args s).1 ≡ suc (calls s)
  pub by_tool :
      (id slug : String) (args : Args) (s : x.State)
      → calls (x.execute_tool payload id slug args s).1 ≡ suc (calls s)
  pub by_search :
      (id task : String) (s : x.State) → calls (x.search_tools payload id task s).1 ≡ calls s
  pub by_plan : (r : AgentRequest) (s : x.State) → calls (x.plan r s).1 ≡ calls s

module _ {S : Type 0} (calls : S → ℕ) where
  AtMost : {A : Type 0} → ℕ → Exec S ExecError A → Type 0
  AtMost n m = (s : S) → calls (m s).1 ≤ calls s + n

  continue-AtMost :
      {A B : Type 0} (n : ℕ) (r : Result ExecError A) (f : A → Exec S ExecError B) (s : S)
      → ((a : A) → AtMost n (f a))
      → calls (continue r f s).1 ≤ calls s + n
  unfolding AtMost
  continue-AtMost n (ok a) f s h = h a s
  continue-AtMost n (err x) f s h = omega arith

  bind-AtMost :
      {A B : Type 0} (n : ℕ) (m : Exec S ExecError A) (f : A → Exec S ExecError B)
      → ((s : S) → calls (m s).1 ≡ calls s)
      → ((a : A) → AtMost n (f a))
      → AtMost n (m >>= f)
  unfolding AtMost
  bind-AtMost n m f same h s =
      let step = continue-AtMost n (m s).0 f (m s).1 h in let e = same s in omega arith

module _ (x : Composio) (payload : ComposioPayload) (session_id task : String) (resume : Bool)
    (calls : x.State → ℕ) (count : Counts x payload calls) where
  judged-AtMost :
      (n : ℕ) (o : Option Args) (go : Run x payload session_id task resume)
      → AtMost calls n go
      → AtMost calls n (judged x payload session_id task resume o go)
  unfolding AtMost
  judged-AtMost n none go h = h
  judged-AtMost n (some outcome) go h = λ s. omega arith

  called-AtMost :
      (n : ℕ) (m : x.State → (Option String × Option String) × x.State) (last : String)
      (go : String → Run x payload session_id task resume)
      → ((s : x.State) → calls (m s).1 ≡ suc (calls s))
      → ((raw : String) → AtMost calls n (go raw))
      → AtMost calls (suc n) (called x payload session_id task resume m last go)
  unfolding AtMost called
  called-AtMost n m last go one h s =
      let ((result, error), s') = m s in
      let rest =
        judged-AtMost n (interpret_composio_outcome x.decode session_id result error)
          (go (last_of result last)) (h (last_of result last)) s' in
      let e = one s in omega arith

  split :
      (n : ℕ) (b : Bool) (m k : Run x payload session_id task resume)
      → AtMost calls n m
      → AtMost calls n k
      → AtMost calls n (if b then m else k)
  split n true m k h h' = h
  split n false m k h h' = h'

  quiet : (n : ℕ) (r : Result ExecError Args) → AtMost calls n (λ s. (r, s))
  unfolding AtMost
  quiet n r s = omega arith

  act-AtMost :
      (n : ℕ) (o : Option AgentStep) (last : String)
      (go : String → Run x payload session_id task resume)
      → ((raw : String) → AtMost calls n (go raw))
      → AtMost calls (suc n) (act x payload session_id task resume o last go)
  unfolding act
  act-AtMost n none last go h = quiet (suc n) _
  act-AtMost n (some step) last go h =
      split (suc n) (str_eq step.action "done") _ _ (quiet (suc n) _) (
        split (suc n) (str_eq step.action "execute_meta") _ _
          (called-AtMost n (x.execute_meta payload session_id step.meta_slug step.arguments) last go
            (count.by_meta session_id step.meta_slug step.arguments) h)
          (split (suc n) (str_eq step.action "execute_tool") _ _
            (called-AtMost n (x.execute_tool payload session_id step.tool_slug step.arguments) last
              go (count.by_tool session_id step.tool_slug step.arguments) h)
            (quiet (suc n) _)))

  search_first-same :
      (i : ℕ) (confirmed : Bool) (raw : String) (s : x.State)
      → calls (search_first x payload session_id task resume i confirmed raw s).1 ≡ calls s
  unfolding search_first
  search_first-same i confirmed raw s = elim (Bool-cases (i == 0 && not resume && not confirmed)) [
    | inl first ↦ rw first (count.by_search session_id task s)
    | inr later ↦ rw later refl
  ]

  planned-AtMost :
      (n i : ℕ) (said : String) (confirmed : Bool) (last : String)
      → ((raw last : String)
          → AtMost calls n (rounds x payload session_id task resume n (suc i) "" false raw last))
      → (a : Searched)
      → AtMost calls (suc n) (
          unless_stopped x payload session_id task resume
            (λ raw.
              x.plan (request x payload session_id task resume i said confirmed raw last)
              >>= λ step.
                  act x payload session_id task resume step last
                    (rounds x payload session_id task resume n (suc i) "" false raw))
            a)
  planned-AtMost n i said confirmed last h (stopped outcome) = quiet (suc n) _
  planned-AtMost n i said confirmed last h (found raw) =
      bind-AtMost calls (suc n) (x.plan _) _ (count.by_plan _)
        λ step. act-AtMost n step last _ (h raw)

  rounds-AtMost :
      (n i : ℕ) (said : String) (confirmed : Bool) (raw last : String)
      → AtMost calls n (rounds x payload session_id task resume n i said confirmed raw last)
  unfolding rounds
  rounds-AtMost Prim.Native.Nat.zero i said confirmed raw last = quiet 0 _
  rounds-AtMost (suc n) i said confirmed raw last =
      bind-AtMost calls (suc n) (search_first x payload session_id task resume i confirmed raw) _
        (search_first-same i confirmed raw)
        (planned-AtMost n i said confirmed last
          λ raw last. rounds-AtMost n (suc i) "" false raw last)

  -- Whatever the planner answers, runAgentLoop calls at most ten tools of Composio, meta tools
  -- included, for any count that each such call raises by one and that a search and the planner
  -- leave alone.
  pub run_agent_loop-calls :
      (said : String) (confirmed : Bool) (s : x.State)
      → calls (run_agent_loop x payload session_id task resume said confirmed s).1 ≤ calls s + 10
  unfolding run_agent_loop AtMost
  run_agent_loop-calls said confirmed s =
      rounds-AtMost composio_mcp_max_iterations 0 said confirmed "" "" s
