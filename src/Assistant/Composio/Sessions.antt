-- ===== src/Assistant/Composio/Sessions.antt =====
-- internal/domain/assistant/composio_mcp_executor.go: what a run of the agent's loop returns.
use smart_assistant_api.Common.{
  ℕ, suc, ◌==◌, String, ◌≡◌, Bool, true, false, ◌&&◌, not, Option, none, some, Bool-cases, inl, inr,
  str_eq, if◌then◌else◌, subst,
}
use smart_assistant_api.Common.Exec.{Result, ok, err, Exec, continue, ◌>>=◌}
use smart_assistant_api.Dynamic.{Args}
use smart_assistant_api.Assistant.Installed.{EligiblePlugin}
use smart_assistant_api.Assistant.Builtin.Errors.{ExecError}
use smart_assistant_api.Assistant.Composio.{rate_limit_outcome}
use smart_assistant_api.Assistant.Composio.Agent.{
  Composio, ComposioPayload, AgentStep, Searched, stopped, found, refused_search, searched,
  done_reply, last_of, Run, search_first, judged, called, act, unless_stopped, request, rounds,
  run_agent_loop, composio_mcp_max_iterations,
}
use smart_assistant_api.Assistant.Composio.Outcomes.{
  Resumes, All, rate_limit_outcome-All, finished-Resumes, finished_in-Resumes,
  interpret_composio_outcome-All,
}

-- A result that is no error satisfies the predicate.
abbrev AllOk : {A : Type 0} → (A → Type 0) → Result ExecError A → Type 0
AllOk P (ok a) = P a
AllOk P (err x) = Unit

any_answer : {A : Type 0} (r : Result ExecError A) → AllOk (λ a. Unit {0}) r
any_answer (ok a) = tt
any_answer (err x) = tt

module _ {S : Type 0} where
  Yields : {A : Type 0} → (A → Type 0) → Exec S ExecError A → Type 0
  Yields P m = (s : S) → AllOk P (m s).0

  continue-AllOk :
      {A B : Type 0} (Q : A → Type 0) (P : B → Type 0) (r : Result ExecError A)
      (f : A → Exec S ExecError B) (s : S)
      → AllOk Q r
      → ((a : A) → Q a → Yields P (f a))
      → AllOk P (continue r f s).0
  unfolding Yields
  continue-AllOk Q P (ok a) f s q k = k a q s
  continue-AllOk Q P (err x) f s q k = tt

  bind-Yields :
      {A B : Type 0} (Q : A → Type 0) (P : B → Type 0) (m : Exec S ExecError A)
      (f : A → Exec S ExecError B)
      → Yields Q m
      → ((a : A) → Q a → Yields P (f a))
      → Yields P (m >>= f)
  unfolding Yields
  bind-Yields Q P m f h k s = continue-AllOk Q P (m s).0 f (m s).1 (h s) k

module _ (e : EligiblePlugin) (args : Args) (x : Composio) (payload : ComposioPayload)
    (session_id task : String) (resume : Bool) where
  abbrev Good : Args → Type 0
  Good = Resumes e args session_id

  abbrev Fine : Searched → Type 0
  Fine (stopped outcome) = Good outcome
  Fine (found raw) = Unit

  refused-Fine : (o : Option Args) → All e args session_id o → AllOk Fine (refused_search o)
  refused-Fine none h = tt
  refused-Fine (some outcome) h = h

  searched-Fine : (r : Result String String) → AllOk Fine (searched r)
  unfolding searched
  searched-Fine (ok raw) = tt
  searched-Fine (err msg) =
      refused-Fine (rate_limit_outcome msg) (rate_limit_outcome-All e args session_id msg)

  search_first-Fine :
      (i : ℕ) (confirmed : Bool) (raw : String)
      → Yields Fine (search_first x payload session_id task resume i confirmed raw)
  unfolding Yields search_first
  search_first-Fine i confirmed raw s = elim (Bool-cases (i == 0 && not resume && not confirmed)) [
    | inl first ↦ rw first (searched-Fine (x.search_tools payload session_id task s).0)
    | inr later ↦ rw later tt
  ]

  judged-Good :
      (o : Option Args) (go : Run x payload session_id task resume)
      → All e args session_id o
      → Yields Good go
      → Yields Good (judged x payload session_id task resume o go)
  unfolding Yields
  judged-Good none go h k s = k s
  judged-Good (some outcome) go h k s = h

  called-Good :
      (m : x.State → (Option String × Option String) × x.State) (last : String)
      (go : String → Run x payload session_id task resume)
      → ((raw : String) → Yields Good (go raw))
      → Yields Good (called x payload session_id task resume m last go)
  unfolding Yields called
  called-Good m last go h s =
      judged-Good _ _
        (interpret_composio_outcome-All e args session_id x.decode (m s).0.0 (m s).0.1)
        (h (last_of (m s).0.0 last)) (m s).1

  split :
      (b : Bool) (m n : Run x payload session_id task resume)
      → Yields Good m
      → Yields Good n
      → Yields Good (if b then m else n)
  split true m n h k = h
  split false m n h k = k

  act-Good :
      (o : Option AgentStep) (last : String) (go : String → Run x payload session_id task resume)
      → ((raw : String) → Yields Good (go raw))
      → Yields Good (act x payload session_id task resume o last go)
  unfolding act Yields
  act-Good none last go h = λ s. tt
  act-Good (some step) last go h =
      split (str_eq step.action "done") _ _
        (λ s. finished_in-Resumes e args session_id (done_reply step.reply_text))
        (split (str_eq step.action "execute_meta") _ _
          (called-Good (x.execute_meta payload session_id step.meta_slug step.arguments) last go h)
          (split (str_eq step.action "execute_tool") _ _
            (called-Good (x.execute_tool payload session_id step.tool_slug step.arguments) last go
              h)
            (λ s. tt)))

  -- a round, once the search is over
  planned-Good :
      (n i : ℕ) (said : String) (confirmed : Bool) (last : String)
      → ((raw last : String)
          → Yields Good (rounds x payload session_id task resume n (suc i) "" false raw last))
      → (a : Searched) → Fine a
      → Yields Good (
          unless_stopped x payload session_id task resume
            (λ raw.
              x.plan (request x payload session_id task resume i said confirmed raw last)
              >>= λ step.
                  act x payload session_id task resume step last
                    (rounds x payload session_id task resume n (suc i) "" false raw))
            a)
  unfolding Yields
  planned-Good n i said confirmed last h (stopped outcome) k = λ s. k
  planned-Good n i said confirmed last h (found raw) k =
      let asked = request x payload session_id task resume i said confirmed raw last in
      bind-Yields (λ step. Unit {0}) Good (x.plan asked) _ (λ s. any_answer (x.plan asked s).0)
        λ step u. act-Good step last _ (h raw)

  rounds-Good :
      (n i : ℕ) (said : String) (confirmed : Bool) (raw last : String)
      → Yields Good (rounds x payload session_id task resume n i said confirmed raw last)
  unfolding rounds Yields
  rounds-Good Prim.Native.Nat.zero i said confirmed raw last = λ s.
      finished-Resumes e args session_id false
        "I wasn't able to finish that task. Please try again."
  rounds-Good (suc n) i said confirmed raw last =
      bind-Yields Fine Good _ _ (search_first-Fine i confirmed raw)
        (planned-Good n i said confirmed last λ raw last. rounds-Good n (suc i) "" false raw last)

  -- Whatever Composio, the planner and the decoder answer, when runAgentLoop returns an outcome,
  -- what mapComposioExecutorResult makes of it either leaves nothing pending, or leaves an action
  -- with the session of the loop and the same arguments, whose prompt is the text of the reply and
  -- is not blank.
  pub run_agent_loop-Resumes :
      (said : String) (confirmed : Bool) (s : x.State) (out : Args)
      → (run_agent_loop x payload session_id task resume said confirmed s).0 ≡ ok out
      → Resumes e args session_id out
  unfolding run_agent_loop Yields
  run_agent_loop-Resumes said confirmed s out h =
      subst (AllOk Good) h (rounds-Good composio_mcp_max_iterations 0 said confirmed "" "" s)
