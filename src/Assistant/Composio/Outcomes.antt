-- ===== src/Assistant/Composio/Outcomes.antt =====
-- internal/domain/assistant/composio_mcp_executor.go with mapComposioExecutorResult of service.go: what
-- the service makes of the outcomes of the agent.
use smart_assistant_api.Common.{
  String, ◌≡◌, refl, ◌⊎◌, inl, inr, Bool, true, false, Option, none, some, Bool-cases, str_eq,
  if◌then◌else◌, ◌||◌, not,
}
use smart_assistant_api.Common.Assoc.{lookup, insert}
use smart_assistant_api.Common.Text.{trim_space, to_lower, contains}
use smart_assistant_api.Dynamic.{Args, string_arg_value}
use smart_assistant_api.Assistant.Session.{PendingAction}
use smart_assistant_api.Assistant.Installed.{EligiblePlugin}
use smart_assistant_api.Assistant.Conversation.Execution.{map_composio_executor_result}
use smart_assistant_api.Assistant.Composio.{
  or_default, composio_pending_outcome, composio_auth_outcome, auth_url_from_composio_data,
  finished, finished_in, rate_limit_outcome, fields_of, without_kind, failed_call, answered,
  by_type, by_status, interpret_composio_outcome, prompt_from_composio_data,
  reply_text_from_composio_data,
}

module _ (e : EligiblePlugin) (args : Args) (session_id : String) where
  -- what the service leaves pending goes on with the session, with the same arguments, and asks
  -- what the reply says; or nothing is left pending
  unfoldable pub Resumes : Args → Type 0
  Resumes out =
      let (reply, p) = map_composio_executor_result e args (some out) in
      (p ≡ none)
      ⊎ ((q : PendingAction) × (p ≡ some q)
          × (q.composio_session_id ≡ session_id)
          × (q.arguments ≡ args)
          × (q.composio_prompt ≡ reply.text)
          × (str_eq (trim_space reply.text) "" ≡ false))

  filled_prompt :
      (fallback prompt : String)
      → str_eq (trim_space fallback) "" ≡ false
      → str_eq (trim_space (or_default fallback prompt)) "" ≡ false
  unfolding or_default
  filled_prompt fallback prompt h = elim (Bool-cases (str_eq (trim_space prompt) "")) [
    | inl blank ↦ rw blank h
    | inr filled ↦ rw (filled, filled) refl
  ]

  abbrev more : String
  more = "I need a bit more information to continue."

  abbrev connect : String
  connect = "Please connect the required app to continue."

  more_filled : str_eq (trim_space more) "" ≡ false
  unfolding trim_space
  more_filled = refl

  input-Resumes : (prompt : String) → Resumes (composio_pending_outcome session_id "input" prompt)
  unfolding Resumes composio_pending_outcome map_composio_executor_result lookup
  input-Resumes prompt = inr (_, refl, refl, refl, refl, filled_prompt more prompt more_filled)

  confirmation-Resumes :
      (prompt : String) → Resumes (composio_pending_outcome session_id "confirmation" prompt)
  unfolding Resumes composio_pending_outcome map_composio_executor_result lookup
  confirmation-Resumes prompt =
      inr (_, refl, refl, refl, refl, filled_prompt more prompt more_filled)

  auth-Resumes :
      (fields : Args) (prompt : String) → Resumes (composio_auth_outcome session_id fields prompt)
  unfolding Resumes composio_auth_outcome composio_pending_outcome map_composio_executor_result
      lookup insert
  auth-Resumes fields prompt = elim (Bool-cases (str_eq (auth_url_from_composio_data fields) "")) [
    | inl h ↦ rw h (
        inr (_, refl, refl, refl, refl, filled_prompt more (or_default connect prompt) more_filled))
    | inr h ↦ rw h (
        inr (_, refl, refl, refl, refl, filled_prompt more (or_default connect prompt) more_filled))
  ]

  pub finished-Resumes : (b : Bool) (reply : String) → Resumes (finished b reply)
  unfolding Resumes map_composio_executor_result lookup
  finished-Resumes b reply = inl refl

  pub finished_in-Resumes : (reply : String) → Resumes (finished_in session_id reply)
  unfolding Resumes map_composio_executor_result lookup
  finished_in-Resumes reply = inl refl

  -- the same of an outcome that may be missing
  abbrev pub All : Option Args → Type 0
  All none = Unit
  All (some out) = Resumes out

  split : (b : Bool) (x y : Option Args) → All x → All y → All (if b then x else y)
  split true x y h k = h
  split false x y h k = k

  pub rate_limit_outcome-All : (msg : String) → All (rate_limit_outcome msg)
  unfolding rate_limit_outcome
  rate_limit_outcome-All msg =
      split (contains msg "status 429" || contains (to_lower msg) "rate limit") _ _
        (finished-Resumes false "Composio is busy right now. Please try again in a moment.") tt

  module _ (decode : String → Args) where
    failed_call-All :
        (msg : String) (fields : Args) → All (failed_call decode session_id msg fields)
    unfolding failed_call
    failed_call-All msg fields =
        let lower = to_lower msg in
        split (contains lower "needs user input" || contains lower "needs_input") _ _
          (input-Resumes (prompt_from_composio_data fields (some msg)))
          (split (contains lower "confirmation") _ _
            (confirmation-Resumes (prompt_from_composio_data fields (some msg)))
            (rate_limit_outcome-All msg))

    answered-All : (fields : Args) → All (answered decode session_id fields)
    unfolding answered
    answered-All fields =
        split (str_eq (reply_text_from_composio_data fields) "") none _ tt
          (finished_in-Resumes (reply_text_from_composio_data fields))

    without_kind-All :
        (result : Option String) (fields : Args) (error : Option String)
        → All (without_kind decode session_id result fields error)
    unfolding without_kind
    without_kind-All result fields (some msg) = failed_call-All msg fields
    without_kind-All none fields none = tt
    without_kind-All (some raw) fields none = split (str_eq raw "") none _ tt (answered-All fields)

    by_type-All :
        (result : Option String) (fields : Args) (error : Option String)
        → All (by_type decode session_id result fields error)
    unfolding by_type
    by_type-All result fields error =
        let kind = to_lower (string_arg_value fields "type") in
        split (str_eq kind "elicitation") _ _
          (input-Resumes (prompt_from_composio_data fields error))
          (split (str_eq kind "confirmation") _ _
            (confirmation-Resumes (prompt_from_composio_data fields error))
            (split (not (str_eq (auth_url_from_composio_data fields) "")) _ _
              (auth-Resumes fields (prompt_from_composio_data fields error))
              (without_kind-All result fields error)))

    by_status-All :
        (result : Option String) (fields : Args) (error : Option String)
        → All (by_status decode session_id result fields error)
    unfolding by_status
    by_status-All result fields error =
        let status = to_lower (string_arg_value fields "status") in
        split (str_eq status "needs_input") _ _
          (input-Resumes (prompt_from_composio_data fields error))
          (split (str_eq status "needs_confirmation") _ _
            (confirmation-Resumes (prompt_from_composio_data fields error))
            (split (str_eq status "auth_required" || str_eq status "needs_auth") _ _
              (auth-Resumes fields (prompt_from_composio_data fields error))
              (split (str_eq status "cannot_handle") _ _
                (finished-Resumes false "I can't do that with your connected apps.")
                (split (str_eq status "completed" || str_eq status "success") _ _
                  (finished-Resumes true (reply_text_from_composio_data fields))
                  (by_type-All result fields error)))))

    pub interpret_composio_outcome-All :
        (result error : Option String)
        → All (interpret_composio_outcome decode session_id result error)
    unfolding interpret_composio_outcome
    interpret_composio_outcome-All result error =
        by_status-All result (fields_of decode session_id result) error
