-- ===== src/Assistant/Conversation/Progress.antt =====
-- internal/domain/assistant/service.go: how a conversation about a plugin's missing arguments ends.
use smart_assistant_api.Common.{
  ℕ, suc, ◌≤◌, ◌<◌, String, ◌≡◌, ◌≢◌, refl, sym, subst, ◌∙◌, Bool, true, false, ◌&&◌, Option, none,
  some, List, [], ◌∷◌, length, arith, str_eq, eq_iff, if◌then◌else◌, Bool-cases, inl, inr,
}
use smart_assistant_api.Common.Assoc.{lookup, lookup-insert}
use smart_assistant_api.Common.Text.{trim_space}
use smart_assistant_api.Common.Trimming.{trim_space-twice}
use smart_assistant_api.Common.Exec.{Result, ok, err, Exec, pure, ◌>>=◌}
use smart_assistant_api.Dynamic.{Args, text, put, is_empty_value}
use smart_assistant_api.Plugin.{ManifestArgument}
use smart_assistant_api.Assistant.Session.{PendingAction}
use smart_assistant_api.Assistant.Installed.{EligiblePlugin}
use smart_assistant_api.Assistant.Prompts.{first_missing_argument, confirmation_prompt}
use smart_assistant_api.Assistant.Builtin.Prompts.{location_reminder_slug}
use smart_assistant_api.Assistant.Builtin.Errors.{ExecError, app, setup_incomplete, other}
use smart_assistant_api.Assistant.Conversation.{
  Backend, World, Clock, Failure, Answer, is_reminder_plugin, is_location_reminder_plugin,
  is_google_calendar_meet_plugin, is_composio_ai_plugin,
}
use smart_assistant_api.Assistant.Conversation.Execution.{executed, execute_plugin, exec_args}
use smart_assistant_api.Assistant.Conversation.Advance.{
  waiting_for, unconfirmed, ask_to_confirm, run_or_ask, checked_plugin, advance_other,
  advance_plugin,
}
use smart_assistant_api.Assistant.Conversation.Pending.{answer_missing, handle_loaded}

-- how many required arguments a plugin still lacks
unfoldable pub missing_count : List ManifestArgument → Args → ℕ
unfolding is_empty_value lookup
missing_count [] args = 0
missing_count (a ∷ rest) args =
    let more = missing_count rest args in
    if a.required && is_empty_value (lookup a.name args) then suc more else more

-- An answer fills the argument in, and empties no other.
is_empty_value-put :
    (name v j : String) (args : Args)
    → trim_space v ≢ ""
    → is_empty_value (lookup j (put name v args)) ≡ true
    → (is_empty_value (lookup j args) ≡ true) × (name ≢ j)
unfolding put is_empty_value
is_empty_value-put name v j args given h =
    ground (arith, lookup-insert name j (text v) args, eq_iff name j, eq_iff (trim_space v) "")

put-missing_count :
    (ms : List ManifestArgument) (name v : String) (args : Args)
    → trim_space v ≢ ""
    → missing_count ms (put name v args) ≤ missing_count ms args
unfolding missing_count
put-missing_count [] name v args given = omega arith
put-missing_count (a ∷ ms) name v args given =
    ground
      (arith, put-missing_count ms name v args given, is_empty_value-put name v a.name args given)

-- The answer to the first question leaves fewer of them.
fewer_missing :
    (ms : List ManifestArgument) (v : String) (args : Args)
    → trim_space v ≢ ""
    → (first_missing_argument ms args).0 ≢ ""
    → missing_count ms (put (first_missing_argument ms args).0 v args) < missing_count ms args
unfolding missing_count first_missing_argument
fewer_missing [] v args given asked = absurd (asked refl)
fewer_missing (a ∷ ms) v args given asked =
    elim (Bool-cases (a.required && is_empty_value (lookup a.name args))) [
      | inl lacks ↦
          let less = put-missing_count ms a.name v args given in
          let full = is_empty_value-put a.name v a.name args given in rw lacks (ground arith)
      | inr has ↦
          let n = (first_missing_argument ms args).0 in
          let asked' : n ≢ "" = rw has at asked in
          let less = fewer_missing ms v args given asked' in
          let kept = is_empty_value-put n v a.name args given in rw has (ground arith)
    ]

if_true : {A : Type 0} (c : Bool) (x y : A) → c ≡ true → (if c then x else y) ≡ x
if_true c x y h = rw h refl

if_false : {A : Type 0} (c : Bool) (x y : A) → c ≡ false → (if c then x else y) ≡ y
if_false c x y h = rw h refl

module _ (b : Backend) (user_id : String) (e : EligiblePlugin)
    (no_reminder : is_reminder_plugin e.catalog ≡ false)
    (no_meeting : is_google_calendar_meet_plugin e.catalog ≡ false)
    (no_composio : is_composio_ai_plugin e.catalog ≡ false)
    (no_place : is_location_reminder_plugin e.catalog ≡ false) where
  -- a plugin that ran leaves nothing pending
  executed-none : (args : Args) (r : Result ExecError (Option Args)) → (executed e args r).1 ≡ none
  unfolding executed
  executed-none args (err setup_incomplete) = rw no_composio refl
  executed-none args (err (app x)) = refl
  executed-none args (err other) = refl
  executed-none args (ok r) = rw no_composio refl

  elsewhere : str_eq e.catalog.slug location_reminder_slug ≡ false
  unfolding is_location_reminder_plugin
  elsewhere = ground (arith, no_place)

  advances :
      (t : Clock) (args : Args) (said : String)
      → advance_plugin b t user_id e said args
        ≡ checked_plugin b t user_id e args
            (first_missing_argument e.catalog.manifest.arguments args)
  unfolding advance_plugin advance_other
  advances t args said = rw (no_reminder, no_meeting, no_composio, no_place) refl

  answers :
      (t : Clock) (args : Args) (name said : String)
      → answer_missing b t user_id e (waiting_for e args name) said
        ≡ advance_plugin b t user_id e said (put name (trim_space said) args)
  unfolding answer_missing
  answers t args name said = rw (no_meeting, elsewhere, no_reminder) refl

  -- An answer is filled in, and the next argument is asked for.
  answered :
      (t : Clock) (args : Args) (name said : String)
      → name ≢ ""
      → handle_loaded b t user_id (waiting_for e args name) said e
        ≡ checked_plugin b t user_id e
            (put name (trim_space said) args)
            (first_missing_argument e.catalog.manifest.arguments (put name (trim_space said) args))
  unfolding handle_loaded
  answered t args name said given =
      let asked : str_eq name "" ≡ false = ground (arith, eq_iff name "") in
      rw asked (answers t args name said ∙ advances t (put name (trim_space said) args) said)

  worded_x : trim_space "x" ≢ ""
  unfolding trim_space
  worded_x = ground (arith, eq_iff "x" "")

  -- what follows an answer of the service
  abbrev proceed :
      (PendingAction → Exec (World b) Failure (Option PendingAction))
      → Answer
      → Exec (World b) Failure (Option PendingAction)
  proceed go (reply, none) = pure none
  proceed go (reply, some q) = if str_eq q.missing_argument "" then pure (some q) else go q

  proceed-none :
      (go : PendingAction → Exec (World b) Failure (Option PendingAction)) (a : Answer)
      (w : World b)
      → a.1 ≡ none
      → proceed go a w ≡ (ok none, w)
  proceed-none go (reply, none) w h = refl
  proceed-none go (reply, some q) w h = absurd (cc)

  -- The turns of a conversation about one pending action, until no argument is asked for.
  unfoldable pub talk :
      List (Clock × String) → PendingAction → Exec (World b) Failure (Option PendingAction)
  unfolding handle_loaded
  talk [] q = pure (some q)
  talk ((t, said) ∷ later) q = handle_loaded b t user_id q said e >>= proceed (talk later)

  -- how it ends, from what the executor acts on: no argument is missing, and either the executor
  -- has been called once, with them all, or a confirmation is asked for and it was not called
  pub data IsSettled (o : b.Outside)
      : Result Failure (Option PendingAction) × World b → Type 0 where
    has_run :
        (args : Args) (w : World b)
        → e.catalog.manifest.confirmation_required ≡ false
        → (first_missing_argument e.catalog.manifest.arguments args).0 ≡ ""
        → w.outside ≡ (b.execute user_id e.catalog (exec_args e args) o).1
        → IsSettled o (ok none, w)
    asks :
        (q : PendingAction) (w : World b)
        → e.catalog.manifest.confirmation_required ≡ true
        → q.awaiting_confirmation ≡ true
        → q.missing_argument ≡ ""
        → (first_missing_argument e.catalog.manifest.arguments q.arguments).0 ≡ ""
        → w.outside ≡ o
        → IsSettled o (ok (some q), w)

  unfoldable pub AllWorded : List (Clock × String) → Type 0
  AllWorded [] = Unit
  AllWorded ((t, said) ∷ later) = (trim_space said ≢ "") × AllWorded later

  run_or_ask-IsSettled :
      (go : PendingAction → Exec (World b) Failure (Option PendingAction)) (t : Clock) (args : Args)
      (w : World b)
      → (first_missing_argument e.catalog.manifest.arguments args).0 ≡ ""
      → IsSettled w.outside ((run_or_ask b t user_id e args >>= proceed go) w)
  unfolding run_or_ask execute_plugin
  run_or_ask-IsSettled go t args w full =
      elim (Bool-cases e.catalog.manifest.confirmation_required) [
        | inl wants ↦
            rw
              (if_true _
                (pure (
                  ask_to_confirm e args (confirmation_prompt t.parsed t.shown e.catalog.name args)))
                (execute_plugin b user_id e args) wants)
              (asks (unconfirmed e args) w wants refl refl full refl)
        | inr free ↦
            let r = (b.execute user_id e.catalog (exec_args e args) w.outside).0 in
            let w' = (execute_plugin b user_id e args w).1 in
            rw
              (if_false _
                (pure (
                  ask_to_confirm e args (confirmation_prompt t.parsed t.shown e.catalog.name args)))
                (execute_plugin b user_id e args) free)
              (subst (λ x. IsSettled w.outside x)
                (sym (proceed-none go (executed e args r) w' (executed-none args r)))
                (has_run args w' free full refl))
      ]

  -- For a plugin that is not the reminder, meeting, location or Composio plugin, a conversation
  -- that has asked for the first missing argument of its manifest, and whose install stays
  -- eligible, is settled after at most as many answers that are not blank as there are missing
  -- required arguments: either the manifest asks for no confirmation, and the executor has been
  -- called exactly once, with arguments of which none is missing; or it asks for one, which is then
  -- pending with no argument missing, and the executor has not been called.
  pub talk-IsSettled :
      (turns : List (Clock × String)) (args : Args) (w : World b)
      → AllWorded turns
      → (first_missing_argument e.catalog.manifest.arguments args).0 ≢ ""
      → missing_count e.catalog.manifest.arguments args ≤ length turns
      → IsSettled w.outside (
          talk turns
            (waiting_for e args (first_missing_argument e.catalog.manifest.arguments args).0)
            w)
  unfolding talk AllWorded checked_plugin
  talk-IsSettled [] args w worded asked enough =
      let less = fewer_missing e.catalog.manifest.arguments "x" args worded_x asked in
      absurd (omega arith)
  talk-IsSettled ((t, said) ∷ later) args w (given, worded) asked enough =
      let ms = e.catalog.manifest.arguments in
      let name = (first_missing_argument ms args).0 in
      let args' = put name (trim_space said) args in
      let step = answered t args name said asked in
      elim (Bool-cases (str_eq (first_missing_argument ms args').0 "")) [
        | inl filled ↦
            rw (step, filled) (run_or_ask-IsSettled (talk later) t args' w ((eq_iff _ "").0 filled))
        | inr lacks ↦
            let fewer =
              fewer_missing ms (trim_space said) args (rw (trim_space-twice said) given) asked in
            let left : missing_count ms args' ≤ length later = omega arith in
            rw (step, lacks, lacks)
              (talk-IsSettled later args' w worded
                (ground (arith, eq_iff (first_missing_argument ms args').0 "")) left)
      ]
