-- ===== src/Reminder/Samples.antt =====
-- Runs of the reminder service over the reference store, and the theorems at them.
use smart_assistant_api.Common.{
  String, ◌≡◌, refl, none, some, List, [], ◌∷◌, arith, eq_iff, ap, sym, ◌∙◌, ◌≤◌,
}
use mathlib.Core.Option.{some-injective}
use smart_assistant_api.Reminder.Lifecycle.Methods.{IsKeyed}
use smart_assistant_api.Common.Assoc.{lookup, insert}
use smart_assistant_api.Common.Text.{trim_space}
use smart_assistant_api.Store.Contract.{Store, Contract}
use smart_assistant_api.Store.Contract.Effects.{IsReliable}
use smart_assistant_api.Store.Memory.Crud.{Items}
use smart_assistant_api.Store.Reference.{reference, reference-Contract, reference-IsReliable}
use smart_assistant_api.Reminder.{Reminder, key, holds}
use smart_assistant_api.Reminder.Service.{new_time_reminder, as_notified, as_delivered}
use smart_assistant_api.Reminder.Dispatcher.{dispatch}
use smart_assistant_api.Reminder.Dispatcher.Exactness.{IsDue, dispatch-due, dispatch-rest}
use smart_assistant_api.Reminder.Requests.{
  add, deliver, stop, Event, request, tick, serve, handle, run,
}
use smart_assistant_api.Reminder.Lifecycle.Runs.{
  IsTable, FreshRun, run-IsTable, run-Continues, serve-foreign,
}
use smart_assistant_api.Reminder.Lifecycle.Invariant.{Continues}

abbrev db : Store Reminder
db = reference key holds

abbrev law : Contract key holds db
law = reference-Contract key holds

abbrev empty : Items Reminder
empty = record { items = []; distinct = tt }

abbrev name : Reminder → String
name r = r.message

abbrev script : List Event
script =
    request "ann" (add 0 "r1" 1 none " tea " 5)
    ∷ tick (λ r. 7) 6
    ∷ request "ann" (deliver 8 "r1")
    ∷ []

abbrev tea : Reminder
tea = new_time_reminder "r1" 1 "ann" none "tea" 5

empty-IsTable : IsTable (law.rows empty)
unfolding reference-Contract lookup
empty-IsTable i = tt

script-FreshRun : FreshRun law name script empty
unfolding reference-Contract handle lookup
script-FreshRun = (refl, (tt, (tt, tt)))

script_ends : law.rows (run db name script empty) "r1" ≡ some (as_delivered 8 (as_notified 7 tea))
unfolding reference-Contract run insert lookup trim_space
script_ends = refl

run-IsTable_example : IsTable (law.rows (run db name script empty))
run-IsTable_example = run-IsTable law name script empty empty-IsTable script-FreshRun

abbrev one_tea : Items Reminder
unfolding lookup
one_tea = record { items = ("r1", tea) ∷ []; distinct = (refl, tt) }

-- After the script, what happens to the reminder later.
abbrev later : List Event
later = request "ann" (deliver 9 "r1") ∷ request "bob" (stop 10 "r1") ∷ []

run-Continues_example :
    Continues
      (law.rows (run db name script empty) "r1")
      (law.rows (run db name later (run db name script empty)) "r1")
run-Continues_example =
    run-Continues law name later (run db name script empty) run-IsTable_example (tt, (tt, tt)) "r1"

serve-foreign_example :
    law.rows (serve db name "bob" (stop 10 "r1") (run db name script empty)) "r1"
    ≡ some (as_delivered 8 (as_notified 7 tea))
serve-foreign_example =
    serve-foreign law name "bob" (stop 10 "r1") (run db name script empty) run-IsTable_example tt
      "r1" (as_delivered 8 (as_notified 7 tea)) script_ends (ground (arith, eq_iff "ann" "bob"))

up : IsReliable db
up = reference-IsReliable key holds

one_tea-IsKeyed : IsKeyed (law.rows one_tea)
unfolding reference-Contract lookup
one_tea-IsKeyed i r h = ground (arith, eq_iff "r1" i)

one_tea_there : law.rows one_tea "r1" ≡ some tea
unfolding reference-Contract lookup
one_tea_there = refl

one_tea_early : (r : Reminder) → law.rows one_tea "r1" ≡ some r → ¬ IsDue 4 r
one_tea_early r h due =
    let e : tea ≡ r = some-injective _ _ (sym one_tea_there ∙ h) in
    let at : some 5 ≡ some due.time = ap (λ x. x.remind_at) e ∙ due.at in
    let five : 5 ≡ due.time = some-injective _ _ at in
    let come : due.time ≤ 4 = due.come in absurd (omega arith)

dispatch-due_example : law.rows (dispatch db (λ r. 7) 6 one_tea).1 "r1" ≡ some (as_notified 7 tea)
dispatch-due_example =
    dispatch-due law up (λ r. 7) 6 one_tea one_tea-IsKeyed "r1" tea one_tea_there
      (record { timed = refl; waiting = refl; time = 5; at = refl; come = omega arith })

dispatch-rest_example : law.rows (dispatch db (λ r. 7) 4 one_tea).1 "r1" ≡ law.rows one_tea "r1"
dispatch-rest_example = dispatch-rest law up (λ r. 7) 4 one_tea one_tea-IsKeyed "r1" one_tea_early
