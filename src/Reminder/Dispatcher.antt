-- ===== src/Reminder/Dispatcher.antt =====
-- internal/domain/reminder/dispatcher.go. `clock` is what `time.Now()` returns while a reminder is
-- marked, and the log lines are left out.
pub mod Exactness
use smart_assistant_api.Common.{ℕ, List, [], ◌∷◌}
use smart_assistant_api.Common.Exec.{ok, Exec, ◌>>=◌}
use smart_assistant_api.Response.{AppError}
use smart_assistant_api.Store.Contract.{Store}
use smart_assistant_api.Reminder.{Reminder}
use smart_assistant_api.Reminder.Service.{find_due_reminders, mark_notified}

module _ (st : Store Reminder) (clock : Reminder → ℕ) where
  -- the loop of Dispatch: an error of one reminder is logged, and the loop goes on
  unfoldable pub dispatch_each : List Reminder → Exec st.State AppError (Unit {0})
  unfolding mark_notified
  dispatch_each [] s = (ok tt, s)
  dispatch_each (r ∷ rs) s = dispatch_each rs (mark_notified st (clock r) r.id s).1

  unfoldable pub dispatch : ℕ → Exec st.State AppError (Unit {0})
  unfolding find_due_reminders dispatch_each
  dispatch now = do due ← find_due_reminders st now; dispatch_each due
