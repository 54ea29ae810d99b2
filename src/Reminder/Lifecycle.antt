-- ===== src/Reminder/Lifecycle.antt =====
-- The state machine of a reminder, row by row: which change of the row `i` each actor may make.
pub mod Methods
pub mod Batches
pub mod Loops
pub mod Invariant
pub mod Runs
use smart_assistant_api.Common.{ℕ, String, ◌≡◌, refl, ◌≢◌, ◌⊎◌, Option, none, some, arith}
use smart_assistant_api.Reminder.{Reminder, pending, notified, triggered, cancelled}
use smart_assistant_api.Reminder.Service.{as_notified, as_delivered, as_cancelled, as_triggered}

pub data Actor : Type 0 where
  user : String → Actor
  dispatcher : Actor

pub data Moves (i : String) (who : Actor) (before after : Option Reminder) : Type 0 where
  keeps : after ≡ before → Moves i who before after
  starts :
      (r : Reminder)
      → before ≡ none
      → after ≡ some r
      → r.id ≡ i
      → who ≡ user r.user_id
      → r.status ≡ pending
      → r.notified_at ≡ none
      → r.delivered_at ≡ none
      → Moves i who before after
  notifies :
      (r : Reminder) (now : ℕ)
      → before ≡ some r
      → after ≡ some (as_notified now r)
      → who ≡ dispatcher
      → r.status ≡ pending
      → Moves i who before after
  delivers :
      (r : Reminder) (now : ℕ)
      → before ≡ some r
      → after ≡ some (as_delivered now r)
      → who ≡ user r.user_id
      → r.status ≡ notified
      → Moves i who before after
  cancels :
      (r : Reminder) (now : ℕ)
      → before ≡ some r
      → after ≡ some (as_cancelled now r)
      → who ≡ user r.user_id
      → Moves i who before after
  triggers :
      (r : Reminder) (now : ℕ)
      → before ≡ some r
      → after ≡ some (as_triggered now r)
      → who ≡ user r.user_id
      → Moves i who before after

-- Several moves of one actor.
pub data Moved (i : String) (who : Actor) : Option Reminder → Option Reminder → Type 0 where
  done : {o : Option Reminder} → Moved i who o o
  step : {o mid o' : Option Reminder} → Moves i who o mid → Moved i who mid o' → Moved i who o o'

pub Moved-trans :
    {i : String} {who : Actor} {a b c : Option Reminder}
    → Moved i who a b
    → Moved i who b c
    → Moved i who a c
Moved-trans done q = q
Moved-trans (step m p) q = step m (Moved-trans p q)
