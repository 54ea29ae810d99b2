-- ===== src/Reminder/Lifecycle/Runs.antt =====
-- Requests and ticks in any order: the table, its rows over time, and who changes them.
use smart_assistant_api.Common.{String, ◌≡◌, refl, ◌≢◌, Option, none, some, List, [], ◌∷◌, subst}
use smart_assistant_api.Store.Contract.{Store, Contract}
use smart_assistant_api.Reminder.{Reminder, key, holds}
use smart_assistant_api.Reminder.Requests.{
  Request, add, add_location, deliver, remove, stop, arrive, uninstall, Event, request, tick, serve,
  handle, run,
}
use smart_assistant_api.Reminder.Lifecycle.{
  Actor, user, dispatcher, Moves, keeps, starts, notifies, delivers, cancels, triggers, Moved, done,
  step,
}
use smart_assistant_api.Reminder.Lifecycle.Methods.{
  IsKeyed, mark_delivered-Moves, cancel-Moves, mark_triggered-Moves,
}
use smart_assistant_api.Reminder.Lifecycle.Batches.{
  create-Moves, create_location-Moves, delete_by_message-Moves,
}
use smart_assistant_api.Reminder.Lifecycle.Loops.{cancel_all-Moved, dispatch-Moved}
use smart_assistant_api.Reminder.Lifecycle.Invariant.{
  IsSound, SoundRow, Moved-SoundRow, Continues, Moved-Continues, Continues-trans,
}

-- A new id is one that no row has.
abbrev pub IsFresh : (String → Option Reminder) → Request → Type 0
IsFresh rows (add checked id now plugin message at) = rows id ≡ none
IsFresh rows (add_location id now inp) = rows id ≡ none
IsFresh rows _ = Unit

abbrev pub IsFreshEvent : (String → Option Reminder) → Event → Type 0
IsFreshEvent rows (request u req) = IsFresh rows req
IsFreshEvent rows (tick clock now) = Unit

abbrev pub IsTable : (String → Option Reminder) → Type 0
IsTable rows = (i : String) → SoundRow i (rows i)

IsKeyed-of_IsTable : (rows : String → Option Reminder) → IsTable rows → IsKeyed rows
IsKeyed-of_IsTable rows sound i r there =
    let h : IsSound i r = subst (SoundRow i) there (sound i) in h.keyed

once : {i : String} {who : Actor} {a b : Option Reminder} → Moves i who a b → Moved i who a b
once m = step m done

module _ {st : Store Reminder} (c : Contract key holds st) (candidate : Reminder → String) where
  -- The events of a run, each with fresh ids at its time.
  abbrev pub FreshRun : List Event → st.State → Type 0
  FreshRun [] s = Unit
  FreshRun (e ∷ es) s = IsFreshEvent (c.rows s) e × FreshRun es (handle st candidate e s)

  serve-Moved :
      (u : String) (req : Request) (s : st.State)
      → IsKeyed (c.rows s)
      → IsFresh (c.rows s) req
      → (j : String) → Moved j (user u) (c.rows s j) (c.rows (serve st candidate u req s) j)
  unfolding serve
  serve-Moved u (add checked id now plugin message at) s keyed fresh j =
      once (create-Moves c u checked id now plugin message at s fresh j)
  serve-Moved u (add_location id now inp) s keyed fresh j =
      once (create_location-Moves c u id now inp s fresh j)
  serve-Moved u (deliver now id) s keyed fresh j = once (mark_delivered-Moves c u now id s j)
  serve-Moved u (remove now message) s keyed fresh j =
      once (delete_by_message-Moves c u candidate now message s keyed j)
  serve-Moved u (stop now id) s keyed fresh j = once (cancel-Moves c u now id s j)
  serve-Moved u (arrive now id) s keyed fresh j = once (mark_triggered-Moves c u now id s j)
  serve-Moved u (uninstall now plugin) s keyed fresh j = cancel_all-Moved c u now plugin s keyed j

  abbrev actor : Event → Actor
  actor (request u req) = user u
  actor (tick clock now) = dispatcher

  handle-Moved :
      (e : Event) (s : st.State)
      → IsKeyed (c.rows s)
      → IsFreshEvent (c.rows s) e
      → (j : String) → Moved j (actor e) (c.rows s j) (c.rows (handle st candidate e s) j)
  unfolding handle
  handle-Moved (request u req) s keyed fresh j = serve-Moved u req s keyed fresh j
  handle-Moved (tick clock now) s keyed fresh j = dispatch-Moved c clock now s j

  handle-IsTable :
      (e : Event) (s : st.State)
      → IsTable (c.rows s)
      → IsFreshEvent (c.rows s) e
      → IsTable (c.rows (handle st candidate e s))
  handle-IsTable e s sound fresh i =
      Moved-SoundRow (handle-Moved e s (IsKeyed-of_IsTable (c.rows s) sound) fresh i) (sound i)

  -- From a sound reminder table, through any sequence of requests and dispatcher ticks with fresh
  -- ids, over any store that keeps the contract and whatever fails, every row stands under its id,
  -- has one of the four statuses, and has the time stamps its status asks for.
  pub run-IsTable :
      (es : List Event) (s : st.State)
      → IsTable (c.rows s)
      → FreshRun es s
      → IsTable (c.rows (run st candidate es s))
  unfolding run
  run-IsTable [] s sound fresh = sound
  run-IsTable (e ∷ es) s sound (fresh, later) =
      run-IsTable es (handle st candidate e s) (handle-IsTable e s sound fresh) later

  -- From a sound reminder table, through any sequence of requests and dispatcher ticks with fresh
  -- ids, over any store that keeps the contract and whatever fails, a stored reminder stays stored,
  -- keeps its id, owner, trigger, message, due time and title, never comes back to pending once it
  -- has left it, and keeps the time of its notification once it has one.
  pub run-Continues :
      (es : List Event) (s : st.State)
      → IsTable (c.rows s)
      → FreshRun es s
      → (j : String) → Continues (c.rows s j) (c.rows (run st candidate es s) j)
  unfolding run
  run-Continues [] s sound fresh j = Moved-Continues {who = dispatcher} done (sound j)
  run-Continues (e ∷ es) s sound (fresh, later) j =
      Continues-trans (c.rows s j) (c.rows (handle st candidate e s) j) _
        (Moved-Continues (handle-Moved e s (IsKeyed-of_IsTable (c.rows s) sound) fresh j) (sound j))
        (run-Continues es (handle st candidate e s) (handle-IsTable e s sound fresh) later j)

-- A user moves no row of another user.
Moves-foreign :
    (u : String) (r : Reminder) {i : String} {who : Actor} {before after : Option Reminder}
    → Moves i who before after
    → who ≡ user u
    → before ≡ some r
    → r.user_id ≢ u
    → after ≡ some r
Moves-foreign u r (keeps same) w b h = cc
Moves-foreign u r (starts r' absent e key actor status n d) w b h = cc
Moves-foreign u r (notifies r' now b' e actor status) w b h = cc
Moves-foreign u r (delivers r' now b' e actor status) w b h = absurd (h (cc))
Moves-foreign u r (cancels r' now b' e actor) w b h = absurd (h (cc))
Moves-foreign u r (triggers r' now b' e actor) w b h = absurd (h (cc))

Moved-foreign :
    (u : String) (r : Reminder) {i : String} {who : Actor} {before after : Option Reminder}
    → Moved i who before after
    → who ≡ user u
    → before ≡ some r
    → r.user_id ≢ u
    → after ≡ some r
Moved-foreign u r done w b h = b
Moved-foreign u r (step m p) w b h = Moved-foreign u r p w (Moves-foreign u r m w b h) h

-- Over a sound table no request of a user, successful or failed, changes a reminder of another
-- user.
pub serve-foreign :
    {st : Store Reminder} (c : Contract key holds st) (candidate : Reminder → String) (u : String)
    (req : Request) (s : st.State)
    → IsTable (c.rows s)
    → IsFresh (c.rows s) req
    → (j : String) (r : Reminder) → c.rows s j ≡ some r
    → r.user_id ≢ u
    → c.rows (serve st candidate u req s) j ≡ some r
serve-foreign c candidate u req s sound fresh j r there foreign =
    Moved-foreign u r
      (serve-Moved c candidate u req s (IsKeyed-of_IsTable (c.rows s) sound) fresh j) refl there
      foreign
