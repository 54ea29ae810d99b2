-- ===== src/Reminder/Requests.antt =====
-- What reaches the reminder service: the requests of a user, and the ticks of the dispatcher, in
-- the order in which they run. A request that fails has no reply here, but what it wrote stays.
use smart_assistant_api.Common.{ℕ, String, Option, List, [], ◌∷◌}
use smart_assistant_api.Store.Contract.{Store}
use smart_assistant_api.Reminder.{Reminder}
use smart_assistant_api.Reminder.Service.{
  CreateInput, create, create_location, mark_delivered, delete_by_message, cancel, mark_triggered,
  cancel_all_for_user_plugin,
}
use smart_assistant_api.Reminder.Dispatcher.{dispatch}

pub data Request : Type 0 where
  add :
      (checked : ℕ) (id : String) (now : ℕ) (user_plugin_id : Option String) (message : String)
      (remind_at : ℕ)
      → Request
  add_location : (id : String) (now : ℕ) (inp : CreateInput) → Request
  deliver : (now : ℕ) (id : String) → Request
  remove : (now : ℕ) (message : String) → Request
  stop : (now : ℕ) (id : String) → Request
  arrive : (now : ℕ) (id : String) → Request
  uninstall : (now : ℕ) (user_plugin_id : String) → Request

pub data Event : Type 0 where
  request : (user_id : String) → Request → Event
  tick : (clock : Reminder → ℕ) (now : ℕ) → Event

module _ (st : Store Reminder) (candidate : Reminder → String) where
  unfoldable pub serve : String → Request → st.State → st.State
  unfolding create create_location mark_delivered delete_by_message cancel mark_triggered
      cancel_all_for_user_plugin
  serve u (add checked id now plugin message at) s =
      (create st checked id now u plugin message at s).1
  serve u (add_location id now inp) s = (create_location st id now u inp s).1
  serve u (deliver now id) s = (mark_delivered st now u id s).1
  serve u (remove now message) s = (delete_by_message st candidate now u message s).1
  serve u (stop now id) s = (cancel st now u id s).1
  serve u (arrive now id) s = (mark_triggered st now u id s).1
  serve u (uninstall now plugin) s = (cancel_all_for_user_plugin st now u plugin s).1

  unfoldable pub handle : Event → st.State → st.State
  unfolding serve dispatch
  handle (request u req) s = serve u req s
  handle (tick clock now) s = (dispatch st clock now s).1

  unfoldable pub run : List Event → st.State → st.State
  unfolding handle
  run [] s = s
  run (e ∷ es) s = run es (handle e s)
