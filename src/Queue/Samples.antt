-- ===== src/Queue/Samples.antt =====
-- The queue on concrete runs.
use smart_assistant_api.Common.{ℕ, ◌+◌, ◌≡◌, refl, Bool, false, List, [], ◌∷◌, ◌++◌, leb, arith}
use smart_assistant_api.Queue.{Message, channel, dispatch, delivered}
use smart_assistant_api.Queue.Delivery.{counting, left, IsBounded, dispatch-IsBounded}
use smart_assistant_api.Queue.Order.{
  Step, send, take, after_all, added_all, removed_all, removed_all-channel,
}

abbrev hello : Message
hello = record { id = "m1"; topic = "t"; payload = "{}"; headers = []; attempts = 0 }

-- It fails twice.
abbrev flaky : Message → ℕ → Bool × ℕ
flaky m n = (leb 3 m.attempts, n + 1)

abbrev never : ℕ → Bool
never n = false

dispatch-IsBounded_example :
    IsBounded
      (dispatch (counting flaky) 3 never 3 hello (0, 0)).1.0
      (0 + left 3 hello)
      (dispatch (counting flaky) 3 never 3 hello (0, 0)).0
dispatch-IsBounded_example = dispatch-IsBounded flaky 3 never 3 hello 0 0 (omega arith)

third_time : dispatch flaky 3 never 3 hello 0 ≡ (delivered, 3)
unfolding dispatch
third_time = refl

abbrev steps : List Step
steps =
    send "m1" "t" "a" []
    ∷ send "m2" "u" "b" []
    ∷ take "t"
    ∷ send "m3" "t" "c" []
    ∷ take "t"
    ∷ take "t"
    ∷ []

removed_all-channel_example :
    removed_all "t" steps [] ++ channel "t" (after_all steps [])
    ≡ channel "t" [] ++ added_all "t" steps []
removed_all-channel_example = removed_all-channel "t" steps []
