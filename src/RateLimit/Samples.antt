-- ===== src/RateLimit/Samples.antt =====
-- The limiter with two requests in a window of ten, on concrete runs.
use smart_assistant_api.Common.{
  String, ◌≡◌, arith, eq_iff, refl, ◌≢◌, ◌⊎◌, ◌↔◌, ◌-◌, some, none, List, [], ◌∷◌, keep, min, arith,
}
use smart_assistant_api.Common.Assoc.{lookup, insert}
use smart_assistant_api.RateLimit.{Window, client_ip, rate_key}
use smart_assistant_api.RateLimit.Runs.{Call, ask, janitor, is_ask, verdicts, admitted, asked}
use smart_assistant_api.RateLimit.Janitor.{verdicts-keep}
use smart_assistant_api.RateLimit.Budget.{admitted-verdicts}
use smart_assistant_api.RateLimit.Keys.{rate_key_shared}

abbrev run : List Call
run =
    ask 0 0 "a"
    ∷ ask 1 1 "b"
    ∷ ask 2 2 "a"
    ∷ janitor 5
    ∷ ask 7 7 "a"
    ∷ janitor 20
    ∷ ask 21 21 "a"
    ∷ []

verdicts-keep_example : verdicts 2 10 run [] ≡ verdicts 2 10 (keep is_ask run) []
verdicts-keep_example =
    verdicts-keep 2 10 run 0 []
      (
        omega arith,
        (
          omega arith,
          (omega arith, (omega arith, (omega arith, (omega arith, (omega arith, tt))))),
        ),
      )
      tt

passes : admitted "a" (verdicts 2 10 run []) ≡ 3
unfolding verdicts lookup insert
passes = refl

abbrev opened : List (String × Window)
opened = ("a", record { count = 1; resets_at = 10 }) ∷ []

abbrev burst : List Call
burst = ask 1 1 "b" ∷ ask 2 2 "a" ∷ janitor 5 ∷ ask 7 7 "a" ∷ []

opened_a : lookup "a" opened ≡ some (record { count = 1; resets_at = 10 })
unfolding lookup
opened_a = refl

opened_distinct : lookup {V = Window} "a" [] ≡ none
unfolding lookup
opened_distinct = refl

admitted-verdicts_example :
    admitted "a" (verdicts 2 10 burst opened) ≡ min (2 - 1) (asked "a" burst)
admitted-verdicts_example =
    admitted-verdicts 2 10 "a" burst opened (record { count = 1; resets_at = 10 })
      (opened_distinct, tt) opened_a
      (λ e. omega arith, (λ e. omega arith, (omega arith, (λ e. omega arith, tt))))

abbrev nobody : String
nobody = ""

-- What `RemoteAddr` holds for two connections of one client.
abbrev first_port : String
first_port = "10.0.0.1:50001"

abbrev second_port : String
second_port = "10.0.0.1:50002"

rate_key_shared_example : rate_key nobody first_port ≡ rate_key nobody second_port ↔ (
    ((nobody ≢ "") × (nobody ≡ nobody))
    ⊎ ((nobody ≡ "") × (nobody ≡ "") × (client_ip first_port ≡ client_ip second_port)))
rate_key_shared_example = rate_key_shared nobody first_port nobody second_port

keys_apart : rate_key nobody first_port ≢ rate_key nobody second_port
unfolding rate_key
keys_apart = ground (arith, eq_iff "ip:10.0.0.1:50001" "ip:10.0.0.1:50002")
