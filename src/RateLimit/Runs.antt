-- ===== src/RateLimit/Runs.antt =====
-- The limiter in use, with one limit and one window length: requests and ticks of the janitor.
use smart_assistant_api.Common.{
  ℕ, suc, String, Bool, true, false, List, [], ◌∷◌, str_eq, if◌then◌else◌, ◌≤◌, ◌&&◌, some,
}
use smart_assistant_api.RateLimit.{Window, Verdict, allow, clean, rate_limit, reaches_handler}

pub data Call : Type 0 where
  ask : (now later : ℕ) (key : String) → Call
  janitor : (now : ℕ) → Call

abbrev pub time_of : Call → ℕ
time_of (ask now later key) = now
time_of (janitor now) = now

abbrev pub is_ask : Call → Bool
is_ask (ask now later key) = true
is_ask (janitor now) = false

-- The clock does not go back.
abbrev pub InOrder : ℕ → List Call → Type 0
InOrder t [] = Unit
InOrder t (e ∷ es) = (t ≤ time_of e) × InOrder (time_of e) es

module _ (limit dur : ℕ) where
  unfoldable pub after : Call → List (String × Window) → List (String × Window)
  unfolding allow clean
  after (ask now later key) s = (allow now later key limit dur s).1
  after (janitor now) s = clean now s

  -- The verdicts, in order, each with its key.
  unfoldable pub verdicts : List Call → List (String × Window) → List (String × Verdict)
  unfolding allow after
  verdicts [] s = []
  verdicts (ask now later key ∷ es) s =
      (key, (allow now later key limit dur s).0) ∷ verdicts es (after (ask now later key) s)
  verdicts (janitor now ∷ es) s = verdicts es (after (janitor now) s)

-- How many requests of a key reach the handler behind the middleware.
abbrev pub admitted : String → List (String × Verdict) → ℕ
admitted key [] = 0
admitted key ((k, v) ∷ vs) =
    let rest = admitted key vs in
    if str_eq k key && reaches_handler (rate_limit (some v)) then suc rest else rest

abbrev pub asked : String → List Call → ℕ
asked key [] = 0
asked key (ask now later k ∷ es) =
    let rest = asked key es in if str_eq k key then suc rest else rest
asked key (janitor now ∷ es) = asked key es
