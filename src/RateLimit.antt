-- ===== src/RateLimit.antt =====
-- pkg/ratelimit/memory.go and internal/middleware/ratelimit.go: the fixed-window limiter, and the
-- middleware in front of the handlers. Instants and durations are nanoseconds.
pub mod Runs
pub mod Janitor
pub mod Budget
pub mod Keys
mod Samples
use Prim.Native.String
use smart_assistant_api.Common.{
  ℕ, suc, ◌+◌, ◌-◌, ◌*◌, ◌/◌, String, Bool, true, false, Option, none, some, List, ltb, str_eq,
  if◌then◌else◌,
}
use smart_assistant_api.Common.Int.{ℤ, pos, negsuc, sub_ℕ}
use smart_assistant_api.Common.Assoc.{lookup, insert, sweep}

pub record Window : Type 0 where
  pub count : ℕ
  pub resets_at : ℕ

-- ratelimit.go: Result
pub record Verdict : Type 0 where
  pub allowed : Bool
  pub limit : ℕ
  pub remaining : ℕ
  pub retry_after : ℤ

-- now.After(w.resetsAt)
abbrev pub over : ℕ → Window → Bool
over now w = ltb w.resets_at now

-- the window that a request is counted in
abbrev pub current : ℕ → ℕ → Option Window → Window
current now dur none = record { count = 0; resets_at = now + dur }
current now dur (some w) = if over now w then record { count = 0; resets_at = now + dur } else w

abbrev pub counted : Window → Window
counted w = record w { count = suc w.count }

-- `later` is the clock of `time.Until`.
abbrev pub judge : ℕ → ℕ → Window → Verdict
judge limit later w =
    if ltb limit w.count
    then record {
      allowed = false;
      limit = limit;
      remaining = 0;
      retry_after = sub_ℕ w.resets_at later;
    }
    else record { allowed = true; limit = limit; remaining = limit - w.count; retry_after = pos 0 }

-- Allow
unfoldable pub allow :
    ℕ → ℕ → String → ℕ → ℕ → List (String × Window) → Verdict × List (String × Window)
allow now later key limit dur windows =
    let w = counted (current now dur (lookup key windows)) in
    (judge limit later w, insert key w windows)

-- one tick of the janitor
unfoldable pub clean : ℕ → List (String × Window) → List (String × Window)
unfolding sweep
clean now windows = sweep (over now) windows

-- clientIP
abbrev pub client_ip : String → String
client_ip remote_addr = if str_eq remote_addr "" then "unknown" else remote_addr

-- rateKey: the user of the request's token, if it has one, and its remote address
unfoldable pub rate_key : String → String → String
rate_key user_id remote_addr =
    if str_eq user_id ""
    then String.◌++◌ "ip:" (client_ip remote_addr)
    else String.◌++◌ "uid:" user_id

abbrev pub second : ℕ
second = 1000000000

-- int(d.Seconds()) + 1, which rounds towards zero
abbrev pub retry_seconds : ℤ → ℤ
retry_seconds (pos n) = pos (n / second + 1)
retry_seconds (negsuc n) = sub_ℕ 1 ((n + 1) / second)

-- What the middleware does with a request: it goes on to the handler, without headers when the
-- limiter failed, or it is answered with status 429.
pub data Passage : Type 0 where
  unlimited : Passage
  passed : (limit remaining : ℕ) → Passage
  too_many : (limit remaining : ℕ) (retry_after : ℤ) → Passage

-- RateLimit; `none` is an error of the limiter.
abbrev pub rate_limit : Option Verdict → Passage
rate_limit none = unlimited
rate_limit (some v) =
    if v.allowed
    then passed v.limit v.remaining
    else too_many v.limit v.remaining (retry_seconds v.retry_after)

abbrev pub reaches_handler : Passage → Bool
reaches_handler (too_many l r a) = false
reaches_handler _ = true
