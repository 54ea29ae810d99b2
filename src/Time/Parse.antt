-- ===== src/Time/Parse.antt =====
-- `ParseInLocation` of the package `time`, for the layouts of the program. `none` is an error.
use Prim.Native.Char.{Char, code}
use smart_assistant_api.Common.{
  ℕ, ◌+◌, ◌-◌, ◌*◌, String, Bool, true, false, ◌&&◌, ◌||◌, ◌==◌, ltb, leb, Option, none, some,
  if◌then◌else◌,
}
use smart_assistant_api.Common.Text.{trim_left}
use smart_assistant_api.Time.Civil.{
  second, minute, hour, day, day_number, days_in, Offset, east, west, from_local, Moment,
}

infixl 5 ◌>>=◌ ◌>>◌
abbrev pub ◌>>=◌ : {A B : Type 0} → Option A → (A → Option B) → Option B
none >>= f = none
some a >>= f = f a

abbrev pub ◌>>◌ : {B : Type 0} → Option (Unit {0}) → Option B → Option B
m >> n = m >>= λ _. n

abbrev pub check : Bool → Option (Unit {0})
check true = some tt
check false = none

abbrev pub digit_of : Char → Option ℕ
digit_of c = if leb b'0' (code c) && leb (code c) b'9' then some (code c - b'0') else none

-- two digits: getnum with a leading zero
unfoldable pub get_two : String → Option (ℕ × String)
get_two String.[] = none
get_two (String.◌∷◌ c String.[]) = none
get_two (String.◌∷◌ c (String.◌∷◌ d rest)) = do
  a ← digit_of c
  b ← digit_of d
  some (10 * a + b, rest)

-- one digit or two: getnum without
unfoldable pub get_num : String → Option (ℕ × String)
get_num String.[] = none
get_num (String.◌∷◌ c String.[]) = do a ← digit_of c; some (a, "")
get_num (String.◌∷◌ c (String.◌∷◌ d rest)) = do
  a ← digit_of c
  elim (digit_of d) [ none ↦ some (a, String.◌∷◌ d rest) | some b ↦ some (10 * a + b, rest) ]

unfoldable pub get_year : String → Option (ℕ × String)
get_year s = do (a, s) ← get_two s; (b, s) ← get_two s; some (100 * a + b, s)

-- a character of the layout
abbrev pub expect : ℕ → String → Option String
expect k String.[] = none
expect k (String.◌∷◌ c rest) = if code c == k then some rest else none

-- a space of the layout stands for any number of spaces, and for none at the end
unfoldable pub expect_space : String → Option String
unfolding trim_left
expect_space String.[] = some ""
expect_space (String.◌∷◌ c rest) =
    if code c == b' ' then some (trim_left (λ d. code d == b' ') rest) else none

-- the digits of a fraction, of which nine count; `unit` is the value of the next one
unfoldable pub fraction : ℕ → ℕ → String → ℕ × String
fraction unit acc String.[] = (acc, "")
fraction unit acc (String.◌∷◌ c rest) = elim (digit_of c) [
  | none ↦ (acc, String.◌∷◌ c rest)
  | some d ↦ fraction (Prim.Native.Nat.◌/◌ unit 10) (acc + d * unit) rest
]

-- A fraction may follow the seconds though the layout has none.
unfoldable pub get_fraction : String → ℕ × String
unfolding fraction
get_fraction String.[] = (0, "")
get_fraction (String.◌∷◌ c String.[]) = (0, String.◌∷◌ c "")
get_fraction (String.◌∷◌ c (String.◌∷◌ d rest)) =
    if code c == b'.' || code c == b','
    then (elim (digit_of d) [
      | none ↦ (0, String.◌∷◌ c (String.◌∷◌ d rest))
      | some _ ↦ fraction 100000000 0 (String.◌∷◌ d rest)
    ])
    else (0, String.◌∷◌ c (String.◌∷◌ d rest))

-- `2006-01-02`, as the number of the day
unfoldable pub parse_date : String → Option (ℕ × String)
parse_date s = do
  (y, s) ← get_year s
  s ← expect b'-' s
  (m, s) ← get_two s
  s ← expect b'-' s
  (d, s) ← get_two s
  check (leb 1 m && leb m 12)
  check (leb 1 d && leb d (days_in y m))
  some (day_number y m d, s)

-- `15:04`
unfoldable pub parse_minutes : String → Option (ℕ × String)
parse_minutes s = do
  (h, s) ← get_num s
  check (ltb h 24)
  s ← expect b':' s
  (m, s) ← get_two s
  check (ltb m 60)
  some (h * hour + m * minute, s)

-- `15:04:05`
unfoldable pub parse_seconds : String → Option (ℕ × String)
parse_seconds s = do
  (t, s) ← parse_minutes s
  s ← expect b':' s
  (x, s) ← get_two s
  check (ltb x 60)
  let (f, s) = get_fraction s in some (t + x * second + f, s)

unfoldable pub zone_minutes : String → Option (ℕ × String)
zone_minutes s = do
  (h, s) ← get_two s
  s ← expect b':' s
  (m, s) ← get_two s
  check (leb h 24)
  check (leb m 60)
  some (60 * h + m, s)

-- `Z07:00`
unfoldable pub parse_zone : String → Option (Offset × String)
parse_zone String.[] = none
parse_zone (String.◌∷◌ c rest) =
    if code c == b'Z'
    then some (east 0, rest)
    else if code c == b'+'
    then (do (m, s) ← zone_minutes rest; some (east m, s))
    else if code c == b'-'
    then (do (m, s) ← zone_minutes rest; some (west m, s))
    else none

abbrev pub at_end : {A : Type 0} → A → String → Option A
at_end a String.[] = some a
at_end a (String.◌∷◌ c s) = none

-- time.RFC3339
unfoldable pub parse_rfc3339 : String → Option Moment
parse_rfc3339 s = do
  (n, s) ← parse_date s
  s ← expect b'T' s
  (t, s) ← parse_seconds s
  (z, s) ← parse_zone s
  at_end (record { instant = from_local z (n * day + t); offset = z }) s

-- `2006-01-02T15:04:05`, at the location `z`
unfoldable pub parse_joined : Offset → String → Option Moment
parse_joined z s = do
  (n, s) ← parse_date s
  s ← expect b'T' s
  (t, s) ← parse_seconds s
  at_end (record { instant = from_local z (n * day + t); offset = z }) s

-- `2006-01-02 15:04:05`
unfoldable pub parse_spaced : Offset → String → Option Moment
parse_spaced z s = do
  (n, s) ← parse_date s
  s ← expect_space s
  (t, s) ← parse_seconds s
  at_end (record { instant = from_local z (n * day + t); offset = z }) s

-- `2006-01-02 15:04`
unfoldable pub parse_short : Offset → String → Option Moment
parse_short z s = do
  (n, s) ← parse_date s
  s ← expect_space s
  (t, s) ← parse_minutes s
  at_end (record { instant = from_local z (n * day + t); offset = z }) s
