-- ===== src/Assistant/Ahead.antt =====
-- internal/domain/assistant/builtin/datetime.go: when a time that is said in words lies.
use smart_assistant_api.Common.{
  ℕ, ◌+◌, ◌*◌, ◌<◌, ◌≤◌, String, ◌≡◌, refl, Bool-cases, ltb, ltb→lt, inl, inr, some, arith,
}
use smart_assistant_api.Common.Int.{pos}
use smart_assistant_api.Common.Text.{to_lower, trim_space, contains}
use smart_assistant_api.Time.Civil.{day, east}
use smart_assistant_api.Assistant.Builtin.DateTime.{time_of_day, at_clock, parse_natural_date_time}

-- the clock on the day of an instant, a day later at most
at_clock-near :
    (e now h m : ℕ)
    → h < 24
    → m < 60
    → (now < at_clock (east e) now (pos h, pos m) + day)
      × (at_clock (east e) now (pos h, pos m) ≤ now + day)
unfolding at_clock
at_clock-near e now h m few small = (omega arith, omega arith)

-- At UTC or any zone east of it, when the words of a text name an hour below 24 and a minute below
-- 60, parseNaturalDateTime answers an instant after now and at most two days after it.
pub parse_natural_date_time-ahead :
    (e now h m : ℕ) (raw : String)
    → time_of_day (to_lower (trim_space raw)) ≡ some (pos h, pos m)
    → h < 24
    → m < 60
    → (t : ℕ) × (parse_natural_date_time now raw (east e) ≡ some t)
      × (now < t)
      × (t ≤ now + 2 * day)
unfolding parse_natural_date_time
parse_natural_date_time-ahead e now h m raw clock few small =
    let (after, near) = at_clock-near e now h m few small in
    elim (Bool-cases (contains (to_lower (trim_space raw)) "tomorrow")) [
      | inl next ↦ (_, rw (clock, next) refl, after, omega arith)
      | inr today ↦ elim (Bool-cases (ltb now (at_clock (east e) now (pos h, pos m)))) [
        | inl ahead ↦ (_, rw (clock, today, ahead) refl, ltb→lt _ _ ahead, omega arith)
        | inr past ↦ (_, rw (clock, today, past) refl, after, omega arith)
      ]
    ]
