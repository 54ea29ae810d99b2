-- ===== src/Assistant/Times.antt =====
-- internal/domain/assistant: a time that the service has printed for a plugin is read back by
-- ParseDateTime of builtin/datetime.go and by normalizeReminderRemindAt of wake_word.go.
use Prim.Native.Char.{Char}
use smart_assistant_api.Common.{
  ℕ, zero, suc, ◌*◌, ◌+◌, ◌/◌, ◌<◌, String, ◌≡◌, refl, ap, Bool, true, false, ◌&&◌, some, arith,
  str_eq, eq_iff, if◌then◌else◌, Bool-cases, inl, inr, lt→ltb,
}
use smart_assistant_api.Common.Text.{trim_space, trim_left, trim_right, is_space, rune_count}
use smart_assistant_api.Time.Civil.{second, minute, day, year_of, Offset, utc}
use smart_assistant_api.Time.Format.{
  rfc3339, digit, two, four, year_text, date_text, clock_text, zone,
}
use smart_assistant_api.Time.RoundTrip.{parse_rfc3339-rfc3339}
use smart_assistant_api.Assistant.Builtin.DateTime.{parse_date_time}
use smart_assistant_api.Assistant.ReminderArguments.{normalize_reminder_remind_at}

-- a text that does not end in space
abbrev HasEnd : String → Type 0
HasEnd s = (trim_right is_space s ≡ s) × (str_eq s "" ≡ false)

never : {A : Type 0} (c : Bool) (x y : A) → (if c && false then x else y) ≡ y
never true x y = refl
never false x y = refl

cons_worded : (c : Char) (s : String) → str_eq (String.◌∷◌ c s) "" ≡ false
unfolding rune_count
cons_worded c s = elim (Bool-cases (str_eq (String.◌∷◌ c s) "")) [
  | inl e ↦ let e' = ap rune_count ((eq_iff (String.◌∷◌ c s) "").0 e) in absurd (omega arith)
  | inr e ↦ e
]

cons-HasEnd : (c : Char) (s : String) → HasEnd s → HasEnd (String.◌∷◌ c s)
unfolding trim_right
cons-HasEnd c s (same, some_text) =
    (rw (same, some_text) (never (is_space c) "" (String.◌∷◌ c s)), cons_worded c s)

two-HasEnd : (n : ℕ) (s : String) → HasEnd s → HasEnd (two n s)
unfolding two
two-HasEnd n s h = cons-HasEnd _ _ (cons-HasEnd _ _ h)

digit-not_space : (n : ℕ) → n < 10 → is_space (digit n) ≡ false
digit-not_space zero h = refl
digit-not_space (suc zero) h = refl
digit-not_space (suc (suc zero)) h = refl
digit-not_space (suc (suc (suc zero))) h = refl
digit-not_space (suc (suc (suc (suc zero)))) h = refl
digit-not_space (suc (suc (suc (suc (suc zero))))) h = refl
digit-not_space (suc (suc (suc (suc (suc (suc zero)))))) h = refl
digit-not_space (suc (suc (suc (suc (suc (suc (suc zero))))))) h = refl
digit-not_space (suc (suc (suc (suc (suc (suc (suc (suc zero)))))))) h = refl
digit-not_space (suc (suc (suc (suc (suc (suc (suc (suc (suc zero))))))))) h = refl
digit-not_space (suc (suc (suc (suc (suc (suc (suc (suc (suc (suc n)))))))))) h =
    absurd (omega arith)

ends_at : HasEnd "Z"
unfolding trim_right
ends_at = (refl, refl)

clock-HasEnd : (t : ℕ) (s : String) → HasEnd s → HasEnd (clock_text t s)
unfolding clock_text
clock-HasEnd t s h =
    two-HasEnd _ _ (cons-HasEnd _ _ (two-HasEnd _ _ (cons-HasEnd _ _ (two-HasEnd _ _ h))))

date-HasEnd : (n : ℕ) (s : String) → year_of n < 10000 → HasEnd s → HasEnd (date_text n s)
unfolding date_text year_text four
date-HasEnd n s h k = rw (lt→ltb (year_of n) 10000 h) (
    two-HasEnd _ _
      (two-HasEnd _ _ (cons-HasEnd _ _ (two-HasEnd _ _ (cons-HasEnd _ _ (two-HasEnd _ _ k))))))

date-trim_left :
    (n : ℕ) (s : String) → year_of n < 10000 → trim_left is_space (date_text n s) ≡ date_text n s
unfolding date_text year_text four two trim_left
date-trim_left n s h =
    rw (lt→ltb (year_of n) 10000 h, digit-not_space (year_of n / 100 / 10) (omega arith)) refl

-- A printed time has no space to trim.
pub rfc3339-trimmed :
    (t : ℕ)
    → year_of (t / day) < 10000
    → (trim_space (rfc3339 utc t) ≡ rfc3339 utc t) × (str_eq (rfc3339 utc t) "" ≡ false)
unfolding rfc3339 zone trim_space
rfc3339-trimmed t h =
    let e : t + 0 * minute ≡ t = omega arith in
    let tail = clock_text t "Z" in
    let end = date-HasEnd (t / day) _ h (cons-HasEnd _ _ (clock-HasEnd t "Z" ends_at)) in
    rw (e, date-trim_left (t / day) _ h) end

-- An instant of the years 1 to 9999 that is printed in UTC as RFC 3339, as the service stores the
-- time of a reminder, is read back by ParseDateTime, at any time and for any location, as its
-- second, and normalizeReminderRemindAt answers with the print of that second.
pub parse_date_time-rfc3339 :
    (now t : ℕ) (z : Offset)
    → year_of (t / day) < 10000
    → (parse_date_time now (rfc3339 utc t) z
        ≡ some (record { instant = t / second * second; offset = utc }))
      × (normalize_reminder_remind_at now (rfc3339 utc t)
          ≡ some (rfc3339 utc (t / second * second)))
unfolding parse_date_time normalize_reminder_remind_at
parse_date_time-rfc3339 now t z h =
    let (same, worded) = rfc3339-trimmed t h in
    (
      rw (same, worded, parse_rfc3339-rfc3339 t h) refl,
      rw (same, worded, same, worded, parse_rfc3339-rfc3339 t h) refl,
    )
