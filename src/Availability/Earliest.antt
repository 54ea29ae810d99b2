-- ===== src/Availability/Earliest.antt =====
-- The recommended slot, among all starts that may be booked.
use smart_assistant_api.Common.{
  ℕ, ◌+◌, ◌-◌, ◌*◌, ◌/◌, ◌%◌, ◌≤◌, ◌<◌, ◌≡◌, refl, sym, ap, subst, true, false, Option, none, some,
  List, [], ◌∷◌, In, inl, inr, arith, ltb, Bool-cases,
}
use smart_assistant_api.Store.Memory.{stable_sort}
use smart_assistant_api.Store.Memory.Sorting.{In-stable_sort, IsOrdered, stable_sort-IsOrdered}
use smart_assistant_api.Availability.{
  TimeInterval, hour, day, in_jakarta, is_valid_slot_start, filter_slot_starts, first_start,
  recommend_slot, default_meeting_duration,
}

-- A free slot of an hour at least that starts on a working day, from nine in the morning on, early
-- enough to end by six in the evening, on the clock of Jakarta.
pub record IsBookable (slot : TimeInterval) : Type 0 where
  pub long : slot.start + hour ≤ slot.end
  pub working_day : in_jakarta slot.start / day % 7 < 5
  pub morning : 9 * hour ≤ in_jakarta slot.start % day
  pub evening : in_jakarta slot.start % day + hour ≤ 18 * hour

valid_sound :
    (slot : TimeInterval)
    → ltb (slot.end - slot.start) hour ≡ false
    → is_valid_slot_start slot.start hour ≡ true
    → IsBookable slot
unfolding is_valid_slot_start
valid_sound slot long valid = record {
  long = ground arith;
  working_day = ground arith;
  morning = ground arith;
  evening = ground arith;
}

valid_complete :
    (slot : TimeInterval)
    → IsBookable slot
    → (ltb (slot.end - slot.start) hour ≡ false) × (is_valid_slot_start slot.start hour ≡ true)
unfolding is_valid_slot_start
valid_complete slot ok = ground arith

In-filter :
    (t : ℕ) (slots : List TimeInterval)
    → In t (filter_slot_starts slots hour)
    → (slot : TimeInterval) × In slot slots × IsBookable slot × (t ≡ slot.start)
unfolding filter_slot_starts
In-filter t [] i = absurd i
In-filter t (slot ∷ slots) i = elim (Bool-cases (ltb (slot.end - slot.start) hour)) [
  | inl short ↦ let (s, j, k, e) = In-filter t slots (rw short at i) in (s, inr j, k, e)
  | inr long ↦ elim (Bool-cases (is_valid_slot_start slot.start hour)) [
    | inl valid ↦ elim (rw (long, valid) at i) [
      | inl e ↦ (slot, inl refl, valid_sound slot long valid, sym e)
      | inr j ↦ let (s, j', k, e) = In-filter t slots j in (s, inr j', k, e)
    ]
    | inr invalid ↦
        let (s, j, k, e) = In-filter t slots (rw (long, invalid) at i) in (s, inr j, k, e)
  ]
]

filter-In :
    (slots : List TimeInterval) (slot : TimeInterval)
    → In slot slots
    → IsBookable slot
    → In slot.start (filter_slot_starts slots hour)
unfolding filter_slot_starts
filter-In [] slot i b = absurd i
filter-In (s ∷ slots) slot (inl e) b =
    let (long, valid) = valid_complete s (subst IsBookable (sym e) b) in
    rw (long, valid) (inl (ap (λ x. x.start) e))
filter-In (s ∷ slots) slot (inr i) b =
    let later = filter-In slots slot i b in
    elim (Bool-cases (ltb (s.end - s.start) hour)) [
      | inl short ↦ rw short later
      | inr long ↦ elim (Bool-cases (is_valid_slot_start s.start hour)) [
        | inl valid ↦ rw (long, valid) (inr later)
        | inr invalid ↦ rw (long, invalid) later
      ]
    ]

head_least : (t : ℕ) (ts : List ℕ) (x : ℕ) → IsOrdered ltb (t ∷ ts) → In x ts → t ≤ x
head_least t [] x ordered i = absurd i
head_least t (y ∷ ts) x (h, ordered) (inl e) = ground (arith, e, h)
head_least t (y ∷ ts) x (h, ordered) (inr i) =
    let first : t ≤ y = ground (arith, h) in
    let rest = head_least y ts x ordered i in omega (arith, first, rest)

asymmetric : (a b : ℕ) → ltb a b ≡ true → ltb b a ≡ false
asymmetric a b h = ground arith

-- Either no free slot may be booked, and none is recommended; or the recommendation is the start of
-- a free slot that may be booked, and no free slot that may be booked starts earlier.
pub data Recommends (slots : List TimeInterval) (r : Option ℕ) : Type 0 where
  nothing :
      r ≡ none → ((slot : TimeInterval) → In slot slots → ¬ IsBookable slot) → Recommends slots r
  earliest :
      (slot : TimeInterval)
      → r ≡ some slot.start
      → In slot slots
      → IsBookable slot
      → ((other : TimeInterval) → In other slots → IsBookable other → slot.start ≤ other.start)
      → Recommends slots r

first-Recommends :
    (slots : List TimeInterval) (ts : List ℕ)
    → IsOrdered ltb ts
    → ((t : ℕ) → In t ts → In t (filter_slot_starts slots hour))
    → ((t : ℕ) → In t (filter_slot_starts slots hour) → In t ts)
    → Recommends slots (first_start ts)
first-Recommends slots [] ordered out back =
    nothing refl (λ slot i b. absurd (back slot.start (filter-In slots slot i b)))
first-Recommends slots (t ∷ ts) ordered out back =
    let (slot, i, b, e) = In-filter t slots (out t (inl refl)) in
    earliest slot (ap some e) i b λ other j b'.
      subst (λ x. x ≤ other.start) e
        (elim (back other.start (filter-In slots other j b')) [
          | inl same ↦ omega (arith, same)
          | inr later ↦ head_least t ts other.start ordered later
        ])

-- For all free slots, RecommendSlot gives the earliest start of a free slot of an hour at least
-- that starts on a working day between nine and seventeen o'clock in Jakarta, and no slot when
-- there is none.
pub recommend_slot-Recommends :
    (slots : List TimeInterval) → Recommends slots (recommend_slot slots)
unfolding recommend_slot
recommend_slot-Recommends slots =
    let starts = filter_slot_starts slots default_meeting_duration in
    first-Recommends slots (stable_sort ltb starts) (stable_sort-IsOrdered ltb asymmetric starts)
      (λ t i. (In-stable_sort ltb t starts).0 i) (λ t i. (In-stable_sort ltb t starts).1 i)
