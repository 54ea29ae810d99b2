-- ===== src/Availability/Samples.antt =====
-- Free slots around Monday, 2026-01-05, in Jakarta.
use smart_assistant_api.Common.{ℕ, ◌+◌, ◌*◌, String, ◌≡◌, ◌≢◌, refl, some, List, [], ◌∷◌, In}
use smart_assistant_api.Common.Text.{trim_space, to_lower}
use smart_assistant_api.Store.Memory.{stable_sort}
use smart_assistant_api.Availability.{TimeInterval, hour, day, recommend_slot, calendar_items}
use smart_assistant_api.Availability.Earliest.{Recommends, recommend_slot-Recommends}
use smart_assistant_api.Availability.Invitees.{AllApart, calendar_items-AllApart}

-- The Monday at midnight UTC, which is seven in the morning in Jakarta.
abbrev monday : ℕ
monday = 739620 * day

abbrev slots : List TimeInterval
slots =
    record { start = monday + 5 * hour; end = monday + 8 * hour }
    ∷ record { start = monday + 3 * hour; end = monday + 4 * hour }
    ∷ record { start = monday; end = monday + 9 * hour }
    ∷ []

-- At ten in the morning. The slot from seven on is free at nine too, but is not offered.
at_ten : recommend_slot slots ≡ some (monday + 3 * hour)
unfolding recommend_slot stable_sort
at_ten = refl

recommend_slot-Recommends_example : Recommends slots (recommend_slot slots)
recommend_slot-Recommends_example = recommend_slot-Recommends slots

abbrev invitees : List String
invitees = " Ann@x.org" ∷ "bob@x.org" ∷ "" ∷ "ann@X.org" ∷ []

three : calendar_items invitees ≡ "primary" ∷ "Ann@x.org" ∷ "bob@x.org" ∷ []
unfolding calendar_items
three = refl

calendar_items-AllApart_example :
    AllApart (calendar_items invitees)
    × ((raw : String)
        → In raw invitees
        → trim_space raw ≢ ""
        → (s : String) × In s (calendar_items invitees) × (to_lower s ≡ to_lower (trim_space raw)))
calendar_items-AllApart_example = calendar_items-AllApart invitees
