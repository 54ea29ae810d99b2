-- ===== src/Availability/Invitees.antt =====
-- Whose calendars are asked.
use smart_assistant_api.Common.{
  String, ◌≡◌, ◌≢◌, refl, sym, subst, Bool, true, false, ◌||◌, List, [], ◌∷◌, In, inl, inr, ◌⊎◌,
  arith, str_eq, eq_iff, Bool-cases,
}
use smart_assistant_api.Common.Text.{trim_space, to_lower}
use smart_assistant_api.Availability.{seen_before, more_items, calendar_items}

-- No two items agree up to case.
abbrev pub AllApart : List String → Type 0
AllApart [] = Unit
AllApart (s ∷ ss) = ((t : String) → In t ss → to_lower t ≢ to_lower s) × AllApart ss

or_false : (a b : Bool) → a || b ≡ false → (a ≡ false) × (b ≡ false)
or_false true b h = absurd (cc)
or_false false b h = (refl, h)

-- An item is not among those seen.
fresh_items :
    (seen raws : List String) (s : String)
    → In s (more_items seen raws)
    → seen_before (to_lower s) seen ≡ false
unfolding more_items
fresh_items seen [] s i = absurd i
fresh_items seen (raw ∷ raws) s i =
    let email = trim_space raw in
    elim (Bool-cases (str_eq email "" || seen_before (to_lower email) seen)) [
      | inl skip ↦ fresh_items seen raws s (rw (skip, more_items) at i)
      | inr take ↦ elim (rw (take, more_items) at i) [
        | inl e ↦ subst (λ x. seen_before (to_lower x) seen ≡ false) e (or_false _ _ take).1
        | inr j ↦ (or_false _ _ (fresh_items (to_lower email ∷ seen) raws s j)).1
      ]
    ]

items_apart : (seen raws : List String) → AllApart (more_items seen raws)
unfolding more_items
items_apart seen [] = tt
items_apart seen (raw ∷ raws) =
    let email = trim_space raw in
    elim (Bool-cases (str_eq email "" || seen_before (to_lower email) seen)) [
      | inl skip ↦ rw (skip, more_items) (items_apart seen raws)
      | inr take ↦
          rw (take, more_items)
            (
              λ t i e.
                  let other : str_eq (to_lower email) (to_lower t) ≡ false =
                    (or_false _ _ (fresh_items (to_lower email ∷ seen) raws t i)).0 in
                  let same = (eq_iff (to_lower email) (to_lower t)).1 (sym e) in absurd (cc),
              items_apart (to_lower email ∷ seen) raws,
            )
    ]

-- One of those seen, or an item, is the address up to case.
Covered : List String → List String → String → Type 0
Covered seen items address =
    (seen_before (to_lower address) seen ≡ true)
    ⊎ ((s : String) × In s items × (to_lower s ≡ to_lower address))

or_true : (a b : Bool) → a || b ≡ true → (a ≡ true) ⊎ (b ≡ true)
or_true true b h = inl refl
or_true false b h = inr h

only_seen : (a b : String) → str_eq a b || false ≡ true → str_eq a b ≡ true
only_seen a b h = ground arith

first-Covered :
    (seen raws : List String) (raw : String)
    → trim_space raw ≢ ""
    → Covered seen (more_items seen (raw ∷ raws)) (trim_space raw)
unfolding more_items Covered
first-Covered seen raws raw given =
    let email = trim_space raw in
    elim (Bool-cases (str_eq email "" || seen_before (to_lower email) seen)) [
      | inl skip ↦ elim (or_true _ _ skip) [
        | inl blank ↦ absurd (given ((eq_iff email "").0 blank))
        | inr known ↦ inl known
      ]
      | inr take ↦ rw (take, more_items) (inr (email, inl refl, refl))
    ]

later-Covered :
    (seen raws : List String) (x address : String)
    → ((seen' : List String) → Covered seen' (more_items seen' raws) address)
    → Covered seen (more_items seen (x ∷ raws)) address
unfolding more_items Covered
later-Covered seen raws x address rest =
    let email = trim_space x in
    elim (Bool-cases (str_eq email "" || seen_before (to_lower email) seen)) [
      | inl skip ↦ rw (skip, more_items) (rest seen)
      | inr take ↦
          rw (take, more_items)
            (elim (rest (to_lower email ∷ seen)) [
              | inl known ↦ elim (or_true _ _ known) [
                | inl same ↦ inr (email, inl refl, (eq_iff _ _).0 same)
                | inr before ↦ inl before
              ]
              | inr (s, i, e) ↦ inr (s, inr i, e)
            ])
    ]

items_cover :
    (raws : List String) (raw : String)
    → In raw raws
    → trim_space raw ≢ ""
    → (seen : List String) → Covered seen (more_items seen raws) (trim_space raw)
items_cover [] raw i given seen = absurd i
items_cover (x ∷ raws) raw (inl e) given seen =
    subst (λ r. Covered seen (more_items seen (x ∷ raws)) (trim_space r)) e
      (first-Covered seen raws x (subst (λ r. trim_space r ≢ "") (sym e) given))
items_cover (x ∷ raws) raw (inr i) given seen =
    later-Covered seen raws x (trim_space raw) (items_cover raws raw i given)

-- The calendars that RecommendSlot asks for have no address twice up to case, and hold each
-- invitee's address that is not blank, up to case and the space around it.
pub calendar_items-AllApart :
    (raws : List String)
    → AllApart (calendar_items raws)
      × ((raw : String)
          → In raw raws
          → trim_space raw ≢ ""
          → (s : String) × In s (calendar_items raws) × (to_lower s ≡ to_lower (trim_space raw)))
unfolding calendar_items Covered to_lower
calendar_items-AllApart raws =
    let seen : List String = "primary" ∷ [] in
    (
      (
        λ t i e.
            let other : str_eq "primary" (to_lower t) ≡ false =
              (or_false _ _ (fresh_items seen raws t i)).0 in
            let same : str_eq "primary" (to_lower t) ≡ true =
              (eq_iff "primary" (to_lower t)).1 (sym e) in
            absurd (cc),
        items_apart seen raws,
      ),
      λ raw i given. elim (items_cover raws raw i given seen) [
        | inl known ↦
            let same : str_eq "primary" (to_lower (trim_space raw)) ≡ true =
              only_seen "primary" (to_lower (trim_space raw)) known in
            ("primary", inl refl, (eq_iff "primary" _).0 same)
        | inr (s, j, e) ↦ (s, inr j, e)
      ],
    )
