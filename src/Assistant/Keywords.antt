-- ===== src/Assistant/Keywords.antt =====
-- internal/domain/assistant/builtin/location_reminder.go: the loop of NormalizePlaceKeyword ends.
use Prim.Native.Char.{Char}
use smart_assistant_api.Common.{
  ℕ, zero, suc, ◌-◌, ◌≤◌, ◌<◌, String, ◌≡◌, refl, ap, subst, Bool, true, ◌&&◌, none, some, List, [],
  ◌∷◌, In, arith, str_eq, eq_iff, Bool-cases, Option-cases, inl, inr,
}
use mathlib.Core.Option.{some-injective}
use smart_assistant_api.Common.Text.{
  trim_space, trim_left, trim_right, to_lower, has_prefix, front, skip, rune_count, is_space, join,
}
use smart_assistant_api.Common.Search.{fields}
use smart_assistant_api.Assistant.LocationArguments.{
  filler_phrases, leading_phrase, without_fillers, normalize_place_keyword,
}

module _ (drops : Char → Bool) where
  rune_count-trim_left : (s : String) → rune_count (trim_left drops s) ≤ rune_count s
  unfolding rune_count trim_left
  rune_count-trim_left String.[] = omega arith
  rune_count-trim_left (String.◌∷◌ c s) = ground (arith, rune_count-trim_left s)

  rune_count-trim_right : (s : String) → rune_count (trim_right drops s) ≤ rune_count s
  unfolding rune_count trim_right
  rune_count-trim_right String.[] = omega arith
  rune_count-trim_right (String.◌∷◌ c s) =
      let rest = rune_count-trim_right s in
      elim (Bool-cases (drops c && str_eq (trim_right drops s) "")) [
        | inl out ↦ rw out (omega arith)
        | inr stays ↦ rw stays (omega arith)
      ]

rune_count-trim_space : (s : String) → rune_count (trim_space s) ≤ rune_count s
unfolding trim_space
rune_count-trim_space s =
    let left = rune_count-trim_left is_space s in
    let right = rune_count-trim_right is_space (trim_left is_space s) in omega arith

rune_count-skip : (n : ℕ) (s : String) → rune_count (skip n s) ≡ rune_count s - n
unfolding rune_count skip
rune_count-skip zero s = omega arith
rune_count-skip (suc n) String.[] = omega arith
rune_count-skip (suc n) (String.◌∷◌ c s) = let rest = rune_count-skip n s in omega arith

rune_count-to_lower : (s : String) → rune_count (to_lower s) ≡ rune_count s
unfolding rune_count to_lower
rune_count-to_lower String.[] = refl
rune_count-to_lower (String.◌∷◌ c s) = ap suc (rune_count-to_lower s)

rune_count-front : (n : ℕ) (s : String) → rune_count (front n s) ≤ rune_count s
unfolding rune_count front
rune_count-front zero s = omega arith
rune_count-front (suc n) String.[] = omega arith
rune_count-front (suc n) (String.◌∷◌ c s) = let rest = rune_count-front n s in omega arith

-- A prefix is no longer than the text.
rune_count-has_prefix : (s t : String) → has_prefix s t ≡ true → rune_count t ≤ rune_count s
unfolding has_prefix
rune_count-has_prefix s t h =
    let same = ap rune_count ((eq_iff (front (rune_count t) s) t).0 h) in
    let short = rune_count-front (rune_count t) s in omega arith

-- A phrase that is found is one of the phrases, and a prefix.
leading_phrase-In :
    (lower : String) (phrases : List String) (phrase : String)
    → leading_phrase lower phrases ≡ some phrase
    → In phrase phrases × (has_prefix lower phrase ≡ true)
unfolding leading_phrase
leading_phrase-In lower [] phrase h = absurd (cc)
leading_phrase-In lower (p ∷ ps) phrase h = elim (Bool-cases (has_prefix lower p)) [
  | inl found ↦
      let same : p ≡ phrase = some-injective _ _ (rw found at h) in
      (inl same, subst (λ x. has_prefix lower x ≡ true) same found)
  | inr other ↦
      let (there, found) = leading_phrase-In lower ps phrase (rw other at h) in (inr there, found)
]

filler_phrases-worded : (phrase : String) → In phrase filler_phrases → 0 < rune_count phrase
unfolding rune_count
filler_phrases-worded phrase (inl e) = subst (λ x. 0 < rune_count x) e (omega arith)
filler_phrases-worded phrase (inr (inl e)) = subst (λ x. 0 < rune_count x) e (omega arith)
filler_phrases-worded phrase (inr (inr (inl e))) = subst (λ x. 0 < rune_count x) e (omega arith)
filler_phrases-worded phrase (inr (inr (inr (inl e)))) =
    subst (λ x. 0 < rune_count x) e (omega arith)
filler_phrases-worded phrase (inr (inr (inr (inr (inl e))))) =
    subst (λ x. 0 < rune_count x) e (omega arith)
filler_phrases-worded phrase (inr (inr (inr (inr (inr e))))) = absurd e

shorter :
    (s phrase : String)
    → leading_phrase (to_lower s) filler_phrases ≡ some phrase
    → rune_count (trim_space (skip (rune_count phrase) s)) < rune_count s
shorter s phrase h =
    let (there, found) = leading_phrase-In (to_lower s) filler_phrases phrase h in
    let worded = filler_phrases-worded phrase there in
    let fits = rune_count-has_prefix (to_lower s) phrase found in
    let same = rune_count-to_lower s in
    let cut = rune_count-skip (rune_count phrase) s in
    let trimmed = rune_count-trim_space (skip (rune_count phrase) s) in omega arith

without_fillers_stop :
    (fuel : ℕ) (s : String)
    → leading_phrase (to_lower s) filler_phrases ≡ none
    → without_fillers (suc fuel) s ≡ s
unfolding without_fillers
without_fillers_stop fuel s h = rw (without_fillers, h) refl

without_fillers_next :
    (fuel : ℕ) (s phrase : String)
    → leading_phrase (to_lower s) filler_phrases ≡ some phrase
    → without_fillers (suc fuel) s ≡ without_fillers fuel (trim_space (skip (rune_count phrase) s))
unfolding without_fillers
without_fillers_next fuel s phrase h = rw (without_fillers, h) refl

no_filler :
    (fuel : ℕ) (s : String)
    → rune_count s ≤ fuel
    → leading_phrase (to_lower (without_fillers fuel s)) filler_phrases ≡ none
unfolding without_fillers
no_filler zero String.[] h = refl
no_filler zero (String.◌∷◌ c s) h = absurd (omega arith)
no_filler (suc fuel) s h = elim (Option-cases (leading_phrase (to_lower s) filler_phrases)) [
  | inl free ↦ rw (without_fillers_stop fuel s free) free
  | inr (phrase, found) ↦
      let less = shorter s phrase found in
      rw (without_fillers_next fuel s phrase found)
        (no_filler fuel (trim_space (skip (rune_count phrase) s)) (omega arith))
]

-- The loop of NormalizePlaceKeyword ends within as many rounds as the query has characters:
-- whatever the query, its result starts with none of the filler phrases.
pub normalize_place_keyword-leading_phrase :
    (query : String)
    → leading_phrase (to_lower (normalize_place_keyword query)) filler_phrases ≡ none
unfolding normalize_place_keyword
normalize_place_keyword-leading_phrase query =
    let s = join " " (fields (trim_space query)) in no_filler (rune_count s) s (omega arith)
