-- ===== src/Assistant/Panics.antt =====
-- internal/domain/assistant/wake_word.go: when stripWakeWord slices behind the end of the utterance.
use Prim.Native.Char.{Char}
use smart_assistant_api.Common.{
  ℕ, ◌<◌, String, ◌≡◌, ◌≢◌, ◌↔◌, refl, none, some, str_eq, eq_iff, arith, ltb, true, sym, ◌∙◌,
  false, Bool-cases, inl, inr,
}
use smart_assistant_api.Common.Text.{trim_space, to_lower, has_prefix, byte_len, skip_bytes}
use smart_assistant_api.Assistant.WakeWord.{
  is_word_boundary, behind, cut_at, source_wake_word, strip_wake_word,
}
use smart_assistant_api.Assistant.Stripping.{last_char-some, to_lower-ne-nil, or_true, not_blank}

behind-some : (b : Char) (trimmed rest : String) → behind (some b) trimmed rest ≢ none
behind-some b trimmed String.[] h = absurd (cc)
behind-some b trimmed (String.◌∷◌ c rest) h = elim (Bool-cases (is_word_boundary b c)) [
  | inl ends ↦ absurd (let d = rw ends at h in cc)
  | inr goes_on ↦ absurd (let d = rw goes_on at h in cc)
]

cut_at-none :
    (b : Char) (n : ℕ) (trimmed : String)
    → cut_at (some b) n trimmed ≡ none ↔ (byte_len trimmed < n)
unfolding cut_at
cut_at-none b n trimmed = elim (Bool-cases (ltb n (byte_len trimmed))) [
  | inl longer ↦ (
    λ h. absurd (behind-some b trimmed (skip_bytes n trimmed) (rw longer at h)),
    λ h. absurd (ground arith),
  )
  | inr whole ↦ elim (Bool-cases (ltb (byte_len trimmed) n)) [
    | inl short ↦ (λ h. ground arith, λ h. rw (whole, short) refl)
    | inr fits ↦ (λ h. absurd (let d = rw (whole, fits) at h in cc), λ h. absurd (ground arith))
  ]
]

-- With a wake word that is not blank, stripWakeWord panics exactly when the utterance, trimmed, is
-- not empty, starts with the wake word in lower case, and has fewer bytes of UTF-8 than that.
pub strip_wake_word-none :
    (utterance wake_word source : String)
    → trim_space wake_word ≢ ""
    → strip_wake_word utterance wake_word source ≡ none ↔ (
        (trim_space utterance ≢ "")
        × (has_prefix (to_lower (trim_space utterance)) (to_lower (trim_space wake_word)) ≡ true)
        × (byte_len (trim_space utterance) < byte_len (to_lower (trim_space wake_word))))
unfolding strip_wake_word
strip_wake_word-none utterance wake_word source given =
    let trimmed = trim_space utterance in
    let lower_wake = to_lower (trim_space wake_word) in
    let word : str_eq wake_word "" ≡ false = not_blank wake_word given in
    let (b, last) = last_char-some lower_wake (to_lower-ne-nil (trim_space wake_word) given) in
    let past = cut_at-none b (byte_len lower_wake) trimmed in
    elim (Bool-cases (str_eq trimmed "")) [
      | inl empty ↦ (
        λ h. absurd (let d = rw empty at h in cc),
        λ h. absurd (h.0 ((eq_iff trimmed "").0 empty)),
      )
      | inr full ↦ elim (Bool-cases (has_prefix (to_lower trimmed) lower_wake)) [
        | inl starts ↦
            let cuts : strip_wake_word utterance wake_word source
                ≡ cut_at (some b) (byte_len lower_wake) trimmed =
              rw (full, word, starts, or_true (str_eq source source_wake_word), last) refl in
            (
              λ h. (ground (arith, eq_iff trimmed ""), starts, past.0 (sym cuts ∙ h)),
              λ h. cuts ∙ past.1 h.2,
            )
        | inr elsewhere ↦
            let stays : strip_wake_word utterance wake_word source ≡ some trimmed =
              elim (Bool-cases (str_eq source source_wake_word)) [
                | inl woken ↦ rw (full, word, elsewhere, woken) refl
                | inr button ↦ rw (full, word, elsewhere, button) refl
              ] in
            (λ h. absurd (cc), λ h. absurd (let d = h.1 in cc))
      ]
    ]
