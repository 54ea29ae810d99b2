-- ===== src/Assistant/Stripping.antt =====
-- What is left of an utterance that starts with the wake word.
use Prim.Native.Char.{Char, len_utf8}
use Prim.Native.String
use text.Mathlib.TextPositions.{len_utf8-pos}
use text.Mathlib.TextLemmas.{nil-append, cons-append, cons-ne-nil}
use smart_assistant_api.Common.{
  ℕ, zero, suc, String, ◌≡◌, ◌≢◌, refl, sym, ap, ◌∙◌, Bool, true, false, ◌||◌, ◌&&◌, ◌==◌, ◌+◌, ◌-◌,
  arith, ltb, leb, Option, some, str_eq, eq_iff, Bool-cases, Option-cases, inl, inr, ◌⊎◌,
}
use smart_assistant_api.Common.Text.{
  trim_space, to_lower, lower_char, has_prefix, front, skip, rune_count, byte_len, skip_bytes,
}
use smart_assistant_api.Assistant.WakeWord.{
  is_word_boundary, last_char, behind, cut_at, source_wake_word, strip_wake_word,
}

front-skip : (n : ℕ) (s : String) → String.◌++◌ (front n s) (skip n s) ≡ s
unfolding front skip
front-skip zero s = nil-append s
front-skip (suc n) String.[] = nil-append ""
front-skip (suc n) (String.◌∷◌ c s) =
    cons-append c (front n s) (skip n s) ∙ ap (λ x. String.◌∷◌ c x) (front-skip n s)

front-to_lower : (n : ℕ) (s : String) → front n (to_lower s) ≡ to_lower (front n s)
unfolding front to_lower
front-to_lower zero s = refl
front-to_lower (suc n) String.[] = refl
front-to_lower (suc n) (String.◌∷◌ c s) = rw (front-to_lower n s) refl

has_prefix-front :
    (s t : String) → has_prefix (to_lower s) t ≡ true → to_lower (front (rune_count t) s) ≡ t
unfolding has_prefix
has_prefix-front s t h = sym (front-to_lower (rune_count t) s) ∙ (eq_iff _ t).0 h

-- The word goes on behind the wake word, or a boundary stands there.
abbrev pub EndsAt : Bool → String → String → Type 0
EndsAt b lower_wake rest =
    (before after : Char) × (tail : String) × (last_char lower_wake ≡ some before)
    × (rest ≡ String.◌∷◌ after tail)
    × (is_word_boundary before after ≡ b)

-- The text as it is, if the wake word does not start it or only starts its first word; otherwise
-- what stands behind the wake word, without the space around it.
pub data Stripped (trimmed lower_wake : String) (r : Option String) : Type 0 where
  kept :
      r ≡ some trimmed
      → (trimmed ≡ "")
        ⊎ (has_prefix (to_lower trimmed) lower_wake ≡ false)
        ⊎ ((start rest : String) × (String.◌++◌ start rest ≡ trimmed)
            × (to_lower start ≡ lower_wake)
            × EndsAt false lower_wake rest)
      → Stripped trimmed lower_wake r
  cut :
      (start rest : String)
      → String.◌++◌ start rest ≡ trimmed
      → to_lower start ≡ lower_wake
      → (rest ≡ "") ⊎ EndsAt true lower_wake rest
      → r ≡ some (trim_space rest)
      → Stripped trimmed lower_wake r

pub last_char-some : (s : String) → s ≢ "" → (c : Char) × (last_char s ≡ some c)
unfolding last_char
last_char-some String.[] h = absurd (h refl)
last_char-some (String.◌∷◌ c s) h = elim (Option-cases (last_char s)) [
  | inl none_left ↦ (c, rw none_left refl)
  | inr (d, later) ↦ (d, rw later refl)
]

pub to_lower-ne-nil : (s : String) → s ≢ "" → to_lower s ≢ ""
unfolding to_lower
to_lower-ne-nil String.[] h = absurd (h refl)
to_lower-ne-nil (String.◌∷◌ c s) h = cons-ne-nil _ _

behind-Stripped :
    (b : Char) (lower_wake trimmed start rest : String)
    → last_char lower_wake ≡ some b
    → String.◌++◌ start rest ≡ trimmed
    → to_lower start ≡ lower_wake
    → Stripped trimmed lower_wake (behind (some b) trimmed rest)
behind-Stripped b lower_wake trimmed start String.[] last whole low =
    cut start "" whole low (inl refl) refl
behind-Stripped b lower_wake trimmed start (String.◌∷◌ c rest) last whole low =
    elim (Bool-cases (is_word_boundary b c)) [
      | inl ends ↦
          cut start (String.◌∷◌ c rest) whole low (inr (b, c, rest, last, refl, ends))
            (rw ends refl)
      | inr goes_on ↦
          kept (rw goes_on refl)
            (inr (inr (start, String.◌∷◌ c rest, whole, low, (b, c, rest, last, refl, goes_on))))
    ]

-- Every character takes as many bytes as its lower case.
unfoldable pub keeps_size : String → Bool
unfolding lower_char
keeps_size String.[] = true
keeps_size (String.◌∷◌ c s) = len_utf8 (lower_char c) == len_utf8 c && keeps_size s

both : (a b : Bool) → a && b ≡ true → (a ≡ true) × (b ≡ true)
both true b h = (refl, h)
both false b h = absurd (cc)

equal : (m n : ℕ) → m == n ≡ true → m ≡ n
equal m n h = ground arith

keeps_size-byte_len : (s : String) → keeps_size s ≡ true → byte_len (to_lower s) ≡ byte_len s
unfolding keeps_size to_lower byte_len
keeps_size-byte_len String.[] h = refl
keeps_size-byte_len (String.◌∷◌ c s) h =
    let (first, later) = both (len_utf8 (lower_char c) == len_utf8 c) (keeps_size s) h in
    rw (equal (len_utf8 (lower_char c)) (len_utf8 c) first, keeps_size-byte_len s later) refl

keeps_size-front : (n : ℕ) (s : String) → keeps_size s ≡ true → keeps_size (front n s) ≡ true
unfolding keeps_size front
keeps_size-front zero s h = refl
keeps_size-front (suc n) String.[] h = refl
keeps_size-front (suc n) (String.◌∷◌ c s) h =
    let (first, later) = both (len_utf8 (lower_char c) == len_utf8 c) (keeps_size s) h in
    rw (first, keeps_size-front n s later) refl

skip_bytes-over :
    (c : Char) (s : String) (n : ℕ) → skip_bytes (len_utf8 c + n) (String.◌∷◌ c s) ≡ skip_bytes n s
unfolding skip_bytes
skip_bytes-over c s n =
    let (k, wide) = len_utf8-pos c in
    let more : (len_utf8 c + n) == 0 ≡ false = ground arith in
    let fits : leb (len_utf8 c) (len_utf8 c + n) ≡ true = ground arith in
    let left : (len_utf8 c + n) - len_utf8 c ≡ n = omega arith in rw (more, fits, left) refl

-- The bytes of the first characters are theirs.
skip_bytes-front : (n : ℕ) (s : String) → skip_bytes (byte_len (front n s)) s ≡ skip n s
unfolding byte_len front skip skip_bytes
skip_bytes-front zero String.[] = refl
skip_bytes-front zero (String.◌∷◌ c s) = refl
skip_bytes-front (suc n) String.[] = refl
skip_bytes-front (suc n) (String.◌∷◌ c s) =
    skip_bytes-over c s (byte_len (front n s)) ∙ skip_bytes-front n s

byte_len-front-skip : (n : ℕ) (s : String) → byte_len (front n s) + byte_len (skip n s) ≡ byte_len s
unfolding byte_len front skip
byte_len-front-skip zero s = omega arith
byte_len-front-skip (suc n) String.[] = omega arith
byte_len-front-skip (suc n) (String.◌∷◌ c s) = let e = byte_len-front-skip n s in omega arith

pub or_true : (b : Bool) → b || true ≡ true
or_true true = refl
or_true false = refl

pub not_blank : (wake_word : String) → trim_space wake_word ≢ "" → str_eq wake_word "" ≡ false
unfolding trim_space
not_blank wake_word given = elim (Bool-cases (str_eq wake_word "")) [
  | inl empty ↦ absurd (given (ap trim_space ((eq_iff wake_word "").0 empty)))
  | inr full ↦ full
]

byte_len-empty : (s : String) → byte_len s ≡ 0 → s ≡ ""
unfolding byte_len
byte_len-empty String.[] h = refl
byte_len-empty (String.◌∷◌ c s) h = let (k, wide) = len_utf8-pos c in absurd (omega arith)

-- The slice at the length of the lower case is the slice behind the wake word.
cut_at-Stripped :
    (b : Char) (lower_wake trimmed : String)
    → last_char lower_wake ≡ some b
    → keeps_size trimmed ≡ true
    → has_prefix (to_lower trimmed) lower_wake ≡ true
    → Stripped trimmed lower_wake (cut_at (some b) (byte_len lower_wake) trimmed)
unfolding cut_at
cut_at-Stripped b lower_wake trimmed last same starts =
    let n = rune_count lower_wake in
    let start = front n trimmed in
    let rest = skip n trimmed in
    let low : to_lower start ≡ lower_wake = has_prefix-front trimmed lower_wake starts in
    let size : byte_len lower_wake ≡ byte_len start =
      ap byte_len (sym low) ∙ keeps_size-byte_len start (keeps_size-front n trimmed same) in
    let total = byte_len-front-skip n trimmed in
    let behind_it : skip_bytes (byte_len lower_wake) trimmed ≡ rest =
      ap (λ k. skip_bytes k trimmed) size ∙ skip_bytes-front n trimmed in
    let short : ltb (byte_len trimmed) (byte_len lower_wake) ≡ false = ground arith in
    elim (Bool-cases (ltb (byte_len lower_wake) (byte_len trimmed))) [
      | inl longer ↦
          rw (longer, behind_it)
            (behind-Stripped b lower_wake trimmed start rest last (front-skip n trimmed) low)
      | inr whole ↦
          let empty : rest ≡ "" = byte_len-empty rest (ground arith) in
          rw (whole, short)
            (cut start rest (front-skip n trimmed) low (inl empty)
              (ap (λ r. some (trim_space r)) (sym empty)))
    ]

-- With a wake word that is not blank, whatever the source, and an utterance whose characters take
-- as many bytes of UTF-8 as their lower case, stripWakeWord does not panic, and removes the wake
-- word exactly where it starts the utterance, up to case, and ends at the end of the utterance or
-- at a word boundary.
pub strip_wake_word-Stripped :
    (utterance wake_word source : String)
    → trim_space wake_word ≢ ""
    → keeps_size (trim_space utterance) ≡ true
    → Stripped
        (trim_space utterance)
        (to_lower (trim_space wake_word))
        (strip_wake_word utterance wake_word source)
unfolding strip_wake_word
strip_wake_word-Stripped utterance wake_word source given same =
    let trimmed = trim_space utterance in
    let lower_wake = to_lower (trim_space wake_word) in
    let word : str_eq wake_word "" ≡ false = not_blank wake_word given in
    elim (Bool-cases (str_eq trimmed "")) [
      | inl empty ↦ rw empty (kept refl (inl ((eq_iff trimmed "").0 empty)))
      | inr full ↦ elim (Bool-cases (has_prefix (to_lower trimmed) lower_wake)) [
        | inl starts ↦
            let (b, last) =
              last_char-some lower_wake (to_lower-ne-nil (trim_space wake_word) given) in
            rw (full, word, starts, or_true (str_eq source source_wake_word), last)
              (cut_at-Stripped b lower_wake trimmed last same starts)
        | inr elsewhere ↦ elim (Bool-cases (str_eq source source_wake_word)) [
          | inl woken ↦ rw (full, word, elsewhere, woken) (kept refl (inr (inl elsewhere)))
          | inr button ↦ rw (full, word, elsewhere, button) (kept refl (inr (inl elsewhere)))
        ]
      ]
    ]
