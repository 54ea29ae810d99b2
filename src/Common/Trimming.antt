-- ===== src/Common/Trimming.antt =====
-- A trimmed text has no more space to trim.
use smart_assistant_api.Common.{String, ◌≡◌, refl, Bool, ◌&&◌, str_eq, Bool-cases, inl, inr}
use Prim.Native.Char.{Char}
use smart_assistant_api.Common.Text.{trim_left, trim_right, trim_space, is_space}

module _ (drops : Char → Bool) where
  trim_right-twice : (s : String) → trim_right drops (trim_right drops s) ≡ trim_right drops s
  unfolding trim_right
  trim_right-twice String.[] = refl
  trim_right-twice (String.◌∷◌ c s) =
      elim (Bool-cases (drops c && str_eq (trim_right drops s) "")) [
        | inl out ↦ rw out refl
        | inr stays ↦ rw (stays, trim_right-twice s, stays) refl
      ]

  -- A text that keeps its first letter on the left keeps it when its right end is trimmed.
  trim_left-right :
      (s : String)
      → trim_left drops (trim_right drops (trim_left drops s))
        ≡ trim_right drops (trim_left drops s)
  unfolding trim_left trim_right
  trim_left-right String.[] = refl
  trim_left-right (String.◌∷◌ c s) = elim (Bool-cases (drops c)) [
    | inl out ↦ rw out (trim_left-right s)
    | inr stays ↦ rw (stays, stays, stays) refl
  ]

pub trim_space-twice : (s : String) → trim_space (trim_space s) ≡ trim_space s
unfolding trim_space
trim_space-twice s =
    rw (trim_left-right is_space s, trim_right-twice is_space (trim_left is_space s)) refl
