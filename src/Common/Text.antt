-- ===== src/Common/Text.antt =====
-- What the program uses of Go's `strings` package. A text is its sequence of code points;
-- white space is that of `unicode.IsSpace`, and lower case that of `unicode.ToLower`.
use Prim.Native.Nat.{ℕ, suc, ◌+◌, ◌-◌, ◌/◌, ◌%◌}
use Prim.Native.Char.{Char, code, len_utf8}
use Prim.Native.String.{String, [], ◌∷◌, ◌++◌, char_at}
use mathlib.Core.Bool.{Bool, true, false, ◌&&◌, ◌||◌}
use mathlib.Core.List.{List}
use mathlib.Core.Path.{◌≡◌, refl}
use text.Mathlib.Text.{◌==◌ as str_eq}
use smart_assistant_api.Common.Lowering.{lower_beyond}
use smart_assistant_api.Common.Tests.{ltb, leb, ◌==◌, if◌then◌else◌}

-- unicode.IsSpace
abbrev pub is_space : Char → Bool
is_space ch =
    let c = code ch in
    (leb 9 c && leb c 13)
    || c == 32
    || c == 0x85
    || c == 0xA0
    || c == 0x1680
    || (leb 0x2000 c && leb c 0x200A)
    || c == 0x2028
    || c == 0x2029
    || c == 0x202F
    || c == 0x205F
    || c == 0x3000

unfoldable pub trim_left : (Char → Bool) → String → String
trim_left drops [] = []
trim_left drops (c ∷ s) = if drops c then trim_left drops s else c ∷ s

unfoldable pub trim_right : (Char → Bool) → String → String
trim_right drops [] = []
trim_right drops (c ∷ s) =
    let rest = trim_right drops s in if drops c && str_eq rest "" then [] else c ∷ rest

-- strings.TrimSpace
unfoldable pub trim_space : String → String
unfolding trim_left trim_right
trim_space s = trim_right is_space (trim_left is_space s)

-- strings.Trim(s, "%")
unfoldable pub trim_percent : String → String
unfolding trim_left trim_right
trim_percent s = trim_right (λ c. code c == b'%') (trim_left (λ c. code c == b'%') s)

abbrev pub lower_letters : String
lower_letters = "abcdefghijklmnopqrstuvwxyz"

abbrev pub lower_ascii : Char → Char
lower_ascii c =
    if leb b'A' (code c) && leb (code c) b'Z' then char_at lower_letters (code c - b'A') else c

-- unicode.ToLower
unfoldable pub lower_char : Char → Char
unfolding lower_beyond
lower_char c = if ltb (code c) 128 then lower_ascii c else lower_beyond c

-- strings.ToLower
unfoldable pub to_lower : String → String
unfolding lower_char
to_lower [] = []
to_lower (c ∷ s) = lower_char c ∷ to_lower s

-- len(s), in bytes of UTF-8
unfoldable pub byte_len : String → ℕ
byte_len [] = 0
byte_len (c ∷ s) = len_utf8 c + byte_len s

-- a byte that starts no character is read as U+FFFD
unfoldable pub stray : ℕ → String → String
stray Prim.Native.Nat.zero s = s
stray (suc n) s = char_at "�" 0 ∷ stray n s

-- s[n:], of an `n` that is at most the length
unfoldable pub skip_bytes : ℕ → String → String
unfolding stray
skip_bytes n [] = []
skip_bytes n (c ∷ s) =
    let rest = skip_bytes (n - len_utf8 c) s in
    if n == 0 then c ∷ s else if leb (len_utf8 c) n then rest else stray (len_utf8 c - n) s

-- The number of code points.
unfoldable pub rune_count : String → ℕ
rune_count [] = 0
rune_count (c ∷ s) = suc (rune_count s)

-- s[:n] and s[n:], in code points
unfoldable pub front : ℕ → String → String
front Prim.Native.Nat.zero s = []
front (suc n) [] = []
front (suc n) (c ∷ s) = c ∷ front n s

unfoldable pub skip : ℕ → String → String
skip Prim.Native.Nat.zero s = s
skip (suc n) [] = []
skip (suc n) (c ∷ s) = skip n s

-- strings.HasPrefix
unfoldable pub has_prefix : String → String → Bool
unfolding front rune_count
has_prefix s t = str_eq (front (rune_count t) s) t

-- strings.Contains
unfoldable pub contains : String → String → Bool
unfolding has_prefix
contains [] t = has_prefix [] t
contains (c ∷ s) t = has_prefix (c ∷ s) t || contains s t

-- strings.HasSuffix
unfoldable pub has_suffix : String → String → Bool
has_suffix [] t = str_eq [] t
has_suffix (c ∷ s) t = str_eq (c ∷ s) t || has_suffix s t

-- strings.Join
unfoldable pub join : String → List String → String
join sep List.[] = []
join sep (List.◌∷◌ s List.[]) = s
join sep (List.◌∷◌ s (List.◌∷◌ t rest)) = s ++ sep ++ join sep (List.◌∷◌ t rest)

abbrev digit_letters : String
digit_letters = "0123456789abcdef"

-- The digits of a number in a base, in front of `rest`; the fuel is above the number.
unfoldable pub digits_from : ℕ → ℕ → ℕ → String → String
digits_from Prim.Native.Nat.zero base n rest = rest
digits_from (suc f) base n rest = elim (ltb n base) [
  | true ↦ char_at digit_letters n ∷ rest
  | false ↦ digits_from f base (n / base) (char_at digit_letters (n % base) ∷ rest)
]

unfoldable pub decimal : ℕ → String
unfolding digits_from
decimal n = digits_from (n + 1) 10 n ""

unfoldable pub hexadecimal : ℕ → String
unfolding digits_from
hexadecimal n = digits_from (n + 1) 16 n ""

tests :
    (trim_space "  ab c \n" ≡ "ab c")
    × (to_lower "AbZ9" ≡ "abz9")
    × (contains "xabc" "bc" ≡ true)
    × (has_suffix "set it at noon" " noon" ≡ true)
    × (contains "abc" "ca" ≡ false)
    × (join "; " (List.◌∷◌ "a" (List.◌∷◌ "b" List.[])) ≡ "a; b")
    × (decimal 5000 ≡ "5000")
    × (hexadecimal 824634 ≡ "c953a")
unfolding decimal hexadecimal trim_space to_lower contains has_suffix join
tests = (refl, refl, refl, refl, refl, refl, refl, refl)

-- s[:n], of such an `n`
unfoldable pub front_bytes : ℕ → String → String
unfolding stray
front_bytes n [] = []
front_bytes n (c ∷ s) =
    let rest = front_bytes (n - len_utf8 c) s in
    if n == 0 then [] else if leb (len_utf8 c) n then c ∷ rest else stray n []

lowered : to_lower "ÀÉ ǅ Ⱥİ Ω Жж ẞ 𐐀 K" ≡ "àé ǆ ⱥi ω жж ß 𐐨 k"
unfolding to_lower
lowered = refl

byte_tests :
    (byte_len "aé€𐐨" ≡ 10)
    × (skip_bytes 3 "aé€" ≡ "€")
    × (front_bytes 3 "aé€" ≡ "aé")
    × (front_bytes 2 "aé€" ≡ "a�")
    × (skip_bytes 1 "K stop" ≡ "�� stop")
unfolding byte_len skip_bytes front_bytes
byte_tests = (refl, refl, refl, refl, refl)
