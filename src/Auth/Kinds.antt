-- ===== src/Auth/Kinds.antt =====
-- The two kinds of token that a login hands out, and how each is read back.
use Prim.Native.Char.{Char, code}
use Prim.Native.String
use Prim.Native.String.{char_at}
use text.Mathlib.TextLemmas.{nil-append, cons-append}
use mathlib.Core.Option.{some-injective}
use smart_assistant_api.Common.{
  ap, ◌∙◌, ℕ, ◌+◌, ◌<◌, ◌≤◌, ◌==◌, ◌&&◌, String, ◌≡◌, refl, Bool, true, not, none, some, Bool-cases,
  Option-cases, inl, inr,
}
use smart_assistant_api.Common.Exec.{ok, err}
use smart_assistant_api.Common.Text.{to_lower}
use smart_assistant_api.Response.{unauthorized}
use smart_assistant_api.Auth.{
  Claims, Jwt, TokenManager, TokenPair, claims_of, generate_pair, parse_refresh, cut_space,
  authorize, access_token, refresh_token, is_hmac,
}

-- What is documented of golang-jwt: a token that it signed parses to its claims until they expire,
-- for a key function that takes HS256, and is refused from then on.
pub record IsSigning (jwt : Jwt) : Type 0 where
  pub verified :
      (accepts : String → Bool) (now : ℕ) (c : Claims) (token : String)
      → jwt.sign c ≡ some token
      → accepts "HS256" ≡ true
      → now < c.expires_at
      → jwt.parse accepts now token ≡ some c
  pub expired :
      (accepts : String → Bool) (now : ℕ) (c : Claims) (token : String)
      → jwt.sign c ≡ some token
      → c.expires_at ≤ now
      → jwt.parse accepts now token ≡ none

abbrev no_space : String → Bool
no_space String.[] = true
no_space (String.◌∷◌ c s) = not (code c == 32) && no_space s

abbrev pub space : Char
space = char_at " " 0

cut_space-append :
    (s t : String)
    → no_space s ≡ true
    → cut_space (String.◌++◌ s (String.◌∷◌ space t)) ≡ some (s, t)
unfolding cut_space
cut_space-append String.[] t h = rw (nil-append (String.◌∷◌ space t)) refl
cut_space-append (String.◌∷◌ c s) t h = elim (Bool-cases (code c == 32)) [
  | inl blank ↦ absurd (let h' = rw blank at h in cc)
  | inr other ↦
      let h' : no_space s ≡ true = rw other at h in
      rw (cons-append c s (String.◌∷◌ space t), other, cut_space-append s t h') refl
]

-- The header of a request that carries a token.
abbrev pub bearer_header : String → String
bearer_header token = String.◌++◌ "Bearer" (String.◌∷◌ space token)

signed_pair :
    (jwt : Jwt) (m : TokenManager) (now now' : ℕ) (user_id email role : String) (pair : TokenPair)
    → generate_pair jwt m now now' user_id email role ≡ some pair
    → (jwt.sign (claims_of jwt m now user_id email role access_token m.access_ttl)
        ≡ some pair.access)
      × (jwt.sign (claims_of jwt m now' user_id email role refresh_token m.refresh_ttl)
          ≡ some pair.refresh)
unfolding generate_pair
signed_pair jwt m now now' user_id email role pair h =
    let access = jwt.sign (claims_of jwt m now user_id email role access_token m.access_ttl) in
    let refresh = jwt.sign (claims_of jwt m now' user_id email role refresh_token m.refresh_ttl) in
    elim (Option-cases access) [
      | inl unsigned ↦ absurd (let h' = rw unsigned at h in cc)
      | inr (a, sa) ↦ elim (Option-cases refresh) [
        | inl unsigned ↦ absurd (let h' = rw (sa, unsigned) at h in cc)
        | inr (r, sr) ↦
            let e = some-injective _ _ (rw (sa, sr) at h) in
            (sa ∙ ap (λ x. some x.access) e, sr ∙ ap (λ x. some x.refresh) e)
      ]
    ]

module _ {jwt : Jwt} (sound : IsSigning jwt) (m : TokenManager) where
  -- Until a pair expires, its access token passes Auth as a bearer token, with the claims of its
  -- user, and ParseRefresh refuses it; its refresh token is refused by Auth, and ParseRefresh gives
  -- the claims of its user.
  pub generate_pair-kinds :
      (now now' at : ℕ) (user_id email role : String) (pair : TokenPair)
      → generate_pair jwt m now now' user_id email role ≡ some pair
      → at < jwt.numeric_date (now + m.access_ttl)
      → at < jwt.numeric_date (now' + m.refresh_ttl)
      → (authorize jwt m at (bearer_header pair.access)
          ≡ ok (claims_of jwt m now user_id email role access_token m.access_ttl))
        × (authorize jwt m at (bearer_header pair.refresh)
            ≡ err (unauthorized "token is not an access token"))
        × (parse_refresh jwt m at pair.refresh
            ≡ some (claims_of jwt m now' user_id email role refresh_token m.refresh_ttl))
        × (parse_refresh jwt m at pair.access ≡ none)
  unfolding authorize parse_refresh to_lower
  generate_pair-kinds now now' at user_id email role pair h live live' =
      let (sa, sr) = signed_pair jwt m now now' user_id email role pair h in
      let pa = sound.verified is_hmac at _ pair.access sa refl live in
      let pr = sound.verified is_hmac at _ pair.refresh sr refl live' in
      let ca = cut_space-append "Bearer" pair.access refl in
      let cr = cut_space-append "Bearer" pair.refresh refl in
      (rw (ca, pa) refl, rw (cr, pr) refl, rw pr refl, rw pa refl)
