-- ===== src/Auth.antt =====
-- pkg/auth/jwt.go, and who may pass: internal/middleware/middleware.go (Auth) and rbac.go. Instants
-- and durations are nanoseconds, as in the rest of the program.
pub mod Kinds
mod Samples
use Prim.Native.Char.{code}
use Prim.Native.String
use smart_assistant_api.Common.{
  ◌||◌, ℕ, ◌+◌, ◌*◌, ◌/◌, ◌==◌, String, Bool, true, false, not, Option, none, some, List, [], ◌∷◌,
  any, ltb, leb, str_eq, if◌then◌else◌,
}
use smart_assistant_api.Common.Exec.{Result, ok, err}
use smart_assistant_api.Common.Text.{to_lower, has_prefix}
use smart_assistant_api.Response.{AppError, unauthorized, forbidden}

infixl 5 ◌>>=◌
abbrev ◌>>=◌ : {A B : Type 0} → Option A → (A → Option B) → Option B
none >>= f = none
some a >>= f = f a

abbrev pub role_user : String
role_user = "user"

abbrev pub role_admin : String
role_admin = "admin"

abbrev pub access_token : String
access_token = "access"

abbrev pub refresh_token : String
refresh_token = "refresh"

-- Claims, with the registered claims that the program sets
pub record Claims : Type 0 where
  pub user_id : String
  pub email : String
  pub role : String
  pub kind : String
  pub issuer : String
  pub subject : String
  pub issued_at : ℕ
  pub expires_at : ℕ

-- IsAdmin
abbrev pub is_admin : Claims → Bool
is_admin c = str_eq c.role role_admin

pub record TokenPair : Type 0 where
  pub access : String
  pub refresh : String
  pub expires_in : ℕ

-- The package golang-jwt, with the secret of the manager. `sign` is SignedString with HS256, `parse`
-- is ParseWithClaims at a time: it takes the key function, as a test of the signing method's name.
pub record Jwt : Type 0 where
  pub numeric_date : ℕ → ℕ
  pub sign : Claims → Option String
  pub parse : (String → Bool) → ℕ → String → Option Claims

pub record TokenManager : Type 0 where
  pub access_ttl : ℕ
  pub refresh_ttl : ℕ
  pub issuer : String

-- NewTokenManager; a ttl below one acts as zero does
abbrev pub new_token_manager : ℕ → ℕ → String → TokenManager
new_token_manager access_ttl refresh_ttl issuer = record {
  access_ttl = access_ttl;
  refresh_ttl = if leb refresh_ttl 0 then access_ttl * 7 else refresh_ttl;
  issuer = issuer;
}

-- the names of the methods of type *jwt.SigningMethodHMAC
abbrev pub is_hmac : String → Bool
is_hmac alg = str_eq alg "HS256" || str_eq alg "HS384" || str_eq alg "HS512"

-- strings.SplitN(header, " ", 2), when it gives two parts
unfoldable pub cut_space : String → Option (String × String)
cut_space String.[] = none
cut_space (String.◌∷◌ c s) =
    let rest = cut_space s in
    if code c == 32
    then some ("", s)
    else (elim rest [ none ↦ none | some (before, after) ↦ some (String.◌∷◌ c before, after) ])

module _ (jwt : Jwt) (m : TokenManager) where
  abbrev pub claims_of : ℕ → String → String → String → String → ℕ → Claims
  claims_of now user_id email role kind ttl = record {
    user_id = user_id;
    email = email;
    role = role;
    kind = kind;
    issuer = m.issuer;
    subject = user_id;
    issued_at = jwt.numeric_date now;
    expires_at = jwt.numeric_date (now + ttl);
  }

  -- sign
  abbrev pub sign : ℕ → String → String → String → String → ℕ → Option String
  sign now user_id email role kind ttl = jwt.sign (claims_of now user_id email role kind ttl)

  -- GeneratePair: `now` and `now'` are the clock of its two calls of sign
  unfoldable pub generate_pair : ℕ → ℕ → String → String → String → Option TokenPair
  generate_pair now now' user_id email role = do
    access ← sign now user_id email role access_token m.access_ttl
    refresh ← sign now' user_id email role refresh_token m.refresh_ttl
    some (record { access = access; refresh = refresh; expires_in = m.access_ttl / 1000000000 })

  -- Parse
  abbrev pub parse : ℕ → String → Option Claims
  parse now token = jwt.parse is_hmac now token

  -- ParseRefresh
  unfoldable pub parse_refresh : ℕ → String → Option Claims
  parse_refresh now token = do
    claims ← parse now token
    if not (str_eq claims.kind refresh_token) then none else some claims

  abbrev bearer : ℕ → Option (String × String) → Result AppError Claims
  bearer now none = err (unauthorized "missing bearer token")
  bearer now (some (scheme, token)) =
      if not (str_eq (to_lower scheme) "bearer")
      then err (unauthorized "missing bearer token")
      else (elim (parse now token) [
        | none ↦ err (unauthorized "invalid or expired token")
        | some claims ↦
            if not (str_eq claims.kind access_token)
            then err (unauthorized "token is not an access token")
            else ok claims
      ])

  -- Auth: the claims that the handler finds in the context, or the error that is written
  unfoldable pub authorize : ℕ → String → Result AppError Claims
  unfolding cut_space to_lower
  authorize now header = bearer now (cut_space header)

-- RequireRole, with the claims that Auth left, if it ran
unfoldable pub require_role : List String → Option Claims → Result AppError Claims
require_role roles none = err (unauthorized "authentication required")
require_role roles (some c) =
    if not (any (λ r. str_eq r c.role) roles)
    then err (forbidden "insufficient privileges")
    else ok c
