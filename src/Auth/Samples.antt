-- ===== src/Auth/Samples.antt =====
-- A signer for the tokens of one user at one time, in place of the package, and a pair of its tokens.
use smart_assistant_api.Common.{
  ◌==◌, ◌&&◌, String, ◌≡◌, refl, Bool, true, false, none, some, ltb, arith, str_eq, eq_iff,
  if◌then◌else◌, Bool-cases, inl, inr, ap, ◌∙◌, sym,
}
use mathlib.Core.Option.{some-injective}
use smart_assistant_api.Common.Exec.{ok, err}
use smart_assistant_api.Response.{unauthorized}
use smart_assistant_api.Auth.{
  Claims, Jwt, TokenManager, TokenPair, claims_of, generate_pair, parse_refresh, authorize,
  access_token, refresh_token,
}
use smart_assistant_api.Auth.Kinds.{IsSigning, bearer_header, generate_pair-kinds}

abbrev claims_for : String → Claims
claims_for kind = record {
  user_id = "u1";
  email = "a@b.c";
  role = "user";
  kind = kind;
  issuer = "api";
  subject = "u1";
  issued_at = 0;
  expires_at = 10;
}

abbrev is_hers : Claims → Bool
is_hers c =
    str_eq c.user_id "u1"
    && str_eq c.email "a@b.c"
    && str_eq c.role "user"
    && str_eq c.issuer "api"
    && str_eq c.subject "u1"
    && c.issued_at == 0
    && c.expires_at == 10

abbrev one_user : Jwt
one_user = record {
  numeric_date = λ t. t;
  sign = λ c. if is_hers c then some c.kind else none;
  parse =
      λ accepts now token. if accepts "HS256" && ltb now 10 then some (claims_for token) else none;
}

hers : (c : Claims) → is_hers c ≡ true → claims_for c.kind ≡ c
hers c h = ground (
  arith,
  eq_iff c.user_id "u1",
  eq_iff c.email "a@b.c",
  eq_iff c.role "user",
  eq_iff c.issuer "api",
  eq_iff c.subject "u1",
)

one_user-IsSigning : IsSigning one_user
one_user-IsSigning = record {
  verified = λ accepts now c token signed hs live. elim (Bool-cases (is_hers c)) [
    | inl mine ↦
        let kind : c.kind ≡ token = some-injective _ _ (rw mine at signed) in
        let end : 10 ≡ c.expires_at = ap (λ x. x.expires_at) (hers c mine) in
        let early : ltb now 10 ≡ true = ground (arith, end, live) in
        rw (hs, early) (ap some (ap claims_for (sym kind) ∙ hers c mine))
    | inr other ↦ absurd (let h = rw other at signed in cc)
  ];
  expired = λ accepts now c token signed past. elim (Bool-cases (is_hers c)) [
    | inl mine ↦
        let end : 10 ≡ c.expires_at = ap (λ x. x.expires_at) (hers c mine) in
        let late : ltb now 10 ≡ false = ground (arith, end, past) in ground (arith, late)
    | inr other ↦ absurd (let h = rw other at signed in cc)
  ];
}

abbrev manager : TokenManager
manager = record { access_ttl = 10; refresh_ttl = 10; issuer = "api" }

abbrev pair : TokenPair
pair = record { access = "access"; refresh = "refresh"; expires_in = 0 }

pair_issued : generate_pair one_user manager 0 0 "u1" "a@b.c" "user" ≡ some pair
unfolding generate_pair
pair_issued = refl

generate_pair-kinds_example :
    (authorize one_user manager 3 (bearer_header "access")
      ≡ ok (claims_of one_user manager 0 "u1" "a@b.c" "user" access_token 10))
    × (authorize one_user manager 3 (bearer_header "refresh")
        ≡ err (unauthorized "token is not an access token"))
    × (parse_refresh one_user manager 3 "refresh"
        ≡ some (claims_of one_user manager 0 "u1" "a@b.c" "user" refresh_token 10))
    × (parse_refresh one_user manager 3 "access" ≡ none)
generate_pair-kinds_example =
    generate_pair-kinds one_user-IsSigning manager 0 0 3 "u1" "a@b.c" "user" pair pair_issued
      (omega arith) (omega arith)
