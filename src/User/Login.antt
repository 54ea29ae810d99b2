-- ===== src/User/Login.antt =====
-- Logging in after a registration.
use smart_assistant_api.Common.{
  ℕ, String, ◌≡◌, refl, sym, ◌∙◌, ap, subst, true, false, some, all, arith, str_eq, eq_refl,
  Bool-cases, Option-cases, inl, inr,
}
use mathlib.Core.Option.{some-injective}
use smart_assistant_api.Common.Exec.{ok, err}
use smart_assistant_api.Common.Text.{trim_space, to_lower}
use smart_assistant_api.Response.{unauthorized}
use smart_assistant_api.Store.Contract.{Contract, Rows, Put, hit, no_hit, missing}
use smart_assistant_api.Store.Contract.Effects.{IsReliable, find_one-hit, create-some}
use smart_assistant_api.Auth.{generate_pair, TokenPair}
use smart_assistant_api.User.{User, key, holds, email_query}
use smart_assistant_api.User.Service.{
  Backend, World, CreateUserInput, new_user, create, authenticate,
}

-- What is documented of bcrypt, and of the transactions of a database that answers: a hash is
-- matched by its password, and a body that succeeds is committed.
pub record IsSetUp (b : Backend) : Type 0 where
  pub matches :
      (salt : ℕ) (password hashed : String)
      → b.hash salt password ≡ some hashed
      → b.compare hashed password ≡ true
  pub commits :
      (u : User) (s : b.users.State)
      → (b.users.create u s).0 ≡ ok tt
      → b.tx (b.users.create u) s ≡ b.users.create u s

only_email :
    (u x : User) (j : String) (before after : Rows User)
    → Put u.id u before after
    → ((k : String) (y : User)
        → before k ≡ some y
        → all (holds y) (email_query u.email).conditions ≡ false)
    → after j ≡ some x
    → all (holds x) (email_query u.email).conditions ≡ true
    → x ≡ u
only_email u x j before after put alone there fits = elim (Bool-cases (str_eq u.id j)) [
  | inl same ↦ some-injective _ _ (sym there ∙ (rw same at (put j)))
  | inr other ↦
      let old : before j ≡ some x = sym (rw other at (put j)) ∙ there in
      let misfit = alone j x old in absurd (cc)
]

email_fits : (u : User) → all (holds u) (email_query u.email).conditions ≡ true
email_fits u = ground (arith, eq_refl u.email)

-- The user is the one whom a login with the address finds, and the password is theirs.
record IsRegistered (b : Backend) (inp : CreateUserInput) (u : User) (w : World b) : Type 0 where
  pub found : b.users.find_one (email_query inp.email) w.users ≡ ok u
  pub theirs : b.compare u.password inp.password ≡ true

module _ {b : Backend} (c : Contract key holds b.users) (up : IsReliable b.users) (set : IsSetUp b)
    (id : String) (now salt : ℕ) (inp : CreateUserInput) (w : World b)
    (normal : to_lower (trim_space inp.email) ≡ inp.email) where
  stored_user :
      (hashed : String)
      → b.hash salt inp.password ≡ some hashed
      → b.users.find_one (email_query inp.email) w.users ≡ err missing
      → create b id now salt inp w ≡ (
        ok (new_user id now inp hashed),
        record w {
          users = (b.users.create (new_user id now inp hashed) w.users).1;
          events = b.publish_created (new_user id now inp hashed) w.events;
        },
      )
  unfolding create
  stored_user hashed h r =
      let u = new_user id now inp hashed in
      let (made, put) = create-some c up u w.users in
      rw (r, create, h, set.commits u w.users made, made) refl

  new_user_found :
      (hashed : String)
      → ((k : String) (y : User)
          → c.rows w.users k ≡ some y
          → all (holds y) (email_query inp.email).conditions ≡ false)
      → b.users.find_one
          (email_query inp.email)
          (b.users.create (new_user id now inp hashed) w.users).1
        ≡ ok (new_user id now inp hashed)
  new_user_found hashed alone =
      let u = new_user id now inp hashed in
      let (made, put) = create-some c up u w.users in
      let there : c.rows (b.users.create u w.users).1 id ≡ some u = put id ∙ (rw eq_refl) in
      let alone' =
        subst
          (λ e.
            (k : String) (y : User)
            → c.rows w.users k ≡ some y
            → all (holds y) (email_query e).conditions ≡ false)
          (sym normal) alone in
      let (j, x, there', fits, r) =
        find_one-hit c up (email_query u.email) (b.users.create u w.users).1 id u there
          (email_fits u) in
      subst (λ e. b.users.find_one (email_query e) (b.users.create u w.users).1 ≡ ok u) normal
        (r ∙ ap ok (only_email u x j _ _ put alone' there' fits))

  create-IsRegistered :
      (u : User)
      → (create b id now salt inp w).0 ≡ ok u
      → IsRegistered b inp u (create b id now salt inp w).1
  unfolding create
  create-IsRegistered u done = elim (c.find_one_law (email_query inp.email) w.users) [
    | inl (hit i x there fits r) ↦ absurd (let d = rw (r, create) at done in cc)
    | inl (no_hit alone r) ↦ elim (Option-cases (b.hash salt inp.password)) [
      | inl unhashed ↦ absurd (let d = rw (r, create, unhashed) at done in cc)
      | inr (hashed, h) ↦
          let s = stored_user hashed h r in
          let same : ok (new_user id now inp hashed) ≡ ok u = sym (ap (λ y. y.0) s) ∙ done in
          let e : new_user id now inp hashed ≡ u = cc in
          subst (λ y. IsRegistered b inp y (create b id now salt inp w).1) e
            (record {
              found =
                  subst
                    (λ y.
                      b.users.find_one (email_query inp.email) y.users
                      ≡ ok (new_user id now inp hashed))
                    (sym (ap (λ y. y.1) s)) (new_user_found hashed alone);
              theirs = set.matches salt inp.password hashed h;
            })
    ]
    | inr r ↦ absurd (up.find_one _ _ r)
  ]

  -- When Create succeeds over a database that answers, for an address in its normal form, then
  -- under every spelling of the address the user logs in with the password, and gets the pair of
  -- tokens that is issued for them, and with a password that bcrypt does not match the login is
  -- refused; the login changes nothing.
  pub authenticate-create :
      (u : User) (t t' : ℕ) (spelling password : String) (pair : TokenPair)
      → (create b id now salt inp w).0 ≡ ok u
      → to_lower (trim_space spelling) ≡ inp.email
      → generate_pair b.jwt b.tokens t t' u.id u.email u.role ≡ some pair
      → (authenticate b t t' spelling inp.password (create b id now salt inp w).1
          ≡ (ok (pair, u), (create b id now salt inp w).1))
        × (b.compare u.password password ≡ false
            → authenticate b t t' spelling password (create b id now salt inp w).1
              ≡ (err (unauthorized "invalid credentials"), (create b id now salt inp w).1))
  unfolding authenticate
  authenticate-create u t t' spelling password pair done same issues =
      let registered = create-IsRegistered u done in
      (
        rw (same, registered.found, registered.theirs, issues) refl,
        λ wrong. rw (same, registered.found, wrong) refl,
      )
