-- ===== src/User/Service.antt =====
-- internal/domain/user/service.go. A method takes what `time.Now()`, `uuid.NewString()` and bcrypt's
-- salt are at its call; the log lines are left out.
use Prim.Native.String
use smart_assistant_api.Common.{
  ℕ, ◌-◌, ◌*◌, String, Bool, true, not, ◌||◌, Option, none, some, List, [], ◌∷◌, ltb, str_eq,
  if◌then◌else◌,
}
use smart_assistant_api.Common.Exec.{Result, ok, err, Exec, pure, raise, ◌>>=◌, ◌>>◌}
use smart_assistant_api.Common.Text.{trim_space, to_lower}
use smart_assistant_api.Response.{AppError, unauthorized, not_found, conflict, internal}
use smart_assistant_api.Store.Query.{Query, text, new_query, where_like, order_by, paginate_by}
use smart_assistant_api.Store.Contract.{StoreError, missing, failure, Store, recast}
use smart_assistant_api.Cache.{Cache}
use smart_assistant_api.Cache.Typed
use smart_assistant_api.Cache.Typed.{ReadError, cache_error, load_error}
use smart_assistant_api.Auth.{
  Claims, TokenPair, Jwt, TokenManager, role_user, generate_pair, parse_refresh,
}
use smart_assistant_api.User.{User, find_by_email}

-- dto.go: CreateUserInput
pub record CreateUserInput : Type 0 where
  pub email : String
  pub name : String
  pub password : String

-- dto.go: ListUsersInput; a page or a size below one acts as zero does
pub record ListUsersInput : Type 0 where
  pub page : ℕ
  pub per_page : ℕ
  pub search : String

-- dto.go: PageMeta
pub record PageMeta : Type 0 where
  pub page : ℕ
  pub per_page : ℕ
  pub total : ℕ

-- What the service works on. `hash` and `compare` are bcrypt's, `encode` and `decode` the JSON codec
-- of the cache, `tx` the transaction manager, and `publish_created` the queue, whose errors are only
-- logged.
pub record Backend : Type 1 where
  pub users : Store User
  pub tx : Exec users.State StoreError (Unit {0}) → Exec users.State StoreError (Unit {0})
  pub cache : Cache
  pub cache_ttl : ℕ
  pub encode : User → Option String
  pub decode : String → Option User
  pub hash : ℕ → String → Option String
  pub compare : String → String → Bool
  pub jwt : Jwt
  pub tokens : TokenManager
  pub Events : Type 0
  pub publish_created : User → Events → Events

pub record World (b : Backend) : Type 0 where
  pub users : b.users.State
  pub cache : b.cache.State
  pub events : b.Events

-- cacheKey
abbrev pub cache_key : String → String
cache_key id = String.◌++◌ "user:" id

abbrev pub new_user : String → ℕ → CreateUserInput → String → User
new_user id now inp hashed = record {
  id = id;
  email = to_lower (trim_space inp.email);
  name = inp.name;
  password = hashed;
  role = role_user;
  created_at = now;
  updated_at = now;
}

abbrev pub load_user_error : StoreError → AppError
load_user_error missing = not_found "user not found"
load_user_error failure = internal "failed to load user"

abbrev pub delete_user_error : StoreError → AppError
delete_user_error missing = not_found "user not found"
delete_user_error failure = internal "failed to delete user"

abbrev pub read_user_error : ReadError StoreError → AppError
read_user_error (load_error missing) = not_found "user not found"
read_user_error _ = internal "failed to load user"

abbrev pub page_of : ℕ → ℕ
page_of page = if ltb page 1 then 1 else page

abbrev pub per_page_of : ℕ → ℕ
per_page_of n = if ltb n 1 || ltb 100 n then 20 else n

abbrev pub searched : String → Query → Query
searched search q =
    if str_eq search ""
    then q
    else where_like "name" (text (String.◌++◌ "%" (String.◌++◌ search "%"))) q

module _ (b : Backend) where
  abbrev pub on_users : {A : Type 0} → Exec b.users.State StoreError A → Exec (World b) StoreError A
  on_users m w = let (r, s) = m w.users in (r, record w { users = s })

  abbrev with_error :
      {A : Type 0}
      → (StoreError → AppError)
      → Exec (World b) StoreError A
      → Exec (World b) AppError A
  with_error mapped m w = let (r, w') = m w in (recast mapped r, w')

  abbrev pub query :
      {A : Type 0}
      → (StoreError → AppError)
      → (b.users.State → Result StoreError A)
      → Exec (World b) AppError A
  query mapped m w = (recast mapped (m w.users), w)

  -- `_ = s.cache.Delete(ctx, cacheKey(id))`
  abbrev pub forget : String → Exec (World b) AppError (Unit {0})
  forget id w =
      let (r, s) = Typed.delete b.cache b.cache_ttl b.encode b.decode (cache_key id ∷ []) w.cache in
      (ok tt, record w { cache = s })

  abbrev announce : User → Exec (World b) AppError (Unit {0})
  announce u w = (ok tt, record w { events = b.publish_created u w.events })

  -- the part of Create behind the hash of the password
  unfoldable pub create_hashed :
      String → ℕ → CreateUserInput → Option String → Exec (World b) AppError User
  create_hashed id now inp none = raise (internal "failed to hash password")
  create_hashed id now inp (some hashed) =
      let u = new_user id now inp hashed in
      do
        with_error (λ e. internal "failed to create user") (on_users (b.tx (b.users.create u)))
        announce u
        pure u

  -- Create
  unfoldable pub create : String → ℕ → ℕ → CreateUserInput → Exec (World b) AppError User
  unfolding find_by_email create_hashed trim_space to_lower
  create id now salt inp w = elim (find_by_email b.users inp.email w.users) [
    | ok u ↦ raise (conflict "a user with this email already exists") w
    | err failure ↦ raise (internal "failed to verify email") w
    | err missing ↦ create_hashed id now inp (b.hash salt inp.password) w
  ]

  -- GetByID: `read_at` and `set_at` are the clock of the two calls of the cache
  unfoldable pub get_by_id : ℕ → ℕ → String → Exec (World b) AppError User
  unfolding Typed.get_or_set
  get_by_id read_at set_at id w =
      let (r, s) =
        Typed.get_or_set b.cache b.cache_ttl b.encode b.decode {E = StoreError} read_at set_at
          (cache_key id) (b.users.find_by_id id w.users) w.cache in
      (elim r [ ok u ↦ ok u | err e ↦ err (read_user_error e) ], record w { cache = s })

  -- Update
  unfoldable pub update : ℕ → String → String → Exec (World b) AppError User
  unfolding Typed.delete
  update now id name = do
    u ← query load_user_error (b.users.find_by_id id)
    let u' : User = record u { name = name; updated_at = now } in
        do
          with_error (λ e. internal "failed to update user") (on_users (b.users.update id u'))
          forget id
          pure u'

  -- Delete
  unfoldable pub delete : String → Exec (World b) AppError (Unit {0})
  unfolding Typed.delete
  delete id = do with_error delete_user_error (on_users (b.users.delete id)); forget id

  -- List
  unfoldable pub list : ListUsersInput → Exec (World b) AppError (List User × PageMeta)
  list inp =
      let page = page_of inp.page in
      let per_page = per_page_of inp.per_page in
      do
        users ←
            query (λ e. internal "failed to list users")
              (b.users.find (
                searched inp.search (
                  paginate_by per_page ((page - 1) * per_page)
                    (order_by "created_at" true new_query))))
        total ←
            query (λ e. internal "failed to count users")
              (b.users.count (searched inp.search new_query))
        pure (users, record { page = page; per_page = per_page; total = total })

  abbrev login_error : StoreError → AppError
  login_error missing = unauthorized "invalid credentials"
  login_error failure = internal "failed to load user"

  abbrev pub issued : {A : Type 0} → (TokenPair → A) → Option TokenPair → Exec (World b) AppError A
  issued f none = raise (internal "failed to issue token")
  issued f (some pair) = pure (f pair)

  -- Authenticate: `now` and `now'` are the clock of the two signatures
  unfoldable pub authenticate : ℕ → ℕ → String → String → Exec (World b) AppError (TokenPair × User)
  unfolding find_by_email generate_pair trim_space to_lower
  authenticate now now' email password = do
    u ← query login_error (find_by_email b.users (to_lower (trim_space email)))
    if not (b.compare u.password password)
        then raise (unauthorized "invalid credentials")
        else issued (λ pair. (pair, u)) (generate_pair b.jwt b.tokens now now' u.id u.email u.role)

  abbrev refreshed : Option Claims → ℕ → ℕ → Exec (World b) AppError TokenPair
  refreshed none now now' = raise (unauthorized "invalid refresh token")
  refreshed (some claims) now now' = do
    u ← query (λ e. unauthorized "user no longer exists") (b.users.find_by_id claims.user_id)
    issued (λ pair. pair) (generate_pair b.jwt b.tokens now now' u.id u.email u.role)

  -- Refresh: `at` is the clock of the check of the token
  unfoldable pub refresh : ℕ → ℕ → ℕ → String → Exec (World b) AppError TokenPair
  unfolding parse_refresh generate_pair
  refresh at now now' token = refreshed (parse_refresh b.jwt b.tokens at token) now now'
