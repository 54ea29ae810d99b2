-- ===== src/Cache/Typed.antt =====
-- pkg/cache/cache.go: `Typed[T]`. `encode` and `decode` are `json.Marshal` and `json.Unmarshal` at
-- the type `T`; `none` is an error of theirs.
pub mod ReadThrough
use smart_assistant_api.Common.{ℕ, String, Option, none, some, List}
use smart_assistant_api.Common.Exec.{Result, ok, err, Exec}
use smart_assistant_api.Cache.{Cache, CacheError, miss, broken}

-- What GetOrSet fails with: an error of the cache or of the codec, or one of the loader.
pub data ReadError (E : Type 0) : Type 0 where
  cache_error : CacheError → ReadError E
  load_error : E → ReadError E

module _ (back : Cache) (ttl : ℕ) {T : Type 0} (encode : T → Option String)
    (decode : String → Option T) where
  abbrev pub decoded : Option T → Result CacheError T
  decoded none = err broken
  decoded (some v) = ok v

  abbrev unmarshal : Result CacheError String → Result CacheError T
  unmarshal (ok raw) = decoded (decode raw)
  unmarshal (err e) = err e

  -- Get
  unfoldable pub get : ℕ → String → back.State → Result CacheError T
  get now key s = unmarshal (back.get now key s)

  abbrev store_raw : ℕ → String → ℕ → Option String → Exec back.State CacheError (Unit {0})
  store_raw now key ttl none s = (err broken, s)
  store_raw now key ttl (some raw) s = back.set now key raw ttl s

  -- SetTTL
  unfoldable pub set_ttl : ℕ → String → T → ℕ → Exec back.State CacheError (Unit {0})
  set_ttl now key v ttl = store_raw now key ttl (encode v)

  -- Set
  unfoldable pub set : ℕ → String → T → Exec back.State CacheError (Unit {0})
  unfolding set_ttl
  set now key v = set_ttl now key v ttl

  -- Delete
  unfoldable pub delete : List String → Exec back.State CacheError (Unit {0})
  delete keys = back.delete keys

  module _ {E : Type 0} where
    abbrev written : T → Result CacheError (Unit {0}) → Result (ReadError E) T
    written v (ok u) = ok v
    written v (err e) = err (cache_error e)

    abbrev keep_loaded : ℕ → String → Result E T → Exec back.State (ReadError E) T
    keep_loaded now key (ok v) s = let (r, s') = set now key v s in (written v r, s')
    keep_loaded now key (err e) s = (err (load_error e), s)

    abbrev fall_through :
        ℕ → String → Result E T → Result CacheError T → Exec back.State (ReadError E) T
    fall_through now key loaded (ok v) s = (ok v, s)
    fall_through now key loaded (err miss) s = keep_loaded now key loaded s
    fall_through now key loaded (err broken) s = (err (cache_error broken), s)

    -- GetOrSet: `read_at` and `set_at` are the clock at its two calls of the cache, and `loaded` is
    -- what the loader returns if it is called.
    unfoldable pub get_or_set : ℕ → ℕ → String → Result E T → Exec back.State (ReadError E) T
    unfolding get set
    get_or_set read_at set_at key loaded s = fall_through set_at key loaded (get read_at key s) s
