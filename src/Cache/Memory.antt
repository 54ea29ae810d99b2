-- ===== src/Cache/Memory.antt =====
-- pkg/cache/memory.go. A ttl or an instant is in nanoseconds; a ttl below one acts as zero does.
pub mod Lifetime
mod Samples
use smart_assistant_api.Common.{
  ℕ, ◌+◌, String, Bool, true, false, not, ◌&&◌, Option, none, some, List, [], ◌∷◌, ltb,
  if◌then◌else◌,
}
use smart_assistant_api.Common.Exec.{Result, ok, err, Exec}
use smart_assistant_api.Common.Assoc.{lookup, insert, erase, sweep}
use smart_assistant_api.Cache.{Cache, CacheError, miss, broken}

-- memoryItem; no expiry is the zero time.
pub record Item : Type 0 where
  pub value : String
  pub expires_at : Option ℕ

abbrev pub past : ℕ → Option ℕ → Bool
past now none = false
past now (some t) = ltb t now

abbrev pub expired : ℕ → Item → Bool
expired now item = past now item.expires_at

abbrev answer : ℕ → Option Item → Result CacheError String
answer now none = err miss
answer now (some item) = if expired now item then err miss else ok item.value

abbrev present : ℕ → Option Item → Bool
present now none = false
present now (some item) = not (expired now item)

-- Get
unfoldable pub get : ℕ → String → List (String × Item) → Result CacheError String
get now key items = answer now (lookup key items)

abbrev pub expiry : ℕ → ℕ → Option ℕ
expiry now ttl = if ltb 0 ttl then some (now + ttl) else none

-- Set
unfoldable pub set : ℕ → String → String → ℕ → List (String × Item) → List (String × Item)
set now key value ttl items =
    insert key (record { value = value; expires_at = expiry now ttl }) items

-- Delete
unfoldable pub delete : List String → List (String × Item) → List (String × Item)
delete [] items = items
delete (k ∷ ks) items = delete ks (erase k items)

-- Exists
unfoldable pub exists : ℕ → String → List (String × Item) → Bool
exists now key items = present now (lookup key items)

-- one tick of the janitor
unfoldable pub clean : ℕ → List (String × Item) → List (String × Item)
clean now items = sweep (expired now) items

-- MemoryCache as a Cache
unfoldable pub memory : Cache
unfolding get set delete exists
memory = record {
  State = List (String × Item);
  get = get;
  set = λ now key value ttl s. (ok tt, set now key value ttl s);
  delete = λ keys s. (ok tt, delete keys s);
  exists = λ now key s. ok (exists now key s);
}
