-- ===== src/Cache.antt =====
-- pkg/cache/cache.go: the interface `Cache`, and the typed view of it. A call takes what
-- `time.Now()` returns in it; a value is stored as its JSON text.
pub mod Memory
pub mod Typed
use smart_assistant_api.Common.{ℕ, String, Bool, List}
use smart_assistant_api.Common.Exec.{Result, Exec}

-- ErrMiss, and any other error.
pub data CacheError : Type 0 where
  miss broken : CacheError

pub record Cache : Type 1 where
  pub State : Type 0
  pub get : ℕ → String → State → Result CacheError String
  pub set : ℕ → String → String → ℕ → Exec State CacheError (Unit {0})
  pub delete : List String → Exec State CacheError (Unit {0})
  pub exists : ℕ → String → State → Result CacheError Bool
