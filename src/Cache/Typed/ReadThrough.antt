-- ===== src/Cache/Typed/ReadThrough.antt =====
-- `GetOrSet` over the in-memory cache, called twice.
use smart_assistant_api.Common.{
  ℕ, ◌+◌, ◌≤◌, String, ◌≡◌, refl, false, Option, some, List, arith, eq_refl,
}
use smart_assistant_api.Common.Exec.{Result, ok, err}
use smart_assistant_api.Common.Assoc.{lookup-insert}
use smart_assistant_api.Cache.{miss}
use smart_assistant_api.Cache.Memory.{Item, memory, past, expiry}
use smart_assistant_api.Cache.Memory
use smart_assistant_api.Cache.Typed.{get, set, get_or_set}

past_fresh : (w r ttl : ℕ) → r ≤ w + ttl → past r (expiry w ttl) ≡ false
past_fresh w r ttl le = ground arith

raw_kept :
    (w r : ℕ) (key raw : String) (ttl : ℕ) (s : List (String × Item))
    → r ≤ w + ttl
    → Memory.get r key (Memory.set w key raw ttl s) ≡ ok raw
unfolding Memory.get Memory.set
raw_kept w r key raw ttl s le =
    rw
      (
        lookup-insert key key (record { value = raw; expires_at = expiry w ttl }) s,
        eq_refl key,
        past_fresh w r ttl le,
      )
      refl

module _ (ttl : ℕ) {T E : Type 0} (encode : T → Option String) (decode : String → Option T) where
  -- When a key is missing and the loader gives a value that survives the codec, GetOrSet returns
  -- it, and a further GetOrSet of the key within the time to live returns the same value, whatever
  -- its loader would give, and leaves the cache as it is.
  pub get_or_set-twice :
      (r w r' w' : ℕ) (key raw : String) (v : T) (loaded : Result E T) (s : memory.State)
      → get memory ttl encode decode r key s ≡ err miss
      → encode v ≡ some raw
      → decode raw ≡ some v
      → r' ≤ w + ttl
      → ((get_or_set memory ttl encode decode {E = E} r w key (ok v) s).0 ≡ ok v)
        × (get_or_set memory ttl encode decode {E = E} r' w' key loaded
              (get_or_set memory ttl encode decode {E = E} r w key (ok v) s).1
            ≡ (ok v, (get_or_set memory ttl encode decode {E = E} r w key (ok v) s).1))
  unfolding get get_or_set set memory
  get_or_set-twice r w r' w' key raw v loaded s missed enc dec le =
      let kept = raw_kept w r' key raw ttl s le in rw (missed, enc, kept, dec) (refl, refl)
