-- ===== src/User/Freshness.antt =====
-- Reading a user through the cache after an update.
use smart_assistant_api.Common.{ℕ, String, ◌≡◌, refl, ◌∙◌, ap, some, [], ◌∷◌, inl, inr}
use smart_assistant_api.Common.Exec.{ok, err}
use smart_assistant_api.Common.Results.{Result-cases}
use smart_assistant_api.Store.Contract.{Contract}
use smart_assistant_api.Store.Contract.Effects.{
  IsReliable, find_by_id-some, find_by_id-ok, update-some,
}
use smart_assistant_api.Cache.{miss}
use smart_assistant_api.User.{User, key, holds}
use smart_assistant_api.User.Service.{Backend, World, cache_key, get_by_id, update}

-- A cache that works for users: a deleted key is missing, a value can be written, and users have a
-- JSON form.
pub record IsWorking (b : Backend) : Type 0 where
  pub forgets :
      (now : ℕ) (key : String) (s : b.cache.State)
      → b.cache.get now key (b.cache.delete (key ∷ []) s).1 ≡ err miss
  pub sets :
      (now : ℕ) (key value : String) (s : b.cache.State)
      → (b.cache.set now key value b.cache_ttl s).0 ≡ ok tt
  pub text : User → String
  pub encodes : (u : User) → b.encode u ≡ some (text u)

module _ {b : Backend} (c : Contract key holds b.users) (up : IsReliable b.users)
    (cache : IsWorking b) where
  get_by_id-missed :
      (read_at set_at : ℕ) (id : String) (x : User) (w : World b)
      → b.users.find_by_id id w.users ≡ ok x
      → b.cache.get read_at (cache_key id) w.cache ≡ err miss
      → (get_by_id b read_at set_at id w).0 ≡ ok x
  unfolding get_by_id
  get_by_id-missed read_at set_at id x w found missed =
      rw
        (
          get_by_id,
          missed,
          found,
          cache.encodes x,
          cache.sets set_at (cache_key id) (cache.text x) w.cache,
        )
        refl

  -- Over a database that answers and a cache that works, after Update succeeds, GetByID returns the
  -- user as updated, whatever the cache held before.
  pub get_by_id-update :
      (now read_at set_at : ℕ) (id name : String) (u : User) (w : World b)
      → (update b now id name w).0 ≡ ok u
      → (get_by_id b read_at set_at id (update b now id name w).1).0 ≡ ok u
  unfolding update get_by_id
  get_by_id-update now read_at set_at id name u w done =
      elim (Result-cases (b.users.find_by_id id w.users)) [
        | inl (x, r) ↦
            let x' : User = record x { name = name; updated_at = now } in
            let (made, there) = update-some c up id x' x w.users (find_by_id-ok c id w.users x r) in
            let found = find_by_id-some c up id (b.users.update id x' w.users).1 x' there in
            let missed = cache.forgets read_at (cache_key id) w.cache in
            let w' : World b = record w {
              users = (b.users.update id x' w.users).1;
              cache = (b.cache.delete (cache_key id ∷ []) w.cache).1;
            } in
            let e : x' ≡ u = (let d = rw (r, made) at done in cc) in
            rw (r, made) (get_by_id-missed read_at set_at id x' w' found missed ∙ ap ok e)
        | inr (e, r) ↦ absurd (let d = rw r at done in cc)
      ]
