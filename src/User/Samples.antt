-- ===== src/User/Samples.antt =====
-- A registration, a login and an update, over the reference store and the in-memory cache.
use smart_assistant_api.Common.{
  ℕ, String, ◌≡◌, refl, false, none, some, List, [], ◌∷◌, str_eq, eq_refl, arith, eq_iff,
}
use smart_assistant_api.Common.Exec.{ok, err}
use smart_assistant_api.Common.Assoc.{lookup, lookup-erase}
use smart_assistant_api.Common.Text.{trim_space, to_lower}
use smart_assistant_api.Response.{unauthorized}
use smart_assistant_api.Store.Contract.{Contract}
use smart_assistant_api.Store.Contract.Effects.{IsReliable}
use smart_assistant_api.Store.Reference.{reference, reference-Contract, reference-IsReliable}
use smart_assistant_api.Cache.{miss}
use smart_assistant_api.Cache.Memory
use smart_assistant_api.Cache.Memory.{Item, memory}
use smart_assistant_api.Auth.{Jwt, TokenPair, generate_pair}
use smart_assistant_api.User.{User, key, holds}
use smart_assistant_api.User.Service.{
  Backend, World, CreateUserInput, new_user, create, authenticate, get_by_id, update,
}
use smart_assistant_api.User.Login.{IsSetUp, authenticate-create}
use smart_assistant_api.User.Freshness.{IsWorking, get_by_id-update}

abbrev naming : Jwt
naming = record { numeric_date = λ t. t; sign = λ c. some c.kind; parse = λ a n t. none }

abbrev small : Backend
small = record {
  users = reference key holds;
  tx = λ m. m;
  cache = memory;
  cache_ttl = 5;
  encode = λ u. some u.name;
  decode = λ t. none;
  hash = λ salt p. some p;
  compare = str_eq;
  jwt = naming;
  tokens = record { access_ttl = 10; refresh_ttl = 70; issuer = "api" };
  Events = List String;
  publish_created = λ u es. u.id ∷ es;
}

abbrev law : Contract key holds small.users
law = reference-Contract key holds

abbrev up : IsReliable small.users
up = reference-IsReliable key holds

small-IsSetUp : IsSetUp small
small-IsSetUp = record {
  matches = λ salt p h e. ground (arith, eq_iff h p);
  commits = λ u s e. refl;
}

forgotten :
    (now : ℕ) (k : String) (s : memory.State)
    → memory.get now k (memory.delete (k ∷ []) s).1 ≡ err miss
unfolding memory Memory.get Memory.delete
forgotten now k s = rw (lookup-erase k k s, eq_refl k) refl

written : (now : ℕ) (k v : String) (s : memory.State) → (memory.set now k v 5 s).0 ≡ ok tt
unfolding memory
written now k v s = refl

small-IsWorking : IsWorking small
small-IsWorking = record {
  forgets = forgotten;
  sets = written;
  text = λ u. u.name;
  encodes = λ u. refl;
}

abbrev nobody : World small
unfolding memory
nobody = record { users = record { items = []; distinct = tt }; cache = []; events = [] }

abbrev ann : CreateUserInput
ann = record { email = "ann@x.org"; name = "Ann"; password = "secret12" }

abbrev ann_user : User
unfolding to_lower trim_space
ann_user = new_user "u1" 3 ann "secret12"

registers : (create small "u1" 3 0 ann nobody).0 ≡ ok ann_user
unfolding create trim_space to_lower nobody
registers = refl

abbrev pair : TokenPair
pair = record { access = "access"; refresh = "refresh"; expires_in = 0 }

normal : to_lower (trim_space "ann@x.org") ≡ "ann@x.org"
unfolding to_lower trim_space
normal = refl

spelled : to_lower (trim_space " Ann@X.org") ≡ "ann@x.org"
unfolding to_lower trim_space
spelled = refl

issues : generate_pair naming small.tokens 4 4 ann_user.id ann_user.email ann_user.role ≡ some pair
unfolding generate_pair
issues = refl

authenticate-create_example :
    (authenticate small 4 4 " Ann@X.org" "secret12" (create small "u1" 3 0 ann nobody).1
      ≡ (ok (pair, ann_user), (create small "u1" 3 0 ann nobody).1))
    × (small.compare ann_user.password "secret13" ≡ false
        → authenticate small 4 4 " Ann@X.org" "secret13" (create small "u1" 3 0 ann nobody).1
          ≡ (err (unauthorized "invalid credentials"), (create small "u1" 3 0 ann nobody).1))
authenticate-create_example =
    authenticate-create law up small-IsSetUp "u1" 3 0 ann nobody normal ann_user 4 4 " Ann@X.org"
      "secret13" pair registers spelled issues

abbrev with_ann : World small
unfolding memory lookup
with_ann = record {
  users = record { items = ("u1", ann_user) ∷ []; distinct = (refl, tt) };
  cache = ("user:u1", record { value = "stale"; expires_at = none }) ∷ [];
  events = [];
}

updates :
    (update small 7 "u1" "Anna" with_ann).0 ≡ ok (record ann_user { name = "Anna"; updated_at = 7 })
unfolding update lookup with_ann
updates = refl

get_by_id-update_example :
    (get_by_id small 8 8 "u1" (update small 7 "u1" "Anna" with_ann).1).0
    ≡ ok (record ann_user { name = "Anna"; updated_at = 7 })
get_by_id-update_example =
    get_by_id-update law up small-IsWorking 7 8 8 "u1" "Anna"
      (record ann_user { name = "Anna"; updated_at = 7 }) with_ann updates
