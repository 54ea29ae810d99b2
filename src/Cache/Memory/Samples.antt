-- ===== src/Cache/Memory/Samples.antt =====
-- The cache on concrete runs.
use smart_assistant_api.Common.{String, ◌≡◌, refl, Option, some, List, [], ◌∷◌, arith}
use smart_assistant_api.Common.Exec.{Result, ok, err}
use smart_assistant_api.Common.Assoc.{lookup, insert, erase, sweep}
use smart_assistant_api.Cache.{miss}
use smart_assistant_api.Cache.Memory.{get, memory}
use smart_assistant_api.Cache.Memory.Lifetime.{
  Change, put, remove, janitor, apply_all, latest, alive, get-apply_all,
}
use smart_assistant_api.Cache.Typed.{get as typed_get, get_or_set}
use smart_assistant_api.Cache.Typed.ReadThrough.{get_or_set-twice}

abbrev run : List Change
run =
    put 0 "a" "one" 5
    ∷ put 1 "b" "two" 0
    ∷ janitor 3
    ∷ put 4 "a" "three" 5
    ∷ remove ("c" ∷ [])
    ∷ janitor 8
    ∷ []

get-apply_all_example : get 9 "a" (apply_all run []) ≡ alive 9 (latest "a" run (lookup "a" []))
get-apply_all_example = get-apply_all 9 "a" run [] tt (omega arith, (omega arith, tt))

still_three : get 9 "a" (apply_all run []) ≡ ok "three"
unfolding get apply_all lookup insert sweep erase
still_three = refl

gone : get 10 "a" (apply_all run []) ≡ err miss
unfolding get apply_all lookup insert sweep erase
gone = refl

abbrev encode : String → Option String
encode s = some s

abbrev decode : String → Option String
decode s = some s

abbrev unit_error : Result String String
unit_error = err "no loader"

abbrev nothing_cached : memory.State
unfolding memory
nothing_cached = []

a_misses : typed_get memory 5 encode decode 0 "a" nothing_cached ≡ err miss
unfolding memory typed_get lookup
a_misses = refl

get_or_set-twice_example :
    ((get_or_set memory 5 encode decode {E = String} 0 1 "a" (ok "v") nothing_cached).0 ≡ ok "v")
    × (get_or_set memory 5 encode decode {E = String} 6 6 "a" unit_error
          (get_or_set memory 5 encode decode {E = String} 0 1 "a" (ok "v") nothing_cached).1
        ≡ (
          ok "v",
          (get_or_set memory 5 encode decode {E = String} 0 1 "a" (ok "v") nothing_cached).1,
        ))
get_or_set-twice_example =
    get_or_set-twice 5 encode decode 0 1 6 6 "a" "v" "v" unit_error nothing_cached a_misses refl
      refl (omega arith)
