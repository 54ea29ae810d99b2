-- ===== src/Cache/Memory/Lifetime.antt =====
-- A lookup after any calls and ticks, against the last value that was set.
use smart_assistant_api.Common.{
  ℕ, ◌≤◌, String, ◌≡◌, refl, sym, ◌∙◌, ap, Bool, true, false, ◌||◌, Option, none, some, List, [],
  ◌∷◌, arith, str_eq, eq_iff, Bool-cases, inl, inr, if◌then◌else◌,
}
use smart_assistant_api.Common.Exec.{Result, ok, err}
use smart_assistant_api.Common.Assoc.{
  lookup, erase, IsDistinct, unless, lookup-insert, lookup-erase, lookup-sweep, insert-IsDistinct,
  erase-IsDistinct, sweep-IsDistinct,
}
use smart_assistant_api.Cache.{CacheError, miss}
use smart_assistant_api.Cache.Memory.{Item, past, expired, expiry, get, set, delete, clean}

-- What changes the cache: calls, and ticks of the janitor.
pub data Change : Type 0 where
  put : (now : ℕ) (key value : String) (ttl : ℕ) → Change
  remove : (keys : List String) → Change
  janitor : (now : ℕ) → Change

unfoldable pub apply : Change → List (String × Item) → List (String × Item)
unfolding set delete clean
apply (put now key value ttl) s = set now key value ttl s
apply (remove keys) s = delete keys s
apply (janitor now) s = clean now s

unfoldable pub apply_all : List Change → List (String × Item) → List (String × Item)
unfolding apply
apply_all [] s = s
apply_all (e ∷ es) s = apply_all es (apply e s)

-- The janitor has not run after the time `now`.
abbrev pub IsBefore : ℕ → List Change → Type 0
IsBefore now [] = Unit
IsBefore now (janitor t ∷ es) = (t ≤ now) × IsBefore now es
IsBefore now (_ ∷ es) = IsBefore now es

abbrev pub listed : String → List String → Bool
listed key [] = false
listed key (k ∷ ks) = str_eq k key || listed key ks

-- The item that the calls leave at a key, if nothing ever expired.
abbrev pub latest : String → List Change → Option Item → Option Item
latest key [] o = o
latest key (put now k value ttl ∷ es) o =
    latest key es
      (if str_eq k key then some (record { value = value; expires_at = expiry now ttl }) else o)
latest key (remove keys ∷ es) o = latest key es (if listed key keys then none else o)
latest key (janitor now ∷ es) o = latest key es o

-- The value of an item that has not expired.
abbrev pub alive : ℕ → Option Item → Result CacheError String
alive now none = err miss
alive now (some item) = if expired now item then err miss else ok item.value

abbrev live : ℕ → Option Item → Option Item
live now o = unless (expired now) o

past_later : (t now : ℕ) (o : Option ℕ) → t ≤ now → past t o ≡ true → past now o ≡ true
past_later t now none le h = h
past_later t now (some end) le h = ground arith

expired_later :
    (t now : ℕ) (item : Item) → t ≤ now → expired t item ≡ true → expired now item ≡ true
expired_later t now item le h = past_later t now item.expires_at le h

live-live : (t now : ℕ) (o : Option Item) → t ≤ now → live now (live t o) ≡ live now o
live-live t now none le = refl
live-live t now (some item) le = elim (Bool-cases (expired t item)) [
  | inl dead ↦ rw (dead, expired_later t now item le dead) refl
  | inr going ↦ rw going refl
]

alive-live : (now : ℕ) (o : Option Item) → alive now (live now o) ≡ alive now o
alive-live now none = refl
alive-live now (some item) = elim (Bool-cases (expired now item)) [
  | inl dead ↦ rw dead refl
  | inr going ↦ rw (going, going) refl
]

lookup-delete :
    (key : String) (keys : List String) (s : List (String × Item))
    → lookup key (delete keys s) ≡ (if listed key keys then none else lookup key s)
unfolding delete
lookup-delete key [] s = refl
lookup-delete key (k ∷ ks) s =
    ground (arith, lookup-delete key ks (erase k s), lookup-erase k key s, eq_iff k key)

delete-IsDistinct :
    (keys : List String) (s : List (String × Item)) → IsDistinct s → IsDistinct (delete keys s)
unfolding delete
delete-IsDistinct [] s d = d
delete-IsDistinct (k ∷ ks) s d = delete-IsDistinct ks (erase k s) (erase-IsDistinct k s d)

apply-IsDistinct : (e : Change) (s : List (String × Item)) → IsDistinct s → IsDistinct (apply e s)
unfolding apply set clean
apply-IsDistinct (put now key value ttl) s d =
    insert-IsDistinct key (record { value = value; expires_at = expiry now ttl }) s d
apply-IsDistinct (remove keys) s d = delete-IsDistinct keys s d
apply-IsDistinct (janitor now) s d = sweep-IsDistinct (expired now) s d

live_choice :
    (now : ℕ) (b : Bool) (o p q : Option Item)
    → live now p ≡ live now q
    → live now (if b then o else p) ≡ live now (if b then o else q)
live_choice now true o p q h = refl
live_choice now false o p q h = h

module _ (now : ℕ) (key : String) where
  live-apply_all :
      (es : List Change) (s : List (String × Item)) (o : Option Item)
      → IsDistinct s
      → IsBefore now es
      → live now (lookup key s) ≡ live now o
      → live now (lookup key (apply_all es s)) ≡ live now (latest key es o)
  unfolding apply_all apply set clean
  live-apply_all [] s o d before h = h
  live-apply_all (put t k value ttl ∷ es) s o d before h =
      let item : Item = record { value = value; expires_at = expiry t ttl } in
      live-apply_all es (set t k value ttl s) (if str_eq k key then some item else o)
        (apply-IsDistinct (put t k value ttl) s d) before
        (rw (lookup-insert k key item s)
          (live_choice now (str_eq k key) (some item) (lookup key s) o h))
  live-apply_all (remove keys ∷ es) s o d before h =
      live-apply_all es (delete keys s) (if listed key keys then none else o)
        (apply-IsDistinct (remove keys) s d) before
        (rw (lookup-delete key keys s) (live_choice now (listed key keys) none (lookup key s) o h))
  live-apply_all (janitor t ∷ es) s o d (le, before) h =
      live-apply_all es (clean t s) o (apply-IsDistinct (janitor t) s d) before
        (ap (live now) (lookup-sweep (expired t) key s d) ∙ live-live t now (lookup key s) le ∙ h)

  -- After any calls of Set and Delete, and any ticks of the janitor up to now, Get answers with the
  -- last value that was set and not deleted since, if it has not expired, and with a miss
  -- otherwise.
  pub get-apply_all :
      (es : List Change) (s : List (String × Item))
      → IsDistinct s
      → IsBefore now es
      → get now key (apply_all es s) ≡ alive now (latest key es (lookup key s))
  unfolding get
  get-apply_all es s d before =
      sym (alive-live now (lookup key (apply_all es s)))
      ∙ ap (alive now) (live-apply_all es s (lookup key s) d before refl)
      ∙ alive-live now (latest key es (lookup key s))
