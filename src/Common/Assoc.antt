-- ===== src/Common/Assoc.antt =====
-- A Go map with string keys, as an association list. The first entry of a key counts.
use mathlib.Core.List.{List, [], ◌∷◌}
use Prim.Native.String.{String}
use mathlib.Core.Path.{◌≡◌, refl}
use mathlib.Core.Bool.{Bool}
use mathlib.Core.Option.{Option, none, some}
use native.Mathlib.Omega.{arith}
use text.Mathlib.Text.{◌==◌}
use text.Mathlib.TextEquality.{eq_iff}
use smart_assistant_api.Common.Tests.{if◌then◌else◌}
use smart_assistant_api.Common.Lists.{In}

module _ {ℓ} {V : Type ℓ} where
  -- v, ok := m[k]
  unfoldable pub lookup : String → List (String × V) → Option V
  lookup key [] = none
  lookup key ((name, val) ∷ table) = if name == key then some val else lookup key table

  -- delete(m, k)
  unfoldable pub erase : String → List (String × V) → List (String × V)
  erase k [] = []
  erase k ((j, v) ∷ m) = let rest = erase k m in if j == k then rest else (j, v) ∷ rest

  -- m[k] = v
  unfoldable pub insert : String → V → List (String × V) → List (String × V)
  insert key val [] = (key, val) ∷ []
  insert key val ((name, old) ∷ table) =
      if name == key then (key, val) ∷ table else (name, old) ∷ insert key val table

  -- for k, v := range m { if drops(v) { delete(m, k) } }, each key standing once
  unfoldable pub sweep : (V → Bool) → List (String × V) → List (String × V)
  sweep drops [] = []
  sweep drops ((j, v) ∷ m) = let rest = sweep drops m in if drops v then rest else (j, v) ∷ rest

  pub lookup-insert :
      (key other : String) (val : V) (table : List (String × V))
      → lookup other (insert key val table)
        ≡ (if key == other then some val else lookup other table)
  unfolding lookup insert
  lookup-insert key other val [] = refl
  lookup-insert key other val ((name, old) ∷ table) = ground (
    arith,
    lookup-insert key other val table,
    eq_iff name key,
    eq_iff key other,
    eq_iff name other,
  )

  pub lookup-erase :
      (k j : String) (m : List (String × V))
      → lookup j (erase k m) ≡ (if k == j then none else lookup j m)
  unfolding lookup erase
  lookup-erase k j [] = ground arith
  lookup-erase k j ((i, v) ∷ m) =
      ground (arith, lookup-erase k j m, eq_iff i k, eq_iff i j, eq_iff k j)

-- Each key of a Go map stands once.
abbrev pub IsDistinct {ℓ} : {V : Type ℓ} → List (String × V) → Type ℓ
IsDistinct [] = Unit
IsDistinct ((k, v) ∷ m) = (lookup k m ≡ none) × IsDistinct m

module _ {ℓ} {V : Type ℓ} where
  pub erase-IsDistinct :
      (k : String) (m : List (String × V)) → IsDistinct m → IsDistinct (erase k m)
  unfolding erase
  erase-IsDistinct k [] h = tt
  erase-IsDistinct k ((j, v) ∷ m) (fresh, h) =
      ground (arith, erase-IsDistinct k m h, lookup-erase k j m)

  pub insert-IsDistinct :
      (k : String) (v : V) (m : List (String × V)) → IsDistinct m → IsDistinct (insert k v m)
  unfolding insert lookup
  insert-IsDistinct k v [] h = (refl, tt)
  insert-IsDistinct k v ((j, w) ∷ m) (fresh, h) =
      ground (arith, insert-IsDistinct k v m h, lookup-insert k j v m, eq_iff j k, eq_iff k j)

  pub sweep_fresh :
      (drops : V → Bool) (k : String) (m : List (String × V))
      → lookup k m ≡ none
      → lookup k (sweep drops m) ≡ none
  unfolding lookup sweep
  sweep_fresh drops k [] h = refl
  sweep_fresh drops k ((j, v) ∷ m) h = ground (arith, sweep_fresh drops k m)

  pub sweep-IsDistinct :
      (drops : V → Bool) (m : List (String × V)) → IsDistinct m → IsDistinct (sweep drops m)
  unfolding sweep
  sweep-IsDistinct drops [] h = tt
  sweep-IsDistinct drops ((j, v) ∷ m) (fresh, h) =
      ground (arith, sweep-IsDistinct drops m h, sweep_fresh drops j m fresh)

  abbrev pub unless : (V → Bool) → Option V → Option V
  unless drops none = none
  unless drops (some v) = if drops v then none else some v

  pub lookup-sweep :
      (drops : V → Bool) (k : String) (m : List (String × V))
      → IsDistinct m
      → lookup k (sweep drops m) ≡ unless drops (lookup k m)
  unfolding lookup sweep
  lookup-sweep drops k [] h = refl
  lookup-sweep drops k ((j, v) ∷ m) (fresh, h) =
      ground (arith, lookup-sweep drops k m h, sweep_fresh drops j m fresh, eq_iff j k)

module _ {V : Type 0} where
  pub lookup-of_In :
      (k : String) (v : V) (m : List (String × V))
      → IsDistinct m
      → In (k, v) m
      → lookup k m ≡ some v
  unfolding lookup
  lookup-of_In k v [] h i = absurd i
  lookup-of_In k v ((j, w) ∷ m) (fresh, h) i = ground (arith, lookup-of_In k v m h, eq_iff j k)

  pub In-of_lookup :
      (k : String) (v : V) (m : List (String × V)) → lookup k m ≡ some v → In (k, v) m
  unfolding lookup
  In-of_lookup k v [] h = cc
  In-of_lookup k v ((j, w) ∷ m) h = ground (arith, In-of_lookup k v m, eq_iff j k)
