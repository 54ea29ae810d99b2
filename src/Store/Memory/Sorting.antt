-- ===== src/Store/Memory/Sorting.antt =====
-- Lemmas on the stable sort.
use smart_assistant_api.Common.{
  ◌≡◌, refl, ◌↔◌, Bool, true, false, List, [], ◌∷◌, In, arith, length, ◌≤◌, ℕ, suc, drop,
  length-take,
}
use smart_assistant_api.Store.Memory.{place, stable_sort, paginate}

module _ {A : Type 0} (before : A → A → Bool) where
  In-place : (a x : A) (ys : List A) → In a (place before x ys) ↔ In a (x ∷ ys)
  unfolding place
  In-place a x [] = ground arith
  In-place a x (y ∷ ys) = ground (arith, In-place a x ys)

  pub In-stable_sort : (a : A) (xs : List A) → In a (stable_sort before xs) ↔ In a xs
  unfolding stable_sort
  In-stable_sort a [] = ground arith
  In-stable_sort a (x ∷ xs) =
      ground (arith, In-place a x (stable_sort before xs), In-stable_sort a xs)

  length-place : (x : A) (ys : List A) → length (place before x ys) ≡ suc (length ys)
  unfolding place
  length-place x [] = refl
  length-place x (y ∷ ys) = ground (arith, length-place x ys)

  pub length-stable_sort : (xs : List A) → length (stable_sort before xs) ≡ length xs
  unfolding stable_sort
  length-stable_sort [] = refl
  length-stable_sort (x ∷ xs) =
      ground (arith, length-place x (stable_sort before xs), length-stable_sort xs)

  -- No element comes strictly before the one in front of it.
  abbrev pub IsOrdered : List A → Type 0
  IsOrdered [] = Unit
  IsOrdered (x ∷ []) = Unit
  IsOrdered (x ∷ y ∷ ys) = (before y x ≡ false) × IsOrdered (y ∷ ys)

  module _ (asym : (a b : A) → before a b ≡ true → before b a ≡ false) where
    place-IsOrdered_after :
        (x y : A) (ys : List A)
        → before y x ≡ true
        → IsOrdered (y ∷ ys)
        → IsOrdered (place before x ys)
        → IsOrdered (y ∷ place before x ys)
    unfolding place
    place-IsOrdered_after x y [] lt h k = (asym y x lt, tt)
    place-IsOrdered_after x y (z ∷ zs) lt h k = ground (arith, asym y x lt)

    place-IsOrdered : (x : A) (ys : List A) → IsOrdered ys → IsOrdered (place before x ys)
    unfolding place
    place-IsOrdered x [] h = tt
    place-IsOrdered x (y ∷ []) h = ground (arith, asym y x)
    place-IsOrdered x (y ∷ z ∷ zs) h =
        ground (arith, place-IsOrdered x (z ∷ zs) h.1, place-IsOrdered_after x y (z ∷ zs))

    pub stable_sort-IsOrdered : (xs : List A) → IsOrdered (stable_sort before xs)
    unfolding stable_sort
    stable_sort-IsOrdered [] = tt
    stable_sort-IsOrdered (x ∷ xs) =
        place-IsOrdered x (stable_sort before xs) (stable_sort-IsOrdered xs)

module _ {A : Type 0} where
  -- A page holds at most `limit` rows.
  pub paginate-le :
      (items : List A) (limit offset : ℕ) → length (paginate items (suc limit) offset) ≤ suc limit
  unfolding paginate
  paginate-le items limit offset =
      ground (arith, length-take (suc limit) (drop offset items), length-take (suc limit) items)

  pub paginate_whole : (items : List A) → paginate items 0 0 ≡ items
  unfolding paginate
  paginate_whole items = refl
