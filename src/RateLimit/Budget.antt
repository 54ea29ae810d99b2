-- ===== src/RateLimit/Budget.antt =====
-- How many requests of a client pass in a window.
use smart_assistant_api.Common.{
  ℕ, suc, ◌-◌, ◌≤◌, String, ◌≡◌, refl, ◌∙◌, true, false, some, List, [], ◌∷◌, arith, min, str_eq,
  eq_iff, eq_refl, Bool-cases, ltb, if◌then◌else◌, inl, inr,
}
use smart_assistant_api.Common.Assoc.{lookup, IsDistinct, lookup-insert, lookup-sweep}
use smart_assistant_api.RateLimit.{
  Window, over, current, counted, judge, allow, clean, rate_limit, reaches_handler,
}
use smart_assistant_api.RateLimit.Runs.{Call, ask, janitor, after, verdicts, admitted, asked}
use smart_assistant_api.RateLimit.Janitor.{after-IsDistinct}

-- The requests of the key, and the ticks, come before the window ends.
abbrev pub IsWithin : String → ℕ → List Call → Type 0
IsWithin key end [] = Unit
IsWithin key end (ask now later k ∷ es) = (k ≡ key → now ≤ end) × IsWithin key end es
IsWithin key end (janitor now ∷ es) = (now ≤ end) × IsWithin key end es

current-live : (now dur : ℕ) (w : Window) → now ≤ w.resets_at → current now dur (some w) ≡ w
current-live now dur w le = ground arith

judge-passes :
    (limit later : ℕ) (w : Window)
    → reaches_handler (rate_limit (some (judge limit later w)))
      ≡ (if ltb limit w.count then false else true)
judge-passes limit later w = ground arith

count_step :
    (limit later : ℕ) (w : Window) (rest n : ℕ)
    → rest ≡ min (limit - suc w.count) n
    → (if reaches_handler (rate_limit (some (judge limit later (counted w))))
        then suc rest
        else rest)
      ≡ min (limit - w.count) (suc n)
count_step limit later w rest n h = ground arith

module _ (limit dur : ℕ) where
  lookup-clean :
      (now : ℕ) (key : String) (s : List (String × Window)) (w : Window)
      → IsDistinct s
      → lookup key s ≡ some w
      → now ≤ w.resets_at
      → lookup key (clean now s) ≡ some w
  unfolding clean
  lookup-clean now key s w d there le = rw (lookup-sweep (over now) key s d, there) (ground arith)

  lookup-after_own :
      (now later : ℕ) (key k : String) (s : List (String × Window)) (w : Window)
      → k ≡ key
      → lookup key s ≡ some w
      → now ≤ w.resets_at
      → lookup key (after limit dur (ask now later k) s) ≡ some (counted w)
  unfolding after allow
  lookup-after_own now later key k s w same there le =
      rw
        (
          same,
          lookup-insert key key (counted (current now dur (lookup key s))) s,
          eq_refl key,
          there,
          current-live now dur w le,
        )
        refl

  judge-own :
      (now later : ℕ) (key k : String) (s : List (String × Window)) (w : Window)
      → k ≡ key
      → lookup key s ≡ some w
      → now ≤ w.resets_at
      → judge limit later (counted (current now dur (lookup k s))) ≡ judge limit later (counted w)
  judge-own now later key k s w same there le = rw (same, there, current-live now dur w le) refl

  lookup-after_other :
      (now later : ℕ) (key k : String) (s : List (String × Window))
      → str_eq k key ≡ false
      → lookup key (after limit dur (ask now later k) s) ≡ lookup key s
  unfolding after allow
  lookup-after_other now later key k s other =
      rw (lookup-insert k key (counted (current now dur (lookup k s))) s, other) refl

  -- With `count` requests of a client counted in its open window, its further requests within the
  -- window pass the middleware until the limit is used up, and no more, whatever other clients ask
  -- and whenever the janitor ticks in the window.
  pub admitted-verdicts :
      (key : String) (es : List Call) (s : List (String × Window)) (w : Window)
      → IsDistinct s
      → lookup key s ≡ some w
      → IsWithin key w.resets_at es
      → admitted key (verdicts limit dur es s) ≡ min (limit - w.count) (asked key es)
  unfolding verdicts
  admitted-verdicts key [] s w d there within = omega arith
  admitted-verdicts key (janitor now ∷ es) s w d there (le, within) =
      admitted-verdicts key es (after limit dur (janitor now) s) w
        (after-IsDistinct limit dur (janitor now) s d) (lookup-clean now key s w d there le) within
  admitted-verdicts key (ask now later k ∷ es) s w d there (le, within) =
      elim (Bool-cases (str_eq k key)) [
        | inl mine ↦
            let same : k ≡ key = (eq_iff k key).0 mine in
            let s' = after limit dur (ask now later k) s in
            let rest =
              admitted-verdicts key es s' (counted w)
                (after-IsDistinct limit dur (ask now later k) s d)
                (lookup-after_own now later key k s w same there (le same)) within in
            rw (mine, judge-own now later key k s w same there (le same))
              (count_step limit later w (admitted key (verdicts limit dur es s')) (asked key es)
                rest)
        | inr other ↦
            let s' = after limit dur (ask now later k) s in
            rw other (
              admitted-verdicts key es s' w (after-IsDistinct limit dur (ask now later k) s d)
                (lookup-after_other now later key k s other ∙ there) within)
      ]
