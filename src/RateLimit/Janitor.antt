-- ===== src/RateLimit/Janitor.antt =====
-- The limiter with and without its janitor.
use smart_assistant_api.Common.{
  ℕ, ◌+◌, ◌≤◌, ◌<◌, String, ◌≡◌, refl, sym, ◌∙◌, ap, ◌⊎◌, inl, inr, Bool, true, false, subst,
  ltb→lt, if◌then◌else◌, Option, none, some, List, [], ◌∷◌, keep, arith, str_eq, Bool-cases,
}
use smart_assistant_api.Common.Assoc.{
  lookup, IsDistinct, lookup-insert, lookup-sweep, sweep-IsDistinct, insert-IsDistinct, unless,
}
use smart_assistant_api.RateLimit.{Window, over, current, counted, allow, clean}
use smart_assistant_api.RateLimit.Runs.{Call, ask, janitor, is_ask, InOrder, after, verdicts}

-- From the time `t` on, the entry counts as none.
abbrev IsStale : ℕ → Option Window → Type 0
IsStale t none = Unit
IsStale t (some w) = w.resets_at < t

AgreeAt : ℕ → Option Window → Option Window → Type 0
AgreeAt t o o' = (o ≡ o') ⊎ (IsStale t o × IsStale t o')

Agree : ℕ → List (String × Window) → List (String × Window) → Type 0
Agree t s s' = (k : String) → AgreeAt t (lookup k s) (lookup k s')

IsStale-current :
    (t now dur : ℕ) (o : Option Window)
    → t ≤ now
    → IsStale t o
    → current now dur o ≡ record { count = 0; resets_at = now + dur }
IsStale-current t now dur none le h = refl
IsStale-current t now dur (some w) le h = ground arith

current_agrees :
    (t now dur : ℕ) (o o' : Option Window)
    → t ≤ now
    → AgreeAt t o o'
    → current now dur o ≡ current now dur o'
unfolding AgreeAt
current_agrees t now dur o o' le (inl same) = ap (current now dur) same
current_agrees t now dur o o' le (inr (h, h')) =
    IsStale-current t now dur o le h ∙ sym (IsStale-current t now dur o' le h')

IsStale-later : (t now : ℕ) (o : Option Window) → t ≤ now → IsStale t o → IsStale now o
IsStale-later t now none le h = tt
IsStale-later t now (some w) le h = omega arith

AgreeAt-later : (t now : ℕ) (o o' : Option Window) → t ≤ now → AgreeAt t o o' → AgreeAt now o o'
unfolding AgreeAt
AgreeAt-later t now o o' le (inl same) = inl same
AgreeAt-later t now o o' le (inr (h, h')) =
    inr (IsStale-later t now o le h, IsStale-later t now o' le h')

now_none :
    (now : ℕ) (w : Window) (o' : Option Window)
    → AgreeAt now (some w) o'
    → w.resets_at < now
    → AgreeAt now none o'
unfolding AgreeAt
now_none now w o' (inl same) lt = inr (tt, subst (IsStale now) same lt)
now_none now w o' (inr (h, h')) lt = inr (tt, h')

unless_agrees :
    (now : ℕ) (o o' : Option Window) → AgreeAt now o o' → AgreeAt now (unless (over now) o) o'
unfolding AgreeAt
unless_agrees now none o' h = h
unless_agrees now (some w) o' h = elim (Bool-cases (over now w)) [
  | inl stale ↦ rw stale (now_none now w o' h (ltb→lt w.resets_at now stale))
  | inr live ↦ rw live h
]

either_agrees :
    (now : ℕ) (b : Bool) (w : Window) (o o' : Option Window)
    → AgreeAt now o o'
    → AgreeAt now (if b then some w else o) (if b then some w else o')
unfolding AgreeAt
either_agrees now true w o o' h = inl refl
either_agrees now false w o o' h = h

module _ (limit dur : ℕ) where
  clean_agrees :
      (t now : ℕ) (s s' : List (String × Window))
      → t ≤ now
      → IsDistinct s
      → Agree t s s'
      → Agree now (clean now s) s'
  unfolding clean Agree
  clean_agrees t now s s' le d h k =
      rw (lookup-sweep (over now) k s d)
        (unless_agrees now (lookup k s) (lookup k s') (AgreeAt-later t now _ _ le (h k)))

  allow_agrees :
      (t now later : ℕ) (key : String) (s s' : List (String × Window))
      → t ≤ now
      → Agree t s s'
      → ((allow now later key limit dur s).0 ≡ (allow now later key limit dur s').0)
        × Agree now (allow now later key limit dur s).1 (allow now later key limit dur s').1
  unfolding allow Agree
  allow_agrees t now later key s s' le h =
      let same = current_agrees t now dur (lookup key s) (lookup key s') le (h key) in
      (
        rw same refl,
        λ k.
            rw
              (
                lookup-insert key k (counted (current now dur (lookup key s))) s,
                lookup-insert key k (counted (current now dur (lookup key s'))) s',
                same,
              )
              (either_agrees now (str_eq key k) (counted (current now dur (lookup key s')))
                (lookup k s) (lookup k s') (AgreeAt-later t now _ _ le (h k))),
      )

  pub after-IsDistinct :
      (e : Call) (s : List (String × Window)) → IsDistinct s → IsDistinct (after limit dur e s)
  unfolding after allow clean
  after-IsDistinct (ask now later key) s d =
      insert-IsDistinct key (counted (current now dur (lookup key s))) s d
  after-IsDistinct (janitor now) s d = sweep-IsDistinct (over now) s d

  verdicts-Agree :
      (es : List Call) (t : ℕ) (s s' : List (String × Window))
      → InOrder t es
      → IsDistinct s
      → Agree t s s'
      → verdicts limit dur es s ≡ verdicts limit dur (keep is_ask es) s'
  unfolding verdicts after
  verdicts-Agree [] t s s' ordered d h = refl
  verdicts-Agree (ask now later key ∷ es) t s s' (le, ordered) d h =
      let (same, next) = allow_agrees t now later key s s' le h in
      let rest =
        verdicts-Agree es now (after limit dur (ask now later key) s)
          (after limit dur (ask now later key) s') ordered
          (after-IsDistinct (ask now later key) s d) next in
      rw (same, rest) refl
  verdicts-Agree (janitor now ∷ es) t s s' (le, ordered) d h =
      verdicts-Agree es now (clean now s) s' ordered (after-IsDistinct (janitor now) s d)
        (clean_agrees t now s s' le d h)

  -- While the clock does not go back, a limiter whose janitor ticks at any times gives the verdicts
  -- of one that has no janitor.
  pub verdicts-keep :
      (es : List Call) (t : ℕ) (s : List (String × Window))
      → InOrder t es
      → IsDistinct s
      → verdicts limit dur es s ≡ verdicts limit dur (keep is_ask es) s
  unfolding Agree AgreeAt
  verdicts-keep es t s ordered d = verdicts-Agree es t s s ordered d (λ k. inl refl)
