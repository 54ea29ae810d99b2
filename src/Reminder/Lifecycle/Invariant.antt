-- ===== src/Reminder/Lifecycle/Invariant.antt =====
-- What the moves of the state machine keep.
use smart_assistant_api.Common.{
  ℕ, String, ◌≡◌, refl, sym, ◌∙◌, ◌≢◌, ◌⊎◌, Option, none, some, arith, subst, eq_iff,
}
use mathlib.Core.Path.{subst₂}
use smart_assistant_api.Reminder.{Reminder, pending, notified, triggered, cancelled}
use smart_assistant_api.Reminder.Service.{as_notified, as_delivered, as_cancelled, as_triggered}
use smart_assistant_api.Reminder.Lifecycle.{
  Actor, Moves, keeps, starts, notifies, delivers, cancels, triggers, Moved, done, step,
}

pub record IsSound (i : String) (r : Reminder) : Type 0 where
  pub keyed : r.id ≡ i
  pub known :
      (r.status ≡ pending) ⊎ (r.status ≡ notified) ⊎ (r.status ≡ triggered) ⊎ (r.status ≡ cancelled)
  -- a notified reminder has the time of it, and a pending one has none
  pub stamped : r.status ≡ notified → r.notified_at ≢ none
  pub unsent : r.status ≡ pending → r.notified_at ≡ none
  pub fired : r.status ≡ triggered → r.triggered_at ≢ none
  pub acked : r.delivered_at ≢ none → r.notified_at ≢ none

abbrev pub SoundRow : String → Option Reminder → Type 0
SoundRow i none = Unit
SoundRow i (some r) = IsSound i r

statuses_distinct :
    (pending ≢ notified)
    × (pending ≢ triggered)
    × (notified ≢ triggered)
    × (notified ≢ cancelled)
    × (pending ≢ cancelled)
    × (triggered ≢ cancelled)
statuses_distinct = (
  ground (arith, eq_iff pending notified),
  ground (arith, eq_iff pending triggered),
  ground (arith, eq_iff notified triggered),
  ground (arith, eq_iff notified cancelled),
  ground (arith, eq_iff pending cancelled),
  ground (arith, eq_iff triggered cancelled),
)

-- Each write keeps the stamps in order.
starts-IsSound :
    (i : String) (r : Reminder)
    → r.id ≡ i
    → r.status ≡ pending
    → r.notified_at ≡ none
    → r.delivered_at ≡ none
    → IsSound i r
starts-IsSound i r a b d e = ground (arith, statuses_distinct)

notifies-IsSound :
    (i : String) (r : Reminder) (now : ℕ)
    → IsSound i r
    → r.status ≡ pending
    → IsSound i (as_notified now r)
notifies-IsSound i r now h p = ground (arith, statuses_distinct)

delivers-IsSound :
    (i : String) (r : Reminder) (now : ℕ)
    → IsSound i r
    → r.status ≡ notified
    → IsSound i (as_delivered now r)
delivers-IsSound i r now h p = ground (arith, statuses_distinct)

cancels-IsSound :
    (i : String) (r : Reminder) (now : ℕ) → IsSound i r → IsSound i (as_cancelled now r)
cancels-IsSound i r now h = ground (arith, statuses_distinct)

triggers-IsSound :
    (i : String) (r : Reminder) (now : ℕ) → IsSound i r → IsSound i (as_triggered now r)
triggers-IsSound i r now h = ground (arith, statuses_distinct)

module _ {i : String} {who : Actor} where
  Moves-SoundRow :
      {before after : Option Reminder}
      → Moves i who before after
      → SoundRow i before
      → SoundRow i after
  Moves-SoundRow (keeps same) h = subst (SoundRow i) (sym same) h
  Moves-SoundRow (starts r absent e key actor status n d) h =
      subst (SoundRow i) (sym e) (starts-IsSound i r key status n d)
  Moves-SoundRow (notifies r now b e actor status) h =
      subst (SoundRow i) (sym e) (notifies-IsSound i r now (subst (SoundRow i) b h) status)
  Moves-SoundRow (delivers r now b e actor status) h =
      subst (SoundRow i) (sym e) (delivers-IsSound i r now (subst (SoundRow i) b h) status)
  Moves-SoundRow (cancels r now b e actor) h =
      subst (SoundRow i) (sym e) (cancels-IsSound i r now (subst (SoundRow i) b h))
  Moves-SoundRow (triggers r now b e actor) h =
      subst (SoundRow i) (sym e) (triggers-IsSound i r now (subst (SoundRow i) b h))

  pub Moved-SoundRow :
      {before after : Option Reminder}
      → Moved i who before after
      → SoundRow i before
      → SoundRow i after
  Moved-SoundRow done h = h
  Moved-SoundRow (step m p) h = Moved-SoundRow p (Moves-SoundRow m h)

-- What no move changes.
pub record IsSameReminder (r r' : Reminder) : Type 0 where
  pub id : r'.id ≡ r.id
  pub user_id : r'.user_id ≡ r.user_id
  pub trigger_type : r'.trigger_type ≡ r.trigger_type
  pub message : r'.message ≡ r.message
  pub remind_at : r'.remind_at ≡ r.remind_at
  pub title : r'.title ≡ r.title
  pub created_at : r'.created_at ≡ r.created_at
  -- a reminder that has left `pending` does not come back to it
  pub settled : r.status ≢ pending → r'.status ≢ pending
  -- a time of notification is never changed
  pub once : (t : ℕ) → r.notified_at ≡ some t → r'.notified_at ≡ some t

-- The row still holds the reminder.
abbrev pub Continues : Option Reminder → Option Reminder → Type 0
Continues none after = Unit
Continues (some r) none = ⊥
Continues (some r) (some r') = IsSameReminder r r'

Continues-refl : (o : Option Reminder) → Continues o o
Continues-refl none = tt
Continues-refl (some r) = record {
  id = refl;
  user_id = refl;
  trigger_type = refl;
  message = refl;
  remind_at = refl;
  title = refl;
  created_at = refl;
  settled = λ h. h;
  once = λ t h. h;
}

IsSameReminder-trans :
    {r r' r'' : Reminder} → IsSameReminder r r' → IsSameReminder r' r'' → IsSameReminder r r''
IsSameReminder-trans p q = record {
  id = q.id ∙ p.id;
  user_id = q.user_id ∙ p.user_id;
  trigger_type = q.trigger_type ∙ p.trigger_type;
  message = q.message ∙ p.message;
  remind_at = q.remind_at ∙ p.remind_at;
  title = q.title ∙ p.title;
  created_at = q.created_at ∙ p.created_at;
  settled = λ h. q.settled (p.settled h);
  once = λ t h. q.once t (p.once t h);
}

pub Continues-trans : (a b c : Option Reminder) → Continues a b → Continues b c → Continues a c
Continues-trans none b c p q = tt
Continues-trans (some r) none c p q = absurd p
Continues-trans (some r) (some r') none p q = q
Continues-trans (some r) (some r') (some r'') p q = IsSameReminder-trans p q

-- The writes that keep the time of notification.
restamps :
    (r r' : Reminder)
    → r'.id ≡ r.id
    → r'.user_id ≡ r.user_id
    → r'.trigger_type ≡ r.trigger_type
    → r'.message ≡ r.message
    → r'.remind_at ≡ r.remind_at
    → r'.title ≡ r.title
    → r'.created_at ≡ r.created_at
    → (r.status ≢ pending → r'.status ≢ pending)
    → ((t : ℕ) → r.notified_at ≡ some t → r'.notified_at ≡ some t)
    → IsSameReminder r r'
restamps r r' a b d e f g h k l = record {
  id = a;
  user_id = b;
  trigger_type = d;
  message = e;
  remind_at = f;
  title = g;
  created_at = h;
  settled = k;
  once = l;
}

Moves-Continues :
    {i : String} {who : Actor} {before after : Option Reminder}
    → Moves i who before after
    → SoundRow i before
    → Continues before after
Moves-Continues {before} (keeps same) h =
    subst (Continues before) (sym same) (Continues-refl before)
Moves-Continues {after} (starts r absent e key actor status n d) h =
    subst (λ o. Continues o after) (sym absent) tt
Moves-Continues {i} (notifies r now b e actor status) h = subst₂ Continues (sym b) (sym e) (
    restamps r (as_notified now r) refl refl refl refl refl refl refl
      (λ out p. statuses_distinct.0 (sym p))
      (λ t n.
        let sound : IsSound i r = subst (SoundRow i) b h in absurd (cc (sound.unsent status))))
Moves-Continues (delivers r now b e actor status) h =
    subst₂ Continues (sym b) (sym e)
      (restamps r (as_delivered now r) refl refl refl refl refl refl refl (λ out. out) (λ t n. n))
Moves-Continues (cancels r now b e actor) h = subst₂ Continues (sym b) (sym e) (
    restamps r (as_cancelled now r) refl refl refl refl refl refl refl
      (λ out p. statuses_distinct.4 (sym p)) (λ t n. n))
Moves-Continues (triggers r now b e actor) h = subst₂ Continues (sym b) (sym e) (
    restamps r (as_triggered now r) refl refl refl refl refl refl refl
      (λ out p. statuses_distinct.1 (sym p)) (λ t n. n))

pub Moved-Continues :
    {i : String} {who : Actor} {before after : Option Reminder}
    → Moved i who before after
    → SoundRow i before
    → Continues before after
Moved-Continues (done {o}) h = Continues-refl o
Moved-Continues (step {o} {mid} {o'} m p) h =
    Continues-trans o mid o' (Moves-Continues m h) (Moved-Continues p (Moves-SoundRow m h))
