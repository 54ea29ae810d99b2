-- ===== src/Queue/Order.antt =====
-- The messages of a topic: the order in which they leave, against what was published.
use smart_assistant_api.Common.{
  String, ◌≡◌, refl, sym, ap, subst, ◌∙◌, Bool, true, false, Option, none, some, List, [], ◌∷◌,
  ◌++◌, length, ltb, str_eq, eq_iff, Bool-cases, inl, inr, if◌then◌else◌,
}
use mathlib.Core.List.{append-nil, append_assoc}
use smart_assistant_api.Common.Assoc.{insert, lookup-insert}
use smart_assistant_api.Queue.{Message, channel, made, publish, receive, buf_size, offer, taken}

pub data Step : Type 0 where
  send : (id topic payload : String) (opts : List (Message → Message)) → Step
  take : (topic : String) → Step

Topics : Type 0
Topics = List (String × List Message)

unfoldable pub after : Step → List (String × List Message) → List (String × List Message)
unfolding publish receive
after (send id topic payload opts) s = (publish id topic payload opts s).1
after (take topic) s = (receive topic s).1

unfoldable pub after_all : List Step → List (String × List Message) → List (String × List Message)
unfolding after
after_all [] s = s
after_all (e ∷ es) s = after_all es (after e s)

abbrev pub if_sent : Bool → Message → List Message
if_sent true m = m ∷ []
if_sent false m = []

abbrev pub if_received : Option Message → List Message
if_received none = []
if_received (some m) = m ∷ []

-- What a step adds to the topic, and what it takes from it.
unfoldable pub added : String → Step → List (String × List Message) → List Message
unfolding publish
added t (send id topic payload opts) s =
    if str_eq topic t
    then if_sent (publish id topic payload opts s).0 (made id topic payload opts)
    else []
added t (take topic) s = []

unfoldable pub removed : String → Step → List (String × List Message) → List Message
unfolding receive
removed t (send id topic payload opts) s = []
removed t (take topic) s = if str_eq topic t then if_received (receive topic s).0 else []

unfoldable pub added_all : String → List Step → List (String × List Message) → List Message
unfolding added after
added_all t [] s = []
added_all t (e ∷ es) s = added t e s ++ added_all t es (after e s)

unfoldable pub removed_all : String → List Step → List (String × List Message) → List Message
unfolding removed after
removed_all t [] s = []
removed_all t (e ∷ es) s = removed t e s ++ removed_all t es (after e s)

channel-insert :
    (topic t : String) (ms : List Message) (s : List (String × List Message))
    → channel t (insert topic ms s) ≡ (if str_eq topic t then ms else channel t s)
unfolding channel
channel-insert topic t ms s = elim (Bool-cases (str_eq topic t)) [
  | inl same ↦ rw (lookup-insert topic t ms s, same) refl
  | inr other ↦ rw (lookup-insert topic t ms s, other) refl
]

-- A step that replaces the buffer of its own topic by `ms`.
replaced :
    (topic t : String) (ms : List Message) (s : List (String × List Message))
    (out more : List Message)
    → out ++ ms ≡ channel topic s ++ more
    → (if str_eq topic t then out else []) ++ channel t (insert topic ms s)
      ≡ channel t s ++ (if str_eq topic t then more else [])
replaced topic t ms s out more e = elim (Bool-cases (str_eq topic t)) [
  | inl same ↦
      rw (channel-insert topic t ms s, same)
        (subst (λ x. out ++ ms ≡ channel x s ++ more) ((eq_iff topic t).0 same) e)
  | inr other ↦ rw (channel-insert topic t ms s, other) (sym (append-nil (channel t s)))
]

either : {A : Type 0} (b : Bool) (x : A) → (if b then x else x) ≡ x
either true x = refl
either false x = refl

send_order :
    (topic t : String) (room : Bool) (m : Message) (s : List (String × List Message))
    → channel t (offer room topic m (channel topic s) s).1
      ≡ channel t s
        ++ (if str_eq topic t then if_sent (offer room topic m (channel topic s) s).0 m else [])
send_order topic t true m s =
    sym (
      ap (λ x. x ++ channel t (insert topic (channel topic s ++ (m ∷ [])) s))
        (either {A = List Message} (str_eq topic t) []))
    ∙ replaced topic t (channel topic s ++ (m ∷ [])) s [] (m ∷ []) refl
send_order topic t false m s =
    sym (
      ap (λ x. x ++ channel t (insert topic (channel topic s) s))
        (either {A = List Message} (str_eq topic t) []))
    ∙ replaced topic t (channel topic s) s [] [] (sym (append-nil (channel topic s)))

take_order :
    (topic t : String) (ms : List Message) (s : List (String × List Message))
    → channel topic s ≡ ms
    → (if str_eq topic t then if_received (taken topic ms s).0 else [])
        ++ channel t (taken topic ms s).1
      ≡ channel t s ++ []
take_order topic t [] s e =
    ap (λ x. x ++ channel t s) (either {A = List Message} (str_eq topic t) [])
    ∙ sym (append-nil (channel t s))
take_order topic t (m ∷ ms) s e =
    replaced topic t ms s (m ∷ []) [] (sym (append-nil (channel topic s) ∙ e))
    ∙ ap (λ x. channel t s ++ x) (either {A = List Message} (str_eq topic t) [])

step_order :
    (t : String) (e : Step) (s : List (String × List Message))
    → removed t e s ++ channel t (after e s) ≡ channel t s ++ added t e s
unfolding removed added after publish receive
step_order t (send id topic payload opts) s =
    send_order topic t (ltb (length (channel topic s)) buf_size) (made id topic payload opts) s
step_order t (take topic) s = take_order topic t (channel topic s) s refl

-- Whatever is sent and received on any topics, in any order, what was received on a topic, followed
-- by what waits in it, is what waited at the start followed by what was sent, in that order.
pub removed_all-channel :
    (t : String) (es : List Step) (s : List (String × List Message))
    → removed_all t es s ++ channel t (after_all es s) ≡ channel t s ++ added_all t es s
unfolding removed_all added_all after_all
removed_all-channel t [] s = sym (append-nil (channel t s))
removed_all-channel t (e ∷ es) s =
    append_assoc (removed t e s) (removed_all t es (after e s))
      (channel t (after_all es (after e s)))
    ∙ ap (λ x. removed t e s ++ x) (removed_all-channel t es (after e s))
    ∙ sym (append_assoc (removed t e s) (channel t (after e s)) (added_all t es (after e s)))
    ∙ ap (λ x. x ++ added_all t es (after e s)) (step_order t e s)
    ∙ append_assoc (channel t s) (added t e s) (added_all t es (after e s))
