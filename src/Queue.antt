-- ===== src/Queue.antt =====
-- pkg/queue/memory.go: topics as buffered channels, and the delivery of a message with retries.
pub mod Delivery
pub mod Order
mod Samples
use smart_assistant_api.Common.{
  ℕ, zero, suc, ◌+◌, ◌-◌, String, Bool, true, false, Option, none, some, List, [], ◌∷◌, ◌++◌,
  length, leb, ltb, if◌then◌else◌,
}
use smart_assistant_api.Common.Assoc.{lookup, insert}

-- queue.go: Message
pub record Message : Type 0 where
  pub id : String
  pub topic : String
  pub payload : String
  pub headers : List (String × String)
  pub attempts : ℕ

-- queue.go: WithHeader, a PublishOption
unfoldable pub with_header : String → String → Message → Message
with_header key value m = record m { headers = insert key value m.headers }

-- The capacity that NewMemory gives a channel.
abbrev pub buf_size : ℕ
buf_size = 1024

abbrev contents : Option (List Message) → List Message
contents none = []
contents (some ch) = ch

-- channel(topic): the buffer of the topic, made when it is first asked for
unfoldable pub channel : String → List (String × List Message) → List Message
channel topic topics = contents (lookup topic topics)

abbrev configured : List (Message → Message) → Message → Message
configured [] m = m
configured (opt ∷ opts) m = configured opts (opt m)

-- the message that Publish sends
abbrev pub made : String → String → String → List (Message → Message) → Message
made id topic payload opts =
    configured opts
      (record { id = id; topic = topic; payload = payload; headers = []; attempts = 0 })

-- `ch <- msg`, when the channel has room or not
abbrev offer :
    Bool
    → String
    → Message
    → List Message
    → List (String × List Message)
    → Bool × List (String × List Message)
offer true topic m ch topics = (true, insert topic (ch ++ (m ∷ [])) topics)
offer false topic m ch topics = (false, insert topic ch topics)

-- Publish: true when the message was sent. With a full buffer the send waits for the consumer or
-- for the end of the context, which is the other outcome here.
unfoldable pub publish :
    String
    → String
    → String
    → List (Message → Message)
    → List (String × List Message)
    → Bool × List (String × List Message)
unfolding channel
publish id topic payload opts topics =
    let m = made id topic payload opts in
    let ch = channel topic topics in offer (ltb (length ch) buf_size) topic m ch topics

abbrev taken :
    String
    → List Message
    → List (String × List Message)
    → Option Message × List (String × List Message)
taken topic [] topics = (none, topics)
taken topic (m ∷ ms) topics = (some m, insert topic ms topics)

-- `msg := <-ch` of consume, when a message is there
unfoldable pub receive :
    String → List (String × List Message) → Option Message × List (String × List Message)
unfolding channel
receive topic topics = taken topic (channel topic topics) topics

-- How a delivery ends. The queue may be closed, or its context cancelled, in a wait.
pub data Outcome : Type 0 where
  delivered dropped stopped out_of_fuel : Outcome

-- dispatch. The handler works on a state and says whether it returned nil; `halted n` says that the
-- stop signal comes in the wait after the attempt `n`.
module _ {H : Type 0} (handler : Message → H → Bool × H) (max_attempts : ℕ)
    (halted : ℕ → Bool) where
  unfoldable pub dispatch : ℕ → Message → H → Outcome × H
  dispatch zero m h = (out_of_fuel, h)
  dispatch (suc fuel) m h =
      let m' = record m { attempts = suc m.attempts } in
      let (worked, h') = handler m' h in
      let rest = dispatch fuel m' h' in
      if worked
      then (delivered, h')
      else if leb max_attempts (suc m.attempts)
      then (dropped, h')
      else if halted (suc m.attempts)
      then (stopped, h')
      else rest
