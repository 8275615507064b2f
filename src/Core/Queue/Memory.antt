-- ===== src/Core/Queue/Memory.antt =====
-- scrapeforge/core/queue/memory.py
-- A `defaultdict` is read through `get_or`: the empty entry that a read creates is not modelled.
pub mod Laws
use scraper_v_hezzian.Prelude.{
  string_eq, length, ℕ, String, Option, none, some, List, [], ◌∷◌, ◌++◌,
}
use scraper_v_hezzian.Prelude.Dict
use scraper_v_hezzian.Prelude.Dict.{Dict}
use scraper_v_hezzian.Exceptions.{Action, ok}
use scraper_v_hezzian.Core.Queue.{Message, MessageQueue, fresh_message, delivered}

pub record InMemoryMessageQueue (P : Type 0) : Type 0 where
  pub queues : Dict String (List (Message P))
  pub inflight : Dict String (Message P)
  pub dead : Dict String (List (Message P))

abbrev pub empty : {P : Type 0} → InMemoryMessageQueue P
empty = record { queues = Dict.empty; inflight = Dict.empty; dead = Dict.empty }

module _ {P : Type 0} where
  -- The messages that wait on a queue, oldest first.
  unfoldable pub waiting : InMemoryMessageQueue P → String → List (Message P)
  waiting q queue = Dict.get_or q.queues queue []

  unfoldable pub dead_letters : InMemoryMessageQueue P → String → List (Message P)
  dead_letters q queue = Dict.get_or q.dead queue []

  set_waiting : InMemoryMessageQueue P → String → List (Message P) → InMemoryMessageQueue P
  set_waiting q queue ms = record q { queues = Dict.put q.queues queue ms }

  enqueue : String → Message P → InMemoryMessageQueue P → InMemoryMessageQueue P
  unfolding set_waiting waiting
  enqueue queue m q = set_waiting q queue (waiting q queue ++ m ∷ [])

  forget : Message P → InMemoryMessageQueue P → InMemoryMessageQueue P
  forget m q = record q { inflight = Dict.remove q.inflight m.id }

  unfoldable pub publish : String → String → P → Action (InMemoryMessageQueue P) String
  unfolding enqueue
  publish msg_id queue payload q = (ok msg_id, enqueue queue (fresh_message msg_id queue payload) q)

  pop : String → List (Message P) → Action (InMemoryMessageQueue P) (Option (Message P))
  unfolding set_waiting
  pop queue [] q = (ok none, q)
  pop queue (m ∷ ms) q =
      let q' = set_waiting q queue ms in
      (ok (some (delivered m)), record q' { inflight = Dict.put q'.inflight m.id (delivered m) })

  unfoldable pub reserve : String → Action (InMemoryMessageQueue P) (Option (Message P))
  unfolding pop waiting
  reserve queue q = pop queue (waiting q queue) q

  unfoldable pub ack : Message P → Action (InMemoryMessageQueue P) Unit
  unfolding forget
  ack m q = (ok tt, forget m q)

  unfoldable pub requeue : Message P → Action (InMemoryMessageQueue P) Unit
  unfolding forget enqueue
  requeue m q = (ok tt, enqueue m.queue m (forget m q))

  unfoldable pub dead_letter : Message P → String → Action (InMemoryMessageQueue P) Unit
  unfolding forget dead_letters
  dead_letter m error q =
      let q' = forget m q in
      (ok tt, record q' { dead = Dict.put q'.dead m.queue (dead_letters q' m.queue ++ m ∷ []) })

  unfoldable pub size : String → Action (InMemoryMessageQueue P) ℕ
  unfolding waiting
  size queue q = (ok (length (waiting q queue)), q)

  abbrev pub memory_port : MessageQueue P (InMemoryMessageQueue P)
  memory_port = record {
    publish = publish;
    reserve = reserve;
    ack = ack;
    requeue = requeue;
    dead_letter = dead_letter;
    size = size;
  }
