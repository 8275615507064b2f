-- ===== src/Core/Queue/Drain.antt =====
-- Draining an in-memory queue: the retries are bounded, and the loop ends with the queue empty.
use mathlib.Core.List.{append-nil}
use scraper_v_hezzian.Prelude.Dict.{beq_refl}
use scraper_v_hezzian.Prelude.{
  string_eq, ltb, if◌then◌else◌, ℕ, ◌+◌, ◌-◌, String, ◌≡◌, true, List, [], ◌∷◌, ◌++◌, arith, eq_iff,
  ◌<◌, refl, ap, ◌∙◌, inl, inr, some,
}
use scraper_v_hezzian.Exceptions.{
  pure, Action, Result, ok, err, message, Result-cases, >>=-ok, >>=-err,
}
use scraper_v_hezzian.Core.Queue.{
  Message, consume_once, settle, consume_once-eq-deliver, deliver, delivered,
}
use scraper_v_hezzian.Core.Queue.Memory.{
  InMemoryMessageQueue, memory_port, waiting, dead_letters, reserve,
}
use scraper_v_hezzian.Core.Queue.Memory.Laws.{
  reserve-cons, waiting-ack, waiting-dead_letter, waiting-requeue, dead_letters-ack,
  dead_letters-requeue, dead_letters-dead_letter, settles_ok,
}

-- The deliveries that a message can still take: one, and each retry that it has left.
abbrev pub deliveries_left : {P : Type 0} → ℕ → Message P → ℕ
deliveries_left max_retries m = 1 + (max_retries - m.attempts)

abbrev pub total_left : {P : Type 0} → ℕ → List (Message P) → ℕ
total_left max_retries [] = 0
total_left max_retries (m ∷ ms) = deliveries_left max_retries m + total_left max_retries ms

total_left-append :
    {P : Type 0} (r : ℕ) (xs ys : List (Message P))
    → total_left r (xs ++ ys) ≡ total_left r xs + total_left r ys
total_left-append r [] ys = omega arith
total_left-append r (x ∷ xs) ys = omega (arith, total_left-append r xs ys)

-- What is left of the waiting messages when the first has been handled.
abbrev pub after : {P : Type 0} → ℕ → Result Unit → Message P → List (Message P) → List (Message P)
after r (ok _) m ms = ms
after r (err _) m ms = if ltb r (m.attempts + 1) then ms else ms ++ delivered m ∷ []

-- The dead letters that it leaves.
abbrev pub buried : {P : Type 0} → ℕ → Result Unit → Message P → List (Message P)
buried r (ok _) m = []
buried r (err _) m = if ltb r (m.attempts + 1) then delivered m ∷ [] else []

total_left-after :
    {P : Type 0} (r : ℕ) (v : Result Unit) (m : Message P) (ms : List (Message P))
    → total_left r (after r v m ms) < total_left r (m ∷ ms)
total_left-after r (ok _) m ms = omega arith
total_left-after r (err _) m ms = ground (arith, total_left-append r ms (delivered m ∷ []))

settle_lem :
    {P W : Type 0} (queue : String) (r : ℕ) (v : Result Unit) (m : Message P)
    (s : InMemoryMessageQueue P × W)
    → m.queue ≡ queue
    → let (res, s') = settle memory_port r (delivered m) v s in
      (res ≡ ok tt)
      × (waiting s'.0 queue ≡ after r v m (waiting s.0 queue))
      × (dead_letters s'.0 queue ≡ dead_letters s.0 queue ++ buried r v m)
unfolding settle
settle_lem queue r (ok _) m (q, w) h = ground (
  arith,
  settles_ok q queue (delivered m) "",
  waiting-ack q queue (delivered m),
  dead_letters-ack q queue (delivered m),
  append-nil (dead_letters q queue),
)
settle_lem queue r (err e) m (q, w) h = ground (
  arith,
  settles_ok q queue (delivered m) (message e),
  waiting-requeue q queue (delivered m),
  dead_letters-requeue q queue (delivered m),
  waiting-dead_letter q queue (delivered m) (message e),
  dead_letters-dead_letter q queue (delivered m) (message e),
  append-nil (dead_letters q queue),
  eq_iff m.queue queue,
)

world-settle :
    {P W : Type 0} (r : ℕ) (v : Result Unit) (m : Message P) (s : InMemoryMessageQueue P × W)
    → (settle memory_port r m v s).1.1 ≡ s.1
unfolding settle
world-settle r (ok _) m (q, w) = refl
world-settle r (err e) m (q, w) = ground arith

-- What a delivery does to the world is what the handler does.
world-deliver :
    {P W : Type 0} (handler : P → Action (InMemoryMessageQueue P × W) Unit) (r : ℕ) (m : Message P)
    (s : InMemoryMessageQueue P × W)
    → (deliver memory_port handler r (some m) s).1.1 ≡ (handler m.payload s).1.1
unfolding deliver
world-deliver handler r m s =
    let (v, s') = handler m.payload s in
    elim (Result-cases (settle memory_port r m v s').0) [
      | inl (_, e) ↦
          ap (λ x. x.1.1)
            (>>=-ok (settle memory_port r m v) (λ _. pure true) s' (settle memory_port r m v s').1
              (ap (λ x. (x, (settle memory_port r m v s').1)) e))
          ∙ world-settle r v m s'
      | inr (_, e) ↦
          ap (λ x. x.1.1)
            (>>=-err (settle memory_port r m v) (λ _. pure true) s' (settle memory_port r m v s').1
              (ap (λ x. (x, (settle memory_port r m v s').1)) e))
          ∙ world-settle r v m s'
    ]

pub world-consume_once :
    {P W : Type 0} (queue : String) (handler : P → Action (InMemoryMessageQueue P × W) Unit) (r : ℕ)
    (m : Message P) (ms : List (Message P)) (q : InMemoryMessageQueue P) (w : W)
    → waiting q queue ≡ m ∷ ms
    → (consume_once memory_port queue handler r (q, w)).1.1
      ≡ (handler m.payload ((reserve queue q).1, w)).1.1
world-consume_once queue handler r m ms q w head =
    let (e, _, _) = reserve-cons q queue queue m ms head in
    ap (λ x. x.1.1) (consume_once-eq-deliver memory_port queue handler r q w e)
    ∙ world-deliver handler r (delivered m) ((reserve queue q).1, w)

module _ {P W : Type 0} (queue : String)
    (handler : P → Action (InMemoryMessageQueue P × W) Unit) where
  -- A handler that publishes to other queues alone.
  pub record Leaves : Type 0 where
    pub waiting_eq :
        (p : P) (s : InMemoryMessageQueue P × W)
        → waiting (handler p s).1.0 queue ≡ waiting s.0 queue
    pub dead_eq :
        (p : P) (s : InMemoryMessageQueue P × W)
        → dead_letters (handler p s).1.0 queue ≡ dead_letters s.0 queue

  -- What the handler says of the oldest message.
  abbrev pub verdict : Message P → InMemoryMessageQueue P × W → Result Unit
  verdict m (q, w) = (handler m.payload ((reserve queue q).1, w)).0

  module _ (leaves : Leaves) (r : ℕ) (m : Message P) (ms : List (Message P))
      (q : InMemoryMessageQueue P) (w : W) (head : waiting q queue ≡ m ∷ ms)
      (here : m.queue ≡ queue) where
    -- One round takes the oldest message: it is acknowledged, or goes to the tail with one more
    -- attempt, or, with its retries used up, to the dead letters.
    pub consume_once-cons :
        let (more, s') = consume_once memory_port queue handler r (q, w) in
        (more ≡ ok true)
        × (waiting s'.0 queue ≡ after r (verdict m (q, w)) m ms)
        × (dead_letters s'.0 queue ≡ dead_letters q queue ++ buried r (verdict m (q, w)) m)
    unfolding deliver
    consume_once-cons =
        let (e, wt, dd) = reserve-cons q queue queue m ms head in
        let s1 : InMemoryMessageQueue P × W = ((reserve queue q).1, w) in
        let v = handler m.payload s1 in
        rw (consume_once-eq-deliver memory_port queue handler r q w e) (
          ground (
            arith,
            settle_lem queue r v.0 m v.1 here,
            wt,
            dd,
            leaves.waiting_eq m.payload s1,
            leaves.dead_eq m.payload s1,
            beq_refl queue,
          ))

    -- Each round uses up a delivery.
    pub total_left-consume_once :
        let (_, s') = consume_once memory_port queue handler r (q, w) in
        total_left r (waiting s'.0 queue) < total_left r (waiting q queue)
    total_left-consume_once =
        let (_, e, _) = consume_once-cons in
        rw (e, head) (total_left-after r (verdict m (q, w)) m ms)
