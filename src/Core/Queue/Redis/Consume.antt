-- ===== src/Core/Queue/Redis/Consume.antt =====
-- `consume_once` over Redis does what it does over the in-memory queue.
use scraper_v_hezzian.Core.Queue.Memory.Laws.{
  waiting-ack, waiting-dead_letter, waiting-requeue, settles_ok,
}
use scraper_v_hezzian.Prelude.{
  string_eq, Eq, ℕ, String, ◌≡◌, ltb, Bool-cases, inl, inr, refl, Bool, ap, true, Option, none,
  some, arith, subst,
}
use scraper_v_hezzian.Exceptions.{Action, Result, ok, err, message, >>=-eq-ok, pure}
use scraper_v_hezzian.Core.Queue.{
  Message, settle, on_queue-eq-ok, consume_once, on_queue, deliver, consume_once-eq-deliver,
}
use scraper_v_hezzian.Core.Queue.Memory as Memory
use scraper_v_hezzian.Core.Queue.Memory.{InMemoryMessageQueue, memory_port}
use scraper_v_hezzian.Core.Queue.Redis.{
  RedisClient, Codec, RedisQueue, redis_port, unprocess, push, ack, requeue, dead_letter, dlq_key,
  reserve,
}
use scraper_v_hezzian.Core.Queue.Redis.Refines.{
  Represents, unprocess-Represents, unchanged, push-Represents_main, push-Represents_dlq, IsMain,
  reserve-Represents,
}

-- A handler that does not touch the queue that it is called from.
abbrev pub aside : {P Q W : Type 0} → (P → Action W Unit) → P → Action (Q × W) Unit
aside h p (q, w) = let (r, w') = h p w in (r, (q, w'))

module _ {P Raw : Type 0} ⦃e : Eq Raw⦄ (client : RedisClient Raw) (codec : Codec P Raw)
    (dlq_suffix : String) where
  abbrev Redis : Type 0
  Redis = RedisQueue client codec dlq_suffix

  ack-Represents :
      (m : Message P) (q q' : Redis) (mq : InMemoryMessageQueue P)
      → Represents client codec dlq_suffix q mq
      → ack client codec dlq_suffix m q ≡ (ok tt, q')
      → Represents client codec dlq_suffix q' (Memory.ack m mq).1
  unfolding ack
  ack-Represents m q q' mq rep h =
      unchanged client codec dlq_suffix q' mq
        (unprocess-Represents client codec dlq_suffix q mq rep "ack failed" m (ok tt) q' h)
        (Memory.ack m mq).1 (λ j. waiting-ack mq j m)

  requeue-Represents :
      (m : Message P) (q q' : Redis) (mq : InMemoryMessageQueue P)
      → Represents client codec dlq_suffix q mq
      → requeue client codec dlq_suffix m q ≡ (ok tt, q')
      → Represents client codec dlq_suffix q' (Memory.requeue m mq).1
  unfolding requeue
  requeue-Represents m q q' mq rep h =
      let first = unprocess client codec dlq_suffix "requeue failed" m in
      let then_push = push client codec dlq_suffix "requeue failed" m.queue (codec.encode m) in
      let (_, _, pushed) = >>=-eq-ok first (λ _. then_push) q q' h in
      push-Represents_main client codec dlq_suffix (first q).1 mq
        (unprocess-Represents client codec dlq_suffix q mq rep "requeue failed" m (first q).0
          (first q).1 refl)
        "requeue failed" m.queue m q' (Memory.requeue m mq).1 (λ j. waiting-requeue mq j m) pushed

  dead_letter-Represents :
      (m : Message P) (error : String) (q q' : Redis) (mq : InMemoryMessageQueue P)
      → Represents client codec dlq_suffix q mq
      → dead_letter client codec dlq_suffix m error q ≡ (ok tt, q')
      → Represents client codec dlq_suffix q' (Memory.dead_letter m error mq).1
  unfolding dead_letter
  dead_letter-Represents m error q q' mq rep h =
      let first = unprocess client codec dlq_suffix "dead_letter failed" m in
      let then_push =
        push client codec dlq_suffix "dead_letter failed" (dlq_key dlq_suffix m.queue)
          (codec.encode_dead m error) in
      let (_, _, pushed) = >>=-eq-ok first (λ _. then_push) q q' h in
      let kept =
        unprocess-Represents client codec dlq_suffix q mq rep "dead_letter failed" m (first q).0
          (first q).1 refl in
      unchanged client codec dlq_suffix q' mq
        (push-Represents_dlq client codec dlq_suffix (first q).1 mq kept "dead_letter failed"
          m.queue (codec.encode_dead m error) q' pushed)
        (Memory.dead_letter m error mq).1 (λ j. waiting-dead_letter mq j m error)

module _ {P Raw W : Type 0} ⦃e : Eq Raw⦄ (client : RedisClient Raw) (codec : Codec P Raw)
    (dlq_suffix : String) where
  settle-Represents :
      (r : ℕ) (m : Message P) (v : Result Unit) (q q' : RedisQueue client codec dlq_suffix)
      (mq : InMemoryMessageQueue P) (w w' : W)
      → Represents client codec dlq_suffix q mq
      → settle (redis_port client codec dlq_suffix) r m v (q, w) ≡ (ok tt, (q', w'))
      → (w' ≡ w)
        × ((settle memory_port r m v (mq, w)).0 ≡ ok tt)
        × ((settle memory_port r m v (mq, w)).1.1 ≡ w)
        × Represents client codec dlq_suffix q' (settle memory_port r m v (mq, w)).1.0
  unfolding settle
  settle-Represents r m (ok _) q q' mq w w' rep h =
      let (e, same) = on_queue-eq-ok (ack client codec dlq_suffix m) q q' w w' tt h in
      (
        same,
        (settles_ok mq "" m "").0,
        refl,
        ack-Represents client codec dlq_suffix m q q' mq rep e,
      )
  settle-Represents r m (err x) q q' mq w w' rep h = elim (Bool-cases (ltb r m.attempts)) [
    | inl used_up ↦
        let (e, same) =
          on_queue-eq-ok (dead_letter client codec dlq_suffix m (message x)) q q' w w' tt
            (rw used_up at h) in
        rw used_up (
          same,
          (settles_ok mq "" m (message x)).2,
          refl,
          dead_letter-Represents client codec dlq_suffix m (message x) q q' mq rep e,
        )
    | inr again ↦
        let (e, same) =
          on_queue-eq-ok (requeue client codec dlq_suffix m) q q' w w' tt (rw again at h) in
        rw again (
          same,
          (settles_ok mq "" m "").1,
          refl,
          requeue-Represents client codec dlq_suffix m q q' mq rep e,
        )
  ]

  deliver-Represents :
      (h : P → Action W Unit) (r : ℕ) (m : Option (Message P))
      (q q' : RedisQueue client codec dlq_suffix) (mq : InMemoryMessageQueue P) (w w' : W)
      (more : Bool)
      → Represents client codec dlq_suffix q mq
      → deliver (redis_port client codec dlq_suffix) (aside h) r m (q, w) ≡ (ok more, (q', w'))
      → let (res, s) = deliver memory_port (aside h) r m (mq, w) in
        (res ≡ ok more) × (s.1 ≡ w') × Represents client codec dlq_suffix q' s.0
  unfolding deliver
  deliver-Represents h r none q q' mq w w' more rep run = (
    ground arith,
    ground arith,
    subst (λ x. Represents client codec dlq_suffix x mq) (ap (λ x. x.1.0) run) rep,
  )
  deliver-Represents h r (some m) q q' mq w w' more rep run =
      let v = (h m.payload w).0 in
      let w1 = (h m.payload w).1 in
      let (_, settled, ends) =
        >>=-eq-ok (settle (redis_port client codec dlq_suffix) r m v) (λ _. pure true) (q, w1)
          (q', w') run in
      let (same, fine, left, rep') = settle-Represents r m v q q' mq w1 w' rep (ground arith) in
      (
        ground (arith, fine),
        ground (arith, left, fine),
        subst (Represents client codec dlq_suffix q') (ground (arith, fine)) rep',
      )

  -- When `consume_once` over Redis succeeds on a main queue whose entries are the waiting messages
  -- of an in-memory queue, with a handler that does not touch the queue, the in-memory queue gives
  -- the same answer, the handler has the same effect, and the entries are again the waiting
  -- messages.
  pub consume_once-Represents :
      (queue : String) (h : P → Action W Unit) (r : ℕ) (q q' : RedisQueue client codec dlq_suffix)
      (mq : InMemoryMessageQueue P) (w w' : W) (more : Bool)
      → IsMain client codec dlq_suffix queue
      → Represents client codec dlq_suffix q mq
      → consume_once (redis_port client codec dlq_suffix) queue (aside h) r (q, w)
        ≡ (ok more, (q', w'))
      → let (res, s) = consume_once memory_port queue (aside h) r (mq, w) in
        (res ≡ ok more) × (s.1 ≡ w') × Represents client codec dlq_suffix q' s.0
  unfolding consume_once
  consume_once-Represents queue h r q q' mq w w' more main rep run =
      let (m, took, delivers) =
        >>=-eq-ok (on_queue (reserve client codec dlq_suffix queue))
          (deliver (redis_port client codec dlq_suffix) (aside h) r) (q, w) (q', w') run in
      let q1 = (reserve client codec dlq_suffix queue q).1 in
      let (same, rep1) =
        reserve-Represents client codec dlq_suffix q mq rep queue m q1 main (ground arith)
          (client.items q.db queue) refl in
      let (fine, world, rep2) =
        deliver-Represents h r m q1 q' (Memory.reserve queue mq).1 w w' more rep1 delivers in
      rw (consume_once-eq-deliver memory_port queue (aside h) r mq w same) (fine, world, rep2)
