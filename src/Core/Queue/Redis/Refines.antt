-- ===== src/Core/Queue/Redis/Refines.antt =====
-- The Redis queue implements the in-memory queue: what waits there, and what an operation that
-- succeeds returns, are the same.
use scraper_v_hezzian.Core.Queue.Redis.Reliable.{reserve_moves}
use scraper_v_hezzian.Core.Queue.Memory.Laws.{waiting-publish, reserve-cons, reserve-nil}
use mathlib.Core.List.{map-append}
use scraper_v_hezzian.Prelude.{
  string_eq, Option-cases, Eq, String, ◌≡◌, ◌≢◌, inl, inr, [], ◌∷◌, map, arith, if◌then◌else◌, ◌==◌,
  sym, ap, ◌∙◌, Option, List, ◌++◌, eq_iff,
}
use scraper_v_hezzian.Exceptions.{ok, Result}
use scraper_v_hezzian.Core.Queue.{fresh_message, Message}
use scraper_v_hezzian.Core.Queue.Memory as Memory
use scraper_v_hezzian.Core.Queue.Memory.{InMemoryMessageQueue, waiting}
use scraper_v_hezzian.Core.Queue.Redis.{
  RedisClient, Codec, RedisQueue, publish, processing_key, dlq_key, original, reserve, unprocess,
  push,
}

module _ {P Raw : Type 0} ⦃e : Eq Raw⦄ (client : RedisClient Raw) (codec : Codec P Raw)
    (dlq_suffix : String) where
  abbrev Redis : Type 0
  Redis = RedisQueue client codec dlq_suffix

  -- The name of a list that is neither a processing list nor a dead-letter list.
  pub record IsMain (j : String) : Type 0 where
    pub not_processing : (k : String) → processing_key k ≢ j
    pub not_dlq : (k : String) → dlq_key dlq_suffix k ≢ j

  -- The entries of each main list are the waiting messages, in order.
  pub record Represents (q : RedisQueue client codec dlq_suffix) (mq : InMemoryMessageQueue P)
      : Type 0 where
    pub waiting_eq : (j : String) → IsMain j → map codec.decode (client.items q.db j) ≡ waiting mq j

  module _ (q : RedisQueue client codec dlq_suffix) (mq : InMemoryMessageQueue P)
      (rep : Represents q mq) where
    pub publish-Represents :
        (msg_id queue : String) (payload : P) (res : String)
        (q' : RedisQueue client codec dlq_suffix)
        → publish client codec dlq_suffix msg_id queue payload q ≡ (ok res, q')
        → (res ≡ msg_id) × Represents q' (Memory.publish msg_id queue payload mq).1
    unfolding publish
    publish-Represents msg_id queue payload res q' h =
        let m = fresh_message msg_id queue payload in
        elim (Option-cases (client.rpush queue (codec.encode m) q.db)) [
          | inl failed ↦ absurd (ground arith)
          | inr (db, ok_push) ↦ (
            ground arith,
            record {
              waiting_eq = λ j main. ground (
                arith,
                client.rpush_items queue (codec.encode m) q.db db j ok_push,
                rep.waiting_eq j main,
                waiting-publish mq j msg_id queue payload,
                map-append codec.decode (client.items q.db j) (codec.encode m ∷ []),
                codec.decode-encode m,
              );
            },
          )
        ]

    pub reserve-Represents :
        (queue : String) (m : Option (Message P)) (q' : RedisQueue client codec dlq_suffix)
        → IsMain queue
        → reserve client codec dlq_suffix queue q ≡ (ok m, q')
        → (raws : List Raw) → client.items q.db queue ≡ raws
        → ((Memory.reserve queue mq).0 ≡ ok m) × Represents q' (Memory.reserve queue mq).1
    unfolding reserve
    reserve-Represents queue m q' main h [] e =
        let empty =
          reserve-nil mq queue (sym (rep.waiting_eq queue main) ∙ ap (map codec.decode) e) in
        elim (Option-cases (client.lmove queue (processing_key queue) q.db)) [
          | inl failed ↦ absurd (ground arith)
          | inr ((moved, db), ok_move) ↦
              let law = λ (k : String).
                client.lmove_none queue (processing_key queue) q.db db k e moved ok_move in
              (
                ground (arith, law queue, empty),
                record {
                  waiting_eq =
                      λ j j_main. ground (arith, law queue, law j, rep.waiting_eq j j_main, empty);
                },
              )
        ]
    reserve-Represents queue m q' main h (raw ∷ raws) e =
        let head = sym (rep.waiting_eq queue main) ∙ ap (map codec.decode) e in
        let (got, left, _, _, others) =
          reserve_moves client codec dlq_suffix queue q q' m raw raws e h in
        let law =
          λ (j : String). reserve-cons mq j queue (codec.decode raw) (map codec.decode raws) head in
        (
          ground (arith, law queue, got),
          record {
            waiting_eq = λ j j_main. ground (
              arith,
              law j,
              got,
              left,
              others j,
              j_main.not_processing queue,
              rep.waiting_eq j j_main,
              eq_iff queue j,
            );
          },
        )

    -- Taking bytes off a processing list leaves the main lists alone.
    pub unprocess-Represents :
        (failed : String) (m : Message P) (res : Result Unit)
        (q' : RedisQueue client codec dlq_suffix)
        → unprocess client codec dlq_suffix failed m q ≡ (res, q')
        → Represents q' mq
    unfolding unprocess
    unprocess-Represents failed m res q' h =
        let raw = original client codec dlq_suffix m q in
        elim (Option-cases (client.lrem (processing_key m.queue) raw q.db)) [
          | inl refused ↦ record { waiting_eq = λ j main. ground (arith, rep.waiting_eq j main) }
          | inr (db, removed) ↦ record {
            waiting_eq = λ j main. ground (
              arith,
              client.lrem_items (processing_key m.queue) raw q.db db j removed,
              rep.waiting_eq j main,
              main.not_processing m.queue,
              eq_iff (processing_key m.queue) j,
            );
          }
        ]

    pub push-Represents_main :
        (failed name : String) (m : Message P) (q' : RedisQueue client codec dlq_suffix)
        (mq' : InMemoryMessageQueue P)
        → ((j : String)
            → waiting mq' j ≡ (if name == j then waiting mq j ++ m ∷ [] else waiting mq j))
        → push client codec dlq_suffix failed name (codec.encode m) q ≡ (ok tt, q')
        → Represents q' mq'
    unfolding push
    push-Represents_main failed name m q' mq' eq h =
        elim (Option-cases (client.rpush name (codec.encode m) q.db)) [
          | inl refused ↦ absurd (ground arith)
          | inr (db, pushed) ↦ record {
            waiting_eq = λ j main. ground (
              arith,
              eq j,
              client.rpush_items name (codec.encode m) q.db db j pushed,
              rep.waiting_eq j main,
              map-append codec.decode (client.items q.db j) (codec.encode m ∷ []),
              codec.decode-encode m,
            );
          }
        ]

    pub push-Represents_dlq :
        (failed queue : String) (raw : Raw) (q' : RedisQueue client codec dlq_suffix)
        → push client codec dlq_suffix failed (dlq_key dlq_suffix queue) raw q ≡ (ok tt, q')
        → Represents q' mq
    unfolding push
    push-Represents_dlq failed queue raw q' h =
        elim (Option-cases (client.rpush (dlq_key dlq_suffix queue) raw q.db)) [
          | inl refused ↦ absurd (ground arith)
          | inr (db, pushed) ↦ record {
            waiting_eq = λ j main. ground (
              arith,
              client.rpush_items (dlq_key dlq_suffix queue) raw q.db db j pushed,
              rep.waiting_eq j main,
              main.not_dlq queue,
              eq_iff (dlq_key dlq_suffix queue) j,
            );
          }
        ]

    pub unchanged :
        (mq' : InMemoryMessageQueue P)
        → ((j : String) → waiting mq' j ≡ waiting mq j)
        → Represents q mq'
    unchanged mq' eq = record { waiting_eq = λ j main. rep.waiting_eq j main ∙ sym (eq j) }
