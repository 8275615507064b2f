-- ===== src/Core/Queue/Redis/Reliable.antt =====
-- Where the bytes of a message are, from `reserve` to the operation that settles it.
use scraper_v_hezzian.Core.Queue.Redis.{RedisClient, Codec, reserve, RedisQueue}
use scraper_v_hezzian.Core.Queue.Redis.Keys.{processing_key, ne-processing_key}
use scraper_v_hezzian.Prelude.{
  string_eq, Eq, String, ◌≡◌, ◌≢◌, Option, some, List, [], ◌∷◌, ◌++◌, Option-cases, inl, inr, arith,
  eq_iff,
}
use scraper_v_hezzian.Prelude.Dict
use scraper_v_hezzian.Prelude.Dict.{Dict, beq_refl, get-put_self}
use scraper_v_hezzian.Exceptions.{ok}
use scraper_v_hezzian.Core.Queue.{Message, delivered}

module _ {P Raw : Type 0} ⦃e : Eq Raw⦄ (client : RedisClient Raw) (codec : Codec P Raw)
    (dlq_suffix : String) where
  -- `reserve` that succeeds on a queue with entries hands out the oldest, with one more attempt
  -- than its bytes say, and appends those bytes as they are to the processing list; no other
  -- list changes, and the bytes are remembered under the message's id.
  pub reserve_moves :
      (queue : String) (q q' : RedisQueue client codec dlq_suffix) (m : Option (Message P))
      (raw : Raw) (raws : List Raw)
      → client.items q.db queue ≡ raw ∷ raws
      → reserve client codec dlq_suffix queue q ≡ (ok m, q')
      → (m ≡ some (delivered (codec.decode raw)))
        × (client.items q'.db queue ≡ raws)
        × (client.items q'.db (processing_key queue)
            ≡ client.items q.db (processing_key queue) ++ raw ∷ [])
        × (Dict.get q'.inflight (codec.decode raw).id ≡ some raw)
        × ((k : String)
            → k ≢ queue
            → k ≢ processing_key queue
            → client.items q'.db k ≡ client.items q.db k)
  unfolding reserve
  reserve_moves queue q q' m raw raws h r =
      elim (Option-cases (client.lmove queue (processing_key queue) q.db)) [
        | inl failed ↦ absurd (ground arith)
        | inr ((moved, db), e) ↦
            let ne = ne-processing_key queue in
            let law = λ (k : String).
              client.lmove_items queue (processing_key queue) q.db db k raw raws ne h moved e in
            (
              ground (arith, law queue),
              ground (arith, law queue, beq_refl queue),
              ground (
                arith,
                law (processing_key queue),
                eq_iff queue (processing_key queue),
                ne,
                beq_refl (processing_key queue),
              ),
              ground (arith, law queue, get-put_self q.inflight (codec.decode raw).id raw),
              λ k a b. ground (arith, law k, eq_iff queue k, eq_iff (processing_key queue) k),
            )
      ]
