-- ===== src/Core/Queue/Redis/Faults.antt =====
-- The processing list: what settles a message takes its bytes off, and a push that fails after
-- that leaves it on no list.
use scraper_v_hezzian.Prelude.Dict
use scraper_v_hezzian.Prelude.Dict.{beq_refl, Dict}
use scraper_v_hezzian.Prelude.{
  string_eq, Eq, ◌==◌, All, String, ◌≡◌, ap, false, some, List, [], ◌∷◌, ◌++◌, arith, eq_iff,
  Option-cases, inl, inr, sym, ◌∙◌,
}
use scraper_v_hezzian.Exceptions.{ok}
use scraper_v_hezzian.Core.Queue.{Message}
use scraper_v_hezzian.Core.Queue.Redis.{
  RedisClient, Codec, RedisQueue, remove_first, original, reserve, unprocess, ack, processing_key,
  ne-processing_key,
}
use scraper_v_hezzian.Core.Queue.Redis.Reliable.{reserve_moves}

remove_first-append :
    {A : Type 0} ⦃e : Eq A⦄ (a : A) (xs : List A)
    → All (λ x. (x == a) ≡ false) xs
    → remove_first a (xs ++ a ∷ []) ≡ xs
unfolding remove_first
remove_first-append a [] h = rw (beq_refl a)
remove_first-append a (x ∷ xs) h = rw h.0 (ap (λ l. x ∷ l) (remove_first-append a xs h.1))

module _ {P Raw : Type 0} ⦃e : Eq Raw⦄ (client : RedisClient Raw) (codec : Codec P Raw)
    (dlq_suffix : String) where
  original-eq :
      (m : Message P) (q : RedisQueue client codec dlq_suffix) (raw : Raw)
      → Dict.get q.inflight m.id ≡ some raw
      → original client codec dlq_suffix m q ≡ raw
  unfolding original Dict.get_or
  original-eq m q raw h = ground arith

  -- A message that is reserved and acknowledged leaves the main list, and the processing list is
  -- what it was: the bytes that `lmove` deposited are the ones that `lrem` removes, if no equal
  -- bytes are in flight.
  pub ack-reserve :
      (queue : String) (q q1 q2 : RedisQueue client codec dlq_suffix) (m : Message P) (raw : Raw)
      (raws : List Raw)
      → client.items q.db queue ≡ raw ∷ raws
      → (codec.decode raw).queue ≡ queue
      → All (λ x. (x == raw) ≡ false) (client.items q.db (processing_key queue))
      → reserve client codec dlq_suffix queue q ≡ (ok (some m), q1)
      → ack client codec dlq_suffix m q1 ≡ (ok tt, q2)
      → (client.items q2.db queue ≡ raws)
        × (client.items q2.db (processing_key queue) ≡ client.items q.db (processing_key queue))
  unfolding ack unprocess
  ack-reserve queue q q1 q2 m raw raws head home unique reserved acked =
      let (same, left, moved, kept, _) =
        reserve_moves client codec dlq_suffix queue q q1 (some m) raw raws head reserved in
      let proc = processing_key queue in
      let at : m.queue ≡ queue = ground arith in
      let bytes : original client codec dlq_suffix m q1 ≡ raw =
        original-eq m q1 raw (ground arith) in
      elim (Option-cases
        (client.lrem (processing_key m.queue) (original client codec dlq_suffix m q1) q1.db)) [
          | inl refused ↦ absurd (ground arith)
          | inr (db, removed) ↦
              let law = λ (k : String).
                client.lrem_items proc raw q1.db db k
                  (sym (λ i. client.lrem (processing_key (at i)) (bytes i) q1.db) ∙ removed) in
              (
                ground (arith, law queue, eq_iff proc queue, ne-processing_key queue),
                ground (
                  arith,
                  law proc,
                  beq_refl proc,
                  remove_first-append raw (client.items q.db proc) unique,
                ),
              )
        ]
