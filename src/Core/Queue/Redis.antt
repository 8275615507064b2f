-- ===== src/Core/Queue/Redis.antt =====
-- scrapeforge/core/queue/redis_queue.py
-- The Redis server and the JSON codec are not code of the repository: they are the parameters
-- `RedisClient` and `Codec`, with the documented behaviour that the queue relies on. The texts of
-- the exceptions are shortened: they leave out the message's id and the client's own text.
mod Keys
pub use Keys.{ne-processing_key, short-ne-processing_key, short-ne-dlq_key}
unfoldable pub use Keys.{processing_key, dlq_key}
pub mod Reliable
pub mod Refines
pub mod Consume
pub mod Faults
mod Server
mod Examples
use scraper_v_hezzian.Prelude.{
  string_eq, ℕ, if◌then◌else◌, Eq, ◌==◌, length, String, ◌≡◌, Option, none, some, List, [], ◌∷◌,
  ◌++◌,
}
use scraper_v_hezzian.Prelude.Dict
use scraper_v_hezzian.Prelude.Dict.{Dict}
use scraper_v_hezzian.Exceptions.{◌>>◌, Action, queue_error, ok, err}
use scraper_v_hezzian.Core.Queue.{Message, MessageQueue, fresh_message, delivered}

-- `lrem name 1 value`: the first entry that is equal to the value.
unfoldable pub remove_first {ℓ} : {A : Type ℓ} ⦃e : Eq A⦄ → A → List A → List A
remove_first a [] = []
remove_first a (x ∷ xs) = if x == a then xs else x ∷ remove_first a xs

-- A server state `Db` holds the lists. A command raises `RedisError` and changes nothing, or it
-- does what the documentation says. `items` is the view of the lists, left to right.
pub record RedisClient (Raw : Type 0) ⦃e : Eq Raw⦄ : Type 1 where
  pub Db : Type 0
  pub items : Db → String → List Raw
  pub rpush : String → Raw → Db → Option Db
  pub lmove : String → String → Db → Option (Option Raw × Db)
  pub lrem : String → Raw → Db → Option Db
  pub llen : String → Db → Option ℕ
  pub rpush_items :
      (name : String) (v : Raw) (db db' : Db) (k : String)
      → rpush name v db ≡ some db'
      → items db' k ≡ (if name == k then items db k ++ v ∷ [] else items db k)
  pub lmove_none :
      (src dst : String) (db db' : Db) (k : String)
      → items db src ≡ []
      → (r : Option Raw) → lmove src dst db ≡ some (r, db')
      → (r ≡ none) × (items db' k ≡ items db k)
  pub lmove_items :
      (src dst : String) (db db' : Db) (k : String) (v : Raw) (vs : List Raw)
      → ¬ (src ≡ dst)
      → items db src ≡ v ∷ vs
      → (r : Option Raw) → lmove src dst db ≡ some (r, db')
      → (r ≡ some v)
        × (items db' k
            ≡ (if src == k then vs else if dst == k then items db k ++ v ∷ [] else items db k))
  pub lrem_items :
      (name : String) (v : Raw) (db db' : Db) (k : String)
      → lrem name v db ≡ some db'
      → items db' k ≡ (if name == k then remove_first v (items db k) else items db k)
  pub llen_items :
      (name : String) (db : Db) (n : ℕ) → llen name db ≡ some n → n ≡ length (items db name)

-- `_encode`, `_decode` and the dead-letter entry, over `json`.
pub record Codec (P Raw : Type 0) : Type 0 where
  pub encode : Message P → Raw
  pub decode : Raw → Message P
  pub encode_dead : Message P → String → Raw
  pub decode-encode : (m : Message P) → decode (encode m) ≡ m

module _ {P Raw : Type 0} ⦃e : Eq Raw⦄ (client : RedisClient Raw) (codec : Codec P Raw)
    (dlq_suffix : String) where
  pub record RedisQueue : Type 0 where
    pub db : client.Db
    pub inflight : Dict String Raw

  -- The bytes that `lmove` deposited, `self._inflight.pop(message.id, self._encode(message))`.
  unfoldable pub original : Message P → RedisQueue → Raw
  original m q = Dict.get_or q.inflight m.id (codec.encode m)

  unfoldable pub forget : Message P → RedisQueue → RedisQueue
  forget m q = record q { inflight = Dict.remove q.inflight m.id }

  pub with_db : RedisQueue → client.Db → RedisQueue
  with_db q db = record q { db = db }

  unfoldable pub publish : String → String → P → Action RedisQueue String
  unfolding with_db
  publish msg_id queue payload q =
      elim (client.rpush queue (codec.encode (fresh_message msg_id queue payload)) q.db) [
        | none ↦ (err (queue_error "publish failed"), q)
        | some db ↦ (ok msg_id, with_db q db)
      ]

  hand_out : Option Raw × client.Db → Action RedisQueue (Option (Message P))
  unfolding with_db
  hand_out (none, db) q = (ok none, with_db q db)
  hand_out (some raw, db) q =
      let m = delivered (codec.decode raw) in
      (ok (some m), record { db = db; inflight = Dict.put q.inflight m.id raw })

  unfoldable pub reserve : String → Action RedisQueue (Option (Message P))
  unfolding hand_out
  reserve queue q = elim (client.lmove queue (processing_key queue) q.db) [
    | none ↦ (err (queue_error "reserve failed"), q)
    | some moved ↦ hand_out moved q
  ]

  -- `lrem(proc_key, 1, raw)`: the original bytes leave the processing list.
  unfoldable pub unprocess : String → Message P → Action RedisQueue Unit
  unfolding original forget with_db
  unprocess failed m q = elim (client.lrem (processing_key m.queue) (original m q) q.db) [
    | none ↦ (err (queue_error failed), forget m q)
    | some db ↦ (ok tt, with_db (forget m q) db)
  ]

  unfoldable pub push : String → String → Raw → Action RedisQueue Unit
  unfolding with_db
  push failed name raw q = elim (client.rpush name raw q.db) [
    | none ↦ (err (queue_error failed), q)
    | some db ↦ (ok tt, with_db q db)
  ]

  unfoldable pub ack : Message P → Action RedisQueue Unit
  unfolding unprocess
  ack m = unprocess "ack failed" m

  unfoldable pub requeue : Message P → Action RedisQueue Unit
  unfolding unprocess push
  requeue m = unprocess "requeue failed" m >> push "requeue failed" m.queue (codec.encode m)

  unfoldable pub dead_letter : Message P → String → Action RedisQueue Unit
  unfolding unprocess push
  dead_letter m error =
      unprocess "dead_letter failed" m
      >> push "dead_letter failed" (dlq_key dlq_suffix m.queue) (codec.encode_dead m error)

  unfoldable pub size : String → Action RedisQueue ℕ
  size queue q = elim (client.llen queue q.db) [
    | none ↦ (err (queue_error "size failed"), q)
    | some n ↦ (ok n, q)
  ]

  abbrev pub redis_port : MessageQueue P RedisQueue
  redis_port = record {
    publish = publish;
    reserve = reserve;
    ack = ack;
    requeue = requeue;
    dead_letter = dead_letter;
    size = size;
  }
