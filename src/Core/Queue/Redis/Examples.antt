-- ===== src/Core/Queue/Redis/Examples.antt =====
-- One job on a queue of the Redis server in memory.
use scraper_v_hezzian.Core.Queue.Redis.Refines.{IsMain, Represents}
use scraper_v_hezzian.Core.Queue.Redis.Consume.{consume_once-Represents, aside}
use scraper_v_hezzian.Prelude.Dict
use scraper_v_hezzian.Prelude.Dict.{Dict}
use scraper_v_hezzian.Prelude.{
  string_eq, ap, nat_eq, ℕ, ◌≡◌, ◌≢◌, String, some, false, ◌==◌, [], ◌∷◌, refl, All, ◌+◌, true,
  List, map, arith,
}
use scraper_v_hezzian.Exceptions.{ok, Action}
use scraper_v_hezzian.Core.Queue.{Message, delivered, consume_once}
use scraper_v_hezzian.Core.Queue.Memory.{InMemoryMessageQueue, memory_port, waiting}
use scraper_v_hezzian.Core.Queue.Redis.{
  short-ne-processing_key, short-ne-dlq_key, RedisClient, RedisQueue, reserve, ack, processing_key,
  redis_port, dlq_key,
}
use scraper_v_hezzian.Core.Queue.Redis.Server.{server, plain, message_eq, entries_of}

abbrev job : Message ℕ
job = record { id = "id"; queue = "job"; payload = 5; attempts = 0 }

abbrev up : RedisClient (Message ℕ)
up = server (λ name. false)

abbrev one_job : RedisQueue up plain ":dlq"
one_job = record { db = record { entries = ("job", job ∷ []) ∷ [] }; inflight = Dict.empty }

-- The queue after the job is handed out, and after it is acknowledged.
abbrev handed_out : RedisQueue up plain ":dlq"
handed_out = (reserve up plain ":dlq" "job" one_job).1

abbrev acknowledged : RedisQueue up plain ":dlq"
acknowledged = (ack up plain ":dlq" (delivered job) handed_out).1

reserves : reserve up plain ":dlq" "job" one_job ≡ (ok (some (delivered job)), handed_out)
unfolding reserve Dict.get_or
reserves = refl

acks : ack up plain ":dlq" (delivered job) handed_out ≡ (ok tt, acknowledged)
unfolding ack
acks = refl

entries : entries_of one_job.db "job" ≡ job ∷ []
unfolding Dict.get_or
entries = refl

none_processing : All (λ x. (x == job) ≡ false) (entries_of one_job.db (processing_key "job"))
unfolding Dict.get_or processing_key
none_processing = tt

-- The in-memory queue with the same job.
abbrev same_job : InMemoryMessageQueue ℕ
same_job = record {
  queues = record { entries = ("job", job ∷ []) ∷ [] };
  inflight = Dict.empty;
  dead = Dict.empty;
}

-- The handler adds the payload to a sum.
abbrev add : ℕ → Action ℕ Unit
add payload sum = (ok tt, sum + payload)

abbrev consumed : RedisQueue up plain ":dlq"
consumed = (consume_once (redis_port up plain ":dlq") "job" (aside add) 3 (one_job, 0)).1.0

ne_dlq : (k : String) → dlq_key ":dlq" k ≢ "job"
ne_dlq k = short-ne-dlq_key ":dlq" k "job" (omega arith)

decoded : (ms : List (Message ℕ)) → map plain.decode ms ≡ ms
decoded [] = refl
decoded (m ∷ ms) = ap (λ l. m ∷ l) (decoded ms)

same_waiting : (j : String) → map plain.decode (entries_of one_job.db j) ≡ waiting same_job j
unfolding waiting
same_waiting j = decoded (entries_of one_job.db j)

is_main : IsMain up plain ":dlq" "job"
is_main = record {
  not_processing = λ k. short-ne-processing_key k "job" (omega arith);
  not_dlq = λ k. ne_dlq k;
}

represents : Represents up plain ":dlq" one_job same_job
represents = record { waiting_eq = λ j main. same_waiting j }

consumes :
    consume_once (redis_port up plain ":dlq") "job" (aside add) 3 (one_job, 0)
    ≡ (ok true, (consumed, 5))
unfolding consume_once reserve Dict.get_or ack
consumes = refl

consume_once-Represents_example :
    let (res, s) = consume_once memory_port "job" (aside add) 3 (same_job, 0) in
    (res ≡ ok true) × (s.1 ≡ 5) × Represents up plain ":dlq" consumed s.0
consume_once-Represents_example =
    consume_once-Represents up plain ":dlq" "job" add 3 one_job consumed same_job 0 5 true is_main
      represents consumes

-- A server that takes no push to the main list, while the job is being processed.
abbrev down : RedisClient (Message ℕ)
down = server (λ name. name == "job")

abbrev busy : RedisQueue down plain ":dlq"
busy = record {
  db = record { entries = ("job:processing", job ∷ []) ∷ [] };
  inflight = record { entries = ("id", job) ∷ [] };
}

abbrev done_db : Dict String (List (Message ℕ))
done_db = record { entries = ("job:processing", []) ∷ [] }
