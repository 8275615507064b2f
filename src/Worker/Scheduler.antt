-- ===== src/Worker/Scheduler.antt =====
-- scrapeforge/worker/scheduler.py
-- The table of sources is the list of its rows in the order of their ids; of `params`, the keys
-- that the scheduler reads. `uuid n` and `message_id n` are the ids that `uuid4` gives to the n-th
-- job of a run and to its message, and `now n` is the time at which that job is created.
pub mod Enqueues
mod Examples
use scraper_v_hezzian.Prelude.{
  string_eq, ℕ, ◌+◌, String, Bool, Option, none, some, List, [], ◌∷◌, filter, if◌then◌else◌, ◌==◌,
}
use scraper_v_hezzian.Exceptions.{Action, ok, err}
use scraper_v_hezzian.Core.Db.{Database, create_job}
use scraper_v_hezzian.Core.Queue.{MessageQueue}
use scraper_v_hezzian.Worker.Messages.{Payload, job_message, ingest_message}
use scraper_v_hezzian.Worker.ScraperWorker.{or_else}

pub record Source : Type 0 where
  pub name : String
  pub bucket : String
  pub enabled : Bool
  pub platform : Option String
  pub url : Option String
  pub limit : Option ℕ

pub record SchedulerRun : Type 1 where
  pub database : Database
  pub uuid : ℕ → String
  pub message_id : ℕ → String
  pub now : ℕ → ℕ
  pub job_queue : String
  pub ingest_queue : String

-- `_list_enabled_sources`
unfoldable pub list_enabled_sources : List Source → List Source
list_enabled_sources sources = filter (λ s. s.enabled) sources

-- The message of a source, by its platform; a missing one and an empty one are the same.
unfoldable pub message_for : String → Source → Payload
message_for job_id s =
    if or_else s.platform "" == ""
    then job_message
        (record { job_id = job_id; url = or_else s.url s.name; bucket = some s.bucket })
    else ingest_message (record {
      job_id = job_id;
      platform = or_else s.platform "";
      target = or_else s.url s.name;
      bucket = s.bucket;
      limit = elim s.limit [ none ↦ 25 | some n ↦ n ];
    })

module _ (R : SchedulerRun) where
  unfoldable pub queue_for : Source → String
  queue_for s = if or_else s.platform "" == "" then R.job_queue else R.ingest_queue

  module _ {Q : Type 0} (port : MessageQueue Payload Q) where
    -- The loop over the sources, from the n-th on.
    unfoldable pub enqueue_all : ℕ → List Source → Action (Q × R.database.Db) ℕ
    enqueue_all n [] (q, db) = (ok n, (q, db))
    enqueue_all n (s ∷ ss) (q, db) =
        let (_, db') = create_job R.database (R.uuid n) s.name (R.now n) db in
        let (r, q') = port.publish (R.message_id n) (queue_for s) (message_for (R.uuid n) s) q in
        let rest = enqueue_all (n + 1) ss (q', db') in
        elim r [ ok _ ↦ rest | err e ↦ (err e, (q', db')) ]

    unfoldable pub enqueue_due_sources : List Source → Action (Q × R.database.Db) ℕ
    enqueue_due_sources sources = enqueue_all 0 (list_enabled_sources sources)
