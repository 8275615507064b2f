-- ===== src/Worker/Scheduler/Enqueues.antt =====
-- What a tick of the scheduler puts on the in-memory queue and into the table of jobs.
use scraper_v_hezzian.Prelude.{
  string_eq, ℕ, ◌+◌, ◌≡◌, String, none, some, List, [], ◌∷◌, if◌then◌else◌, ◌==◌,
}
use scraper_v_hezzian.Core.Db.{Job, queued}
use scraper_v_hezzian.Core.Queue.{Message, fresh_message}
use scraper_v_hezzian.Core.Queue.Memory.{InMemoryMessageQueue}
use scraper_v_hezzian.Worker.Messages.{Payload}
use scraper_v_hezzian.Worker.Scheduler.{Source, SchedulerRun, message_for, queue_for}

module _ (R : SchedulerRun) where
  -- The messages for a queue, one for each source that goes to it, in order.
  pub messages_for : String → ℕ → List Source → List (Message Payload)
  messages_for j n [] = []
  messages_for j n (s ∷ ss) =
      let rest = messages_for j (n + 1) ss in
      if queue_for R s == j
      then fresh_message (R.message_id n) (queue_for R s) (message_for (R.uuid n) s) ∷ rest
      else rest

  -- The row of the n-th job.
  abbrev pub job_row : ℕ → Source → Job
  job_row n s = record {
    id = R.uuid n;
    status = queued;
    source = s.name;
    created_at = R.now n;
    started_at = none;
    finished_at = none;
    result_count = 0;
    error_text = none;
  }

  abbrev pub World : Type 0
  World = InMemoryMessageQueue Payload × R.database.Db

  -- The job of every source, from the n-th on, is in the table.
  pub AreQueued : ℕ → List Source → R.database.Db → Type 0
  AreQueued n [] db = Unit
  AreQueued n (s ∷ ss) db =
      (R.database.job db (R.uuid n) ≡ some (job_row n s)) × AreQueued (n + 1) ss db
