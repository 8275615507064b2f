-- ===== src/Worker/CommunityIngestWorker/Endings.antt =====
-- How an ingest job ends.
use scraper_v_hezzian.Worker.CommunityIngestWorker.Counts.{
  persist_all-Counted, persist_all-contains, persist_all-job,
}
use scraper_v_hezzian.Prelude.{
  if◌then◌else◌, ◌||◌, string_eq, ◌≡◌, String, true, false, none, some, List, length, contains, ap,
  arith, eq_iff, ℕ, ◌∙◌, Bool, Option, [],
}
use scraper_v_hezzian.Exceptions.{other_error, Exception, ok, err, message, >>-ok, pure, raise}
use scraper_v_hezzian.Core.Models.{ScrapeResult}
use scraper_v_hezzian.Core.Db.{Job, running, done, error, update_job_status, updated, JobStatus}
use scraper_v_hezzian.Core.Db.Updates.{
  update_job_status-some, job-update_job_status, article-update_job_status,
}
use scraper_v_hezzian.Core.ObjectStore.{InMemoryObjectStore}
use scraper_v_hezzian.Worker.Messages.{IngestMessage}
use scraper_v_hezzian.Worker.TransformWorker.{Times}
use scraper_v_hezzian.Worker.CommunityIngestWorker.{
  run_ingest, no_scraper, IngestDeps, on_database, ingest, handle_ingest_job, Progress, persist_all,
}
use scraper_v_hezzian.Worker.CommunityIngestWorker.Rounds.{
  start-Counted, NoRepeats, stored_ids, sink_of,
}

module _ {B : Type 0} (I : IngestDeps B) (at : Times) (payload : IngestMessage)
    (o : InMemoryObjectStore B) (db : I.database.Db) (row : Job)
    (known : payload.platform ≡ "substack")
    (there : I.database.job db payload.job_id ≡ some row) where
  abbrev begun_db : I.database.Db
  begun_db =
      (update_job_status I.database payload.job_id running none none true false at.started db).1

  abbrev begun_row : Job
  begun_row = record row { status = running; started_at = some at.started }

  begun_job : I.database.job begun_db payload.job_id ≡ some begun_row
  unfolding updated
  begun_job = ground (
    arith,
    job-update_job_status I.database payload.job_id running none none true false at.started db row
        payload.job_id there,
    eq_iff payload.job_id payload.job_id,
  )

  begun :
      handle_ingest_job I at payload (o, db)
      ≡ ingest I at payload (I.scrape_publication payload.target payload.limit) (o, begun_db)
  unfolding handle_ingest_job run_ingest
  begun =
      ap
        (λ b.
          (if b then run_ingest I at payload else raise (other_error (no_scraper payload.platform)))
            (o, db))
        ((eq_iff payload.platform "substack").1 known)
      ∙ >>-ok
          (on_database I
            (update_job_status I.database payload.job_id running none none true false at.started))
          (ingest I at payload (I.scrape_publication payload.target payload.limit)) (o, db)
          (ap (λ x. x.0)
            (update_job_status-some I.database payload.job_id running none none true false
              at.started db row there))

  abbrev start : Progress I
  start = (o, (record { db = begun_db; seen_cache = [] }, 0))

  abbrev looped : List ScrapeResult → Progress I
  looped results = persist_all I at.fetched payload.bucket results start

  looped_job :
      (results : List ScrapeResult)
      → I.database.job (sink_of I (looped results)).db payload.job_id ≡ some begun_row
  looped_job results =
      persist_all-job I at.fetched payload.bucket results start payload.job_id ∙ begun_job

  marked :
      (status : JobStatus) (count : Option ℕ) (text : Option String) (db : I.database.Db)
      (row : Job)
      → I.database.job db payload.job_id ≡ some row
      → I.database.job
          (update_job_status I.database payload.job_id status count text false true at.finished
            db).1
          payload.job_id
        ≡ some (updated I.database status count text false true at.finished row)
  marked status count text db row h = ground (
    arith,
    job-update_job_status I.database payload.job_id status count text false true at.finished db row
        payload.job_id h,
    eq_iff payload.job_id payload.job_id,
  )

  failing :
      (e : Exception)
      → ingest I at payload (err e) (o, begun_db) ≡ (
        err e,
        (
          o,
          (update_job_status I.database payload.job_id error
              (some 0)
              (some (message e))
              false
              true
              at.finished
              begun_db).1,
        ),
      )
  unfolding ingest
  failing e =
      >>-ok
        (on_database I (
          update_job_status I.database payload.job_id error (some 0) (some (message e)) false true
            at.finished))
        (raise e) (o, begun_db)
        (ap (λ x. x.0)
          (update_job_status-some I.database payload.job_id error (some 0) (some (message e)) false
            true at.finished begun_db begun_row begun_job))

  succeeding :
      (results : List ScrapeResult)
      → ingest I at payload (ok results) (o, begun_db) ≡ (
        ok (looped results).1.1,
        (
          (looped results).0,
          (update_job_status I.database payload.job_id done
              (some (looped results).1.1)
              none
              false
              true
              at.finished
              (sink_of I (looped results)).db).1,
        ),
      )
  unfolding ingest
  succeeding results =
      let s = looped results in
      >>-ok
        (on_database I (
          update_job_status I.database payload.job_id done (some s.1.1) none false true
            at.finished))
        (pure s.1.1) (s.0, s.1.0.db)
        (ap (λ x. x.0)
          (update_job_status-some I.database payload.job_id done (some s.1.1) none false true
            at.finished s.1.0.db begun_row (looped_job results)))

  or_nothing : (b : Bool) (id : String) → b || contains id [] ≡ b
  unfolding contains
  or_nothing b id = ground arith

  -- When the platform is Substack, the job is in the table, and the scraper gives its results,
  -- the handler returns the number of different URL ids among the successful results that have
  -- an article, and the job is `done` with that number as its count.
  pub handle_ingest_job-done :
      (results : List ScrapeResult)
      → I.scrape_publication payload.target payload.limit ≡ ok results
      → let (r, (_, db')) = handle_ingest_job I at payload (o, db) in
        (ids : List String) × (r ≡ ok (length ids))
        × NoRepeats ids
        × ((id : String) → contains id ids ≡ contains id (stored_ids I results))
        × (I.database.job db' payload.job_id
            ≡ some (record begun_row {
              status = done;
              finished_at = some at.finished;
              result_count = length ids;
            }))
  unfolding updated
  handle_ingest_job-done results given =
      let s = looped results in
      let c =
        persist_all-Counted I at.fetched payload.bucket results start
          (start-Counted I o begun_db) in
      let ids = (sink_of I s).seen_cache in
      let eq = begun ∙ ap (λ x. ingest I at payload x (o, begun_db)) given ∙ succeeding results in
      (
        ids,
        ap (λ x. x.0) eq ∙ ap ok c.counts,
        c.no_repeats,
        λ id.
            persist_all-contains I at.fetched payload.bucket results start id
            ∙ or_nothing (contains id (stored_ids I results)) id,
        ap (λ x. I.database.job x.1.1 payload.job_id) eq
            ∙ marked done (some s.1.1) none (sink_of I s).db begun_row (looped_job results)
            ∙ ap
                (λ n. some (record begun_row {
                  status = done;
                  finished_at = some at.finished;
                  result_count = n;
                }))
                c.counts,
      )

  -- When the platform is Substack, the job is in the table, and the scraper raises, the job is
  -- `error` with no result and the exception's message, the handler raises the same exception,
  -- and no article and no object has changed.
  pub handle_ingest_job-error :
      (e : Exception)
      → I.scrape_publication payload.target payload.limit ≡ err e
      → let (r, (o', db')) = handle_ingest_job I at payload (o, db) in
        (r ≡ err e)
        × (I.database.job db' payload.job_id
            ≡ some (record begun_row {
              status = error;
              finished_at = some at.finished;
              result_count = 0;
              error_text = some (message e);
            }))
        × ((k : String) → I.database.article db' k ≡ I.database.article db k)
        × (o' ≡ o)
  unfolding updated
  handle_ingest_job-error e given =
      let mark = on_database I (
        update_job_status I.database payload.job_id error (some 0) (some (message e)) false true
          at.finished) in
      let eq = begun ∙ ap (λ x. ingest I at payload x (o, begun_db)) given ∙ failing e in
      (
        ap (λ x. x.0) eq,
        ap (λ x. I.database.job x.1.1 payload.job_id) eq
            ∙ marked error (some 0) (some (message e)) begun_db begun_row begun_job,
        λ k.
            ap (λ x. I.database.article x.1.1 k) eq
            ∙ article-update_job_status I.database payload.job_id error (some 0) (some (message e))
                false true at.finished begun_db k
            ∙ article-update_job_status I.database payload.job_id running none none true false
                at.started db k,
        ap (λ x. x.1.0) eq,
      )
