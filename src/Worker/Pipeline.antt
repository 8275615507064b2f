-- ===== src/Worker/Pipeline.antt =====
-- The two stages of the ingestion pipeline after each other: scraper_worker.py writes the raw
-- payload and the pointer, transform_worker.py reads them.
use scraper_v_hezzian.Worker.TransformWorker.Lifecycle.{
  handle_result_pointer-done, handle_result_pointer-error,
}
use scraper_v_hezzian.Worker.TransformWorker.Ways.{new_row}
use scraper_v_hezzian.Worker.ScraperWorker.Archive.{handle_scrape_job-archives}
use Prim.Native.String.{count}
use scraper_v_hezzian.Prelude.{
  string_eq, ◌≡◌, ◌≢◌, String, some, ◌≤◌, refl, ap, true, arith, sym, ◌∙◌, subst, inl,
}
use scraper_v_hezzian.Exceptions.{Action, ok}
use scraper_v_hezzian.Core.Models.{ScrapeResult, success}
use scraper_v_hezzian.Core.Queue.{MessageQueue}
use scraper_v_hezzian.Core.Db.{Job, ArticleRow}
use scraper_v_hezzian.Core.Storage.Upsert.{content-merged, merged}
use scraper_v_hezzian.Core.Storage.{url_id}
use scraper_v_hezzian.Core.ObjectStore.{InMemoryObjectStore, get_object, found}
use scraper_v_hezzian.Utils.Validators.{response_is_valid}
use scraper_v_hezzian.Worker.Messages.{
  JobMessage, Payload, result_pointer, status_text, status_text-success, ResultPointer,
}
use scraper_v_hezzian.Worker.ScraperWorker.{
  Encodings, raw_of, page_of, pointer_of, handle_scrape_job,
}
use scraper_v_hezzian.Worker.TransformWorker.{Deps, Times, handle_result_pointer, selectors_for}
use scraper_v_hezzian.Worker.TransformWorker.Steps.{as_running, as_done, as_error}

module _ {B Q E : Type 0} (W : Deps B) (enc : Encodings B) (port : MessageQueue Payload Q)
    (engine_scrape : String → Action E ScrapeResult) (results_queue : String) where
  raw-page :
      (url : String) (result : ScrapeResult) (html : String)
      → page_of result ≡ some html
      → (raw_of enc url result).0 ≡ enc.encode html
  unfolding raw_of
  raw-page url result html h = ground arith

  status-pointer_of :
      (payload : JobMessage) (result : ScrapeResult)
      → result.status ≡ success
      → (pointer_of W.library payload result).status ≡ "success"
  unfolding pointer_of status_text
  status-pointer_of payload result h = ap status_text h

  failed-pointer_of :
      (payload : JobMessage) (result : ScrapeResult)
      → result.status ≢ success
      → (pointer_of W.library payload result).status ≢ "success"
  unfolding pointer_of
  failed-pointer_of payload result ne h = ne (status_text-success result.status h)

  fields-pointer_of :
      (payload : JobMessage) (result : ScrapeResult)
      → ((pointer_of W.library payload result).url ≡ payload.url)
        × ((pointer_of W.library payload result).job_id ≡ payload.job_id)
  unfolding pointer_of
  fields-pointer_of payload result = (refl, refl)

  module _ (at : Times) (msg_id : String) (payload : JobMessage) (q q' : Q)
      (o : InMemoryObjectStore B) (e e' : E) (result : ScrapeResult) (id : String)
      (db : W.database.Db) (row : Job) (scraped : engine_scrape payload.url e ≡ (ok result, e'))
      (published : port.publish msg_id results_queue
          (result_pointer (pointer_of W.library payload result))
          q
        ≡ (ok id, q'))
      (there : W.database.job db payload.job_id ≡ some row) where
    abbrev pointer : ResultPointer
    pointer = pointer_of W.library payload result

    abbrev store : InMemoryObjectStore B
    store =
        (handle_scrape_job enc W.library port engine_scrape results_queue msg_id payload
          (q, (o, e))).1.1.0

    stored_page :
        (html : String)
        → page_of result ≡ some html
        → get_object store pointer.object_key ≡ found (enc.encode html)
    stored_page html page =
        (handle_scrape_job-archives enc W.library port engine_scrape results_queue msg_id payload q
          q' o e e' result id scraped published).1
        ∙ ap found (raw-page payload.url result html page)

    job_there : W.database.job db pointer.job_id ≡ some row
    job_there = ap (W.database.job db) (fields-pointer_of payload result).1 ∙ there

    -- The database after both stages: the transform stage gets the pointer that the scraper stage
    -- published and reads the store that it left.
    abbrev pub after_both : W.database.Db
    after_both =
        let (_, (_, (o', _))) =
          handle_scrape_job enc W.library port engine_scrape results_queue msg_id payload
            (q, (o, e)) in
        (handle_result_pointer W at (get_object o') (pointer_of W.library payload result) db).1

    -- When a job of the table is scraped with the status `success` and a page, its pointer can be
    -- published, and the page passes the validation once it is encoded and decoded, the transform
    -- stage ends the job as `done` with one result, and the job's URL has a row in the articles
    -- with a content of 500 characters or more.
    pub job_done :
        (html : String)
        → result.status ≡ success
        → page_of result ≡ some html
        → response_is_valid W.html
            (W.decode (enc.encode html))
            (selectors_for W (pointer_of W.library payload result).domain)
            500
          ≡ true
        → (W.database.job after_both payload.job_id
            ≡ some (as_done W at.finished (as_running W at.started row)))
          × ((a : ArticleRow) × (W.database.article after_both (url_id W.library payload.url)
                ≡ some a)
              × (500 ≤ count a.content))
    job_done html good page valid =
        let after =
          handle_result_pointer-done W at (get_object store) pointer db row job_there
            (enc.encode html) (status-pointer_of payload result good) (stored_page html page)
            valid in
        let old = W.database.article db (url_id W.library pointer.url) in
        let new = new_row W at.fetched pointer (W.decode (enc.encode html)) in
        (
          ap (W.database.job after_both) (sym (fields-pointer_of payload result).1) ∙ after.1,
          (
            merged new old,
            ap (λ u. W.database.article after_both (url_id W.library u))
                  (sym (fields-pointer_of payload result).0)
                ∙ after.2,
            subst (λ c. 500 ≤ count c) (sym (content-merged new old)) after.3,
          ),
        )

    -- When a job of the table is scraped with another status than `success`, and its pointer can be
    -- published, the transform stage ends the job as `error` with no result, and no article
    -- changes.
    pub job_error :
        result.status ≢ success
        → ((text : String) × (W.database.job after_both payload.job_id
              ≡ some (as_error W at.finished text (as_running W at.started row))))
          × ((k : String) → W.database.article after_both k ≡ W.database.article db k)
    job_error bad =
        let after =
          handle_result_pointer-error W at (get_object store) pointer db row job_there
            (inl (failed-pointer_of payload result bad)) in
        (
          (
            after.1.0,
            ap (W.database.job after_both) (sym (fields-pointer_of payload result).1) ∙ after.1.1,
          ),
          after.2,
        )
