-- ===== src/Worker/TransformWorker/Lifecycle.antt =====
-- How a pointer ends: the job's status, and what is in the table of articles.
use scraper_v_hezzian.Worker.TransformWorker.Ways.{
  new_row, upsert_article-job, upserted_at, upserted_ne, content-new_row, past_start-failed,
  past_start-success, transform_html-valid, transform_html-invalid, payload-found, payload-missing,
  unmarked,
}
use scraper_v_hezzian.Worker.TransformWorker.Steps.{
  mark_done-article, as_running, as_error, as_done, mark_running-job, mark_error-job, mark_done-job,
  mark_running-article, mark_error-article,
}
use Prim.Native.String.{◌++◌ as ◌<>◌, count}
use scraper_v_hezzian.Prelude.{
  string_eq, ◌≡◌, String, none, some, ◌==◌, ◌≤◌, ap, ◌∙◌, true, arith, ◌≢◌, ◌⊎◌, false, Bool-cases,
  inl, inr, eq_iff,
}
use scraper_v_hezzian.Core.ObjectStore.{get_error, Fetched, found, object_not_found}
use scraper_v_hezzian.Exceptions.{Exception, ok, err, other_error, >>-ok, >>-err}
use scraper_v_hezzian.Core.Db.{Job, not_found}
use scraper_v_hezzian.Core.Storage.{url_id}
use scraper_v_hezzian.Core.Storage.Upsert.{merged}
use scraper_v_hezzian.Core.ObjectStore.{Fetched, found, object_not_found, get_error}
use scraper_v_hezzian.Utils.Validators.{response_is_valid}
use scraper_v_hezzian.Worker.Messages.{ResultPointer}
use scraper_v_hezzian.Worker.TransformWorker.{
  past_start, Deps, Times, mark_running, upsert_article, handle_result_pointer, selectors_for,
  mark_error, transform_payload, mark_done,
}

module _ {B : Type 0} (W : Deps B) where
  module _ (at : Times) (fetch : String → Fetched B) (p : ResultPointer) (db : W.database.Db) where
    -- When no job has the pointer's id, the handler raises and has written nothing.
    pub handle_result_pointer-missing :
        W.database.job db p.job_id ≡ none
        → handle_result_pointer W at fetch p db ≡ (err (other_error (not_found p.job_id)), db)
    unfolding handle_result_pointer mark_running
    handle_result_pointer-missing h =
        >>-err (mark_running W at.started p) (past_start W at fetch p) db
          (other_error (not_found p.job_id)) (ap (λ x. x.0) (unmarked W at.started p db h))
        ∙ ap (λ x. (err (other_error (not_found p.job_id)), x.1)) (unmarked W at.started p db h)

    module _ (row : Job) (h : W.database.job db p.job_id ≡ some row) where
      -- The state after step 1.
      abbrev pub started_db : W.database.Db
      started_db = (mark_running W at.started p db).1

      started_job : W.database.job started_db p.job_id ≡ some (as_running W at.started row)
      started_job = (mark_running-job W at.started p db row h).1

      begun : handle_result_pointer W at fetch p db ≡ past_start W at fetch p started_db
      unfolding handle_result_pointer
      begun =
          >>-ok (mark_running W at.started p) (past_start W at fetch p) db
            (mark_running-job W at.started p db row h).0

      -- The way of a pointer whose page passes.
      through :
          (bytes : B)
          → p.status ≡ "success"
          → fetch p.object_key ≡ found bytes
          → response_is_valid W.html (W.decode bytes) (selectors_for W p.domain) 500 ≡ true
          → handle_result_pointer W at fetch p db
            ≡ mark_done W at.finished p
                (upsert_article W at.fetched p (W.decode bytes) started_db).1
      through bytes ok_status there valid =
          begun
          ∙ past_start-success W at fetch p started_db ok_status
          ∙ payload-found W at fetch p started_db (fetch p.object_key) bytes there
          ∙ transform_html-valid W at fetch p started_db (W.decode bytes) valid

      unread :
          ((why : String) × (fetch p.object_key ≡ object_not_found why))
            ⊎ ((bytes : B) × (fetch p.object_key ≡ found bytes)
                × (response_is_valid W.html (W.decode bytes) (selectors_for W p.domain) 500
                    ≡ false))
          → (text : String) × (transform_payload W at p (fetch p.object_key) started_db
              ≡ mark_error W at.finished p text started_db)
      unread (inl (why, e)) = (
        "raw payload missing",
        payload-missing W at fetch p started_db (fetch p.object_key) why e,
      )
      unread (inr (bytes, e, invalid)) = (
        "soft block or challenge page detected",
        payload-found W at fetch p started_db (fetch p.object_key) bytes e
            ∙ transform_html-invalid W at fetch p started_db (W.decode bytes) invalid,
      )

      -- The way of a pointer that ends in an error.
      astray :
          (p.status ≢ "success")
            ⊎ ((why : String) × (fetch p.object_key ≡ object_not_found why))
            ⊎ ((bytes : B) × (fetch p.object_key ≡ found bytes)
                × (response_is_valid W.html (W.decode bytes) (selectors_for W p.domain) 500
                    ≡ false))
          → (text : String) × (handle_result_pointer W at fetch p db
              ≡ mark_error W at.finished p text started_db)
      astray (inl ne) = (
        "scraper returned status '" <> (p.status <> "'"),
        begun ∙ past_start-failed W at fetch p started_db ne,
      )
      astray (inr why) = elim (Bool-cases (p.status == "success")) [
        | inr ne ↦ (
          "scraper returned status '" <> (p.status <> "'"),
          begun
              ∙ past_start-failed W at fetch p started_db
                  (ground (arith, eq_iff p.status "success")),
        )
        | inl same ↦
            let (text, e) = unread why in
            (
              text,
              begun
                  ∙ past_start-success W at fetch p started_db ((eq_iff p.status "success").0 same)
                  ∙ e,
            )
      ]

      -- When the store raises, the handler raises the same exception after step 1.
      pub handle_result_pointer-raises :
          (x : Exception)
          → p.status ≡ "success"
          → fetch p.object_key ≡ get_error x
          → handle_result_pointer W at fetch p db ≡ (err x, started_db)
      unfolding transform_payload
      handle_result_pointer-raises x good e =
          begun
          ∙ past_start-success W at fetch p started_db good
          ∙ ap (λ f. transform_payload W at p f started_db) e

      -- A pointer of a job of the table with the status `success`, whose payload is in the store
      -- and passes the validation, ends its job as `done` with one result. The URL's row is the new
      -- one, with a content of 500 characters or more, or the old one with the new columns; no
      -- other row has changed.
      pub handle_result_pointer-done :
          (bytes : B)
          → p.status ≡ "success"
          → fetch p.object_key ≡ found bytes
          → response_is_valid W.html (W.decode bytes) (selectors_for W p.domain) 500 ≡ true
          → let (r, db') = handle_result_pointer W at fetch p db in
            let new = new_row W at.fetched p (W.decode bytes) in
            (r ≡ ok tt)
            × (W.database.job db' p.job_id
                ≡ some (as_done W at.finished (as_running W at.started row)))
            × (W.database.article db' (url_id W.library p.url)
                ≡ some (merged new (W.database.article db (url_id W.library p.url))))
            × (500 ≤ count new.content)
            × ((k : String)
                → url_id W.library p.url ≢ k
                → W.database.article db' k ≡ W.database.article db k)
      handle_result_pointer-done bytes ok_status there valid =
          let html = W.decode bytes in
          let e = through bytes ok_status there valid in
          let s = (upsert_article W at.fetched p html started_db).1 in
          let marked =
            mark_done-job W at.finished p s (as_running W at.started row)
              (upsert_article-job W at.fetched p html started_db p.job_id ∙ started_job) in
          (
            ap (λ x. x.0) e ∙ marked.0,
            ap (λ x. W.database.job x.1 p.job_id) e ∙ marked.1,
            ap (λ x. W.database.article x.1 (url_id W.library p.url)) e
                ∙ mark_done-article W at.finished p s (url_id W.library p.url)
                ∙ upserted_at W at.fetched p html started_db
                ∙ ap (λ o. some (merged (new_row W at.fetched p html) o))
                    (mark_running-article W at.started p db (url_id W.library p.url)),
            content-new_row W at.fetched p html valid,
            λ k ne.
                ap (λ x. W.database.article x.1 k) e
                ∙ mark_done-article W at.finished p s k
                ∙ upserted_ne W at.fetched p html started_db k ne
                ∙ mark_running-article W at.started p db k,
          )

      -- A job of the table ends as `error` with no result, and no article has changed, when the
      -- pointer's status is not `success`, when the payload is not in the store, and when it does
      -- not pass.
      pub handle_result_pointer-error :
          (p.status ≢ "success")
            ⊎ ((why : String) × (fetch p.object_key ≡ object_not_found why))
            ⊎ ((bytes : B) × (fetch p.object_key ≡ found bytes)
                × (response_is_valid W.html (W.decode bytes) (selectors_for W p.domain) 500
                    ≡ false))
          → let (r, db') = handle_result_pointer W at fetch p db in
            (r ≡ ok tt)
            × ((text : String) × (W.database.job db' p.job_id
                  ≡ some (as_error W at.finished text (as_running W at.started row))))
            × ((k : String) → W.database.article db' k ≡ W.database.article db k)
      handle_result_pointer-error why =
          let (text, e) = astray why in
          (
            ap (λ x. x.0) e
                ∙ (mark_error-job W at.finished p started_db (as_running W at.started row)
                    started_job text).0,
            (
              text,
              ap (λ x. W.database.job x.1 p.job_id) e
                  ∙ (mark_error-job W at.finished p started_db (as_running W at.started row)
                      started_job text).1,
            ),
            λ k.
                ap (λ x. W.database.article x.1 k) e
                ∙ mark_error-article W at.finished p started_db k text
                ∙ mark_running-article W at.started p db k,
          )
