-- ===== src/Worker/TransformWorker/Steps.antt =====
-- What each step does to the job of the pointer and to the articles.
use scraper_v_hezzian.Prelude.{
  string_eq, ℕ, ◌≡◌, String, Option, none, some, ap, true, false, arith, eq_iff,
}
use scraper_v_hezzian.Exceptions.{ok}
use scraper_v_hezzian.Core.Db.{Job, running, done, error, updated, ArticleRow}
use scraper_v_hezzian.Core.Db.Updates.{
  update_job_status-some, job-update_job_status, article-update_job_status,
}
use scraper_v_hezzian.Worker.Messages.{ResultPointer}
use scraper_v_hezzian.Worker.TransformWorker.{Deps, mark_running, mark_error, mark_done}

module _ {B : Type 0} (W : Deps B) where
  abbrev pub job_in : W.database.Db → String → Option Job
  job_in db j = W.database.job db j

  abbrev pub article_in : W.database.Db → String → Option ArticleRow
  article_in db k = W.database.article db k

  -- The rows of the job, as each mark leaves them.
  abbrev pub as_running : ℕ → Job → Job
  as_running now row = record row { status = running; started_at = some now }

  abbrev pub as_error : ℕ → String → Job → Job
  as_error now text row = record row {
    status = error;
    finished_at = some now;
    result_count = 0;
    error_text = some text;
  }

  abbrev pub as_done : ℕ → Job → Job
  as_done now row = record row { status = done; finished_at = some now; result_count = 1 }

  module _ (now : ℕ) (p : ResultPointer) (db : W.database.Db) (row : Job)
      (h : W.database.job db p.job_id ≡ some row) where
    pub mark_running-job :
        ((mark_running W now p db).0 ≡ ok tt)
        × (job_in (mark_running W now p db).1 p.job_id ≡ some (as_running now row))
    unfolding mark_running updated
    mark_running-job = (
      ap (λ x. x.0)
          (update_job_status-some W.database p.job_id running none none true false now db row h),
      ground (
        arith,
        job-update_job_status W.database p.job_id running none none true false now db row p.job_id
            h,
        eq_iff p.job_id p.job_id,
      ),
    )

    pub mark_error-job :
        (text : String)
        → ((mark_error W now p text db).0 ≡ ok tt)
          × (job_in (mark_error W now p text db).1 p.job_id ≡ some (as_error now text row))
    unfolding mark_error updated
    mark_error-job text = (
      ap (λ x. x.0)
          (update_job_status-some W.database p.job_id error (some 0) (some text) false true now db
            row h),
      ground (
        arith,
        job-update_job_status W.database p.job_id error (some 0) (some text) false true now db row
            p.job_id h,
        eq_iff p.job_id p.job_id,
      ),
    )

    pub mark_done-job :
        ((mark_done W now p db).0 ≡ ok tt)
        × (job_in (mark_done W now p db).1 p.job_id ≡ some (as_done now row))
    unfolding mark_done updated
    mark_done-job = (
      ap (λ x. x.0)
          (update_job_status-some W.database p.job_id done (some 1) none false true now db row h),
      ground (
        arith,
        job-update_job_status W.database p.job_id done (some 1) none false true now db row p.job_id
            h,
        eq_iff p.job_id p.job_id,
      ),
    )

  module _ (now : ℕ) (p : ResultPointer) (db : W.database.Db) (k : String) where
    pub mark_running-article : article_in (mark_running W now p db).1 k ≡ article_in db k
    unfolding mark_running
    mark_running-article =
        article-update_job_status W.database p.job_id running none none true false now db k

    pub mark_error-article :
        (text : String) → article_in (mark_error W now p text db).1 k ≡ article_in db k
    unfolding mark_error
    mark_error-article text =
        article-update_job_status W.database p.job_id error (some 0) (some text) false true now db k

    pub mark_done-article : article_in (mark_done W now p db).1 k ≡ article_in db k
    unfolding mark_done
    mark_done-article =
        article-update_job_status W.database p.job_id done (some 1) none false true now db k
