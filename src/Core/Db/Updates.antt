-- ===== src/Core/Db/Updates.antt =====
-- What the status updates of a job do to the tables.
use scraper_v_hezzian.Prelude.{
  string_eq, ℕ, ◌≡◌, String, Bool, Option, none, some, arith, if◌then◌else◌, Option-cases, ◌==◌,
  refl, ap, ◌∙◌, inl, inr,
}
use scraper_v_hezzian.Exceptions.{ok, err, other_error}
use scraper_v_hezzian.Core.Db.{Database, Job, JobStatus, updated, update_job_status, not_found}

module _ (D : Database) (j : String) (status : JobStatus) (count : Option ℕ) (text : Option String)
    (started finished : Bool) (now : ℕ) where
  pub update_job_status-some :
      (db : D.Db) (row : Job)
      → D.job db j ≡ some row
      → update_job_status D j status count text started finished now db
        ≡ (ok tt, D.save_job (updated D status count text started finished now row) db)
  unfolding update_job_status
  update_job_status-some db row h = ground arith

  pub update_job_status-none :
      (db : D.Db)
      → D.job db j ≡ none
      → update_job_status D j status count text started finished now db
        ≡ (err (other_error (not_found j)), db)
  unfolding update_job_status
  update_job_status-none db h = ground arith

  -- The row as the update leaves it.
  abbrev pub updated_row : Job → Job
  updated_row row = updated D status count text started finished now row

  id-updated_row : (row : Job) → (updated_row row).id ≡ row.id
  unfolding updated
  id-updated_row row = refl

  pub job-update_job_status :
      (db : D.Db) (row : Job) (k : String)
      → D.job db j ≡ some row
      → D.job (update_job_status D j status count text started finished now db).1 k
        ≡ (if j == k then some (updated_row row) else D.job db k)
  job-update_job_status db row k h = ground (
    arith,
    ap (λ x. D.job x.1 k) (update_job_status-some db row h),
    D.job-save_job (updated_row row) db k,
    id-updated_row row,
    D.id-job db j row h,
  )

  pub article-update_job_status :
      (db : D.Db) (k : String)
      → D.article (update_job_status D j status count text started finished now db).1 k
        ≡ D.article db k
  article-update_job_status db k = elim (Option-cases (D.job db j)) [
    | inl e ↦ ap (λ x. D.article x.1 k) (update_job_status-none db e)
    | inr (row, e) ↦
        ap (λ x. D.article x.1 k) (update_job_status-some db row e)
        ∙ D.article-save_job (updated_row row) db k
  ]
