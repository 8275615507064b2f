-- ===== src/Core/Db.antt =====
-- scrapeforge/core/db: the rows of `jobs` and `articles`, and the operations of repositories.py on
-- jobs. Of the JSONB columns, `meta` is modelled by its driver, and `summary` by its record; the
-- embedding is not modelled.
-- PostgreSQL is the parameter `Database`, with the laws of a table that is keyed by `id`.
pub mod Updates
pub mod Tables
use Prim.Native.String.{◌++◌ as ◌<>◌}
use scraper_v_hezzian.Prelude.{
  string_eq, ℕ, if◌then◌else◌, ◌==◌, String, ◌≡◌, Bool, Option, none, some,
}
use scraper_v_hezzian.Core.Models.Summaries.{Summary}
use scraper_v_hezzian.Exceptions.{Action, other_error, ok, err}

pub data JobStatus : Type 0 where
  queued running done error : JobStatus

pub record Job : Type 0 where
  pub id : String
  pub status : JobStatus
  pub source : String
  pub created_at : ℕ
  pub started_at : Option ℕ
  pub finished_at : Option ℕ
  pub result_count : ℕ
  pub error_text : Option String

pub record ArticleRow : Type 0 where
  pub id : String
  pub url : String
  pub domain : String
  pub bucket : String
  pub title : String
  pub content : String
  pub author : Option String
  pub publish_date : Option ℕ
  pub fetched_at : ℕ
  pub raw_key : Option String
  pub driver_used : String
  pub relevance : Option ℕ
  pub summary : Option Summary

-- `save_job` is an INSERT or UPDATE of the row, committed. `upsert` is
-- `INSERT … ON CONFLICT (id) DO UPDATE`, committed: `set_` says what becomes of the row that is
-- there.
pub record Database : Type 1 where
  pub Db : Type 0
  pub job : Db → String → Option Job
  pub article : Db → String → Option ArticleRow
  pub save_job : Job → Db → Db
  pub upsert : ArticleRow → (ArticleRow → ArticleRow) → Db → Db
  pub id-job : (db : Db) (j : String) (r : Job) → job db j ≡ some r → r.id ≡ j
  pub job-save_job :
      (r : Job) (db : Db) (j : String)
      → job (save_job r db) j ≡ (if r.id == j then some r else job db j)
  pub article-save_job : (r : Job) (db : Db) (k : String) → article (save_job r db) k ≡ article db k
  pub job-upsert :
      (r : ArticleRow) (set_ : ArticleRow → ArticleRow) (db : Db) (j : String)
      → job (upsert r set_ db) j ≡ job db j
  pub article-upsert :
      (r : ArticleRow) (set_ : ArticleRow → ArticleRow) (db : Db) (k : String)
      → article (upsert r set_ db) k ≡ (
          if r.id == k
          then elim (article db k) [ none ↦ some r | some old ↦ some (set_ old) ]
          else article db k)

-- The text of the `ValueError`, for an id that `repr` leaves as it is.
abbrev pub not_found : String → String
not_found job_id = "Job '" <> (job_id <> "' not found")

module _ (D : Database) where
  unfoldable pub create_job : String → String → ℕ → Action D.Db Job
  create_job job_id source now db =
      let row : Job = record {
        id = job_id;
        status = queued;
        source = source;
        created_at = now;
        started_at = none;
        finished_at = none;
        result_count = 0;
        error_text = none;
      } in
      (ok row, D.save_job row db)

  -- The fields that `update_job_status` sets on the row.
  unfoldable pub updated : JobStatus → Option ℕ → Option String → Bool → Bool → ℕ → Job → Job
  updated status result_count error_text started finished now row = record row {
    status = status;
    started_at = if started then some now else row.started_at;
    finished_at = if finished then some now else row.finished_at;
    result_count = elim result_count [ none ↦ row.result_count | some n ↦ n ];
    error_text = elim error_text [ none ↦ row.error_text | some e ↦ some e ];
  }

  unfoldable pub update_job_status :
      String → JobStatus → Option ℕ → Option String → Bool → Bool → ℕ → Action D.Db Unit
  unfolding updated
  update_job_status job_id status result_count error_text started finished now db =
      elim (D.job db job_id) [
        | none ↦ (err (other_error (not_found job_id)), db)
        | some row ↦
            (ok tt, D.save_job (updated status result_count error_text started finished now row) db)
      ]
