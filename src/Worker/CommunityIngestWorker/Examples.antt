-- ===== src/Worker/CommunityIngestWorker/Examples.antt =====
-- A publication with two posts of one URL and a challenge, and one that cannot be fetched.
use scraper_v_hezzian.Prelude.Dict.{Dict}
use scraper_v_hezzian.Prelude.Dict
use scraper_v_hezzian.Prelude.{
  string_eq, ◌≡◌, String, none, some, List, [], ◌∷◌, length, contains, refl, if◌then◌else◌, ◌==◌,
}
use scraper_v_hezzian.Exceptions.{ok, err, other_error}
use scraper_v_hezzian.Core.Models.{no_metadata, ScrapeResult, success, challenge, failed}
use scraper_v_hezzian.Core.Db.{done}
use scraper_v_hezzian.Core.Db.Tables.{tables, queued_job, with_job}
use scraper_v_hezzian.Core.ObjectStore.{InMemoryObjectStore}
use scraper_v_hezzian.Worker.Messages.{IngestMessage}
use scraper_v_hezzian.Worker.Samples.{library, times}
use scraper_v_hezzian.Worker.CommunityIngestWorker.{IngestDeps, handle_ingest_job}
use scraper_v_hezzian.Worker.CommunityIngestWorker.Rounds.{NoRepeats, stored_ids}
use scraper_v_hezzian.Worker.CommunityIngestWorker.Endings.{handle_ingest_job-done}

abbrev post : String → ScrapeResult
post title = record {
  status = success;
  driver_used = "api";
  error_text = none;
  proxy_used = none;
  article = some (record {
    url = "u";
    title = title;
    content = "text";
    author = none;
    publish_date = none;
    raw_html = none;
    metadata = no_metadata;
  });
}

abbrev posts : List ScrapeResult
posts = post "first" ∷ failed challenge "api" "soft block" ∷ post "again" ∷ []

abbrev ingest_deps : IngestDeps String
ingest_deps = record {
  database = tables;
  library = library;
  encode = λ s. s;
  dumps = λ a. a.url;
  scrape_publication =
      λ target limit. if target == "a.com" then ok posts else err (other_error "closed");
}

abbrev order : String → IngestMessage
order target = record {
  job_id = "job";
  platform = "substack";
  target = target;
  bucket = "community";
  limit = 25;
}

abbrev no_objects : InMemoryObjectStore String
no_objects = record { objects = Dict.empty }

there : tables.job with_job "job" ≡ some queued_job
unfolding scraper_v_hezzian.Core.Db.Tables.find_job
there = refl

one_stored : (handle_ingest_job ingest_deps times (order "a.com") (no_objects, with_job)).0 ≡ ok 1
unfolding handle_ingest_job scraper_v_hezzian.Core.Db.update_job_status
    scraper_v_hezzian.Core.Db.Tables.find_job scraper_v_hezzian.Worker.CommunityIngestWorker.ingest
    scraper_v_hezzian.Worker.CommunityIngestWorker.persist_all
    scraper_v_hezzian.Worker.CommunityIngestWorker.persist_result
    scraper_v_hezzian.Worker.CommunityIngestWorker.article_to_store
    scraper_v_hezzian.Core.Models.is_success scraper_v_hezzian.Core.Storage.seen contains
    scraper_v_hezzian.Worker.CommunityIngestWorker.persist_article
    scraper_v_hezzian.Core.Storage.write scraper_v_hezzian.Worker.CommunityIngestWorker.with_raw_key
    scraper_v_hezzian.Core.Db.Tables.put_job
    scraper_v_hezzian.Worker.CommunityIngestWorker.run_ingest
one_stored = refl

handle_ingest_job-done_example :
    let (r, (_, db')) =
      handle_ingest_job ingest_deps times (order "a.com") (no_objects, with_job) in
    (ids : List String) × (r ≡ ok (length ids))
    × NoRepeats ids
    × ((id : String) → contains id ids ≡ contains id (stored_ids ingest_deps posts))
    × (tables.job db' "job"
        ≡ some (record queued_job {
          started_at = some 1;
          status = done;
          finished_at = some 3;
          result_count = length ids;
        }))
handle_ingest_job-done_example =
    handle_ingest_job-done ingest_deps times (order "a.com") no_objects with_job queued_job refl
      there posts refl
