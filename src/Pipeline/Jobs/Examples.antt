-- ===== src/Pipeline/Jobs/Examples.antt =====
-- Two subreddits, a feed, and three publications, one of which is not JSON.
use scraper_v_hezzian.Core.Models.{no_metadata, ScrapeResult, success}
use scraper_v_hezzian.Pipeline.Jobs.Failures.{ingest_publications-Isolated}
use scraper_v_hezzian.Pipeline.Jobs.{
  is_scrape_forge_error, ingest_publications, ingest_subreddits, Ingested,
}
use scraper_v_hezzian.Exceptions.{Result, driver_error, other_error, ok, err}
use scraper_v_hezzian.Core.Db.Tables.{tables, with_job}
use scraper_v_hezzian.Worker.Samples.{library}
use scraper_v_hezzian.Prelude.{
  string_eq, ℕ, String, true, false, none, some, Option, List, [], ◌∷◌, ◌≡◌, refl, if◌then◌else◌,
  ◌==◌,
}

abbrev post : String → String → Option ℕ → ScrapeResult
post url content score = record {
  status = success;
  driver_used = "api";
  error_text = none;
  proxy_used = none;
  article = some (record {
    url = url;
    title = "title";
    content = content;
    author = none;
    publish_date = none;
    raw_html = none;
    metadata = record no_metadata { score = score };
  });
}

abbrev posts : List ScrapeResult
posts =
    post "u" "text" (some 25)
    ∷ post "v" " " (some 99)
    ∷ post "w" "text" (some 24)
    ∷ post "u" "again" none
    ∷ post "x" "text" none
    ∷ []

abbrev subreddit : String → ℕ → String → Result (List ScrapeResult)
subreddit name limit sort = if name == "a" then ok posts else err (other_error "not JSON")

abbrev feed : String → ℕ → ℕ → Result (List ScrapeResult)
feed url limit min_chars = ok posts

abbrev json_or_fails : String → ℕ → Result (List ScrapeResult)
json_or_fails base limit =
    if base == "a"
    then ok posts
    else if base == "b"
    then err (driver_error "429")
    else err (other_error "not JSON")

-- The link post, the low score and the second post of one URL are left out.
two_kept :
    (ingest_subreddits tables library 1 subreddit 10 "hot" 25 ("b" ∷ "a" ∷ []) with_job).0 ≡ ok 2
unfolding ingest_subreddits scraper_v_hezzian.Core.Models.article_if_success
    scraper_v_hezzian.Core.Models.is_success scraper_v_hezzian.Prelude.Text.strip
    scraper_v_hezzian.Core.Storage.seen scraper_v_hezzian.Prelude.contains
    scraper_v_hezzian.Core.Storage.write
two_kept = refl

-- The run of the first publication.
abbrev first_run : Result ℕ × Ingested tables library 1
first_run =
    ingest_publications tables library 1 json_or_fails json_or_fails false 10 ("a" ∷ []) with_job

four_stored : first_run ≡ (ok 4, first_run.1)
unfolding ingest_publications scraper_v_hezzian.Core.Models.article_if_success
    scraper_v_hezzian.Core.Models.is_success scraper_v_hezzian.Core.Storage.seen
    scraper_v_hezzian.Prelude.contains scraper_v_hezzian.Core.Storage.write
four_stored = refl

ingest_publications-Isolated_example :
    (is_scrape_forge_error (driver_error "429") ≡ true
      → ingest_publications tables library 1 json_or_fails json_or_fails false 10
          ("a" ∷ "b" ∷ "a" ∷ [])
          with_job
        ≡ ingest_publications tables library 1 json_or_fails json_or_fails false 10
            ("a" ∷ "a" ∷ [])
            with_job)
    × (is_scrape_forge_error (driver_error "429") ≡ false
        → ingest_publications tables library 1 json_or_fails json_or_fails false 10
            ("a" ∷ "b" ∷ "a" ∷ [])
            with_job
          ≡ (err (driver_error "429"), first_run.1))
ingest_publications-Isolated_example =
    ingest_publications-Isolated tables library 1 json_or_fails json_or_fails false 10 ("a" ∷ [])
      "b" ("a" ∷ []) with_job 4 first_run.1 (driver_error "429") four_stored refl

-- A response that is no JSON ends the run.
run_ends :
    (ingest_publications tables library 1 json_or_fails json_or_fails true 10
      ("c" ∷ "a" ∷ [])
      with_job).0
    ≡ err (other_error "not JSON")
unfolding ingest_publications
run_ends = refl
