-- ===== src/Worker/Examples.antt =====
-- A job from its scrape to its article.
use scraper_v_hezzian.Worker.Samples.{library, html_parser, deps, encodings, page, times}
use scraper_v_hezzian.Core.Queue.{MessageQueue}
use scraper_v_hezzian.Core.Models.{no_metadata, ScrapeResult, success, challenge}
use scraper_v_hezzian.Core.Db.{ArticleRow}
use scraper_v_hezzian.Exceptions.{Action, other_error, ok, err}
use scraper_v_hezzian.Prelude.Dict.{Dict}
use Prim.Native.String.{count}
use scraper_v_hezzian.Prelude.Dict
use scraper_v_hezzian.Prelude.{string_eq, ◌+◌, ◌≡◌, String, none, some, true, refl, ℕ, ◌≤◌}
use scraper_v_hezzian.Core.Queue.Memory.{memory_port, empty, InMemoryMessageQueue}
use scraper_v_hezzian.Core.Db.Tables.{tables, queued_job, with_job}
use scraper_v_hezzian.Core.Storage.{url_id}
use scraper_v_hezzian.Core.ObjectStore.{InMemoryObjectStore}
use scraper_v_hezzian.Utils.Validators.{response_is_valid}
use scraper_v_hezzian.Worker.Messages.{JobMessage, Payload, result_pointer}
use scraper_v_hezzian.Worker.ScraperWorker.{page_of, pointer_of}
use scraper_v_hezzian.Worker.TransformWorker.Steps.{as_running, as_done}
use scraper_v_hezzian.Worker.Pipeline.{job_done, after_both}
use scraper_v_hezzian.Worker.TransformWorker.{selectors_for}

there : tables.job with_job "job" ≡ some queued_job
unfolding scraper_v_hezzian.Core.Db.Tables.find_job
there = refl

-- What the engine gives: the page, or a challenge. It counts its calls.
abbrev scraped : ScrapeResult
scraped = record {
  status = success;
  driver_used = "curl_cffi";
  error_text = none;
  proxy_used = none;
  article = some (record {
    url = "u";
    title = "";
    content = page;
    author = none;
    publish_date = none;
    raw_html = some page;
    metadata = no_metadata;
  });
}

abbrev challenged : ScrapeResult
challenged = record {
  status = challenge;
  driver_used = "curl_cffi";
  error_text = none;
  proxy_used = none;
  article = none;
}

abbrev job_payload : JobMessage
job_payload = record { job_id = "job"; url = "u"; bucket = none }

abbrev engine : ScrapeResult → String → Action ℕ ScrapeResult
engine result url n = (ok result, n + 1)

abbrev port : MessageQueue Payload (InMemoryMessageQueue Payload)
port = memory_port

abbrev no_objects : InMemoryObjectStore String
no_objects = record { objects = Dict.empty }

abbrev published_queue : ScrapeResult → InMemoryMessageQueue Payload
published_queue result =
    (port.publish "id" "results" (result_pointer (pointer_of library job_payload result)) empty).1

publishes :
    (result : ScrapeResult)
    → port.publish "id" "results" (result_pointer (pointer_of library job_payload result)) empty
      ≡ (ok "id", published_queue result)
unfolding scraper_v_hezzian.Core.Queue.Memory.publish
publishes result = refl

page_there : page_of scraped ≡ some page
unfolding page_of
page_there = refl

valid_page :
    response_is_valid html_parser page
      (selectors_for deps (pointer_of library job_payload scraped).domain)
      500
    ≡ true
unfolding response_is_valid scraper_v_hezzian.Utils.Validators.has_signature Dict.get selectors_for
    scraper_v_hezzian.Core.Registry.get_scraper_for scraper_v_hezzian.Core.Registry.split pointer_of
    scraper_v_hezzian.Utils.Validators.long_enough scraper_v_hezzian.Utils.Parsers.main_text
    scraper_v_hezzian.Utils.Parsers.first_match
valid_page = refl

job_done_example :
    (tables.job
        (after_both deps encodings port
          (engine scraped)
          "results"
          times
          "id"
          job_payload
          empty
          (published_queue scraped)
          no_objects
          0
          1
          scraped
          "id"
          with_job
          queued_job
          refl
          (publishes scraped)
          there)
        "job"
      ≡ some (as_done deps 3 (as_running deps 1 queued_job)))
    × ((a : ArticleRow) × (tables.article
            (after_both deps encodings port
              (engine scraped)
              "results"
              times
              "id"
              job_payload
              empty
              (published_queue scraped)
              no_objects
              0
              1
              scraped
              "id"
              with_job
              queued_job
              refl
              (publishes scraped)
              there)
            (url_id library "u")
          ≡ some a)
        × (500 ≤ count a.content))
job_done_example =
    job_done deps encodings port (engine scraped) "results" times "id" job_payload empty
      (published_queue scraped) no_objects 0 1 scraped "id" with_job queued_job refl
      (publishes scraped) there page refl page_there valid_page

abbrev broken_engine : String → Action ℕ ScrapeResult
broken_engine url n = (err (other_error "closed"), n)
