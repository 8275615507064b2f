-- ===== src/Worker/TransformWorker.antt =====
-- scrapeforge/worker/transform_worker.py
-- The database, the HTML parser, the SHA-256 of the standard library, and the decoding of the
-- bytes are parameters; so are the selectors of a scraper class.
pub mod Steps
pub mod Ways
pub mod Lifecycle
pub mod Redelivery
pub mod Runs
mod Examples
use scraper_v_hezzian.Prelude.Dict.{Dict}
use Prim.Native.String.{◌++◌ as ◌<>◌}
use scraper_v_hezzian.Prelude.Dict
use scraper_v_hezzian.Prelude.{
  ◌+◌, string_eq, ℕ, if◌then◌else◌, ◌==◌, or_empty, String, true, false, Option, none, some, [],
}
use scraper_v_hezzian.Exceptions.{Result, err, other_error, Action, ◌>>◌, raise}
use scraper_v_hezzian.Core.Models.{no_metadata, Article, ScrapeResult, success}
use scraper_v_hezzian.Core.Registry.{Registry, get_scraper_for}
use scraper_v_hezzian.Core.Db.{Database, running, done, error, update_job_status}
use scraper_v_hezzian.Core.Storage.{Library, write}
use scraper_v_hezzian.Core.ObjectStore.{Fetched, found, object_not_found, get_error}
use scraper_v_hezzian.Utils.Parsers.{Html, Selectors, extract}
use scraper_v_hezzian.Utils.Validators.{response_is_valid}
use scraper_v_hezzian.Core.Queue.{MessageQueue, drain}
use scraper_v_hezzian.Worker.Messages.{
  ingest_message, Payload, result_pointer, job_message, ResultPointer,
}

pub record Deps (B : Type 0) : Type 1 where
  pub database : Database
  pub library : Library
  pub html : Html
  pub decode : B → String
  pub registry : Registry
  pub selectors_of : ℕ → Selectors
  pub public_scraper : ℕ

-- The clock readings of one call.
pub record Times : Type 0 where
  pub started : ℕ
  pub fetched : ℕ
  pub finished : ℕ

-- `fields.get(field)`, where a missing field and `None` are the same.
abbrev pub field : Selectors → String → Option String
field fields name = elim (Dict.get fields name) [ none ↦ none | some value ↦ value ]

module _ {B : Type 0} (W : Deps B) where
  abbrev pub ServingDb : Type 0
  ServingDb = W.database.Db

  -- `_selectors_for`
  unfoldable pub selectors_for : String → Selectors
  selectors_for domain = elim (get_scraper_for W.registry domain) [
    | none ↦ W.selectors_of W.public_scraper
    | some cls ↦ W.selectors_of cls
  ]

  unfoldable pub mark_running : ℕ → ResultPointer → Action ServingDb Unit
  mark_running now p = update_job_status W.database p.job_id running none none true false now

  unfoldable pub mark_error : ℕ → ResultPointer → String → Action ServingDb Unit
  mark_error now p text =
      update_job_status W.database p.job_id error (some 0) (some text) false true now

  unfoldable pub mark_done : ℕ → ResultPointer → Action ServingDb Unit
  mark_done now p = update_job_status W.database p.job_id done (some 1) none false true now

  -- Step 6, without the key `fetched_at` of the metadata.
  unfoldable pub article_of : ResultPointer → String → Article
  article_of p html =
      let fields = extract W.html html (selectors_for p.domain) in
      record {
        url = p.url;
        title = or_empty (field fields "title");
        content = or_empty (field fields "content");
        author = field fields "author";
        publish_date = none;
        raw_html = none;
        metadata = record no_metadata {
          source_domain = some p.domain;
          bucket = some p.bucket;
          raw_key = some p.object_key;
        };
      }

  abbrev pub result_of : ResultPointer → String → ScrapeResult
  result_of p html = record {
    status = success;
    driver_used = "transform";
    article = some (article_of p html);
    error_text = none;
    proxy_used = none;
  }

  -- Step 7, with a new sink.
  unfoldable pub upsert_article : ℕ → ResultPointer → String → Action ServingDb Unit
  upsert_article now p html db =
      let (r, sink) =
        write W.database W.library now (result_of p html) (record { db = db; seen_cache = [] }) in
      (r, sink.db)

  -- Steps 4 to 8, on the decoded page.
  unfoldable pub transform_html : Times → ResultPointer → String → Action ServingDb Unit
  transform_html at p html =
      if response_is_valid W.html html (selectors_for p.domain) 500
      then (upsert_article at.fetched p html >> mark_done at.finished p)
      else mark_error at.finished p "soft block or challenge page detected"

  -- Steps 3 to 8. The raw payload is the outcome of `store.get(object_key)`.
  unfoldable pub transform_payload : Times → ResultPointer → Fetched B → Action ServingDb Unit
  transform_payload at p (object_not_found _) = mark_error at.finished p "raw payload missing"
  transform_payload at p (get_error e) = raise e
  transform_payload at p (found bytes) = transform_html at p (W.decode bytes)

  -- Steps 2 to 8.
  unfoldable pub past_start : Times → (String → Fetched B) → ResultPointer → Action ServingDb Unit
  past_start at fetch p =
      if p.status == "success"
      then transform_payload at p (fetch p.object_key)
      else mark_error at.finished p ("scraper returned status '" <> (p.status <> "'"))

  unfoldable pub handle_result_pointer :
      Times → (String → Fetched B) → ResultPointer → Action ServingDb Unit
  handle_result_pointer at fetch p = mark_running at.started p >> past_start at fetch p

  -- The handler of `run_transform_worker`, in a world that counts its calls: the count tells the
  -- clock's readings. A message with other keys gives a `KeyError`.
  unfoldable pub transform_handler :
      {Q : Type 0}
      → (ℕ → Times)
      → (String → Fetched B)
      → Payload
      → Action (Q × (ℕ × ServingDb)) Unit
  transform_handler clock fetch (result_pointer p) (q, (n, db)) =
      let (r, db') = handle_result_pointer (clock n) fetch p db in (r, (q, (n + 1, db')))
  transform_handler clock fetch (job_message _) (q, (n, db)) =
      (err (other_error "KeyError"), (q, (n + 1, db)))
  transform_handler clock fetch (ingest_message _) (q, (n, db)) =
      (err (other_error "KeyError"), (q, (n + 1, db)))

  unfoldable pub run_transform_worker :
      {Q : Type 0}
      → MessageQueue Payload Q
      → ℕ
      → String
      → ℕ
      → (ℕ → Times)
      → (String → Fetched B)
      → Q × (ℕ × ServingDb)
      → Option (Result Unit × (Q × (ℕ × ServingDb)))
  run_transform_worker port fuel results_queue max_retries clock fetch =
      drain port fuel results_queue (transform_handler clock fetch) max_retries
