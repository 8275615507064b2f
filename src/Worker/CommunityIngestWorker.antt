-- ===== src/Worker/CommunityIngestWorker.antt =====
-- scrapeforge/worker/community_ingest_worker.py
-- The scraper of Substack is a parameter: `scrape_publication` gives its results or raises. The
-- object store is the one in memory, whose `put` does not raise; nor does the database.
pub mod Rounds
pub mod Counts
pub mod Endings
mod Examples
use Prim.Native.String.{◌++◌ as ◌<>◌}
use scraper_v_hezzian.Prelude.{
  string_eq, ℕ, ◌+◌, if◌then◌else◌, ◌==◌, String, true, false, Option, none, some, List, [], ◌∷◌,
}
use scraper_v_hezzian.Exceptions.{other_error, Action, Result, ok, err, message, ◌>>◌, pure, raise}
use scraper_v_hezzian.Core.Models.{Article, ScrapeResult, is_success}
use scraper_v_hezzian.Core.Db.{Database, update_job_status, running, done, error}
use scraper_v_hezzian.Core.Storage.{Library, url_id, PostgresSink, seen, write}
use scraper_v_hezzian.Core.ObjectStore.{InMemoryObjectStore, put_object}
use scraper_v_hezzian.Worker.TransformWorker.{Times}
use scraper_v_hezzian.Worker.Messages.{IngestMessage, raw_object_key}

pub record IngestDeps (B : Type 0) : Type 1 where
  pub database : Database
  pub library : Library
  pub encode : String → B
  pub dumps : Article → B
  pub scrape_publication : String → ℕ → Result (List ScrapeResult)

-- The article of a result that the loop does not skip at once.
unfoldable pub article_to_store : ScrapeResult → Option Article
article_to_store result = elim (is_success result.status) [ false ↦ none | true ↦ result.article ]

-- `article.metadata.setdefault("raw_key", key)`
unfoldable pub with_raw_key : String → Article → Article
with_raw_key key a = record a {
  metadata = record a.metadata {
    raw_key = elim a.metadata.raw_key [ none ↦ some key | some k ↦ some k ];
  };
}

abbrev pub no_scraper : String → String
no_scraper platform = "no community-ingest scraper for platform '" <> (platform <> "'")

module _ {B : Type 0} (I : IngestDeps B) where
  abbrev pub Sink : Type 0
  Sink = PostgresSink I.database I.library

  -- The state of the loop: the object store, the sink, and `persisted`.
  abbrev pub Progress : Type 0
  Progress = InMemoryObjectStore B × (Sink × ℕ)

  unfoldable pub raw_payload : Article → B × String
  raw_payload a = elim a.raw_html [
    | none ↦ (I.dumps a, "application/json")
    | some html ↦
        if html == ""
        then (I.dumps a, "application/json")
        else (I.encode html, "text/html; charset=utf-8")
  ]

  unfoldable pub persist_article : ℕ → String → ScrapeResult → Article → Progress → Progress
  persist_article now bucket result a (o, (sink, n)) =
      let key = raw_object_key bucket (url_id I.library a.url) in
      let (raw, content_type) = raw_payload a in
      let (_, o') = put_object key raw content_type o in
      let (_, sink') =
        write I.database I.library now (record result { article = some (with_raw_key key a) })
          sink in
      (o', (sink', n + 1))

  -- The body of the loop.
  unfoldable pub persist_result : ℕ → String → ScrapeResult → Progress → Progress
  persist_result now bucket result (o, (sink, n)) = elim (article_to_store result) [
    | none ↦ (o, (sink, n))
    | some a ↦
        if seen I.database I.library sink a.url
        then (o, (sink, n))
        else persist_article now bucket result a (o, (sink, n))
  ]

  unfoldable pub persist_all : ℕ → String → List ScrapeResult → Progress → Progress
  persist_all now bucket [] s = s
  persist_all now bucket (r ∷ rs) s = persist_all now bucket rs (persist_result now bucket r s)

  abbrev pub IngestWorld : Type 0
  IngestWorld = InMemoryObjectStore B × I.database.Db

  abbrev pub on_database : {A : Type 0} → Action I.database.Db A → Action IngestWorld A
  on_database m (o, db) = let (r, db') = m db in (r, (o, db'))

  -- The `try` statement and what follows it. All articles of a job are written at one time here.
  unfoldable pub ingest : Times → IngestMessage → Result (List ScrapeResult) → Action IngestWorld ℕ
  ingest at payload (err e) w =
      (on_database (
            update_job_status I.database payload.job_id error (some 0) (some (message e)) false true
              at.finished)
          >> raise e)
        w
  ingest at payload (ok results) (o, db) =
      let (o', (sink, n)) =
        persist_all at.fetched payload.bucket results
          (o, (record { db = db; seen_cache = [] }, 0)) in
      (on_database
            (update_job_status I.database payload.job_id done (some n) none false true at.finished)
          >> pure n)
        (o', sink.db)

  -- Steps after the scraper is resolved.
  unfoldable pub run_ingest : Times → IngestMessage → Action IngestWorld ℕ
  run_ingest at payload =
      on_database
        (update_job_status I.database payload.job_id running none none true false at.started)
      >> ingest at payload (I.scrape_publication payload.target payload.limit)

  -- `_resolve_scraper` comes first: for an unknown platform it raises a `ValueError`.
  unfoldable pub handle_ingest_job : Times → IngestMessage → Action IngestWorld ℕ
  handle_ingest_job at payload =
      if payload.platform == "substack"
      then run_ingest at payload
      else raise (other_error (no_scraper payload.platform))
