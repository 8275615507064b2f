-- ===== src/Worker/ScraperWorker.antt =====
-- scrapeforge/worker/scraper_worker.py
-- The engine is any object with a `scrape` that may raise. The encodings of texts and of the JSON
-- fallback are parameters.
pub mod Archive
use scraper_v_hezzian.Prelude.{string_eq, if◌then◌else◌, ◌==◌, or_empty, String, Option, none, some}
use scraper_v_hezzian.Exceptions.{Action, ◌>>◌, ◌>>=◌, raise, pure, other_error}
use scraper_v_hezzian.Core.Models.{ScrapeResult, Status}
use scraper_v_hezzian.Core.Queue.{MessageQueue, on_queue}
use scraper_v_hezzian.Core.Storage.{Library, url_id}
use scraper_v_hezzian.Core.ObjectStore.{InMemoryObjectStore, put_object}
use scraper_v_hezzian.Worker.Messages.{
  ingest_message, JobMessage, ResultPointer, Payload, raw_object_key, status_text, job_message,
  result_pointer,
}

pub record Encodings (B : Type 0) : Type 0 where
  pub encode : String → B
  pub dumps : Status → Option String → String → B

-- `a or b`, for texts that may be missing.
abbrev pub or_else : Option String → String → String
or_else none b = b
or_else (some a) b = if a == "" then b else a

-- `result.article.raw_html`, where it is there and not empty.
unfoldable pub page_of : ScrapeResult → Option String
page_of result = elim result.article [
  | none ↦ none
  | some a ↦ elim a.raw_html [ none ↦ none | some html ↦ if html == "" then none else some html ]
]

module _ {B : Type 0} (enc : Encodings B) where
  -- Step 2: the bytes and their content type.
  unfoldable pub raw_of : String → ScrapeResult → B × String
  raw_of url result = elim (page_of result) [
    | none ↦ (enc.dumps result.status result.error_text url, "application/json")
    | some html ↦ (enc.encode html, "text/html; charset=utf-8")
  ]

-- Step 3
unfoldable pub bucket_of : Option String → ScrapeResult → String
bucket_of hint result =
    or_else hint
      (or_else (elim result.article [ none ↦ none | some a ↦ a.metadata.bucket ]) "public")

module _ (lib : Library) where
  -- Step 5, without the time stamp.
  unfoldable pub pointer_of : JobMessage → ScrapeResult → ResultPointer
  pointer_of payload result =
      let uid = url_id lib payload.url in
      let bkt = bucket_of payload.bucket result in
      record {
        job_id = payload.job_id;
        object_key = raw_object_key bkt uid;
        url = payload.url;
        url_id = uid;
        domain = or_empty (lib.hostname payload.url);
        bucket = bkt;
        status = status_text result.status;
      }

module _ {B Q E : Type 0} (enc : Encodings B) (lib : Library) (port : MessageQueue Payload Q)
    (engine_scrape : String → Action E ScrapeResult) (results_queue : String) where
  abbrev pub World : Type 0
  World = Q × (InMemoryObjectStore B × E)

  abbrev pub on_engine : {A : Type 0} → Action E A → Action World A
  on_engine m (q, (o, e)) = let (r, e') = m e in (r, (q, (o, e')))

  abbrev pub on_store : {A : Type 0} → Action (InMemoryObjectStore B) A → Action World A
  on_store m (q, (o, e)) = let (r, o') = m o in (r, (q, (o', e)))

  -- Steps 2 to 6
  unfoldable pub archive : String → JobMessage → ScrapeResult → Action World ResultPointer
  archive msg_id payload result =
      let (raw, content_type) = raw_of enc payload.url result in
      let pointer = pointer_of lib payload result in
      on_store (put_object pointer.object_key raw content_type)
      >> on_queue (port.publish msg_id results_queue (result_pointer pointer))
      >> pure pointer

  unfoldable pub handle_scrape_job : String → JobMessage → Action World ResultPointer
  handle_scrape_job msg_id payload =
      on_engine (engine_scrape payload.url) >>= archive msg_id payload

  -- The handler of `run_scraper_worker`. A message with other keys gives a `KeyError`.
  unfoldable pub scrape_handler : (JobMessage → String) → Payload → Action World Unit
  scrape_handler uuid (job_message payload) = handle_scrape_job (uuid payload) payload >> pure tt
  scrape_handler uuid (result_pointer _) = raise (other_error "KeyError")
  scrape_handler uuid (ingest_message _) = raise (other_error "KeyError")
