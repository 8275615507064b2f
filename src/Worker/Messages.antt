-- ===== src/Worker/Messages.antt =====
-- scrapeforge/worker/messages.py
use Prim.Native.String.{◌++◌ as ◌<>◌}
use scraper_v_hezzian.Prelude.{
  ℕ, string_eq, String, Option, if◌then◌else◌, ◌==◌, ◌≡◌, refl, arith, eq_iff,
}
use scraper_v_hezzian.Core.Models.{Status, success, challenge, rate_limited, error, proxy_failed}

pub record JobMessage : Type 0 where
  pub job_id : String
  pub url : String
  pub bucket : Option String

pub record ResultPointer : Type 0 where
  pub job_id : String
  pub object_key : String
  pub url : String
  pub url_id : String
  pub domain : String
  pub bucket : String
  pub status : String

-- The texts of the `Literal` type of `ScrapeResult.status`.
unfoldable pub status_text : Status → String
status_text success = "success"
status_text challenge = "challenge"
status_text rate_limited = "rate_limited"
status_text error = "error"
status_text proxy_failed = "proxy_failed"

unfoldable pub raw_object_key : String → String → String
raw_object_key bucket url_id =
    "raw/" <> ((if bucket == "" then "unknown" else bucket) <> ("/" <> url_id))

pub record IngestMessage : Type 0 where
  pub job_id : String
  pub platform : String
  pub target : String
  pub bucket : String
  pub limit : ℕ

-- What one queue object carries: the messages of all stages.
pub data Payload : Type 0 where
  job_message : JobMessage → Payload
  result_pointer : ResultPointer → Payload
  ingest_message : IngestMessage → Payload

pub status_text-success : (s : Status) → status_text s ≡ "success" → s ≡ success
unfolding status_text
status_text-success success h = refl
status_text-success challenge h = ground (arith, eq_iff "challenge" "success")
status_text-success rate_limited h = ground (arith, eq_iff "rate_limited" "success")
status_text-success error h = ground (arith, eq_iff "error" "success")
status_text-success proxy_failed h = ground (arith, eq_iff "proxy_failed" "success")
