-- ===== src/Core/Models.antt =====
-- scrapeforge/core/models.py
pub mod Summaries
use scraper_v_hezzian.Core.Models.Summaries.{Summary}
use scraper_v_hezzian.Prelude.{ℕ, String, Bool, true, false, Option, none, some}

-- The metadata of an article is a dict of which the modelled code writes these keys. No code asks
-- if a key is there, so `none` stands for a missing key as for `None`.
pub record Metadata : Type 0 where
  pub source_domain : Option String
  pub bucket : Option String
  pub raw_key : Option String
  pub score : Option ℕ
  pub subreddit : Option String
  pub num_comments : Option ℕ
  pub reddit_id : Option String
  pub link_url : Option String
  pub substack_id : Option ℕ
  pub audience : Option String
  pub subtitle : Option String
  pub post_type : Option String
  pub via : Option String
  pub relevance : Option ℕ
  pub summary : Option Summary

abbrev pub no_metadata : Metadata
no_metadata = record {
  source_domain = none;
  bucket = none;
  raw_key = none;
  score = none;
  subreddit = none;
  num_comments = none;
  reddit_id = none;
  link_url = none;
  substack_id = none;
  audience = none;
  subtitle = none;
  post_type = none;
  via = none;
  relevance = none;
  summary = none;
}

pub record Article : Type 0 where
  pub url : String
  pub title : String
  pub content : String
  pub author : Option String
  pub publish_date : Option ℕ
  pub raw_html : Option String
  pub metadata : Metadata

-- The values of `ScrapeResult.status`.
pub data Status : Type 0 where
  success challenge rate_limited error proxy_failed : Status

pub record ScrapeResult : Type 0 where
  pub status : Status
  pub driver_used : String
  pub article : Option Article
  pub error_text : Option String
  pub proxy_used : Option String

unfoldable pub is_success : Status → Bool
is_success success = true
is_success _ = false

-- `None` for the results that a sink skips.
unfoldable pub article_if_success : ScrapeResult → Option Article
article_if_success result = elim (is_success result.status) [ false ↦ none | true ↦ result.article ]

-- A result with no article.
abbrev pub failed : Status → String → String → ScrapeResult
failed status driver text = record {
  status = status;
  driver_used = driver;
  article = none;
  error_text = some text;
  proxy_used = none;
}

pub data HealthStatus : Type 0 where
  healthy unhealthy burned unknown : HealthStatus

pub record ProxySession : Type 0 where
  pub url : String
  pub health_status : HealthStatus
  pub last_used : Option ℕ
  pub failure_count : ℕ
  pub assigned_scraper : Option String
  pub country_code : Option String
