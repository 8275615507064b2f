-- ===== src/Core/Storage/Examples.antt =====
-- Two results for one URL. The SHA-256 of a text is the text itself here.
use scraper_v_hezzian.Prelude.{string_eq, String, none, some, []}
use scraper_v_hezzian.Core.Models.{no_metadata, ScrapeResult, Article, success}
use scraper_v_hezzian.Core.Db.Tables.{tables, with_job}
use scraper_v_hezzian.Core.Storage.{Library, PostgresSink}

abbrev library : Library
library = record { sha256 = λ s. s; hostname = λ s. some "a.com" }

abbrev article : String → Article
article title = record {
  url = "u";
  title = title;
  content = "text";
  author = none;
  publish_date = none;
  raw_html = none;
  metadata = record no_metadata { bucket = some "public" };
}

abbrev result : String → ScrapeResult
result title = record {
  status = success;
  driver_used = "curl_cffi";
  error_text = none;
  proxy_used = none;
  article = some (article title);
}

abbrev sink : PostgresSink tables library
sink = record { db = with_job; seen_cache = [] }
