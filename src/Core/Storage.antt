-- ===== src/Core/Storage.antt =====
-- scrapeforge/core/storage/base.py and postgres.py. SHA-256 and the host of a URL are parameters.
pub mod Upsert
mod Examples
use scraper_v_hezzian.Prelude.{
  string_eq, ℕ, if◌then◌else◌, ◌==◌, contains, or_empty, String, Bool, true, false, Option, none,
  some, List, ◌∷◌,
}
use scraper_v_hezzian.Exceptions.{Action, ok}
use scraper_v_hezzian.Core.Models.{ScrapeResult, Article, is_success}
use scraper_v_hezzian.Core.Db.{Database, ArticleRow}

-- What a sink relies on from Python's library.
pub record Library : Type 0 where
  pub sha256 : String → String
  pub hostname : String → Option String

-- `url_id`
unfoldable pub url_id : Library → String → String
url_id lib url = lib.sha256 url

-- The row of an article; `source_domain` may be missing or empty.
unfoldable pub row_of : Library → ℕ → String → Article → ArticleRow
unfolding url_id
row_of lib now driver a = record {
  id = url_id lib a.url;
  url = a.url;
  domain = elim a.metadata.source_domain [
    | none ↦ or_empty (lib.hostname a.url)
    | some d ↦ if d == "" then or_empty (lib.hostname a.url) else d
  ];
  bucket = or_empty a.metadata.bucket;
  title = a.title;
  content = a.content;
  author = a.author;
  publish_date = a.publish_date;
  fetched_at = now;
  raw_key = a.metadata.raw_key;
  driver_used = driver;
  relevance = none;
  summary = none;
}

-- The columns of `_UPSERT_UPDATE_COLUMNS` are overwritten; the others stay.
unfoldable pub set_excluded : ArticleRow → ArticleRow → ArticleRow
set_excluded new old = record old {
  domain = new.domain;
  bucket = new.bucket;
  title = new.title;
  content = new.content;
  author = new.author;
  publish_date = new.publish_date;
  fetched_at = new.fetched_at;
  raw_key = new.raw_key;
  driver_used = new.driver_used;
}

module _ (D : Database) (lib : Library) where
  pub record PostgresSink : Type 0 where
    pub db : D.Db
    pub seen_cache : List String

  unfoldable pub seen : PostgresSink → String → Bool
  unfolding url_id
  seen sink url = contains (url_id lib url) sink.seen_cache

  pub write_article : ℕ → String → Article → PostgresSink → PostgresSink
  unfolding row_of
  write_article now driver a sink =
      let row = row_of lib now driver a in
      record { db = D.upsert row (set_excluded row) sink.db; seen_cache = row.id ∷ sink.seen_cache }

  unfoldable pub write : ℕ → ScrapeResult → Action PostgresSink Unit
  unfolding write_article
  write now result sink = elim (is_success result.status) [
    | false ↦ (ok tt, sink)
    | true ↦ elim result.article [
      | none ↦ (ok tt, sink)
      | some a ↦ (ok tt, write_article now result.driver_used a sink)
    ]
  ]
