-- ===== src/Pipeline/Jobs.antt =====
-- scrapeforge/pipeline/jobs.py, the three ingestions, which have one loop. The scraper is a
-- parameter that gives a source's results or raises. A run's articles are written at one time here.
pub mod Counts
pub mod Sources
pub mod Failures
mod Examples
use scraper_v_hezzian.Scrapers.Community.Reddit.{scrape_subreddit}
use scraper_v_hezzian.Prelude.Text.{strip}
use scraper_v_hezzian.Prelude.{
  string_eq, ℕ, ◌+◌, ltb, String, Bool, true, false, not, ◌&&◌, Option, none, some, List, [], ◌∷◌,
  if◌then◌else◌, ◌==◌,
}
use scraper_v_hezzian.Exceptions.{Exception, other_error, Result, ok, err}
use scraper_v_hezzian.Core.Models.{Article, ScrapeResult, article_if_success}
use scraper_v_hezzian.Core.Db.{Database}
use scraper_v_hezzian.Core.Storage.{Library, PostgresSink, seen, write}

-- `except ScrapeForgeError`
unfoldable pub is_scrape_forge_error : Exception → Bool
is_scrape_forge_error (other_error s) = false
is_scrape_forge_error e = true

-- A self-post with text, and with the score if it has one.
unfoldable pub is_quality_post : ℕ → Article → Bool
is_quality_post min_score a =
    not (strip a.content == "")
    && elim a.metadata.score [ none ↦ true | some score ↦ not (ltb score min_score) ]

module _ (D : Database) (lib : Library) (now : ℕ) where
  -- The sink, and `persisted`.
  abbrev pub Ingested : Type 0
  Ingested = PostgresSink D lib × ℕ

  -- The article that a result asks to store, and that is good enough.
  unfoldable pub accepted : (Article → Bool) → ScrapeResult → Option Article
  accepted is_good result = elim (article_if_success result) [
    | none ↦ none
    | some a ↦ if is_good a then some a else none
  ]

  unfoldable pub ingest_result : (Article → Bool) → ScrapeResult → Ingested → Ingested
  unfolding accepted
  ingest_result is_good result (sink, n) = elim (accepted is_good result) [
    | none ↦ (sink, n)
    | some a ↦ if seen D lib sink a.url then (sink, n) else ((write D lib now result sink).1, n + 1)
  ]

  unfoldable pub ingest_results : (Article → Bool) → List ScrapeResult → Ingested → Ingested
  unfolding ingest_result
  ingest_results is_good [] s = s
  ingest_results is_good (r ∷ rs) s = ingest_results is_good rs (ingest_result is_good r s)

  module _ {A : Type 0} (scrape_source : A → Result (List ScrapeResult))
      (is_caught : Exception → Bool) (is_good : Article → Bool) where
    -- The loop over the sources. What is stored before an exception stays stored.
    unfoldable pub ingest_sources : List A → Ingested → Result ℕ × Ingested
    unfolding ingest_results
    ingest_sources [] (sink, n) = (ok n, (sink, n))
    ingest_sources (source ∷ sources) s = elim (scrape_source source) [
      | err e ↦ elim (is_caught e) [ true ↦ ingest_sources sources s | false ↦ (err e, s) ]
      | ok results ↦ ingest_sources sources (ingest_results is_good results s)
    ]

  abbrev pub new_sink : D.Db → Ingested
  new_sink db = (record { db = db; seen_cache = [] }, 0)

  unfoldable pub ingest_publications :
      (String → ℕ → Result (List ScrapeResult))
      → (String → ℕ → Result (List ScrapeResult))
      → Bool
      → ℕ
      → List String
      → D.Db
      → Result ℕ × Ingested
  unfolding ingest_sources is_scrape_forge_error
  ingest_publications scrape_publication scrape_publication_via_rss via_rss limit sources db =
      ingest_sources
        (λ base.
          if via_rss then scrape_publication_via_rss base limit else scrape_publication base limit)
        is_scrape_forge_error (λ a. true) sources (new_sink db)

  unfoldable pub ingest_subreddits :
      (String → ℕ → String → Result (List ScrapeResult))
      → ℕ
      → String
      → ℕ
      → List String
      → D.Db
      → Result ℕ × Ingested
  unfolding ingest_sources is_quality_post
  ingest_subreddits scrape_subreddit limit sort min_score subreddits db =
      ingest_sources (λ subreddit. scrape_subreddit subreddit limit sort) (λ e. true)
        (is_quality_post min_score) subreddits (new_sink db)

  unfoldable pub ingest_news_feeds :
      (String → ℕ → ℕ → Result (List ScrapeResult))
      → ℕ
      → ℕ
      → List String
      → D.Db
      → Result ℕ × Ingested
  unfolding ingest_sources
  ingest_news_feeds scrape_feed limit min_chars feeds db =
      ingest_sources (λ url. scrape_feed url limit min_chars) (λ e. true) (λ a. true) feeds
        (new_sink db)
