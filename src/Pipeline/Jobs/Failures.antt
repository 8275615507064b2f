-- ===== src/Pipeline/Jobs/Failures.antt =====
-- What becomes of a run of an ingestion when a source raises.
use scraper_v_hezzian.Pipeline.Jobs.Sources.{after_caught, after_raised, ingest_sources-append}
use scraper_v_hezzian.Worker.CommunityIngestWorker.Rounds.{NoRepeats}
use scraper_v_hezzian.Pipeline.Jobs.Counts.{accepted_ids}
use scraper_v_hezzian.Core.Storage.{Library}
use scraper_v_hezzian.Core.Models.{Article, ScrapeResult}
use scraper_v_hezzian.Core.Db.{Database}
use scraper_v_hezzian.Pipeline.Jobs.{Ingested, is_scrape_forge_error, new_sink, ingest_publications}
use scraper_v_hezzian.Exceptions.{Exception, Result, ok, err}
use scraper_v_hezzian.Prelude.{
  string_eq, ℕ, Bool, false, List, ◌∷◌, ◌++◌, ◌≡◌, true, sym, ◌∙◌, if◌then◌else◌, length, contains,
  String,
}

-- A run returns the number of articles it has stored, each of them once: those of these results
-- that are good enough.
abbrev pub Stores :
    (D : Database) (lib : Library) (now : ℕ)
    → (Article → Bool)
    → List ScrapeResult
    → Result ℕ × Ingested D lib now
    → Type 0
Stores D lib now is_good results (r, (sink, n)) =
    (r ≡ ok (length sink.seen_cache))
    × NoRepeats sink.seen_cache
    × ((id : String)
        → contains id sink.seen_cache ≡ contains id (accepted_ids D lib now is_good results))

module _ (D : Database) (lib : Library) (now : ℕ) where
  module _ (scrape_publication scrape_publication_via_rss : String → ℕ → Result (List ScrapeResult))
      (via_rss : Bool) (limit : ℕ) where
    -- The ingestion of these publications.
    abbrev ingested : List String → D.Db → Result ℕ × Ingested D lib now
    ingested =
        ingest_publications D lib now scrape_publication scrape_publication_via_rss via_rss limit

    abbrev publication : String → Result (List ScrapeResult)
    publication base =
        if via_rss then scrape_publication_via_rss base limit else scrape_publication base limit

    -- Behind publications with which an ingestion returns, one whose scrape raises a
    -- ScrapeForgeError is left out, and the others are stored as without it; any other exception
    -- ends the ingestion, which raises it, with what was stored so far, and the publications after
    -- it are not read.
    pub ingest_publications-Isolated :
        (before : List String) (base : String) (after : List String) (db : D.Db) (n : ℕ)
        (s : Ingested D lib now) (e : Exception)
        → ingested before db ≡ (ok n, s)
        → publication base ≡ err e
        → (is_scrape_forge_error e ≡ true
            → ingested (before ++ base ∷ after) db ≡ ingested (before ++ after) db)
          × (is_scrape_forge_error e ≡ false → ingested (before ++ base ∷ after) db ≡ (err e, s))
    unfolding ingest_publications
    ingest_publications-Isolated before base after db n s e h r =
        let on : (ys : List String) → _ = λ ys.
          ingest_sources-append D lib now publication (λ a. true) is_scrape_forge_error before ys
            (new_sink D lib now db) s n h in
        (
          λ c.
              on (base ∷ after)
              ∙ after_caught D lib now publication (λ a. true) is_scrape_forge_error base after e s
                  r c
              ∙ sym (on after),
          λ u.
              on (base ∷ after)
              ∙ after_raised D lib now publication (λ a. true) is_scrape_forge_error base after e s
                  r u,
        )
