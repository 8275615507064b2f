-- ===== src/Pipeline/Jobs/Counts.antt =====
-- What an ingestion stores, counts, and leaves out.
use scraper_v_hezzian.Worker.CommunityIngestWorker.Rounds.{
  NoRepeats, contains_known, contains_swapped,
}
use scraper_v_hezzian.Core.Storage.Upsert.{write-some, stored, seen_cache-write_article}
use scraper_v_hezzian.Core.Storage.{url_id, write_article, Library, seen}
use scraper_v_hezzian.Core.Models.{article_if_success, Article, ScrapeResult}
use scraper_v_hezzian.Core.Db.{Database}
use scraper_v_hezzian.Pipeline.Jobs.{Ingested, ingest_result, accepted, ingest_results}
use scraper_v_hezzian.Prelude.{
  string_eq, ℕ, String, Bool, false, none, some, List, [], ◌∷◌, ◌≡◌, contains, ◌+◌, true, arith,
  Bool-cases, Option-cases, length, sym, ap, ◌∙◌, subst, inl, inr, ◌||◌, refl, ap₂, ◌++◌,
}

module _ (D : Database) (lib : Library) (now : ℕ) (is_good : Article → Bool) where
  -- The ids of the articles that are good enough.
  unfoldable pub accepted_ids : List ScrapeResult → List String
  accepted_ids [] = []
  accepted_ids (r ∷ rs) =
      let rest = accepted_ids rs in
      elim (accepted D lib now is_good r) [ none ↦ rest | some a ↦ url_id lib a.url ∷ rest ]

  accepted-stored :
      (r : ScrapeResult) (a : Article)
      → accepted D lib now is_good r ≡ some a
      → stored D lib r ≡ some a
  unfolding accepted article_if_success
  accepted-stored r a h = ground arith

  ingest_result-skipped :
      (r : ScrapeResult) (s : Ingested D lib now)
      → accepted D lib now is_good r ≡ none
      → ingest_result D lib now is_good r s ≡ s
  unfolding ingest_result
  ingest_result-skipped r (sink, n) h = ground arith

  ingest_result-repeated :
      (r : ScrapeResult) (a : Article) (s : Ingested D lib now)
      → accepted D lib now is_good r ≡ some a
      → contains (url_id lib a.url) s.0.seen_cache ≡ true
      → ingest_result D lib now is_good r s ≡ s
  unfolding ingest_result seen
  ingest_result-repeated r a (sink, n) h old = ground arith

  ingest_result-kept :
      (r : ScrapeResult) (a : Article) (s : Ingested D lib now)
      → accepted D lib now is_good r ≡ some a
      → contains (url_id lib a.url) s.0.seen_cache ≡ false
      → ingest_result D lib now is_good r s ≡ (write_article D lib now r.driver_used a s.0, s.1 + 1)
  unfolding ingest_result seen
  ingest_result-kept r a (sink, n) h fresh =
      ground (arith, write-some D lib now r a sink (accepted-stored r a h))

  -- The loop so far: each counted article is in the cache once.
  pub record Counted (s : Ingested D lib now) : Type 0 where
    pub counts : s.1 ≡ length s.0.seen_cache
    pub no_repeats : NoRepeats s.0.seen_cache

  pub ingest_result-Counted :
      (r : ScrapeResult) (s : Ingested D lib now)
      → Counted s
      → Counted (ingest_result D lib now is_good r s)
  unfolding NoRepeats
  ingest_result-Counted r s c = elim (Option-cases (accepted D lib now is_good r)) [
    | inl e ↦ subst Counted (sym (ingest_result-skipped r s e)) c
    | inr (a, e) ↦ elim (Bool-cases (contains (url_id lib a.url) s.0.seen_cache)) [
      | inl old ↦ subst Counted (sym (ingest_result-repeated r a s e old)) c
      | inr fresh ↦
          let cache = seen_cache-write_article D lib now r.driver_used a s.0 in
          subst Counted (sym (ingest_result-kept r a s e fresh)) (record {
            counts = omega (
              arith,
              ap (λ x. x.1) (ingest_result-kept r a s e fresh),
              c.counts,
              ap length cache,
            );
            no_repeats = subst NoRepeats (sym cache) (fresh, c.no_repeats);
          })
    ]
  ]

  accepted_ids-none :
      (r : ScrapeResult) (rs : List ScrapeResult)
      → accepted D lib now is_good r ≡ none
      → accepted_ids (r ∷ rs) ≡ accepted_ids rs
  unfolding accepted_ids
  accepted_ids-none r rs e =
      ap (λ x. elim x [ none ↦ accepted_ids rs | some a ↦ url_id lib a.url ∷ accepted_ids rs ]) e

  accepted_ids-some :
      (r : ScrapeResult) (rs : List ScrapeResult) (a : Article)
      → accepted D lib now is_good r ≡ some a
      → accepted_ids (r ∷ rs) ≡ url_id lib a.url ∷ accepted_ids rs
  unfolding accepted_ids
  accepted_ids-some r rs a e =
      ap (λ x. elim x [ none ↦ accepted_ids rs | some b ↦ url_id lib b.url ∷ accepted_ids rs ]) e

  -- The ids in the cache after a result.
  ingest_result-contains :
      (r : ScrapeResult) (rs : List ScrapeResult) (s : Ingested D lib now) (id : String)
      → contains id (accepted_ids rs)
          || contains id (ingest_result D lib now is_good r s).0.seen_cache
        ≡ contains id (accepted_ids (r ∷ rs)) || contains id s.0.seen_cache
  ingest_result-contains r rs s id = elim (Option-cases (accepted D lib now is_good r)) [
    | inl e ↦
        ap₂ (λ ids x. contains id ids || contains id x.0.seen_cache)
          (sym (accepted_ids-none r rs e)) (ingest_result-skipped r s e)
    | inr (a, e) ↦ elim (Bool-cases (contains (url_id lib a.url) s.0.seen_cache)) [
      | inl old ↦
          ap (λ x. contains id (accepted_ids rs) || contains id x.0.seen_cache)
            (ingest_result-repeated r a s e old)
          ∙ contains_known (url_id lib a.url) id s.0.seen_cache (accepted_ids rs) old
          ∙ ap (λ ids. contains id ids || contains id s.0.seen_cache)
              (sym (accepted_ids-some r rs a e))
      | inr fresh ↦
          ap (λ x. contains id (accepted_ids rs) || contains id x.0.seen_cache)
            (ingest_result-kept r a s e fresh)
          ∙ ap (λ cache. contains id (accepted_ids rs) || contains id cache)
              (seen_cache-write_article D lib now r.driver_used a s.0)
          ∙ contains_swapped (url_id lib a.url) id s.0.seen_cache (accepted_ids rs)
          ∙ ap (λ ids. contains id ids || contains id s.0.seen_cache)
              (sym (accepted_ids-some r rs a e))
    ]
  ]

  pub ingest_results-Counted :
      (rs : List ScrapeResult) (s : Ingested D lib now)
      → Counted s
      → Counted (ingest_results D lib now is_good rs s)
  unfolding ingest_results
  ingest_results-Counted [] s c = c
  ingest_results-Counted (r ∷ rs) s c =
      ingest_results-Counted rs (ingest_result D lib now is_good r s) (ingest_result-Counted r s c)

  pub ingest_results-contains :
      (rs : List ScrapeResult) (s : Ingested D lib now) (id : String)
      → contains id (ingest_results D lib now is_good rs s).0.seen_cache
        ≡ contains id (accepted_ids rs) || contains id s.0.seen_cache
  unfolding ingest_results accepted_ids contains
  ingest_results-contains [] s id = refl
  ingest_results-contains (r ∷ rs) s id =
      ingest_results-contains rs (ingest_result D lib now is_good r s) id
      ∙ ingest_result-contains r rs s id

  pub ingest_results-append :
      (xs ys : List ScrapeResult) (s : Ingested D lib now)
      → ingest_results D lib now is_good (xs ++ ys) s
        ≡ ingest_results D lib now is_good ys (ingest_results D lib now is_good xs s)
  unfolding ingest_results
  ingest_results-append [] ys s = refl
  ingest_results-append (x ∷ xs) ys s =
      ingest_results-append xs ys (ingest_result D lib now is_good x s)
