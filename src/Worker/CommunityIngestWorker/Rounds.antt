-- ===== src/Worker/CommunityIngestWorker/Rounds.antt =====
-- What one round of the loop of an ingest job does to the cache, the count and the jobs.
use scraper_v_hezzian.Prelude.{
  string_eq, ℕ, ◌+◌, ◌≡◌, String, false, none, some, List, [], ◌∷◌, contains, refl, ap, ◌∙◌,
  if◌then◌else◌, Bool-cases, Option-cases, length, sym, subst, inl, inr, true, ◌||◌, arith, ◌==◌,
  ap₂, eq_iff,
}
use scraper_v_hezzian.Core.Models.{Article, ScrapeResult}
use scraper_v_hezzian.Core.Storage.{url_id, seen}
use scraper_v_hezzian.Core.Storage.Upsert.{
  stored, write-some, seen_cache-write_article, write_article-job,
}
use scraper_v_hezzian.Core.ObjectStore.{InMemoryObjectStore}
use scraper_v_hezzian.Worker.Messages.{raw_object_key}
use scraper_v_hezzian.Worker.CommunityIngestWorker.{
  IngestDeps, Sink, Progress, with_raw_key, article_to_store, persist_article, persist_result,
}

-- No text stands twice in a list.
unfoldable pub NoRepeats : List String → Type 0
NoRepeats [] = Unit
NoRepeats (x ∷ xs) = (contains x xs ≡ false) × NoRepeats xs

-- A text of the cache adds nothing to the ids.
pub contains_known :
    (u id : String) (cache ids : List String)
    → contains u cache ≡ true
    → contains id ids || contains id cache ≡ contains id (u ∷ ids) || contains id cache
unfolding contains
contains_known u id cache ids h = elim (Bool-cases (u == id)) [
  | inl e ↦
      let there : contains id cache ≡ true =
        ap (λ s. contains s cache) (sym ((eq_iff u id).0 e)) ∙ h in
      ground (arith, there, e)
  | inr e ↦ ground (arith, e)
]

pub contains_swapped :
    (u id : String) (cache ids : List String)
    → contains id ids || contains id (u ∷ cache) ≡ contains id (u ∷ ids) || contains id cache
unfolding contains
contains_swapped u id cache ids = ground arith

module _ {B : Type 0} (I : IngestDeps B) where
  -- The ids of the URLs of the results that have an article to store.
  unfoldable pub stored_ids : List ScrapeResult → List String
  stored_ids [] = []
  stored_ids (r ∷ rs) =
      let rest = stored_ids rs in
      elim (article_to_store r) [ none ↦ rest | some a ↦ url_id I.library a.url ∷ rest ]

  abbrev pub sink_of : Progress I → Sink I
  sink_of (o, (sink, n)) = sink

  abbrev pub persisted : Progress I → ℕ
  persisted (o, (sink, n)) = n

  stored_with_key :
      (key : String) (result : ScrapeResult) (a : Article)
      → article_to_store result ≡ some a
      → stored I.database I.library (record result { article = some (with_raw_key key a) })
        ≡ some (with_raw_key key a)
  unfolding article_to_store
  stored_with_key key result a h = ground arith

  persist_article-cache :
      (now : ℕ) (bucket : String) (result : ScrapeResult) (a : Article) (s : Progress I)
      → article_to_store result ≡ some a
      → (sink_of (persist_article I now bucket result a s)).seen_cache
        ≡ url_id I.library a.url ∷ (sink_of s).seen_cache
  unfolding persist_article with_raw_key
  persist_article-cache now bucket result a (o, (sink, n)) h =
      let key = raw_object_key bucket (url_id I.library a.url) in
      ap (λ x. x.1.seen_cache)
        (write-some I.database I.library now (record result { article = some (with_raw_key key a) })
          (with_raw_key key a) sink (stored_with_key key result a h))
      ∙ seen_cache-write_article I.database I.library now result.driver_used (with_raw_key key a)
          sink

  persist_article-job :
      (now : ℕ) (bucket : String) (result : ScrapeResult) (a : Article) (s : Progress I)
      (k : String)
      → article_to_store result ≡ some a
      → I.database.job (sink_of (persist_article I now bucket result a s)).db k
        ≡ I.database.job (sink_of s).db k
  unfolding persist_article
  persist_article-job now bucket result a (o, (sink, n)) k h =
      let key = raw_object_key bucket (url_id I.library a.url) in
      ap (λ x. I.database.job x.1.db k)
        (write-some I.database I.library now (record result { article = some (with_raw_key key a) })
          (with_raw_key key a) sink (stored_with_key key result a h))
      ∙ write_article-job I.database I.library now result.driver_used (with_raw_key key a) sink k

  persist_article-count :
      (now : ℕ) (bucket : String) (result : ScrapeResult) (a : Article) (s : Progress I)
      → persisted (persist_article I now bucket result a s) ≡ persisted s + 1
  unfolding persist_article
  persist_article-count now bucket result a (o, (sink, n)) = refl

  -- The loop so far: each counted URL is in the cache once.
  pub record Counted (s : Progress I) : Type 0 where
    pub counts : persisted s ≡ length (sink_of s).seen_cache
    pub no_repeats : NoRepeats (sink_of s).seen_cache

  pub start-Counted :
      (o : InMemoryObjectStore B) (db : I.database.Db)
      → Counted (o, (record { db = db; seen_cache = [] }, 0))
  unfolding NoRepeats
  start-Counted o db = record { counts = refl; no_repeats = tt }

  -- What one round does: it skips the result, or stores an article that was not in the cache.
  pub data Round (now : ℕ) (bucket : String) (r : ScrapeResult) (s : Progress I) : Type 0 where
    skipped : article_to_store r ≡ none → persist_result I now bucket r s ≡ s → Round now bucket r s
    repeated :
        (a : Article)
        → article_to_store r ≡ some a
        → contains (url_id I.library a.url) (sink_of s).seen_cache ≡ true
        → persist_result I now bucket r s ≡ s
        → Round now bucket r s
    kept :
        (a : Article)
        → article_to_store r ≡ some a
        → contains (url_id I.library a.url) (sink_of s).seen_cache ≡ false
        → persist_result I now bucket r s ≡ persist_article I now bucket r a s
        → Round now bucket r s

  pub persist_result-Round :
      (now : ℕ) (bucket : String) (r : ScrapeResult) (s : Progress I) → Round now bucket r s
  unfolding persist_result seen
  persist_result-Round now bucket r (o, (sink, n)) = elim (Option-cases (article_to_store r)) [
    | inl e ↦ skipped e (
        ap
          (λ x. elim x [
            | none ↦ (o, (sink, n))
            | some a ↦
                if seen I.database I.library sink a.url
                then (o, (sink, n))
                else persist_article I now bucket r a (o, (sink, n))
          ])
          e)
    | inr (a, e) ↦ elim (Bool-cases (seen I.database I.library sink a.url)) [
      | inl old ↦ repeated a e old (
          taken a e
          ∙ ap (λ b. if b then (o, (sink, n)) else persist_article I now bucket r a (o, (sink, n)))
              old)
      | inr fresh ↦ kept a e fresh (
          taken a e
          ∙ ap (λ b. if b then (o, (sink, n)) else persist_article I now bucket r a (o, (sink, n)))
              fresh)
    ]
  ]
    where
      taken :
          (a : Article) (e : article_to_store r ≡ some a)
          → persist_result I now bucket r (o, (sink, n)) ≡ (
              if seen I.database I.library sink a.url
              then (o, (sink, n))
              else persist_article I now bucket r a (o, (sink, n)))
      taken a e =
          ap
            (λ x. elim x [
              | none ↦ (o, (sink, n))
              | some a ↦
                  if seen I.database I.library sink a.url
                  then (o, (sink, n))
                  else persist_article I now bucket r a (o, (sink, n))
            ])
            e

  pub Round-Counted :
      (now : ℕ) (bucket : String) (r : ScrapeResult) (s : Progress I)
      → Round now bucket r s
      → Counted s
      → Counted (persist_result I now bucket r s)
  unfolding NoRepeats
  Round-Counted now bucket r s (skipped e eq) c = subst Counted (sym eq) c
  Round-Counted now bucket r s (repeated a e old eq) c = subst Counted (sym eq) c
  Round-Counted now bucket r s (kept a e fresh eq) c = subst Counted (sym eq) (record {
    counts = omega (
      arith,
      persist_article-count now bucket r a s,
      c.counts,
      ap length (persist_article-cache now bucket r a s e),
    );
    no_repeats =
        subst NoRepeats (sym (persist_article-cache now bucket r a s e)) (fresh, c.no_repeats);
  })

  stored_ids-none :
      (r : ScrapeResult) (rs : List ScrapeResult)
      → article_to_store r ≡ none
      → stored_ids (r ∷ rs) ≡ stored_ids rs
  unfolding stored_ids
  stored_ids-none r rs e =
      ap (λ x. elim x [ none ↦ stored_ids rs | some a ↦ url_id I.library a.url ∷ stored_ids rs ]) e

  stored_ids-some :
      (r : ScrapeResult) (rs : List ScrapeResult) (a : Article)
      → article_to_store r ≡ some a
      → stored_ids (r ∷ rs) ≡ url_id I.library a.url ∷ stored_ids rs
  unfolding stored_ids
  stored_ids-some r rs a e =
      ap (λ x. elim x [ none ↦ stored_ids rs | some b ↦ url_id I.library b.url ∷ stored_ids rs ]) e

  -- The ids in the cache afterwards.
  pub Round-contains :
      (now : ℕ) (bucket : String) (r : ScrapeResult) (rs : List ScrapeResult) (s : Progress I)
      (id : String)
      → Round now bucket r s
      → contains id (stored_ids rs)
          || contains id (sink_of (persist_result I now bucket r s)).seen_cache
        ≡ contains id (stored_ids (r ∷ rs)) || contains id (sink_of s).seen_cache
  Round-contains now bucket r rs s id (skipped e eq) =
      ap₂ (λ ids x. contains id ids || contains id (sink_of x).seen_cache)
        (sym (stored_ids-none r rs e)) eq
  Round-contains now bucket r rs s id (repeated a e old eq) =
      ap (λ x. contains id (stored_ids rs) || contains id (sink_of x).seen_cache) eq
      ∙ contains_known (url_id I.library a.url) id (sink_of s).seen_cache (stored_ids rs) old
      ∙ ap (λ ids. contains id ids || contains id (sink_of s).seen_cache)
          (sym (stored_ids-some r rs a e))
  Round-contains now bucket r rs s id (kept a e fresh eq) =
      ap (λ x. contains id (stored_ids rs) || contains id (sink_of x).seen_cache) eq
      ∙ ap (λ cache. contains id (stored_ids rs) || contains id cache)
          (persist_article-cache now bucket r a s e)
      ∙ contains_swapped (url_id I.library a.url) id (sink_of s).seen_cache (stored_ids rs)
      ∙ ap (λ ids. contains id ids || contains id (sink_of s).seen_cache)
          (sym (stored_ids-some r rs a e))

  pub Round-job :
      (now : ℕ) (bucket : String) (r : ScrapeResult) (s : Progress I) (k : String)
      → Round now bucket r s
      → I.database.job (sink_of (persist_result I now bucket r s)).db k
        ≡ I.database.job (sink_of s).db k
  Round-job now bucket r s k (skipped e eq) = ap (λ x. I.database.job (sink_of x).db k) eq
  Round-job now bucket r s k (repeated a e old eq) = ap (λ x. I.database.job (sink_of x).db k) eq
  Round-job now bucket r s k (kept a e fresh eq) =
      ap (λ x. I.database.job (sink_of x).db k) eq ∙ persist_article-job now bucket r a s k e
