-- ===== src/Worker/CommunityIngestWorker/Counts.antt =====
-- What the loop of an ingest job counts: the URLs that it has stored.
use scraper_v_hezzian.Prelude.{string_eq, ℕ, ◌≡◌, String, List, [], ◌∷◌, contains, refl, ◌∙◌, ◌||◌}
use scraper_v_hezzian.Core.Models.{ScrapeResult}
use scraper_v_hezzian.Worker.CommunityIngestWorker.{
  IngestDeps, Progress, persist_result, persist_all,
}
use scraper_v_hezzian.Worker.CommunityIngestWorker.Rounds.{
  Counted, stored_ids, sink_of, persist_result-Round, Round-Counted, Round-contains, Round-job,
}

module _ {B : Type 0} (I : IngestDeps B) where
  pub persist_all-Counted :
      (now : ℕ) (bucket : String) (rs : List ScrapeResult) (s : Progress I)
      → Counted I s
      → Counted I (persist_all I now bucket rs s)
  unfolding persist_all
  persist_all-Counted now bucket [] s c = c
  persist_all-Counted now bucket (r ∷ rs) s c =
      persist_all-Counted now bucket rs (persist_result I now bucket r s)
        (Round-Counted I now bucket r s (persist_result-Round I now bucket r s) c)

  pub persist_all-contains :
      (now : ℕ) (bucket : String) (rs : List ScrapeResult) (s : Progress I) (id : String)
      → contains id (sink_of I (persist_all I now bucket rs s)).seen_cache
        ≡ contains id (stored_ids I rs) || contains id (sink_of I s).seen_cache
  unfolding persist_all stored_ids contains
  persist_all-contains now bucket [] s id = refl
  persist_all-contains now bucket (r ∷ rs) s id =
      persist_all-contains now bucket rs (persist_result I now bucket r s) id
      ∙ Round-contains I now bucket r rs s id (persist_result-Round I now bucket r s)

  pub persist_all-job :
      (now : ℕ) (bucket : String) (rs : List ScrapeResult) (s : Progress I) (k : String)
      → I.database.job (sink_of I (persist_all I now bucket rs s)).db k
        ≡ I.database.job (sink_of I s).db k
  unfolding persist_all
  persist_all-job now bucket [] s k = refl
  persist_all-job now bucket (r ∷ rs) s k =
      persist_all-job now bucket rs (persist_result I now bucket r s) k
      ∙ Round-job I now bucket r s k (persist_result-Round I now bucket r s)
