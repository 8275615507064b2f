-- ===== src/Pipeline/Retention/Examples.antt =====
-- Three articles, fetched at 10, 20 and 30, with a day of one tick.
use scraper_v_hezzian.Prelude.{
  ℕ, ◌*◌, ◌+◌, ◌≡◌, ◌≤◌, String, some, none, List, [], ◌∷◌, length, All, refl, arith, eq_iff,
}
use scraper_v_hezzian.Core.Db.{ArticleRow}
use scraper_v_hezzian.Pipeline.Retention.{prune_articles}
use scraper_v_hezzian.Pipeline.Retention.Sorted.{HaveDistinctIds}
use scraper_v_hezzian.Pipeline.Retention.Bounds.{prune_articles-bounds}

abbrev row : String → ℕ → ℕ → ArticleRow
row id fetched_at relevance = record {
  id = id;
  url = id;
  domain = "a.com";
  bucket = "public";
  title = "";
  content = "";
  author = none;
  publish_date = none;
  fetched_at = fetched_at;
  raw_key = none;
  driver_used = "";
  relevance = some relevance;
  summary = none;
}

abbrev rows : List ArticleRow
rows = row "b" 20 9 ∷ row "a" 10 9 ∷ row "c" 30 1 ∷ []

-- The oldest row is over the cap.
oldest_goes : prune_articles 1 30 2 0 35 rows ≡ (1, row "b" 20 9 ∷ row "c" 30 1 ∷ [])
unfolding prune_articles scraper_v_hezzian.Pipeline.Retention.delete_where
    scraper_v_hezzian.Pipeline.Retention.prune_excess
    scraper_v_hezzian.Pipeline.Retention.prune_irrelevant scraper_v_hezzian.Prelude.contains
    scraper_v_hezzian.Pipeline.Retention.oldest_ids scraper_v_hezzian.Pipeline.Retention.by_age
    scraper_v_hezzian.Pipeline.Retention.insort
oldest_goes = refl

distinct : HaveDistinctIds rows
distinct = (
  (
    λ e. absurd (ground (arith, eq_iff "b" "a")),
    (λ e. absurd (ground (arith, eq_iff "b" "c")), tt),
  ),
  ((λ e. absurd (ground (arith, eq_iff "a" "c")), tt), (tt, tt)),
)

prune_articles-bounds_example :
    let (deleted, left) = prune_articles 1 30 2 0 35 rows in
    (length left ≤ 2) × All (λ r. 35 ≤ r.fetched_at + 30 * 1) left × (deleted + length left ≡ 3)
prune_articles-bounds_example = prune_articles-bounds 1 30 2 0 35 rows distinct
