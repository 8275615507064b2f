-- ===== src/Pipeline/Retention.antt =====
-- scrapeforge/pipeline/retention.py
-- The table `articles` is the list of its rows, and the statements are what SQL says of them.
-- `day` is the number of clock ticks in a day. `fetched_at < now - d` is written with the sum.
-- Rows with equal `fetched_at` are ordered as in the table, where PostgreSQL leaves it open.
pub mod Sorted
pub mod Bounds
mod Examples
use scraper_v_hezzian.Prelude.{
  ℕ, ◌+◌, ◌-◌, ◌*◌, ◌/◌, max, ltb, leb, if◌then◌else◌, String, Bool, false, not, ◌&&◌, none, some,
  List, [], ◌∷◌, map, length, filter, take, contains,
}
use scraper_v_hezzian.Core.Db.{ArticleRow}

-- `DELETE … WHERE`: the row count, and the rows that are left.
unfoldable pub delete_where : (ArticleRow → Bool) → List ArticleRow → ℕ × List ArticleRow
delete_where p rows = (length (filter p rows), filter (λ r. not (p r)) rows)

-- Fetched before `now - age`.
abbrev pub older : ℕ → ℕ → ArticleRow → Bool
older age now r = ltb (r.fetched_at + age) now

abbrev pub irrelevant : ℕ → ℕ → ℕ → ArticleRow → Bool
irrelevant floor age now r = elim r.relevance [
  | none ↦ false
  | some v ↦ ltb v floor && older age now r
]

-- The place of a row in the order of `fetched_at`.
unfoldable pub insort : ArticleRow → List ArticleRow → List ArticleRow
insort x [] = x ∷ []
insort x (y ∷ ys) =
    let rest = insort x ys in if leb x.fetched_at y.fetched_at then x ∷ y ∷ ys else y ∷ rest

-- `ORDER BY fetched_at ASC`
unfoldable pub by_age : List ArticleRow → List ArticleRow
by_age [] = []
by_age (x ∷ xs) = insort x (by_age xs)

-- `SELECT id … LIMIT n`
unfoldable pub oldest_ids : ℕ → List ArticleRow → List String
oldest_ids n rows = take n (map (λ r. r.id) (by_age rows))

-- Step 2
unfoldable pub prune_irrelevant : ℕ → ℕ → ℕ → List ArticleRow → ℕ × List ArticleRow
prune_irrelevant floor age now rows =
    if ltb 0 floor then delete_where (irrelevant floor age now) rows else (0, rows)

-- Step 3
unfoldable pub prune_excess : ℕ → List ArticleRow → ℕ × List ArticleRow
prune_excess max_articles rows =
    let ids = oldest_ids (length rows - max_articles) rows in
    if ltb max_articles (length rows) then delete_where (λ r. contains r.id ids) rows else (0, rows)

module _ (day retention_days max_articles relevance_floor now : ℕ) where
  unfoldable pub prune_articles : List ArticleRow → ℕ × List ArticleRow
  prune_articles rows =
      let (aged, rows1) = delete_where (older (retention_days * day) now) rows in
      let (dull, rows2) =
        prune_irrelevant relevance_floor (max 1 (retention_days / 2) * day) now rows1 in
      let (excess, rows3) = prune_excess max_articles rows2 in (aged + dull + excess, rows3)
