-- ===== src/Core/Storage/Upsert.antt =====
-- What `PostgresSink.write` does to the table `articles`.
use scraper_v_hezzian.Prelude.{
  string_eq, ℕ, ◌≡◌, String, Option, none, some, true, false, if◌then◌else◌, ◌==◌, refl, arith, ap,
  sym, ◌∙◌, ◌∷◌,
}
use scraper_v_hezzian.Exceptions.{ok}
use scraper_v_hezzian.Core.Models.{ScrapeResult, Article, is_success}
use scraper_v_hezzian.Core.Db.{Database, ArticleRow}
use scraper_v_hezzian.Core.Storage.{
  Library, url_id, row_of, set_excluded, PostgresSink, write, write_article,
}

-- What becomes of the row that is there, or not, when an article is stored.
abbrev pub merged : ArticleRow → Option ArticleRow → ArticleRow
merged row none = row
merged row (some old) = set_excluded row old

pub content-merged :
    (row : ArticleRow) (o : Option ArticleRow) → (merged row o).content ≡ row.content
unfolding set_excluded
content-merged row none = refl
content-merged row (some old) = refl

module _ (D : Database) (lib : Library) where
  -- The article that a result asks to store.
  abbrev pub stored : ScrapeResult → Option Article
  stored result = elim (is_success result.status) [ false ↦ none | true ↦ result.article ]

  row-id :
      (now : ℕ) (driver : String) (a : Article) → (row_of lib now driver a).id ≡ url_id lib a.url
  unfolding row_of
  row-id now driver a = refl

  pub write_article-article :
      (now : ℕ) (driver : String) (a : Article) (sink : PostgresSink D lib) (k : String)
      → D.article (write_article D lib now driver a sink).db k ≡ (
          if url_id lib a.url == k
          then some (merged (row_of lib now driver a) (D.article sink.db k))
          else D.article sink.db k)
  unfolding write_article
  write_article-article now driver a sink k =
      let row = row_of lib now driver a in
      ground (arith, D.article-upsert row (set_excluded row) sink.db k, row-id now driver a)

  pub write_article-job :
      (now : ℕ) (driver : String) (a : Article) (sink : PostgresSink D lib) (k : String)
      → D.job (write_article D lib now driver a sink).db k ≡ D.job sink.db k
  unfolding write_article
  write_article-job now driver a sink k =
      let row = row_of lib now driver a in D.job-upsert row (set_excluded row) sink.db k

  pub seen_cache-write_article :
      (now : ℕ) (driver : String) (a : Article) (sink : PostgresSink D lib)
      → (write_article D lib now driver a sink).seen_cache ≡ url_id lib a.url ∷ sink.seen_cache
  unfolding write_article row_of
  seen_cache-write_article now driver a sink = refl

  pub write-some :
      (now : ℕ) (result : ScrapeResult) (a : Article) (sink : PostgresSink D lib)
      → stored result ≡ some a
      → write D lib now result sink ≡ (ok tt, write_article D lib now result.driver_used a sink)
  unfolding write
  write-some now result a sink h = ground arith

  pub write-none :
      (now : ℕ) (result : ScrapeResult) (sink : PostgresSink D lib)
      → stored result ≡ none
      → write D lib now result sink ≡ (ok tt, sink)
  unfolding write
  write-none now result sink h = ground arith

  pub row_of_again :
      (now now' : ℕ) (driver driver' : String) (a a' : Article) (o : Option ArticleRow)
      → a.url ≡ a'.url
      → merged (row_of lib now' driver' a') (some (merged (row_of lib now driver a) o))
        ≡ merged (row_of lib now' driver' a') o
  unfolding row_of set_excluded
  row_of_again now now' driver driver' a a' (some old) h = refl
  row_of_again now now' driver driver' a a' none h =
      ap (λ u. record (row_of lib now' driver' a') { id = url_id lib u; url = u }) h

  twice :
      (now now' : ℕ) (r r' : ScrapeResult) (a a' : Article) (sink : PostgresSink D lib) (k : String)
      → stored r ≡ some a
      → a.url ≡ a'.url
      → (if url_id lib a'.url == k
          then some (
              merged
                (row_of lib now' r'.driver_used a')
                (D.article (write D lib now r sink).1.db k))
          else D.article (write D lib now r sink).1.db k)
        ≡ (if url_id lib a'.url == k
            then some (merged (row_of lib now' r'.driver_used a') (D.article sink.db k))
            else D.article sink.db k)
  twice now now' r r' a a' sink k h same =
      let e =
        ap (λ x. D.article x.1.db k) (write-some now r a sink h)
        ∙ write_article-article now r.driver_used a sink k in
      ground (
        arith,
        e,
        ap (url_id lib) same,
        row_of_again now now' r.driver_used r'.driver_used a a' (D.article sink.db k) same,
      )

  -- When two results for one URL are stored after each other, the table holds what it would hold
  -- if only the second had been stored.
  pub write-write :
      (now now' : ℕ) (r r' : ScrapeResult) (a a' : Article) (sink : PostgresSink D lib) (k : String)
      → stored r ≡ some a
      → stored r' ≡ some a'
      → a.url ≡ a'.url
      → D.article (write D lib now' r' (write D lib now r sink).1).1.db k
        ≡ D.article (write D lib now' r' sink).1.db k
  write-write now now' r r' a a' sink k h h' same =
      let s' = (write D lib now r sink).1 in
      ap (λ x. D.article x.1.db k) (write-some now' r' a' s' h')
      ∙ write_article-article now' r'.driver_used a' s' k
      ∙ twice now now' r r' a a' sink k h same
      ∙ sym (write_article-article now' r'.driver_used a' sink k)
      ∙ sym (ap (λ x. D.article x.1.db k) (write-some now' r' a' sink h'))
