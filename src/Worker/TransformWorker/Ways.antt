-- ===== src/Worker/TransformWorker/Ways.antt =====
-- The steps that the handler's guards choose, and what the UPSERT of a page writes.
use scraper_v_hezzian.Core.Db.Updates.{update_job_status-none}
use scraper_v_hezzian.Core.Models.{is_success}
use Prim.Native.String.{◌++◌ as ◌<>◌, count}
use scraper_v_hezzian.Prelude.{
  string_eq, ℕ, ◌≡◌, String, none, some, if◌then◌else◌, ◌==◌, ◌≤◌, refl, ap, ◌∙◌, true, [], arith,
  ◌≢◌, false, eq_iff,
}
use scraper_v_hezzian.Exceptions.{ok, err, other_error, >>-ok}
use scraper_v_hezzian.Core.Db.{ArticleRow, running, not_found}
use scraper_v_hezzian.Core.Storage.{url_id, row_of, write_article}
use scraper_v_hezzian.Core.Storage.Upsert.{
  merged, write-some, write_article-article, write_article-job,
}
use scraper_v_hezzian.Core.ObjectStore.{Fetched, found, object_not_found}
use scraper_v_hezzian.Utils.Validators.{response_is_valid}
use scraper_v_hezzian.Utils.Validators.Genuine.{response_is_valid-extract}
use scraper_v_hezzian.Worker.Messages.{ResultPointer}
use scraper_v_hezzian.Worker.TransformWorker.{
  past_start, Deps, Times, mark_running, upsert_article, article_of, selectors_for, result_of,
  mark_error, transform_payload, mark_done, transform_html,
}

module _ {B : Type 0} (W : Deps B) where
  -- The row that the page of a pointer becomes.
  abbrev pub new_row : ℕ → ResultPointer → String → ArticleRow
  new_row now p html = row_of W.library now "transform" (article_of W p html)

  pub upsert_article-eq :
      (now : ℕ) (p : ResultPointer) (html : String) (db : W.database.Db)
      → upsert_article W now p html db ≡ (
        ok tt,
        (write_article W.database W.library now "transform"
            (article_of W p html)
            (record { db = db; seen_cache = [] })).db,
      )
  unfolding upsert_article is_success
  upsert_article-eq now p html db =
      ap (λ x. (x.0, x.1.db))
        (write-some W.database W.library now (result_of W p html) (article_of W p html)
          (record { db = db; seen_cache = [] }) refl)

  url-article_of : (p : ResultPointer) (html : String) → (article_of W p html).url ≡ p.url
  unfolding article_of
  url-article_of p html = refl

  pub upsert_article-article :
      (now : ℕ) (p : ResultPointer) (html : String) (db : W.database.Db) (k : String)
      → W.database.article (upsert_article W now p html db).1 k ≡ (
          if url_id W.library p.url == k
          then some (merged (new_row now p html) (W.database.article db k))
          else W.database.article db k)
  upsert_article-article now p html db k = ground (
    arith,
    ap (λ x. W.database.article x.1 k) (upsert_article-eq now p html db),
    write_article-article W.database W.library now "transform" (article_of W p html)
        (record { db = db; seen_cache = [] }) k,
    ap (url_id W.library) (url-article_of p html),
  )

  pub upsert_article-job :
      (now : ℕ) (p : ResultPointer) (html : String) (db : W.database.Db) (k : String)
      → W.database.job (upsert_article W now p html db).1 k ≡ W.database.job db k
  upsert_article-job now p html db k =
      ap (λ x. W.database.job x.1 k) (upsert_article-eq now p html db)
      ∙ write_article-job W.database W.library now "transform" (article_of W p html)
          (record { db = db; seen_cache = [] }) k

  -- A page that passes has a content of 500 characters or more.
  content-article_of :
      (p : ResultPointer) (html : String)
      → response_is_valid W.html html (selectors_for W p.domain) 500 ≡ true
      → 500 ≤ count (article_of W p html).content
  unfolding article_of
  content-article_of p html h =
      let (clean, (text, e, ne, le)) =
        (response_is_valid-extract W.html html (selectors_for W p.domain) 500).0 h in
      ground (arith, e, le)

  pub unmarked :
      (now : ℕ) (p : ResultPointer) (db : W.database.Db)
      → W.database.job db p.job_id ≡ none
      → mark_running W now p db ≡ (err (other_error (not_found p.job_id)), db)
  unfolding mark_running
  unmarked now p db h =
      update_job_status-none W.database p.job_id running none none true false now db h

  pub upserted_at :
      (now : ℕ) (p : ResultPointer) (html : String) (db : W.database.Db)
      → W.database.article (upsert_article W now p html db).1 (url_id W.library p.url)
        ≡ some (merged (new_row now p html) (W.database.article db (url_id W.library p.url)))
  upserted_at now p html db =
      let k = url_id W.library p.url in
      ground (arith, upsert_article-article now p html db k, eq_iff k k)

  pub upserted_ne :
      (now : ℕ) (p : ResultPointer) (html : String) (db : W.database.Db) (k : String)
      → url_id W.library p.url ≢ k
      → W.database.article (upsert_article W now p html db).1 k ≡ W.database.article db k
  upserted_ne now p html db k ne =
      ground (arith, upsert_article-article now p html db k, eq_iff (url_id W.library p.url) k)

  pub content-new_row :
      (now : ℕ) (p : ResultPointer) (html : String)
      → response_is_valid W.html html (selectors_for W p.domain) 500 ≡ true
      → 500 ≤ count (new_row now p html).content
  unfolding row_of
  content-new_row now p html h = content-article_of p html h

  module _ (at : Times) (fetch : String → Fetched B) (p : ResultPointer) (s : W.database.Db) where
    pub past_start-failed :
        p.status ≢ "success"
        → past_start W at fetch p s
          ≡ mark_error W at.finished p ("scraper returned status '" <> (p.status <> "'")) s
    unfolding past_start
    past_start-failed ne = ground (arith, eq_iff p.status "success")

    pub past_start-success :
        p.status ≡ "success"
        → past_start W at fetch p s ≡ transform_payload W at p (fetch p.object_key) s
    unfolding past_start
    past_start-success e = ground (arith, eq_iff p.status "success")

    pub transform_html-valid :
        (html : String)
        → response_is_valid W.html html (selectors_for W p.domain) 500 ≡ true
        → transform_html W at p html s
          ≡ mark_done W at.finished p (upsert_article W at.fetched p html s).1
    unfolding transform_html
    transform_html-valid html valid = ground (
      arith,
      valid,
      >>-ok (upsert_article W at.fetched p html) (mark_done W at.finished p) s
          (ap (λ x. x.0) (upsert_article-eq at.fetched p html s)),
    )

    pub transform_html-invalid :
        (html : String)
        → response_is_valid W.html html (selectors_for W p.domain) 500 ≡ false
        → transform_html W at p html s
          ≡ mark_error W at.finished p "soft block or challenge page detected" s
    unfolding transform_html
    transform_html-invalid html invalid = ground arith

    pub payload-found :
        (f : Fetched B) (bytes : B)
        → f ≡ found bytes
        → transform_payload W at p f s ≡ transform_html W at p (W.decode bytes) s
    unfolding transform_payload
    payload-found f bytes e = ap (λ x. transform_payload W at p x s) e

    pub payload-missing :
        (f : Fetched B) (why : String)
        → f ≡ object_not_found why
        → transform_payload W at p f s ≡ mark_error W at.finished p "raw payload missing" s
    unfolding transform_payload
    payload-missing f why e = ap (λ x. transform_payload W at p x s) e
