-- ===== src/Scrapers/Community/Substack/Pages.antt =====
-- The rounds of the loop over the archive, and what every run of it gives.
use scraper_v_hezzian.Scrapers.Community.Substack.Readable.{IsReadable, add_items-All}
use scraper_v_hezzian.Prelude.{
  string_eq, ℕ, suc, ◌+◌, ltb, String, Bool, true, false, Option, some, List, length, take, ◌≡◌,
  arith, Bool-cases, All, refl, inl, inr, zero, sym, ap, ◌∙◌, none, [], ◌∷◌,
}
use scraper_v_hezzian.Exceptions.{Action, Result, ok, err}
use scraper_v_hezzian.Core.Models.{ScrapeResult}
use scraper_v_hezzian.Scrapers.Community.Runs.{Run, Returned, AreLimited, take-AreLimited}
use scraper_v_hezzian.Scrapers.Community.Substack.{
  ArchiveItem, SubstackPost, WebTools, archive_pages, archive_url, after_items, after_page,
  normalize_base, add_items, scrape_publication,
}

module _ (web : WebTools) {W : Type 0} (fetch_post : String → Action W (Option SubstackPost))
    (fetch_archive : String → Action W (Option (List ArchiveItem))) (page_size : ℕ)
    (public_only : Bool) (limit : ℕ) (sort : String) where
  abbrev pub pages : ℕ → String → ℕ → List ScrapeResult → W → Run W
  pages = archive_pages web fetch_post fetch_archive page_size public_only limit sort

  -- The reply to the next request, and the state that it leaves.
  abbrev pub page_at : String → ℕ → W → Result (Option (List ArchiveItem)) × W
  page_at base offset w = fetch_archive (archive_url base sort offset page_size) w

  pub pages-enough :
      (fuel : ℕ) (base : String) (offset : ℕ) (results : List ScrapeResult) (w : W)
      → ltb (length results) limit ≡ false
      → pages (suc fuel) base offset results w ≡ some (ok (take limit results), w)
  unfolding archive_pages
  pages-enough fuel base offset results w h = ground arith

  pub pages-reads :
      (fuel : ℕ) (base : String) (offset : ℕ) (results : List ScrapeResult) (w : W)
      → ltb (length results) limit ≡ true
      → pages (suc fuel) base offset results w
        ≡ after_page web fetch_post fetch_archive page_size public_only limit sort
            (pages fuel base)
            base
            offset
            results
            (page_at base offset w).0
            (page_at base offset w).1
  unfolding archive_pages
  pages-reads fuel base offset results w h = ground arith

  module _ (next : ℕ → List ScrapeResult → W → Run W) where
    pub after_items-short :
        (offset n : ℕ) (results : List ScrapeResult) (w : W)
        → ltb n page_size ≡ true
        → after_items web fetch_post fetch_archive page_size public_only limit sort next offset n
            (ok results)
            w
          ≡ some (ok (take limit results), w)
    unfolding after_items
    after_items-short offset n results w h = ground arith

    pub after_items-next :
        (offset n : ℕ) (results : List ScrapeResult) (w : W)
        → ltb n page_size ≡ false
        → after_items web fetch_post fetch_archive page_size public_only limit sort next offset n
            (ok results)
            w
          ≡ next (offset + n) results w
    unfolding after_items
    after_items-next offset n results w h = ground arith

  -- A run whose results, if it returns some, are readable.
  abbrev pub AreReadable : Run W → Type 0
  AreReadable run =
      (rs : List ScrapeResult) (w : W) → Returned run rs w → AreLimited IsReadable limit rs

  module _ (next : ℕ → List ScrapeResult → W → Run W)
      (keep : (offset : ℕ) (results : List ScrapeResult) (w : W)
        → All IsReadable results
        → AreReadable (next offset results w)) where
    after_items-AreReadable :
        (offset n : ℕ) (r : Result (List ScrapeResult)) (w : W)
        → ((results : List ScrapeResult) → r ≡ ok results → All IsReadable results)
        → AreReadable (
            after_items web fetch_post fetch_archive page_size public_only limit sort next offset n
              r w)
    after_items-AreReadable offset n (err e) w h rs w' f =
        unfold after_items in absurd (ground arith)
    after_items-AreReadable offset n (ok results) w h rs w' f =
        elim (Bool-cases (ltb n page_size)) [
          | inl b ↦
              take-AreLimited IsReadable limit results rs w w' (h results refl)
                (sym (after_items-short next offset n results w b) ∙ f)
          | inr b ↦
              keep (offset + n) results w (h results refl) rs w'
                (sym (after_items-next next offset n results w b) ∙ f)
        ]

    after_page-AreReadable :
        (base : String) (offset : ℕ) (results : List ScrapeResult)
        (page : Result (Option (List ArchiveItem))) (w : W)
        → All IsReadable results
        → AreReadable (
            after_page web fetch_post fetch_archive page_size public_only limit sort next base
              offset results page w)
    unfolding after_page
    after_page-AreReadable base offset results (err e) w h rs w' f = absurd (ground arith)
    after_page-AreReadable base offset results (ok none) w h rs w' f =
        take-AreLimited IsReadable limit results rs w w' h f
    after_page-AreReadable base offset results (ok (some [])) w h rs w' f =
        take-AreLimited IsReadable limit results rs w w' h f
    after_page-AreReadable base offset results (ok (some (i ∷ items))) w h rs w' f =
        let (added, w1) = add_items web fetch_post public_only limit base (i ∷ items) results w in
        after_items-AreReadable offset (length (i ∷ items)) added w1
          (λ results' e.
            add_items-All web fetch_post public_only limit base (i ∷ items) results results' w w1 h
              (ap (λ r. (r, w1)) e))
          rs w' f

  pages-AreReadable :
      (fuel : ℕ) (base : String) (offset : ℕ) (results : List ScrapeResult) (w : W)
      → All IsReadable results
      → AreReadable (pages fuel base offset results w)
  pages-AreReadable zero base offset results w h rs w' f =
      unfold archive_pages in absurd (ground arith)
  pages-AreReadable (suc fuel) base offset results w h rs w' f =
      elim (Bool-cases (ltb (length results) limit)) [
        | inr b ↦
            take-AreLimited IsReadable limit results rs w w' h
              (sym (pages-enough fuel base offset results w b) ∙ f)
        | inl b ↦
            let (page, w1) = page_at base offset w in
            after_page-AreReadable (pages fuel base) (pages-AreReadable fuel base) base offset
              results page w1 h rs w' (sym (pages-reads fuel base offset results w b) ∙ f)
      ]

  -- Whatever the servers answer, a run of `scrape_publication` that returns gives no more than
  -- `limit` results, each of them a success whose article has a content of 500 characters or more
  -- and is not for paying readers only.
  pub scrape_publication-AreReadable :
      (fuel : ℕ) (publication : String) (w w' : W) (rs : List ScrapeResult)
      → Returned
          (scrape_publication web fetch_post fetch_archive page_size public_only limit sort fuel
            publication w)
          rs
          w'
      → AreLimited IsReadable limit rs
  unfolding scrape_publication
  scrape_publication-AreReadable fuel publication w w' rs f =
      pages-AreReadable fuel (normalize_base web publication) 0 [] w tt rs w' f
