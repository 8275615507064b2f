-- ===== src/Scrapers/Community/Substack.antt =====
-- scrapeforge/scrapers/community/substack.py. `urlsplit`, ISO dates and the HTML parser are the
-- parameter `WebTools`. `fetch_archive` and `fetch_post` are `_fetch_json` with its decoding:
-- `none` is a payload of the wrong type. A slug that is missing is the empty text.
pub mod Readable
pub mod Pages
pub mod Wanted
pub mod Ends
mod Examples
use Prim.Native.String.{◌++◌ as ◌<>◌, count}
use text.Mathlib.Text.{starts_with}
use scraper_v_hezzian.Prelude.Text.{collapse, rstrip_slash}
use scraper_v_hezzian.Prelude.Decimal.{decimal}
use scraper_v_hezzian.Prelude.{
  string_eq, ℕ, zero, suc, ◌+◌, ltb, String, Bool, true, false, not, ◌&&◌, ◌||◌, Option, none, some,
  or_empty, List, [], ◌∷◌, ◌++◌, if◌then◌else◌, ◌==◌, length, take,
}
use scraper_v_hezzian.Exceptions.{Action, Result, ok, err, ◌>>=◌, pure}
use scraper_v_hezzian.Core.Models.{Article, no_metadata, ScrapeResult, success, error, failed}
use scraper_v_hezzian.Scrapers.Community.Runs.{Run}
use scraper_v_hezzian.Utils.Validators.{in_text}

-- An entry of the archive.
pub record ArchiveItem : Type 0 where
  pub item_audience : Option String
  pub slug : String

-- The keys of a post that the scraper reads; of the bylines, the name of the first.
pub record SubstackPost : Type 0 where
  pub post_audience : Option String
  pub body_html : Option String
  pub byline : Option String
  pub post_date : Option String
  pub canonical_url : String
  pub post_id : Option ℕ
  pub post_title : Option String
  pub post_subtitle : Option String
  pub kind : Option String

pub record WebTools : Type 0 where
  pub netloc : String → String
  pub path : String → List String
  pub hostname : String → Option String
  pub fromisoformat : String → Option ℕ
  pub html_text : String → String

abbrev pub min_content_length : ℕ
min_content_length = 500

abbrev pub substack_success : Article → ScrapeResult
substack_success a = record {
  status = success;
  driver_used = "curl_cffi";
  article = some a;
  error_text = none;
  proxy_used = none;
}

-- `public_only and item.get("audience") != "everyone"`
unfoldable pub is_skipped : Bool → ArchiveItem → Bool
is_skipped public_only item = public_only && not (or_empty item.item_audience == "everyone")

abbrev pub archive_url : String → String → ℕ → ℕ → String
archive_url base sort offset page_size =
    base
    <> ("/api/v1/archive?sort="
        <> (sort <> ("&search=&offset=" <> (decimal offset <> ("&limit=" <> decimal page_size)))))

abbrev pub post_url : String → String → String
post_url base slug = base <> ("/api/v1/posts/" <> slug)

-- The slug of a path `/p/<slug>`, or the last part of another path.
unfoldable pub last_part : List String → String
last_part [] = ""
last_part (p ∷ []) = p
last_part (p ∷ q ∷ ps) = last_part (q ∷ ps)

unfoldable pub slug_of : List String → String
unfolding last_part
slug_of [] = ""
slug_of (p ∷ []) = p
slug_of (p ∷ q ∷ ps) = if p == "p" then q else last_part (q ∷ ps)

module _ (web : WebTools) where
  -- `_normalize_base`
  unfoldable pub normalize_base : String → String
  normalize_base publication =
      let name = rstrip_slash publication in
      if starts_with name "http://" || starts_with name "https://"
      then "https://" <> web.netloc name
      else (if in_text "." name
          then "https://" <> name
          else "https://" <> (name <> ".substack.com"))

  -- `_clean_html`
  unfoldable pub clean_html : String → String
  clean_html html = collapse (web.html_text html)

  -- `_is_paywalled`
  unfoldable pub is_paywalled : SubstackPost → Bool
  unfolding clean_html
  is_paywalled post =
      let body = or_empty post.body_html in
      if or_empty post.post_audience == "only_paid" || body == ""
      then true
      else ltb (count (clean_html body)) min_content_length

  unfoldable pub content_of_body : Option String → String
  unfolding clean_html
  content_of_body body = if or_empty body == "" then "" else clean_html (or_empty body)

  -- A date that cannot be parsed is logged.
  unfoldable pub post_date_of : Option String → Option ℕ
  post_date_of raw = if or_empty raw == "" then none else web.fromisoformat (or_empty raw)

  -- `_build_article`
  unfoldable pub build_article : SubstackPost → Article
  unfolding content_of_body post_date_of
  build_article post = record {
    url = post.canonical_url;
    title = or_empty post.post_title;
    content = content_of_body post.body_html;
    author = post.byline;
    publish_date = post_date_of post.post_date;
    raw_html = post.body_html;
    metadata = record no_metadata {
      source_domain = some (or_empty (web.hostname post.canonical_url));
      bucket = some "community";
      substack_id = post.post_id;
      audience = post.post_audience;
      subtitle = post.post_subtitle;
      post_type = post.kind;
    };
  }

  unfoldable pub post_outcome : Option SubstackPost → ScrapeResult
  unfolding is_paywalled build_article
  post_outcome none =
      failed error "curl_cffi" "unexpected payload shape from Substack post endpoint"
  post_outcome (some post) =
      if is_paywalled post
      then failed error "curl_cffi" "paywalled"
      else substack_success (build_article post)

  -- What a fetched post adds to the results.
  unfoldable pub keep_post : List ScrapeResult → Option SubstackPost → List ScrapeResult
  unfolding is_paywalled build_article
  keep_post results none = results
  keep_post results (some post) =
      if is_paywalled post then results else results ++ (substack_success (build_article post) ∷ [])

  module _ {W : Type 0} (fetch_post : String → Action W (Option SubstackPost)) where
    -- `scrape`
    unfoldable pub scrape_post : String → Action W ScrapeResult
    unfolding normalize_base slug_of post_outcome
    scrape_post url =
        fetch_post (post_url (normalize_base url) (slug_of (web.path url))) >>= λ post.
        pure (post_outcome post)

    -- The loop over the items of a page.
    unfoldable pub add_items :
        Bool → ℕ → String → List ArchiveItem → List ScrapeResult → Action W (List ScrapeResult)
    unfolding keep_post is_skipped
    add_items public_only limit base [] results w = (ok results, w)
    add_items public_only limit base (item ∷ items) results w = elim (ltb (length results) limit) [
      | false ↦ (ok results, w)
      | true ↦ elim (is_skipped public_only item) [
        | true ↦ add_items public_only limit base items results w
        | false ↦
            (fetch_post (post_url base item.slug) >>= λ post.
            add_items public_only limit base items (keep_post results post))
              w
      ]
    ]

    module _ (fetch_archive : String → Action W (Option (List ArchiveItem))) (page_size : ℕ)
        (public_only : Bool) (limit : ℕ) (sort : String) where
      -- The end of a round: a short page is the last one. `next` is what the loop goes on with.
      unfoldable pub after_items :
          (ℕ → List ScrapeResult → W → Run W) → ℕ → ℕ → Result (List ScrapeResult) → W → Run W
      after_items next offset returned_items (err e) w = some (err e, w)
      after_items next offset returned_items (ok results) w = elim (ltb returned_items page_size) [
        | true ↦ some (ok (take limit results), w)
        | false ↦ next (offset + returned_items) results w
      ]

      -- A page that is no list, or that is empty, ends the loop.
      unfoldable pub after_page :
          (ℕ → List ScrapeResult → W → Run W)
          → String
          → ℕ
          → List ScrapeResult
          → Result (Option (List ArchiveItem))
          → W
          → Run W
      unfolding after_items add_items
      after_page next base offset results (err e) w = some (err e, w)
      after_page next base offset results (ok none) w = some (ok (take limit results), w)
      after_page next base offset results (ok (some [])) w = some (ok (take limit results), w)
      after_page next base offset results (ok (some (i ∷ items))) w =
          let (added, w') = add_items public_only limit base (i ∷ items) results w in
          after_items next offset (length (i ∷ items)) added w'

      -- The `while` loop on fuel: `none` if it is not done.
      unfoldable pub archive_pages : ℕ → String → ℕ → List ScrapeResult → W → Run W
      unfolding after_page
      archive_pages zero base offset results w = none
      archive_pages (suc fuel) base offset results w = elim (ltb (length results) limit) [
        | false ↦ some (ok (take limit results), w)
        | true ↦
            let (page, w') = fetch_archive (archive_url base sort offset page_size) w in
            after_page (archive_pages fuel base) base offset results page w'
      ]

      -- `scrape_publication`
      unfoldable pub scrape_publication : ℕ → String → W → Run W
      unfolding normalize_base archive_pages
      scrape_publication fuel publication w = archive_pages fuel (normalize_base publication) 0 [] w
