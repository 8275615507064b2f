-- ===== src/Scrapers/Community/Substack/Examples.antt =====
-- A publication with three entries: one for paying readers, one that is short, one that is kept.
use Prim.Native.String.{◌++◌ as ◌<>◌}
use scraper_v_hezzian.Prelude.{
  string_eq, String, ℕ, zero, suc, ◌≡◌, none, some, true, List, [], ◌∷◌, refl, take, if◌then◌else◌,
  ◌==◌, drop, ◌+◌, ◌⊎◌, Option, arith,
}
use scraper_v_hezzian.Exceptions.{Action, Result, ok}
use scraper_v_hezzian.Core.Models.{failed, error}
use scraper_v_hezzian.Scrapers.Community.Runs.{Returned, AreLimited}
use scraper_v_hezzian.Scrapers.Community.Substack.{
  ArchiveItem, SubstackPost, WebTools, normalize_base, scrape_post, scrape_publication,
  substack_success, build_article,
}
use scraper_v_hezzian.Scrapers.Community.Substack.Readable.{IsReadable, scrape_post-IsReadable}
use scraper_v_hezzian.Scrapers.Community.Substack.Pages.{scrape_publication-AreReadable}
use scraper_v_hezzian.Scrapers.Community.Substack.Wanted.{wanted}
use scraper_v_hezzian.Scrapers.Community.Substack.Ends.{Lists, scrape_publication-Finds}

abbrev item : String → String → ArchiveItem
item audience slug = record { item_audience = some audience; slug = slug }

abbrev items : List ArchiveItem
items = item "only_paid" "a" ∷ item "everyone" "b" ∷ item "everyone" "c" ∷ []

abbrev hundred : String
hundred =
    "0123456789012345678901234567890123456789012345678901234567890123456789012345678901234567890123456789"

abbrev long_text : String
long_text = hundred <> (hundred <> (hundred <> (hundred <> hundred)))

abbrev post : String → SubstackPost
post body = record {
  post_audience = some "everyone";
  body_html = some body;
  byline = some "u";
  post_date = none;
  canonical_url = "https://a.substack.com/p/c";
  post_id = some 1;
  post_title = some "t";
  post_subtitle = none;
  kind = some "newsletter";
}

abbrev web : WebTools
web = record {
  netloc = λ url. "a.substack.com";
  path = λ url. "p" ∷ "c" ∷ [];
  hostname = λ url. some "a.substack.com";
  fromisoformat = λ s. none;
  html_text = λ html. html;
}

abbrev base : String
base = "https://a.substack.com"

bases :
    (normalize_base web "a/" ≡ base)
    × (normalize_base web "https://a.substack.com/p/c" ≡ base)
    × (normalize_base web "www.a.blog" ≡ "https://www.a.blog")
unfolding normalize_base scraper_v_hezzian.Prelude.Text.rstrip_slash
bases = (refl, refl, refl)

abbrev replies : String → Option SubstackPost
replies url =
    if url == "https://a.substack.com/api/v1/posts/c"
    then some (post long_text)
    else some (post "short")

-- The state counts the requests.
abbrev fetch_post : String → Action ℕ (Option SubstackPost)
fetch_post url w = (ok (replies url), w + 1)

abbrev entries : ℕ → Result (Option (List ArchiveItem))
entries k = ok (some (take 2 (drop k items)))

abbrev fetch_archive : String → Action ℕ (Option (List ArchiveItem))
fetch_archive url w =
    if url == "https://a.substack.com/api/v1/archive?sort=new&search=&offset=0&limit=2"
    then (entries 0, w + 1)
    else (if url == "https://a.substack.com/api/v1/archive?sort=new&search=&offset=1&limit=2"
        then (entries 1, w + 1)
        else (if url == "https://a.substack.com/api/v1/archive?sort=new&search=&offset=2&limit=2"
            then (entries 2, w + 1)
            else (entries 3, w + 1)))

lists : Lists fetch_archive (normalize_base web "a") "new" 2 items
unfolding normalize_base scraper_v_hezzian.Prelude.Text.rstrip_slash
    scraper_v_hezzian.Prelude.Decimal.decimal
lists w zero h = refl
lists w (suc zero) h = refl
lists w (suc (suc zero)) h = refl
lists w (suc (suc (suc zero))) h = refl
lists w (suc (suc (suc (suc k)))) h = absurd (omega arith)

scrape_publication-Finds_example :
    (w : ℕ) × Returned
      (scrape_publication web fetch_post fetch_archive 2 true 5 "new" 4 "a" 0)
      (take 5 (wanted web true (normalize_base web "a") replies items))
      w
scrape_publication-Finds_example =
    scrape_publication-Finds web fetch_post fetch_archive 2 true 5 "new" replies items 4 "a" 0
      (λ url w. refl) lists (omega arith) (omega arith)

one_found :
    scrape_publication web fetch_post fetch_archive 2 true 5 "new" 4 "a" 0
    ≡ some (ok (substack_success (build_article web (post long_text)) ∷ []), 4)
unfolding scrape_publication scraper_v_hezzian.Prelude.Text.rstrip_slash
    scraper_v_hezzian.Prelude.Decimal.decimal scraper_v_hezzian.Prelude.Text.collapse
one_found = refl

scrape_publication-AreReadable_example :
    AreLimited IsReadable 5 (substack_success (build_article web (post long_text)) ∷ [])
scrape_publication-AreReadable_example =
    scrape_publication-AreReadable web fetch_post fetch_archive 2 true 5 "new" 4 "a" 0 4
      (substack_success (build_article web (post long_text)) ∷ []) one_found

abbrev fetch_short : String → Action ℕ (Option SubstackPost)
fetch_short url w = (ok (some (post "short")), w)

paywalled :
    scrape_post web fetch_short "https://a.substack.com/p/c" 0
    ≡ (ok (failed error "curl_cffi" "paywalled"), 0)
unfolding scrape_post scraper_v_hezzian.Prelude.Text.collapse
paywalled = refl

scrape_post-IsReadable_example :
    IsReadable (failed error "curl_cffi" "paywalled")
    ⊎ ((reason : String) × (failed error "curl_cffi" "paywalled" ≡ failed error "curl_cffi" reason))
scrape_post-IsReadable_example =
    scrape_post-IsReadable web fetch_short "https://a.substack.com/p/c" 0 0
      (failed error "curl_cffi" "paywalled") paywalled
