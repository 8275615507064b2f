-- ===== src/Scrapers/Community/Reddit.antt =====
-- scrapeforge/scrapers/community/reddit.py and, of _base.py, `_fetch_json`: the parameter `fetch`
-- gives a listing's decoded `data`, or raises as the driver, the JSON decoder or a missing key does.
pub mod Bounds
pub mod Server
mod Examples
use Prim.Native.String.{◌++◌ as ◌<>◌}
use scraper_v_hezzian.Prelude.Text.{rstrip_slash, ends_with}
use scraper_v_hezzian.Prelude.Decimal.{decimal}
use scraper_v_hezzian.Prelude.{
  string_eq, ℕ, zero, suc, ◌+◌, ◌-◌, min, ltb, String, Bool, not, ◌&&◌, ◌||◌, Option, none, some,
  or_empty, List, [], ◌∷◌, ◌++◌, if◌then◌else◌, ◌==◌, length, take,
}
use scraper_v_hezzian.Exceptions.{Action, Result, ok, err, ◌>>=◌, pure}
use scraper_v_hezzian.Core.Models.{Article, no_metadata, ScrapeResult, success}
use scraper_v_hezzian.Utils.Validators.{in_text}

-- The keys of a post that the scraper reads.
pub record Post : Type 0 where
  pub is_self : Bool
  pub selftext : Option String
  pub title : Option String
  pub author : Option String
  pub permalink : Option String
  pub url : Option String
  pub created_utc : Option ℕ
  pub subreddit : Option String
  pub score : Option ℕ
  pub num_comments : Option ℕ
  pub id : Option String

-- A child of kind `t3`, or of another kind.
pub data Child : Type 0 where
  t3 : Post → Child
  other_kind : Child

pub record Listing : Type 0 where
  pub children : List Child
  pub after : Option String

abbrev pub base_url : String
base_url = "https://www.reddit.com"

-- The text of a self-post that was not taken away.
unfoldable pub selftext_of : Post → String
selftext_of data_ =
    let selftext = or_empty data_.selftext in
    if selftext == "[removed]" || selftext == "[deleted]" then "" else selftext

unfoldable pub link_of : Post → Option String
unfolding selftext_of
link_of data_ =
    let external_url = or_empty data_.url in
    if data_.is_self && not (selftext_of data_ == "")
    then none
    else (if external_url == "" || in_text "reddit.com" external_url
        then none
        else some external_url)

-- `_parse_post`
unfoldable pub parse_post : Post → Article
unfolding selftext_of link_of
parse_post data_ =
    let permalink = or_empty data_.permalink in
    record {
      url = if permalink == "" then or_empty data_.url else base_url <> permalink;
      title = or_empty data_.title;
      content = if data_.is_self then selftext_of data_ else "";
      author = data_.author;
      publish_date = data_.created_utc;
      raw_html = none;
      metadata = record no_metadata {
        source_domain = some "reddit.com";
        bucket = some "community";
        subreddit = data_.subreddit;
        score = data_.score;
        num_comments = data_.num_comments;
        reddit_id = data_.id;
        link_url = link_of data_;
      };
    }

unfoldable pub post_result : Post → ScrapeResult
unfolding parse_post
post_result data_ = record {
  status = success;
  driver_used = "curl_cffi";
  article = some (parse_post data_);
  error_text = none;
  proxy_used = none;
}

unfoldable pub listing_url : String → String → ℕ → ℕ → Option String → String
listing_url subreddit sort page_size count after =
    let url =
      base_url
      <> ("/r/"
          <> (subreddit
              <> ("/"
                  <> (sort
                      <> (".json?limit="
                          <> (decimal page_size <> ("&count=" <> decimal count))))))) in
    if or_empty after == "" then url else url <> ("&after=" <> or_empty after)

-- The loop over the children of a page.
unfoldable pub add_posts : ℕ → List ScrapeResult → List Child → List ScrapeResult
unfolding post_result
add_posts limit results [] = results
add_posts limit results (other_kind ∷ children) = add_posts limit results children
add_posts limit results (t3 data_ ∷ children) =
    if ltb (length results) limit
    then add_posts limit (results ++ (post_result data_ ∷ [])) children
    else results

module _ {W : Type 0} (fetch : String → Action W Listing) (subreddit sort : String)
    (limit : ℕ) where
  -- The `while` loop on fuel: `none` if it is not done.
  unfoldable pub scrape_pages :
      ℕ → List ScrapeResult → Option String → ℕ → W → Option (Result (List ScrapeResult) × W)
  unfolding add_posts listing_url
  scrape_pages zero results after count w = none
  scrape_pages (suc fuel) results after count w =
      if ltb (length results) limit
      then (let (reply, w') =
            fetch (listing_url subreddit sort (min 100 (limit - length results)) count after) w in
          elim reply [
            | err e ↦ some (err e, w')
            | ok listing ↦ elim listing.children [
              | [] ↦ some (ok (take limit results), w')
              | c ∷ cs ↦
                  let results' = add_posts limit results listing.children in
                  elim listing.after [
                    | none ↦ some (ok (take limit results'), w')
                    | some a ↦
                        scrape_pages fuel results' (some a) (count + length listing.children) w'
                  ]
            ]
          ])
      else some (ok (take limit results), w)

  -- `scrape_subreddit`
  unfoldable pub scrape_subreddit : ℕ → W → Option (Result (List ScrapeResult) × W)
  unfolding scrape_pages
  scrape_subreddit fuel w = scrape_pages fuel [] none 0 w

-- The URL that `scrape` fetches.
unfoldable pub json_url : String → String
json_url url =
    let trimmed = rstrip_slash url in if ends_with ".json" trimmed then url else trimmed <> ".json"

-- `scrape`, where `fetch_first` gives the data of the first post of the payload, or raises.
unfoldable pub scrape_reddit_post :
    {W : Type 0} → (String → Action W Post) → String → Action W ScrapeResult
unfolding json_url post_result
scrape_reddit_post fetch_first url =
    fetch_first (json_url url) >>= λ data_. pure (post_result data_)
