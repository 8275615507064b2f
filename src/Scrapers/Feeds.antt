-- ===== src/Scrapers/Feeds.antt =====
-- scrapeforge/scrapers/community/substack_rss.py and scrapers/public/news_rss.py, which have one
-- loop. The XML parser, the HTML parser, dates and the host of a URL are the parameter `FeedTools`.
pub mod Kept
mod Examples
use Prim.Native.String.{count}
use scraper_v_hezzian.Prelude.Text.{strip, collapse}
use scraper_v_hezzian.Prelude.{
  string_eq, ℕ, ltb, String, true, false, ◌||◌, Option, none, some, or_empty, List, [], ◌∷◌, ◌++◌,
  if◌then◌else◌, ◌==◌, length,
}
use scraper_v_hezzian.Core.Models.{no_metadata, ScrapeResult, success}

-- The children of an `<item>`, by their text.
pub record FeedItem : Type 0 where
  pub link : Option String
  pub item_title : Option String
  pub pub_date : Option String
  pub creator : Option String
  pub encoded : Option String
  pub description : Option String

pub record FeedTools : Type 0 where
  pub items_of : String → Option (List FeedItem)
  pub html_text : String → String
  pub parse_date : String → Option ℕ
  pub host_of : String → Option String

-- `_text`
unfoldable pub text_in : Option String → String
text_in el = strip (or_empty el)

-- `x or None`
abbrev pub or_none : String → Option String
or_none s = if s == "" then none else some s

-- `encoded.text if … else ""`
unfoldable pub encoded_body : FeedItem → String
encoded_body item = or_empty item.encoded

-- `_body_html`
unfoldable pub body_html : FeedItem → String
body_html item =
    if or_empty item.encoded == "" then or_empty item.description else or_empty item.encoded

module _ (tools : FeedTools) where
  -- `_clean_html` of substack.py, and `_html_to_text`
  unfoldable pub html_to_text : String → String
  html_to_text html = if html == "" then "" else collapse (tools.html_text html)

  unfoldable pub date_in : Option String → Option ℕ
  unfolding text_in
  date_in el =
      let raw_date = text_in el in if raw_date == "" then none else tools.parse_date raw_date

  unfoldable pub feed_result : String → String → FeedItem → ScrapeResult
  unfolding text_in html_to_text date_in
  feed_result bucket raw_html item = record {
    status = success;
    driver_used = "curl_cffi";
    article = some (record {
      url = text_in item.link;
      title = text_in item.item_title;
      content = html_to_text raw_html;
      author = or_none (text_in item.creator);
      publish_date = date_in item.pub_date;
      raw_html = or_none raw_html;
      metadata = record no_metadata {
        source_domain = some (or_empty (tools.host_of (text_in item.link)));
        bucket = some bucket;
        via = some "rss";
      };
    });
    error_text = none;
    proxy_used = none;
  }

  -- The loop over the items, where `body` finds the HTML of one.
  unfoldable pub parse_items :
      (FeedItem → String) → String → ℕ → ℕ → List ScrapeResult → List FeedItem → List ScrapeResult
  unfolding feed_result html_to_text text_in
  parse_items body bucket limit min_chars results [] = results
  parse_items body bucket limit min_chars results (item ∷ items) =
      elim (ltb (length results) limit) [
        | false ↦ results
        | true ↦
            elim (text_in item.link == "" || ltb (count (html_to_text (body item))) min_chars) [
              | true ↦ parse_items body bucket limit min_chars results items
              | false ↦
                  parse_items body bucket limit min_chars
                    (results ++ (feed_result bucket (body item) item ∷ [])) items
            ]
      ]

  unfoldable pub parse_feed :
      (FeedItem → String) → String → ℕ → ℕ → Option (List FeedItem) → List ScrapeResult
  unfolding parse_items
  parse_feed body bucket limit min_chars none = []
  parse_feed body bucket limit min_chars (some items) =
      parse_items body bucket limit min_chars [] items

  unfoldable pub parse_substack_feed : String → ℕ → ℕ → List ScrapeResult
  unfolding parse_feed encoded_body
  parse_substack_feed xml limit min_chars =
      parse_feed encoded_body "community" limit min_chars (tools.items_of xml)

  unfoldable pub parse_news_feed : String → ℕ → ℕ → List ScrapeResult
  unfolding parse_feed body_html
  parse_news_feed xml limit min_chars =
      parse_feed body_html "public" limit min_chars (tools.items_of xml)
