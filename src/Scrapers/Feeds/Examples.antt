-- ===== src/Scrapers/Feeds/Examples.antt =====
-- A feed of four items: one without a link, one that is too short, two that are kept.
use scraper_v_hezzian.Prelude.{
  string_eq, String, ◌≡◌, none, some, List, [], ◌∷◌, refl, if◌then◌else◌, ◌==◌, Option,
}
use scraper_v_hezzian.Scrapers.Feeds.{
  FeedItem, FeedTools, feed_result, encoded_body, body_html, parse_substack_feed, parse_news_feed,
}
use scraper_v_hezzian.Scrapers.Feeds.Kept.{feed_gives, parse_feeds-eq}

abbrev item : Option String → Option String → Option String → FeedItem
item link encoded description = record {
  link = link;
  item_title = some " Title ";
  pub_date = some "Mon";
  creator = some " ";
  encoded = encoded;
  description = description;
}

abbrev items : List FeedItem
items =
    item none (some "long enough") none
    ∷ item (some " https://a.com/1 ") (some "tiny") none
    ∷ item (some "https://a.com/2") none (some "a  summary  text")
    ∷ item (some "https://a.com/3") (some "the whole text") (some "short")
    ∷ []

abbrev tools : FeedTools
tools = record {
  items_of = λ xml. if xml == "<rss/>" then some items else none;
  html_text = λ html. html;
  parse_date = λ s. none;
  host_of = λ url. some "a.com";
}

-- The Substack parser reads no `<description>`.
one_post :
    parse_substack_feed tools "<rss/>" 5 10
    ≡ feed_result tools "community" "the whole text"
        (item (some "https://a.com/3") (some "the whole text") (some "short"))
      ∷ []
unfolding parse_substack_feed scraper_v_hezzian.Prelude.Text.strip
    scraper_v_hezzian.Prelude.Text.collapse
one_post = refl

first_article :
    parse_news_feed tools "<rss/>" 1 10
    ≡ feed_result tools "public" "a  summary  text"
        (item (some "https://a.com/2") none (some "a  summary  text"))
      ∷ []
unfolding parse_news_feed scraper_v_hezzian.Prelude.Text.strip
    scraper_v_hezzian.Prelude.Text.collapse
first_article = refl

parse_feeds-eq_example :
    (parse_substack_feed tools "<rss/>" 5 10
      ≡ feed_gives tools encoded_body "community" 5 10 (some items))
    × (parse_news_feed tools "<rss/>" 5 10 ≡ feed_gives tools body_html "public" 5 10 (some items))
parse_feeds-eq_example = parse_feeds-eq tools "<rss/>" 5 10
