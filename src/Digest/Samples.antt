-- ===== src/Digest/Samples.antt =====
-- Articles and a subscriber. Texts are in lower case, and the host of every URL is the same.
use scraper_v_hezzian.Prelude.{ℕ, String, true, none, some, List, [], ◌∷◌, Option}
use scraper_v_hezzian.Core.Models.{Article, no_metadata}
use scraper_v_hezzian.Digest.Models.{DigestTools, Subscriber, daily}

abbrev pub tools : DigestTools
tools = record { hostname = λ url. some "a.com"; lower = λ s. s; iso_date = λ t. "2026-06-22" }

abbrev pub news : String → String → Option ℕ → Option ℕ → Article
news url content publish_date relevance = record {
  url = url;
  title = "title";
  content = content;
  author = none;
  publish_date = publish_date;
  raw_html = none;
  metadata = record no_metadata { relevance = relevance };
}

abbrev pub articles : List Article
articles =
    news "u" "ai_model and a mountain" (some 5) (some 9)
    ∷ news "v" "stripe bets on ai." none (some 7)
    ∷ news "w" "more ai" (some 3) none
    ∷ news "x" "an ai fund" (some 8) (some 7)
    ∷ []

abbrev pub subscriber : Subscriber
subscriber = record {
  id = "s";
  name = "S";
  email = "s@a.com";
  preferences = record {
    portfolio_companies = "stripe" ∷ [];
    investment_themes = "ai" ∷ [];
    news_topics = "fund" ∷ [];
    data_types = [];
    cadence = daily;
    max_items_per_section = 1;
  };
  active = true;
  timezone = none;
  created_at = none;
}
