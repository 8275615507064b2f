-- ===== src/Digest/Matcher/Sections.antt =====
-- The sections of a digest.
use scraper_v_hezzian.Digest.Matcher.Placed.{
  items_for, first_in_portfolio, first_in_themes, first_in_topics,
}
use scraper_v_hezzian.Digest.Matcher.{section, Buckets}
use scraper_v_hezzian.Prelude.{ℕ, List, [], ◌++◌, take}
use scraper_v_hezzian.Core.Models.{Article}
use scraper_v_hezzian.Digest.Models.{
  DigestTools, DigestItem, DigestPreferences, DigestSection, portfolio, themes, topics,
}

module _ (tools : DigestTools) where
  abbrev no_items : Buckets tools
  no_items = record { in_portfolio = []; in_themes = []; in_topics = [] }

  abbrev sections_of : ℕ → Buckets tools → List DigestSection
  sections_of limit b =
      section tools portfolio "Your portfolio companies" limit b.in_portfolio
      ++ (section tools themes "Investment themes" limit b.in_themes
          ++ section tools topics "More in your topics" limit b.in_topics)

  -- The items of a digest, from the articles in the order they are looked at.
  abbrev pub items_of_digest : DigestPreferences → List Article → List DigestItem
  items_of_digest prefs articles =
      let limit = prefs.max_items_per_section in
      take limit
        (items_for tools prefs.portfolio_companies (first_in_portfolio tools prefs) articles)
      ++ (take limit
            (items_for tools prefs.investment_themes (first_in_themes tools prefs) articles)
          ++ take limit (items_for tools prefs.news_topics (first_in_topics tools prefs) articles))
