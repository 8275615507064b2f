-- ===== src/Scrapers.antt =====
-- scrapeforge/scrapers: the classes that know a site.
pub mod Community
pub mod Feeds
