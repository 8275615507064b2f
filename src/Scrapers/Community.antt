-- ===== src/Scrapers/Community.antt =====
-- scrapeforge/scrapers/community: sites with an API for their posts.
pub mod Runs
pub mod Reddit
pub mod Substack
