-- ===== src/Digest.antt =====
-- scrapeforge/digest: the personal e-mail made of the stored articles.
pub mod Articles
pub mod Models
pub mod Matcher
pub mod Relevance
pub mod Delivery
mod Samples
