-- ===== src/Utils.antt =====
-- scrapeforge/utils: what is read from a page, and whether the page is a genuine one.
pub mod Parsers
pub mod Validators
