-- ===== src/Digest/Relevance.antt =====
-- scrapeforge/digest/relevance.py
-- The dates are ticks since the epoch.
pub mod Ranked
mod Examples
use scraper_v_hezzian.Digest.Matcher.{title_or, source_of, summarize}
use scraper_v_hezzian.Prelude.Sorting.{sort_by}
use scraper_v_hezzian.Prelude.{
  string_eq, ℕ, String, Bool, none, some, List, [], ◌∷◌, ltb, leb, nat_beq, if◌then◌else◌, ◌==◌,
  take, filter, zero, suc, not, ◌&&◌, ◌||◌, Option, map,
}
use scraper_v_hezzian.Prelude.Text.{strip}
use scraper_v_hezzian.Core.Models.{Article}
use scraper_v_hezzian.Digest.Models.{
  DigestTools, DigestItem, DigestSection, Digest, Subscriber, top,
}

unfoldable pub relevance_of : Article → ℕ
relevance_of a = elim a.metadata.relevance [ none ↦ 0 | some r ↦ r ]

-- The time of an article in its sort key.
unfoldable pub timestamp_of : Article → ℕ
timestamp_of a = elim a.publish_date [ none ↦ 0 | some t ↦ t ]

-- `_sort_key(a) >= _sort_key(b)`
unfoldable pub ranks_before : Article → Article → Bool
unfolding relevance_of timestamp_of
ranks_before a b =
    ltb (relevance_of b) (relevance_of a)
    || nat_beq (relevance_of b) (relevance_of a) && leb (timestamp_of b) (timestamp_of a)

unfoldable pub bullets_of : Article → List String
bullets_of a = elim a.metadata.summary [
  | none ↦ []
  | some s ↦ filter (λ b. not (b == "")) (map strip s.bullets)
]

-- `x or None` for a number
unfoldable non_zero : ℕ → Option ℕ
non_zero zero = none
non_zero (suc n) = some (suc n)

-- `x.strip()` or `None`, for a reason
unfoldable pub non_blank : Option String → Option String
non_blank none = none
non_blank (some s) = if strip s == "" then none else some (strip s)

module _ (tools : DigestTools) where
  unfoldable pub ranked_item : Article → DigestItem
  unfolding bullets_of relevance_of non_zero non_blank
  ranked_item a = record {
    title = title_or a.title;
    url = a.url;
    source = source_of tools a.url;
    published = a.publish_date;
    summary = summarize a.content;
    matched_on = [];
    bullets = bullets_of a;
    relevance = non_zero (relevance_of a);
    reason = non_blank (elim a.metadata.summary [ none ↦ none | some s ↦ s.reason ]);
  }

  -- `eligible[:limit]`
  unfoldable pub top_articles : ℕ → ℕ → List Article → List Article
  unfolding ranks_before
  top_articles min_relevance limit articles =
      take limit (sort_by ranks_before (filter (λ a. leb min_relevance (relevance_of a)) articles))

  -- The one section, which is left out when it is empty.
  unfoldable pub top_section : List DigestItem → List DigestSection
  top_section [] = []
  top_section (i ∷ is) = record { key = top; heading = "Top updates"; items = i ∷ is } ∷ []

  unfoldable pub build_relevance_digest : Subscriber → List Article → ℕ → ℕ → ℕ → Digest
  unfolding ranked_item top_articles top_section
  build_relevance_digest subscriber articles min_relevance limit now = record {
    subscriber_id = subscriber.id;
    subscriber_name = subscriber.name;
    subscriber_email = subscriber.email;
    cadence = subscriber.preferences.cadence;
    period = tools.iso_date now;
    generated_at = now;
    sections = top_section (map ranked_item (top_articles min_relevance limit articles));
  }
