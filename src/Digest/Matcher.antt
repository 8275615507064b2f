-- ===== src/Digest/Matcher.antt =====
-- scrapeforge/digest/matcher.py
-- The dates are ticks since the epoch, and an article without one sorts last.
pub mod Placed
pub mod Sections
mod Examples
use scraper_v_hezzian.Prelude.Sorting.{sort_by}
use Prim.Native.Char.{code}
use Prim.Native.String.{[] as nil, ◌∷◌ as cons, ◌++◌ as ◌<>◌, count}
use scraper_v_hezzian.Prelude.Text.{strip, collapse, rstrip}
use scraper_v_hezzian.Prelude.{
  string_eq, ℕ, String, Bool, true, false, none, some, List, [], ◌∷◌, ◌++◌, leb, nat_beq,
  if◌then◌else◌, ◌==◌, take, filter, zero, suc, ◌+◌, not, ◌&&◌, ◌||◌, Option,
}
use scraper_v_hezzian.Core.Models.{Article}
use scraper_v_hezzian.Digest.Models.{
  DigestTools, DigestItem, DigestSection, Digest, Subscriber, portfolio, themes, topics, SectionKey,
  DigestPreferences,
}

-- `[a-z0-9_]`
unfoldable is_word : ℕ → Bool
is_word c = (leb 97 c && leb c 122) || (leb 48 c && leb c 57) || nat_beq c 95

unfoldable starts_word : String → Bool
unfolding is_word
starts_word nil = false
starts_word (cons c s) = is_word (code c)

-- The text starts with the term, and then the word is over.
unfoldable word_at : String → String → Bool
unfolding starts_word
word_at nil s = not (starts_word s)
word_at (cons c t) nil = false
word_at (cons c t) (cons d s) = let rest = word_at t s in nat_beq (code c) (code d) && rest

-- `re.search` of the term; the flag says if a character of a word stands before the text.
unfoldable find_word : String → Bool → String → Bool
unfolding word_at
find_word t inside nil = not inside && word_at t nil
find_word t inside (cons c s) =
    let rest = find_word t (is_word (code c)) s in not inside && word_at t (cons c s) || rest

unfoldable pub take_text : ℕ → String → String
take_text zero s = nil
take_text (suc n) nil = nil
take_text (suc n) (cons c s) = cons c (take_text n s)

unfoldable starts_stop : String → Bool
starts_stop (cons c (cons d s)) = nat_beq (code c) 46 && nat_beq (code d) 32
starts_stop s = false

-- `s.rfind(". ")`, with `none` for -1
unfoldable rfind_stop : String → Option ℕ
unfolding starts_stop
rfind_stop nil = none
rfind_stop (cons c s) = elim (rfind_stop s) [
  | some i ↦ some (i + 1)
  | none ↦ if starts_stop (cons c s) then some 0 else none
]

unfoldable pub summarize : String → String
unfolding take_text rfind_stop
summarize content =
    let text = collapse content in
    let window = take_text 360 text in
    let cut_off = rstrip (take_text 300 text) <> "…" in
    if leb (count text) 300 then text else (elim (rfind_stop (take_text 301 window)) [
      | none ↦ cut_off
      | some cut ↦ if leb 60 cut then take_text (cut + 1) window else cut_off
    ])

-- `article.title or "(untitled)"`
unfoldable pub title_or : String → String
title_or title = if title == "" then "(untitled)" else title

-- `urlsplit(url).hostname or ""`
unfoldable pub source_of : DigestTools → String → String
source_of tools url = elim (tools.hostname url) [ none ↦ "" | some host ↦ host ]

-- `_sort_key(a) >= _sort_key(b)`
unfoldable pub is_as_recent : Article → Article → Bool
is_as_recent a b = elim b.publish_date [
  | none ↦ true
  | some t ↦ elim a.publish_date [ none ↦ false | some u ↦ leb t u ]
]

module _ (tools : DigestTools) where
  unfoldable pub haystack : Article → String
  haystack a = tools.lower (a.title <> ("\n" <> a.content))

  unfoldable pub matches : String → String → Bool
  unfolding find_word
  matches text term =
      let t = tools.lower (strip term) in if t == "" then false else find_word t false text

  unfoldable pub matched_terms : String → List String → List String
  unfolding matches
  matched_terms text terms = filter (matches text) terms

  unfoldable pub to_item : Article → List String → DigestItem
  unfolding summarize title_or source_of
  to_item a matched_on = record {
    title = title_or a.title;
    url = a.url;
    source = source_of tools a.url;
    published = a.publish_date;
    summary = summarize a.content;
    matched_on = matched_on;
    bullets = [];
    relevance = none;
    reason = none;
  }

  -- The lists of items under the three keys.
  pub record Buckets : Type 0 where
    pub in_portfolio : List DigestItem
    pub in_themes : List DigestItem
    pub in_topics : List DigestItem

  -- The loop over the sections for one article, which the first match ends.
  unfoldable pub place : DigestPreferences → Article → Buckets → Buckets
  unfolding matched_terms haystack to_item
  place prefs a b = elim (matched_terms (haystack a) prefs.portfolio_companies) [
    | t ∷ ts ↦ record b { in_portfolio = b.in_portfolio ++ to_item a (t ∷ ts) ∷ [] }
    | [] ↦ elim (matched_terms (haystack a) prefs.investment_themes) [
      | t ∷ ts ↦ record b { in_themes = b.in_themes ++ to_item a (t ∷ ts) ∷ [] }
      | [] ↦ elim (matched_terms (haystack a) prefs.news_topics) [
        | t ∷ ts ↦ record b { in_topics = b.in_topics ++ to_item a (t ∷ ts) ∷ [] }
        | [] ↦ b
      ]
    ]
  ]

  unfoldable pub place_all : DigestPreferences → List Article → Buckets → Buckets
  unfolding place
  place_all prefs [] b = b
  place_all prefs (a ∷ articles) b = place_all prefs articles (place prefs a b)

  -- A section without items is left out.
  unfoldable pub section : SectionKey → String → ℕ → List DigestItem → List DigestSection
  section key heading limit [] = []
  section key heading limit (i ∷ is) =
      record { key = key; heading = heading; items = take limit (i ∷ is) } ∷ []

  unfoldable pub build_digest : Subscriber → List Article → ℕ → Digest
  unfolding place_all section
  build_digest subscriber articles now =
      let prefs = subscriber.preferences in
      let b =
        place_all prefs (sort_by is_as_recent articles)
          (record { in_portfolio = []; in_themes = []; in_topics = [] }) in
      let limit = prefs.max_items_per_section in
      record {
        subscriber_id = subscriber.id;
        subscriber_name = subscriber.name;
        subscriber_email = subscriber.email;
        cadence = prefs.cadence;
        period = tools.iso_date now;
        generated_at = now;
        sections =
            section portfolio "Your portfolio companies" limit b.in_portfolio
            ++ (section themes "Investment themes" limit b.in_themes
                ++ section topics "More in your topics" limit b.in_topics);
      }
