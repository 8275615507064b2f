-- ===== src/Scrapers/Feeds/Kept.antt =====
-- Which items of a feed become articles.
use mathlib.Core.List.{append-nil, append_assoc}
use Prim.Native.String.{count}
use scraper_v_hezzian.Prelude.{
  string_eq, ℕ, ◌-◌, ltb, String, Bool, not, ◌||◌, List, [], ◌∷◌, ◌++◌, ◌==◌, length, map, filter,
  take, ◌≡◌, Bool-cases, length-append, zero, suc, refl, sym, ap, ◌∙◌, inl, inr, true, false,
  Option, none, some, arith,
}
use scraper_v_hezzian.Core.Models.{ScrapeResult}
use scraper_v_hezzian.Scrapers.Feeds.{
  FeedItem, FeedTools, text_in, html_to_text, feed_result, parse_items, parse_feed, encoded_body,
  body_html, parse_substack_feed, parse_news_feed,
}

module _ (tools : FeedTools) where
  -- An item with a link, and with a text of the least length.
  abbrev pub is_kept : (FeedItem → String) → ℕ → FeedItem → Bool
  is_kept body min_chars item =
      not (text_in item.link == "" || ltb (count (html_to_text tools (body item))) min_chars)

  -- The results of the first items that are kept.
  abbrev pub kept_results : (FeedItem → String) → String → ℕ → ℕ → List FeedItem → List ScrapeResult
  kept_results body bucket limit min_chars items =
      map (λ item. feed_result tools bucket (body item) item)
        (take limit (filter (is_kept body min_chars) items))

  module _ (body : FeedItem → String) (bucket : String) (limit min_chars : ℕ) where
    parse_items-full :
        (items : List FeedItem) (results : List ScrapeResult)
        → ltb (length results) limit ≡ false
        → parse_items tools body bucket limit min_chars results items ≡ results
    unfolding parse_items
    parse_items-full [] results h = refl
    parse_items-full (item ∷ items) results h = ground arith

    parse_items-skips :
        (item : FeedItem) (items : List FeedItem) (results : List ScrapeResult)
        → is_kept body min_chars item ≡ false
        → parse_items tools body bucket limit min_chars results (item ∷ items)
          ≡ parse_items tools body bucket limit min_chars results items
    unfolding parse_items
    parse_items-skips item items results h = elim (Bool-cases (ltb (length results) limit)) [
      | inl e ↦ ground arith
      | inr e ↦ ground (arith, parse_items-full items results e)
    ]

    parse_items-keeps :
        (item : FeedItem) (items : List FeedItem) (results : List ScrapeResult)
        → ltb (length results) limit ≡ true
        → is_kept body min_chars item ≡ true
        → parse_items tools body bucket limit min_chars results (item ∷ items)
          ≡ parse_items tools body bucket limit min_chars
              (results ++ (feed_result tools bucket (body item) item ∷ []))
              items
    unfolding parse_items
    parse_items-keeps item items results h k = ground arith

    -- With room for some more results.
    parse_items-eq :
        (items : List FeedItem) (results : List ScrapeResult) (room : ℕ)
        → limit - length results ≡ room
        → parse_items tools body bucket limit min_chars results items
          ≡ results ++ kept_results body bucket room min_chars items
    parse_items-eq items results zero e =
        parse_items-full items results (ground arith) ∙ sym (append-nil results)
    parse_items-eq [] results (suc room) e = unfold parse_items in sym (append-nil results)
    parse_items-eq (item ∷ items) results (suc room) e =
        elim (Bool-cases (is_kept body min_chars item)) [
          | inr k ↦
              parse_items-skips item items results k
              ∙ parse_items-eq items results (suc room) e
              ∙ ap
                  (λ is.
                    results
                    ++ map (λ item. feed_result tools bucket (body item) item) (take (suc room) is))
                  (sym (drops k))
          | inl k ↦
              parse_items-keeps item items results (ground arith) k
              ∙ parse_items-eq items (results ++ (feed_result tools bucket (body item) item ∷ []))
                  room
                  (omega
                    (arith, length-append results (feed_result tools bucket (body item) item ∷ [])))
              ∙ append_assoc results (feed_result tools bucket (body item) item ∷ [])
                  (kept_results body bucket room min_chars items)
              ∙ ap
                  (λ is.
                    results
                    ++ map (λ item. feed_result tools bucket (body item) item) (take (suc room) is))
                  (sym (keeps k))
        ]
      where
        drops :
            is_kept body min_chars item ≡ false
            → filter (is_kept body min_chars) (item ∷ items) ≡ filter (is_kept body min_chars) items
        drops k = rw k refl

        keeps :
            is_kept body min_chars item ≡ true
            → filter (is_kept body min_chars) (item ∷ items)
              ≡ item ∷ filter (is_kept body min_chars) items
        keeps k = rw k refl

    parse_feed-eq :
        (items : List FeedItem)
        → parse_feed tools body bucket limit min_chars (some items)
          ≡ kept_results body bucket limit min_chars items
    unfolding parse_feed
    parse_feed-eq items = parse_items-eq items [] limit (omega arith)

  -- What a feed gives, if it can be parsed.
  abbrev pub feed_gives :
      (FeedItem → String) → String → ℕ → ℕ → Option (List FeedItem) → List ScrapeResult
  feed_gives body bucket limit min_chars none = []
  feed_gives body bucket limit min_chars (some items) =
      kept_results body bucket limit min_chars items

  parse_feed-gives :
      (body : FeedItem → String) (bucket : String) (limit min_chars : ℕ)
      (o : Option (List FeedItem))
      → parse_feed tools body bucket limit min_chars o ≡ feed_gives body bucket limit min_chars o
  parse_feed-gives body bucket limit min_chars none = unfold parse_feed in refl
  parse_feed-gives body bucket limit min_chars (some items) =
      parse_feed-eq body bucket limit min_chars items

  -- Each of the two feed parsers gives the results of the first `limit` items that have a link and
  -- a text of `min_chars` characters or more, in order, and nothing for a feed that cannot be
  -- parsed.
  pub parse_feeds-eq :
      (xml : String) (limit min_chars : ℕ)
      → (parse_substack_feed tools xml limit min_chars
          ≡ feed_gives encoded_body "community" limit min_chars (tools.items_of xml))
        × (parse_news_feed tools xml limit min_chars
            ≡ feed_gives body_html "public" limit min_chars (tools.items_of xml))
  unfolding parse_substack_feed parse_news_feed
  parse_feeds-eq xml limit min_chars = (
    parse_feed-gives encoded_body "community" limit min_chars (tools.items_of xml),
    parse_feed-gives body_html "public" limit min_chars (tools.items_of xml),
  )
