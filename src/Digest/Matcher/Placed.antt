-- ===== src/Digest/Matcher/Placed.antt =====
-- In which section an article stands.
use mathlib.Core.List.{append-nil, append_assoc}
use scraper_v_hezzian.Digest.Matcher.{matched_terms, to_item, Buckets, haystack, place, place_all}
use scraper_v_hezzian.Prelude.{
  String, Bool, true, false, List, [], ◌∷◌, ◌++◌, ◌≡◌, not, ◌&&◌, if◌then◌else◌, refl, ap, ◌∙◌, sym,
}
use scraper_v_hezzian.Core.Models.{Article}
use scraper_v_hezzian.Digest.Models.{DigestTools, DigestItem, DigestPreferences}

unfoldable pub is_nonempty : List String → Bool
is_nonempty [] = false
is_nonempty (x ∷ xs) = true

module _ (tools : DigestTools) where
  -- The terms of a list that the article matches.
  abbrev pub hits : List String → Article → List String
  hits terms a = matched_terms tools (haystack tools a) terms

  abbrev pub has : List String → Article → Bool
  has terms a = is_nonempty (hits terms a)

  -- The items of the articles that pass the test, with the terms they match.
  unfoldable pub items_for : List String → (Article → Bool) → List Article → List DigestItem
  items_for terms p [] = []
  items_for terms p (a ∷ articles) =
      let rest = items_for terms p articles in
      if p a then to_item tools a (hits terms a) ∷ rest else rest

  module _ (prefs : DigestPreferences) where
    abbrev pub first_in_portfolio : Article → Bool
    first_in_portfolio a = has prefs.portfolio_companies a

    abbrev pub first_in_themes : Article → Bool
    first_in_themes a = not (first_in_portfolio a) && has prefs.investment_themes a

    abbrev pub first_in_topics : Article → Bool
    first_in_topics a =
        not (first_in_portfolio a) && not (has prefs.investment_themes a) && has prefs.news_topics a

    -- The lists after the articles.
    abbrev pub with_items : List Article → Buckets tools → Buckets tools
    with_items articles b = record {
      in_portfolio =
          b.in_portfolio ++ items_for prefs.portfolio_companies first_in_portfolio articles;
      in_themes = b.in_themes ++ items_for prefs.investment_themes first_in_themes articles;
      in_topics = b.in_topics ++ items_for prefs.news_topics first_in_topics articles;
    }

    -- One article with these hits, in front of the items of the others.
    placed :
        (p t q : List String) (a : Article) (ps ts qs : List DigestItem) (b : Buckets tools)
        → let b' : Buckets tools = elim p [
          | x ∷ xs ↦ record b { in_portfolio = b.in_portfolio ++ to_item tools a (x ∷ xs) ∷ [] }
          | [] ↦ elim t [
            | x ∷ xs ↦ record b { in_themes = b.in_themes ++ to_item tools a (x ∷ xs) ∷ [] }
            | [] ↦ elim q [
              | x ∷ xs ↦ record b { in_topics = b.in_topics ++ to_item tools a (x ∷ xs) ∷ [] }
              | [] ↦ b
            ]
          ]
        ] in
          Path
            (Buckets tools)
            (record {
              in_portfolio = b'.in_portfolio ++ ps;
              in_themes = b'.in_themes ++ ts;
              in_topics = b'.in_topics ++ qs;
            })
            (record {
              in_portfolio =
                  b.in_portfolio ++ (if is_nonempty p then to_item tools a p ∷ ps else ps);
              in_themes =
                  b.in_themes
                  ++ (if not (is_nonempty p) && is_nonempty t then to_item tools a t ∷ ts else ts);
              in_topics =
                  b.in_topics
                  ++ (if not (is_nonempty p) && not (is_nonempty t) && is_nonempty q
                      then to_item tools a q ∷ qs
                      else qs);
            })
    unfolding is_nonempty
    placed (x ∷ xs) t q a ps ts qs b =
        ap
          (λ l. record {
            in_portfolio = l;
            in_themes = b.in_themes ++ ts;
            in_topics = b.in_topics ++ qs;
          })
          (append_assoc b.in_portfolio (to_item tools a (x ∷ xs) ∷ []) ps)
    placed [] (x ∷ xs) q a ps ts qs b =
        ap
          (λ l. record {
            in_portfolio = b.in_portfolio ++ ps;
            in_themes = l;
            in_topics = b.in_topics ++ qs;
          })
          (append_assoc b.in_themes (to_item tools a (x ∷ xs) ∷ []) ts)
    placed [] [] (x ∷ xs) a ps ts qs b =
        ap
          (λ l. record {
            in_portfolio = b.in_portfolio ++ ps;
            in_themes = b.in_themes ++ ts;
            in_topics = l;
          })
          (append_assoc b.in_topics (to_item tools a (x ∷ xs) ∷ []) qs)
    placed [] [] [] a ps ts qs b = refl

    -- Each list grows by the items of the articles that match it first.
    pub place_all-eq :
        (articles : List Article) (b : Buckets tools)
        → place_all tools prefs articles b ≡ with_items articles b
    unfolding place_all items_for
    place_all-eq [] b = sym (
        ap
          (λ l. record {
            in_portfolio = l;
            in_themes = b.in_themes ++ [];
            in_topics = b.in_topics ++ [];
          })
          (append-nil b.in_portfolio)
        ∙ ap
            (λ l. record {
              in_portfolio = b.in_portfolio;
              in_themes = l;
              in_topics = b.in_topics ++ [];
            })
            (append-nil b.in_themes)
        ∙ ap (λ l. record { in_portfolio = b.in_portfolio; in_themes = b.in_themes; in_topics = l })
            (append-nil b.in_topics))
    place_all-eq (a ∷ articles) b =
        place_all-eq articles (place tools prefs a b)
        ∙ placed (hits prefs.portfolio_companies a) (hits prefs.investment_themes a)
            (hits prefs.news_topics a) a
            (items_for prefs.portfolio_companies first_in_portfolio articles)
            (items_for prefs.investment_themes first_in_themes articles)
            (items_for prefs.news_topics first_in_topics articles) b
