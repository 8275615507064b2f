-- ===== src/Digest/Relevance/Ranked.antt =====
-- The choice of a digest: the articles that rank highest.
use scraper_v_hezzian.Prelude.Slices.{length-map}
use mathlib.Core.List.{append-nil}
use scraper_v_hezzian.Digest.Relevance.{
  relevance_of, ranks_before, ranked_item, top_articles, top_section, build_relevance_digest,
}
use scraper_v_hezzian.Prelude.Sorting.{
  Pairwise, Pairwise-take, length-filter-take, length-filter-filter, sort_by, length-filter-sort_by,
  All-sort_by, sort_by-Pairwise, length-sort_by,
}
use scraper_v_hezzian.Prelude.{
  ℕ, true, false, List, [], ◌∷◌, ◌≡◌, refl, arith, min, leb, length, filter, All, All-filter_self,
  All-take, ◌≤◌, ap, ◌∙◌, map, length-take,
}
use scraper_v_hezzian.Core.Models.{Article}
use scraper_v_hezzian.Digest.Models.{
  DigestTools, DigestItem, Subscriber, items_in, total_items, count_items-eq,
}

-- The articles of a digest: sorted by rank, and at any mark above the floor as many as there are
-- articles at the mark or above it, up to the limit.
abbrev pub AreTop : ℕ → ℕ → List Article → List Article → Type 0
AreTop min_relevance limit articles chosen =
    Pairwise (λ a b. ranks_before a b ≡ true) chosen
    × ((mark : Article)
        → min_relevance ≤ relevance_of mark
        → length (filter (λ a. ranks_before a mark) chosen)
          ≡ min limit (length (filter (λ a. ranks_before a mark) articles)))
    × All (λ a. leb min_relevance (relevance_of a) ≡ true) chosen

total : (a b : Article) → ranks_before a b ≡ false → ranks_before b a ≡ true
unfolding ranks_before
total a b h = ground arith

trans :
    (a b c : Article) → ranks_before a b ≡ true → ranks_before b c ≡ true → ranks_before a c ≡ true
unfolding ranks_before
trans a b c h k = ground arith

above_floor :
    (n : ℕ) (mark a : Article)
    → n ≤ relevance_of mark
    → ranks_before a mark ≡ true
    → leb n (relevance_of a) ≡ true
unfolding ranks_before
above_floor n mark a h k = ground arith

top_articles-AreTop :
    (tools : DigestTools) (min_relevance limit : ℕ) (articles : List Article)
    → AreTop min_relevance limit articles (top_articles tools min_relevance limit articles)
unfolding top_articles
top_articles-AreTop tools min_relevance limit articles =
    let p = λ (a : Article). leb min_relevance (relevance_of a) in
    let eligible = filter p articles in
    let sorted = sort_by-Pairwise ranks_before total trans eligible in
    (
      Pairwise-take (λ a b. ranks_before a b ≡ true) limit (sort_by ranks_before eligible) sorted,
      λ mark h.
          length-filter-take (λ a b. ranks_before a b ≡ true) (λ a. ranks_before a mark)
            (λ a b. trans a b mark) limit (sort_by ranks_before eligible) sorted
          ∙ ap (min limit) (
              length-filter-sort_by ranks_before (λ a. ranks_before a mark) eligible
              ∙ length-filter-filter (λ a. ranks_before a mark) p
                  (λ a. above_floor min_relevance mark a h) articles),
      All-take (λ a. p a ≡ true) limit (sort_by ranks_before eligible)
          (All-sort_by ranks_before (λ a. p a ≡ true) eligible (All-filter_self p articles)),
    )

length-top_articles :
    (tools : DigestTools) (min_relevance limit : ℕ) (articles : List Article)
    → length (top_articles tools min_relevance limit articles)
      ≡ min limit (length (filter (λ a. leb min_relevance (relevance_of a)) articles))
unfolding top_articles
length-top_articles tools min_relevance limit articles =
    let eligible = filter (λ a. leb min_relevance (relevance_of a)) articles in
    length-take limit (sort_by ranks_before eligible)
    ∙ ap (min limit) (length-sort_by ranks_before eligible)

items_in-top_section :
    (tools : DigestTools) (items : List DigestItem) → items_in (top_section tools items) ≡ items
unfolding items_in top_section
items_in-top_section tools [] = refl
items_in-top_section tools (i ∷ is) = append-nil (i ∷ is)

-- A relevance digest has as many items as there are articles at the floor of relevance or above it,
-- up to the limit. They are those of a list of articles, all at the floor or above it, in the order
-- of relevance and then of date; for each article above the floor, the list has as many articles
-- that rank no lower than it as there are among all articles, up to the limit.
pub build_relevance_digest-AreTop :
    (tools : DigestTools) (subscriber : Subscriber) (articles : List Article)
    (min_relevance limit now : ℕ)
    → (chosen : List Article) × (items_in
          (build_relevance_digest tools subscriber articles min_relevance limit now).sections
        ≡ map (ranked_item tools) chosen)
      × (total_items (build_relevance_digest tools subscriber articles min_relevance limit now)
          ≡ min limit (length (filter (λ a. leb min_relevance (relevance_of a)) articles)))
      × AreTop min_relevance limit articles chosen
unfolding build_relevance_digest total_items scraper_v_hezzian.Digest.Models.count_items
build_relevance_digest-AreTop tools subscriber articles min_relevance limit now =
    let chosen = top_articles tools min_relevance limit articles in
    (
      chosen,
      items_in-top_section tools (map (ranked_item tools) chosen),
      count_items-eq (top_section tools (map (ranked_item tools) chosen))
          ∙ ap length (items_in-top_section tools (map (ranked_item tools) chosen))
          ∙ length-map (ranked_item tools) chosen
          ∙ length-top_articles tools min_relevance limit articles,
      top_articles-AreTop tools min_relevance limit articles,
    )
