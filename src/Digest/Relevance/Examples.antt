-- ===== src/Digest/Relevance/Examples.antt =====
-- Four articles, of which two are shown.
use scraper_v_hezzian.Digest.Relevance.Ranked.{AreTop, build_relevance_digest-AreTop}
use scraper_v_hezzian.Digest.Relevance.{ranked_item, build_relevance_digest, relevance_of}
use scraper_v_hezzian.Core.Models.{Article}
use scraper_v_hezzian.Prelude.{String, List, [], ◌∷◌, ◌≡◌, refl, map, leb, length, filter, min}
use scraper_v_hezzian.Digest.Models.{DigestItem, items_in, total_items}
use scraper_v_hezzian.Digest.Samples.{tools, articles, subscriber}

abbrev urls : List DigestItem → List String
urls [] = []
urls (i ∷ is) = i.url ∷ urls is

-- Of two articles with one relevance, the later one is shown.
shown :
    urls (items_in (build_relevance_digest tools subscriber articles 5 2 0).sections)
    ≡ "u" ∷ "x" ∷ []
unfolding items_in build_relevance_digest scraper_v_hezzian.Prelude.Sorting.sort_by
shown = refl

build_relevance_digest-AreTop_example :
    (chosen : List Article) × (items_in
        (build_relevance_digest tools subscriber articles 5 2 0).sections
      ≡ map (ranked_item tools) chosen)
    × (total_items (build_relevance_digest tools subscriber articles 5 2 0)
        ≡ min 2 (length (filter (λ a. leb 5 (relevance_of a)) articles)))
    × AreTop 5 2 articles chosen
build_relevance_digest-AreTop_example =
    build_relevance_digest-AreTop tools subscriber articles 5 2 0
