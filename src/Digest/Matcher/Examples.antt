-- ===== src/Digest/Matcher/Examples.antt =====
-- Four articles for one subscriber.
use scraper_v_hezzian.Digest.Matcher.{is_as_recent, build_digest}
use scraper_v_hezzian.Prelude.{String, List, [], ◌∷◌, ◌≡◌, refl}
use scraper_v_hezzian.Digest.Models.{DigestItem, items_in}
use scraper_v_hezzian.Digest.Samples.{tools, articles, subscriber}

abbrev urls : List DigestItem → List String
urls [] = []
urls (i ∷ is) = i.url ∷ urls is

-- A term is a whole word: the first article matches nothing.
placed_once : urls (items_in (build_digest tools subscriber articles 0).sections) ≡ "v" ∷ "x" ∷ []
unfolding items_in build_digest scraper_v_hezzian.Prelude.Sorting.sort_by is_as_recent
    scraper_v_hezzian.Prelude.Text.strip
placed_once = refl
