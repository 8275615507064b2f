-- ===== src/Core/Registry/Examples.antt =====
-- A registry with one class for reddit.com.
use scraper_v_hezzian.Prelude.Dict.{Dict}
use Prim.Native.String.{◌++◌ as ◌<>◌}
use scraper_v_hezzian.Prelude.Dict
use scraper_v_hezzian.Prelude.{nat_eq, string_eq, ◌≡◌, some, none, [], ◌∷◌, refl}
use scraper_v_hezzian.Core.Registry.{Registry, get_scraper_for, split}
use scraper_v_hezzian.Core.Registry.Suffix.{longest_bound, get_scraper_for-eq}

abbrev one_class : Registry
one_class = record { entries = ("reddit.com", 7) ∷ [] }

unbound : Dict.get one_class ("old" <> ("." <> "reddit.com")) ≡ none
unfolding Dict.get
unbound = refl

there : Dict.get one_class "reddit.com" ≡ some 7
unfolding Dict.get
there = refl

get_scraper_for-eq_example :
    get_scraper_for one_class "old.reddit.com" ≡ longest_bound one_class (split "old.reddit.com")
get_scraper_for-eq_example = get_scraper_for-eq one_class "old.reddit.com"
