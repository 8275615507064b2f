-- ===== src/Utils/Validators/Examples.antt =====
-- A short page, in which the parser finds the whole page under any selector.
use scraper_v_hezzian.Prelude.Dict.{Dict}
use Prim.Native.String.{count}
use mathlib.Core.Logic.{◌↔◌}
use scraper_v_hezzian.Prelude.Dict
use scraper_v_hezzian.Prelude.{string_eq, ◌≡◌, ◌≢◌, ◌≤◌, String, some, true, false, [], ◌∷◌, refl}
use scraper_v_hezzian.Utils.Parsers.{Html, Selectors, extract}
use scraper_v_hezzian.Utils.Validators.{response_is_valid, block_signatures}
use scraper_v_hezzian.Utils.Validators.Genuine.{IsClean, response_is_valid-extract}

abbrev html_parser : Html
html_parser = record {
  Tree = String;
  parse = λ s. s;
  css_first = λ tree css. some tree;
  strip = λ s. s;
  lower = λ s. s;
}

abbrev selectors : Selectors
selectors = record { entries = ("content", some "article") ∷ [] }

genuine : response_is_valid html_parser "a page" selectors 6 ≡ true
unfolding response_is_valid scraper_v_hezzian.Utils.Validators.has_signature Dict.get
    scraper_v_hezzian.Utils.Validators.long_enough scraper_v_hezzian.Utils.Parsers.main_text
    scraper_v_hezzian.Utils.Parsers.first_match
genuine = refl

challenge_page : response_is_valid html_parser "just a moment" selectors 6 ≡ false
unfolding response_is_valid scraper_v_hezzian.Utils.Validators.has_signature
challenge_page = refl

response_is_valid-extract_example : (response_is_valid html_parser "a page" selectors 6 ≡ true) ↔ (
    IsClean "a page" block_signatures
    × ((text : String) × (Dict.get (extract html_parser "a page" selectors) "content"
          ≡ some (some text))
        × (text ≢ "")
        × (6 ≤ count text)))
response_is_valid-extract_example = response_is_valid-extract html_parser "a page" selectors 6
