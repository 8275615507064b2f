-- ===== src/Utils/Validators.antt =====
-- scrapeforge/utils/validators.py
pub mod Genuine
mod Examples
use scraper_v_hezzian.Prelude.Dict.{Dict}
use Prim.Native.String.{count}
use text.Mathlib.Text.{find?}
use scraper_v_hezzian.Prelude.Dict
use scraper_v_hezzian.Prelude.{
  string_eq, ℕ, leb, if◌then◌else◌, ◌==◌, String, Bool, true, false, none, some, List, [], ◌∷◌,
}
use scraper_v_hezzian.Utils.Parsers.{Html, main_text, Selectors}

-- `_BLOCK_SIGNATURES`
abbrev pub block_signatures : List String
block_signatures =
    "just a moment" ∷ "request unsuccessful. incapsula incident"
    ∷ "attention required! | cloudflare" ∷ "cf-browser-verification" ∷ "_cf_chl_opt" ∷ "imperva"
    ∷ "incapsula" ∷ "checking your browser" ∷ []

-- `sig in text`
abbrev pub in_text : String → String → Bool
in_text signature text = elim (find? text signature) [ none ↦ false | some _ ↦ true ]

unfoldable pub has_signature : List String → String → Bool
has_signature [] text = false
has_signature (s ∷ ss) text =
    let rest = has_signature ss text in if in_text s text then true else rest

-- The content is there, and it has the least length.
unfoldable pub long_enough : ℕ → String → Bool
long_enough min_content_len text = if text == "" then false else leb min_content_len (count text)

module _ (H : Html) where
  unfoldable pub response_is_valid : String → Selectors → ℕ → Bool
  response_is_valid html selectors min_content_len =
      if has_signature block_signatures (H.lower html)
      then false
      else elim (Dict.get selectors "content") [
        | none ↦ false
        | some css ↦ elim css [
          | none ↦ false
          | some content_css ↦
              let text = main_text H html (some content_css) in long_enough min_content_len text
        ]
      ]
