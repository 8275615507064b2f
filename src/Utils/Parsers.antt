-- ===== src/Utils/Parsers.antt =====
-- scrapeforge/utils/parsers.py
-- The HTML parser and Unicode's tables are the parameter `Html`: `css_first` gives the text of the
-- first node that a selector matches.
use Prim.Native.Char.{Char}
use Prim.Native.String.{[] as nil, ◌∷◌ as cons}
use scraper_v_hezzian.Prelude.Dict
use scraper_v_hezzian.Prelude.Dict.{Dict}
use scraper_v_hezzian.Prelude.{
  string_eq, if◌then◌else◌, ◌==◌, or_empty, String, Option, none, some, List, [], ◌∷◌, ◌≡◌, refl,
  arith,
}

pub record Html : Type 1 where
  pub Tree : Type 0
  pub parse : String → Tree
  pub css_first : Tree → String → Option String
  pub strip : String → String
  pub lower : String → String

abbrev pub Selectors : Type 0
Selectors = Dict String (Option String)

-- One character in front of the first part.
prepend : Char → List String → List String
prepend c [] = (cons c nil) ∷ []
prepend c (l ∷ ls) = cons c l ∷ ls

-- `css.split(",")`
commas : String → List String
unfolding prepend
commas nil = "" ∷ []
commas (cons c s) = let rest = commas s in if cons c nil == "," then "" ∷ rest else prepend c rest

module _ (H : Html) where
  -- `[s.strip() for s in … if s.strip()]`
  stripped : List String → List String
  stripped [] = []
  stripped (s ∷ ss) = let rest = stripped ss in if H.strip s == "" then rest else H.strip s ∷ rest

  -- The loop over the candidates: the first node that is found decides.
  first_node : H.Tree → List String → Option String
  first_node tree [] = none
  first_node tree (s ∷ ss) =
      let rest = first_node tree ss in
      elim (H.css_first tree s) [
        | none ↦ rest
        | some text ↦ if text == "" then none else some (H.strip text)
      ]

  -- `_first_match`
  unfoldable pub first_match : H.Tree → Option String → Option String
  unfolding first_node stripped commas
  first_match tree none = none
  first_match tree (some css) = first_node tree (stripped (commas css))

  extract_fields : H.Tree → List (String × Option String) → List (String × Option String)
  extract_fields tree [] = []
  extract_fields tree ((field, css) ∷ rest) =
      (field, first_match tree css) ∷ extract_fields tree rest

  -- The keys are those of the selectors, each once, so the result has them in the same order.
  unfoldable pub extract : String → Selectors → Selectors
  unfolding extract_fields
  extract html selectors = record { entries = extract_fields (H.parse html) selectors.entries }

  unfoldable pub main_text : String → Option String → String
  main_text html none = ""
  main_text html (some css) = or_empty (first_match (H.parse html) (some css))

  get-extract_fields :
      (tree : H.Tree) (m : List (String × Option String)) (field : String)
      → Dict.get (record { entries = extract_fields tree m }) field
        ≡ elim (Dict.get (record { entries = m }) field) [
          | none ↦ none
          | some css ↦ some (first_match tree css)
        ]
  unfolding extract_fields Dict.get Dict.lookup
  get-extract_fields tree [] field = refl
  get-extract_fields tree ((f, css) ∷ m) field = ground (arith, get-extract_fields tree m field)

  pub get-extract :
      (html : String) (selectors : Selectors) (field : String)
      → Dict.get (extract html selectors) field ≡ elim (Dict.get selectors field) [
        | none ↦ none
        | some css ↦ some (first_match (H.parse html) css)
      ]
  unfolding extract
  get-extract html selectors field = get-extract_fields (H.parse html) selectors.entries field
