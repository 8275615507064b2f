-- ===== src/Utils/Validators/Genuine.antt =====
-- What a page that passes has, as the extraction of its fields will find it.
use scraper_v_hezzian.Prelude.Dict.{Dict}
use Prim.Native.String.{count}
use mathlib.Core.Logic.{◌↔◌}
use scraper_v_hezzian.Utils.Validators.{
  long_enough, block_signatures, in_text, has_signature, response_is_valid,
}
use text.Mathlib.TextEquality.{eq_iff}
use scraper_v_hezzian.Prelude.Dict
use scraper_v_hezzian.Prelude.{
  string_eq, ℕ, ◌≡◌, ◌≤◌, String, some, true, false, All, ◌≢◌, List, [], ◌∷◌, arith, Option-cases,
  inl, inr, or_empty, refl, ap, ◌∙◌, none,
}
use scraper_v_hezzian.Utils.Parsers.{Html, Selectors, main_text, extract, get-extract, first_match}
use scraper_v_hezzian.Utils.Validators.{
  response_is_valid, block_signatures, has_signature, in_text, long_enough,
}

abbrev pub IsClean : String → List String → Type 0
IsClean text = All (λ s. in_text s text ≡ false)

has_signature-IsClean :
    (ss : List String) (text : String) → (has_signature ss text ≡ false) ↔ IsClean text ss
unfolding has_signature
has_signature-IsClean [] text = ground arith
has_signature-IsClean (s ∷ ss) text = ground (arith, has_signature-IsClean ss text)

long_enough_iff :
    (n : ℕ) (text : String) → (long_enough n text ≡ true) ↔ ((text ≢ "") × (n ≤ count text))
unfolding long_enough
long_enough_iff n text = ground (arith, eq_iff text "")

long_enough-empty : (n : ℕ) → long_enough n "" ≡ false
unfolding long_enough
long_enough-empty n = refl

module _ (H : Html) where
  unsigned :
      (html : String) (selectors : Selectors) (n : ℕ)
      → response_is_valid H html selectors n ≡ true
      → has_signature block_signatures (H.lower html) ≡ false
  unfolding response_is_valid
  unsigned html selectors n h = ground arith

  main_text-eq :
      (html c : String)
      → main_text H html (some c) ≡ or_empty (first_match H (H.parse html) (some c))
  unfolding main_text
  main_text-eq html c = refl

  first_match-none : (tree : H.Tree) → first_match H tree none ≡ none
  unfolding first_match
  first_match-none tree = refl

  found :
      (html : String) (selectors : Selectors) (n : ℕ)
      → response_is_valid H html selectors n ≡ true
      → (text : String) × (Dict.get (extract H html selectors) "content" ≡ some (some text))
        × (text ≢ "")
        × (n ≤ count text)
  unfolding response_is_valid main_text
  found html selectors n h = elim (Option-cases (Dict.get selectors "content")) [
    | inl e ↦ absurd (ground arith)
    | inr (css, e) ↦ elim (Option-cases css) [
      | inl e' ↦ absurd (ground arith)
      | inr (c, e') ↦ elim (Option-cases (first_match H (H.parse html) (some c))) [
        | inl m ↦ absurd (ground (arith, main_text-eq html c ∙ ap or_empty m, long_enough-empty n))
        | inr (text, m) ↦
            let eq = main_text-eq html c ∙ ap or_empty m in
            (
              text,
              ground (arith, get-extract H html selectors "content"),
              ground (arith, eq, long_enough_iff n text),
              ground (arith, eq, long_enough_iff n text),
            )
      ]
    ]
  ]

  passes :
      (html : String) (selectors : Selectors) (n : ℕ)
      → has_signature block_signatures (H.lower html) ≡ false
      → (text : String) → Dict.get (extract H html selectors) "content" ≡ some (some text)
      → text ≢ ""
      → n ≤ count text
      → response_is_valid H html selectors n ≡ true
  unfolding response_is_valid
  passes html selectors n clean text e ne le = elim (Option-cases (Dict.get selectors "content")) [
    | inl m ↦ absurd (ground (arith, get-extract H html selectors "content"))
    | inr (css, m) ↦ elim (Option-cases css) [
      | inl m' ↦ absurd (
          ground (
            arith,
            get-extract H html selectors "content",
            ap (first_match H (H.parse html)) m' ∙ first_match-none (H.parse html),
          ))
      | inr (c, m') ↦ ground (
        arith,
        get-extract H html selectors "content",
        main_text-eq html c,
        long_enough_iff n text,
      )
    ]
  ]

  -- A page passes exactly when no challenge signature stands in its lower-cased text and the
  -- extraction finds, under the field `content`, a non-empty text of the least length or more.
  pub response_is_valid-extract :
      (html : String) (selectors : Selectors) (n : ℕ)
      → (response_is_valid H html selectors n ≡ true) ↔ (
          IsClean (H.lower html) block_signatures
          × ((text : String) × (Dict.get (extract H html selectors) "content" ≡ some (some text))
              × (text ≢ "")
              × (n ≤ count text)))
  response_is_valid-extract html selectors n = (
    λ h. (
      (has_signature-IsClean block_signatures (H.lower html)).0 (unsigned html selectors n h),
      found html selectors n h,
    ),
    λ (clean, (text, e, ne, le)).
        passes html selectors n ((has_signature-IsClean block_signatures (H.lower html)).1 clean)
          text e ne le,
  )
