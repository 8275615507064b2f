-- ===== src/Core/Registry.antt =====
-- scrapeforge/core/registry.py
-- A scraper class is known by its identity, a number. Importing the scraper modules
-- (`discover_scrapers`) is a run of `register_scraper` calls.
mod Labels
pub use Labels.{join-split, split-cons, HasNoDot, split-append}
unfoldable pub use Labels.{split, join}
pub mod Suffix
pub mod Bindings
mod Examples
use scraper_v_hezzian.Prelude.Dict
use scraper_v_hezzian.Prelude.{
  nat_eq, string_eq, ℕ, if◌then◌else◌, ◌==◌, String, Option, none, some, List, [], ◌∷◌,
}
use scraper_v_hezzian.Prelude.Dict.{Dict}
use scraper_v_hezzian.Exceptions.{Action, other_error, ok, err}

abbrev pub Registry : Type 0
Registry = Dict String ℕ

-- The decorator of `register_scraper(*domains)`, applied to the class `cls`. A `ValueError`
-- leaves the domains that stand before the duplicate bound.
unfoldable pub register_scraper : List String → ℕ → Action Registry Unit
register_scraper [] cls reg = (ok tt, reg)
register_scraper (domain ∷ domains) cls reg =
    let bound = register_scraper domains cls (Dict.put reg domain cls) in
    elim (Dict.get reg domain) [
      | none ↦ bound
      | some existing ↦
          if existing == cls
          then bound
          else (err (other_error "duplicate scraper registration"), reg)
    ]

-- The loop over `".".join(parts[i:])`, from the second label on.
unfoldable pub suffix_match : Registry → List String → Option ℕ
suffix_match reg [] = none
suffix_match reg (_ ∷ []) = none
suffix_match reg (_ ∷ l ∷ ls) =
    let shorter = suffix_match reg (l ∷ ls) in
    elim (Dict.get reg (join (l ∷ ls))) [ none ↦ shorter | some cls ↦ some cls ]

unfoldable pub get_scraper_for : Registry → String → Option ℕ
unfolding suffix_match
get_scraper_for reg domain = elim (Dict.get reg domain) [
  | none ↦ suffix_match reg (split domain)
  | some cls ↦ some cls
]
