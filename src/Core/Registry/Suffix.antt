-- ===== src/Core/Registry/Suffix.antt =====
-- Which class a domain resolves to.
use Prim.Native.String.{◌++◌ as ◌<>◌}
use scraper_v_hezzian.Prelude.Dict.{Dict}
use scraper_v_hezzian.Prelude.{
  nat_eq, string_eq, ℕ, String, ◌≡◌, refl, Option, none, some, List, [], ◌∷◌, arith, sym, ap, ◌∙◌,
}
use scraper_v_hezzian.Prelude.Dict
use scraper_v_hezzian.Core.Registry.{
  Registry, suffix_match, get_scraper_for, split, join, join-split, split-cons, HasNoDot,
  split-append,
}

-- The class bound to the longest of the names that are left when some first labels, or none,
-- are taken off.
pub longest_bound : Registry → List String → Option ℕ
longest_bound reg [] = none
longest_bound reg (l ∷ ls) =
    let shorter = longest_bound reg ls in
    elim (Dict.get reg (join (l ∷ ls))) [ none ↦ shorter | some cls ↦ some cls ]

longest_bound-skip :
    (reg : Registry) (l : String) (ls : List String)
    → Dict.get reg (join (l ∷ ls)) ≡ none
    → longest_bound reg (l ∷ ls) ≡ longest_bound reg ls
unfolding longest_bound
longest_bound-skip reg l ls h = ground arith

suffix_match-eq :
    (reg : Registry) (l : String) (ls : List String)
    → suffix_match reg (l ∷ ls) ≡ longest_bound reg ls
unfolding suffix_match longest_bound
suffix_match-eq reg l [] = refl
suffix_match-eq reg l (k ∷ ls) = ground (arith, suffix_match-eq reg k ls)

-- A domain resolves to the class of its longest registered suffix of whole labels, itself
-- included, and to nothing only if there is none.
pub get_scraper_for-eq :
    (reg : Registry) (domain : String)
    → get_scraper_for reg domain ≡ longest_bound reg (split domain)
unfolding get_scraper_for longest_bound
get_scraper_for-eq reg domain =
    let (l, ls, e) = split-cons domain in
    ground (arith, e, join-split domain, suffix_match-eq reg l ls)

-- A subdomain of one more label that is not registered itself resolves as its parent domain does.
pub get_scraper_for-subdomain :
    (reg : Registry) (label domain : String)
    → HasNoDot label
    → Dict.get reg (label <> ("." <> domain)) ≡ none
    → get_scraper_for reg (label <> ("." <> domain)) ≡ get_scraper_for reg domain
get_scraper_for-subdomain reg label domain plain unbound =
    let whole = label <> ("." <> domain) in
    let parts = split-append label domain plain in
    let joined = sym (ap join parts) ∙ join-split whole in
    get_scraper_for-eq reg whole
    ∙ ap (longest_bound reg) parts
    ∙ longest_bound-skip reg label (split domain) (ap (Dict.get reg) joined ∙ unbound)
    ∙ sym (get_scraper_for-eq reg domain)
