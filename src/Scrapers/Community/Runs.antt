-- ===== src/Scrapers/Community/Runs.antt =====
-- The runs of the loops over pages: on fuel, with a list of results or an exception at the end.
use scraper_v_hezzian.Prelude.{
  ℕ, ◌≤◌, Option, none, some, List, [], length, take, All, All-take, length-take, ◌≡◌, ap, subst,
  arith,
}
use scraper_v_hezzian.Exceptions.{Result, ok, err}
use scraper_v_hezzian.Core.Models.{ScrapeResult}

abbrev pub Run : Type 0 → Type 0
Run W = Option (Result (List ScrapeResult) × W)

-- The run is done, and returned this.
abbrev pub Returned : {W : Type 0} → Run W → List ScrapeResult → W → Type 0
Returned run rs w = run ≡ some (ok rs, w)

-- No more results than the limit, each of them of this kind.
abbrev pub AreLimited : (ScrapeResult → Type 0) → ℕ → List ScrapeResult → Type 0
AreLimited P limit rs = (length rs ≤ limit) × All P rs

results_of : {W : Type 0} → Run W → List ScrapeResult
results_of none = []
results_of (some (err e, w)) = []
results_of (some (ok rs, w)) = rs

pub Returned-inj :
    {W : Type 0} (xs rs : List ScrapeResult) (w w' : W) → Returned (some (ok xs, w)) rs w' → xs ≡ rs
unfolding results_of
Returned-inj xs rs w w' e = ap results_of e

pub take-AreLimited :
    {W : Type 0} (P : ScrapeResult → Type 0) (limit : ℕ) (xs rs : List ScrapeResult) (w w' : W)
    → All P xs
    → Returned (some (ok (take limit xs), w)) rs w'
    → AreLimited P limit rs
take-AreLimited P limit xs rs w w' h e =
    subst (AreLimited P limit) (Returned-inj (take limit xs) rs w w' e)
      (ground (arith, length-take limit xs), All-take P limit xs h)
