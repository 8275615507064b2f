-- ===== src/Pipeline/Jobs/Sources.antt =====
-- The loop over the sources, step by step.
use scraper_v_hezzian.Pipeline.Jobs.Counts.{ingest_results-append}
use scraper_v_hezzian.Core.Storage.{Library}
use scraper_v_hezzian.Core.Models.{Article, ScrapeResult}
use scraper_v_hezzian.Core.Db.{Database}
use scraper_v_hezzian.Pipeline.Jobs.{Ingested, ingest_results, ingest_sources}
use scraper_v_hezzian.Exceptions.{Exception, Result, ok, err, Result-cases}
use scraper_v_hezzian.Prelude.{
  string_eq, ℕ, Bool, false, List, [], ◌∷◌, ◌++◌, ◌≡◌, true, arith, Bool-cases, refl, sym, ◌∙◌, inl,
  inr, ap,
}

-- The results of the sources that do not raise, in order.
unfoldable pub results_of_sources :
    {A : Type 0} → (A → Result (List ScrapeResult)) → List A → List ScrapeResult
results_of_sources scrape_source [] = []
results_of_sources scrape_source (x ∷ xs) =
    let rest = results_of_sources scrape_source xs in
    elim (scrape_source x) [ err e ↦ rest | ok rs ↦ rs ++ rest ]

module _ (D : Database) (lib : Library) (now : ℕ) {A : Type 0}
    (scrape_source : A → Result (List ScrapeResult)) (is_good : Article → Bool) where
  -- The loop over the sources.
  abbrev ingest_with :
      (Exception → Bool) → List A → Ingested D lib now → Result ℕ × Ingested D lib now
  ingest_with is_caught = ingest_sources D lib now scrape_source is_caught is_good

  -- A source whose exception is caught is left out.
  pub after_caught :
      (is_caught : Exception → Bool) (x : A) (xs : List A) (e : Exception) (s : Ingested D lib now)
      → scrape_source x ≡ err e
      → is_caught e ≡ true
      → ingest_with is_caught (x ∷ xs) s ≡ ingest_with is_caught xs s
  unfolding ingest_sources
  after_caught is_caught x xs e (sink, n) h c = ground arith

  -- Any other exception ends the run.
  pub after_raised :
      (is_caught : Exception → Bool) (x : A) (xs : List A) (e : Exception) (s : Ingested D lib now)
      → scrape_source x ≡ err e
      → is_caught e ≡ false
      → ingest_with is_caught (x ∷ xs) s ≡ (err e, s)
  unfolding ingest_sources
  after_raised is_caught x xs e (sink, n) h c = ground arith

  after_results :
      (is_caught : Exception → Bool) (x : A) (xs : List A) (rs : List ScrapeResult)
      (s : Ingested D lib now)
      → scrape_source x ≡ ok rs
      → ingest_with is_caught (x ∷ xs) s
        ≡ ingest_with is_caught xs (ingest_results D lib now is_good rs s)
  unfolding ingest_sources
  after_results is_caught x xs rs (sink, n) h = ground arith

  results_of_sources-err :
      (x : A) (xs : List A) (e : Exception)
      → scrape_source x ≡ err e
      → results_of_sources scrape_source (x ∷ xs) ≡ results_of_sources scrape_source xs
  unfolding results_of_sources
  results_of_sources-err x xs e h =
      let rest = results_of_sources scrape_source xs in
      ap (λ r. elim r [ err e ↦ rest | ok rs ↦ rs ++ rest ]) h

  results_of_sources-ok :
      (x : A) (xs : List A) (rs : List ScrapeResult)
      → scrape_source x ≡ ok rs
      → results_of_sources scrape_source (x ∷ xs) ≡ rs ++ results_of_sources scrape_source xs
  unfolding results_of_sources
  results_of_sources-ok x xs rs h =
      let rest = results_of_sources scrape_source xs in
      ap (λ r. elim r [ err e ↦ rest | ok rs ↦ rs ++ rest ]) h

  abbrev returned : Ingested D lib now → Result ℕ × Ingested D lib now
  returned s = (ok s.1, s)

  -- Where every exception is caught, the run stores the results of the other sources.
  pub ingest_sources-all :
      (xs : List A) (s : Ingested D lib now)
      → let s' = ingest_results D lib now is_good (results_of_sources scrape_source xs) s in
        ingest_with (λ e. true) xs s ≡ (ok s'.1, s')
  unfolding ingest_sources results_of_sources ingest_results
  ingest_sources-all [] (sink, n) = refl
  ingest_sources-all (x ∷ xs) s = elim (Result-cases (scrape_source x)) [
    | inl (rs, e) ↦
        after_results (λ e. true) x xs rs s e
        ∙ ingest_sources-all xs (ingest_results D lib now is_good rs s)
        ∙ ap returned (
            sym
              (ingest_results-append D lib now is_good rs (results_of_sources scrape_source xs) s))
        ∙ ap (λ all. returned (ingest_results D lib now is_good all s))
            (sym (results_of_sources-ok x xs rs e))
    | inr (e, h) ↦
        after_caught (λ e. true) x xs e s h refl
        ∙ ingest_sources-all xs s
        ∙ ap (λ all. returned (ingest_results D lib now is_good all s))
            (sym (results_of_sources-err x xs e h))
  ]

  -- What comes after the sources with which the run returned.
  pub ingest_sources-append :
      (is_caught : Exception → Bool) (xs ys : List A) (s s' : Ingested D lib now) (n : ℕ)
      → ingest_with is_caught xs s ≡ (ok n, s')
      → ingest_with is_caught (xs ++ ys) s ≡ ingest_with is_caught ys s'
  unfolding ingest_sources
  ingest_sources-append is_caught [] ys (sink, m) s' n h = ap (λ x. ingest_with is_caught ys x.1) h
  ingest_sources-append is_caught (x ∷ xs) ys s s' n h = elim (Result-cases (scrape_source x)) [
    | inl (rs, e) ↦
        after_results is_caught x (xs ++ ys) rs s e
        ∙ ingest_sources-append is_caught xs ys (ingest_results D lib now is_good rs s) s' n
            (sym (after_results is_caught x xs rs s e) ∙ h)
    | inr (e, r) ↦ elim (Bool-cases (is_caught e)) [
      | inl c ↦
          after_caught is_caught x (xs ++ ys) e s r c
          ∙ ingest_sources-append is_caught xs ys s s' n
              (sym (after_caught is_caught x xs e s r c) ∙ h)
      | inr u ↦ absurd (ground (arith, after_raised is_caught x xs e s r u, h))
    ]
  ]
