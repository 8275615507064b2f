-- ===== src/Core/Engine/Outcomes.antt =====
-- What a scrape does to other domains, to the sink, and what it does not record.
use scraper_v_hezzian.Core.Engine.Gate.{
  scrape_paused, scrape-ahead, breaker-scrape, go_ahead-err, attempt, noted,
}
use scraper_v_hezzian.Core.CircuitBreaker.Trips.{record_outcome_ne, allow-allow}
use scraper_v_hezzian.Prelude.{
  nat_eq, string_eq, ℕ, Bool-cases, ◌≤◌, String, ◌≡◌, refl, ap, ◌∙◌, ◌≢◌, inl, inr, true, Option,
  none, some,
}
use scraper_v_hezzian.Exceptions.{
  Result, message, Exception, scrape_forge_error, driver_error, auth_error, proxy_error,
  challenge_error, rate_limit_error, fingerprint_error, queue_error, other_error, ok, err,
}
use scraper_v_hezzian.Core.Models.{
  ScrapeResult, is_success, failed, Status, challenge, rate_limited, error, proxy_failed,
}
use scraper_v_hezzian.Core.CircuitBreaker.{CircuitBreaker, allow}
use scraper_v_hezzian.Core.Engine.{
  ScrapeEngine, Surroundings, Instants, as_result, domain_of, scrape,
}

-- The statuses that the `except` clauses give.
abbrev pub status_for : Exception → Option Status
status_for (challenge_error _) = some challenge
status_for (rate_limit_error _) = some rate_limited
status_for (proxy_error _) = some proxy_failed
status_for (other_error _) = none
status_for _ = some error

-- An exception of the library becomes a result with its status and its message, and no article;
-- any other exception goes on.
pub as_result-err :
    (driver : String) (e : Exception)
    → as_result driver (err e)
      ≡ elim (status_for e) [ none ↦ err e | some s ↦ ok (failed s driver (message e)) ]
unfolding as_result message
as_result-err driver (challenge_error s) = refl
as_result-err driver (rate_limit_error s) = refl
as_result-err driver (proxy_error s) = refl
as_result-err driver (other_error s) = refl
as_result-err driver (scrape_forge_error s) = refl
as_result-err driver (driver_error s) = refl
as_result-err driver (auth_error s) = refl
as_result-err driver (fingerprint_error s) = refl
as_result-err driver (queue_error s) = refl

module _ {S : Type 0} (env : Surroundings S) where
  noted_ne :
      (cb : CircuitBreaker) (domain other : String) (now t : ℕ) (r : Result ScrapeResult)
      → domain ≢ other
      → (allow (noted env cb domain now r) other t).0 ≡ (allow cb other t).0
  noted_ne cb domain other now t (ok result) ne =
      (record_outcome_ne cb domain other (is_success result.status) now t ne).1
  noted_ne cb domain other now t (err e) ne = refl

  -- A scrape, however it ends, does not change the breaker's answer for any other domain, at the
  -- time of the scrape's own question to the breaker or later.
  pub scrape_others :
      (at : Instants) (url other : String) (t : ℕ) (eng : ScrapeEngine S)
      → domain_of env url ≢ other
      → at.allow_at ≤ t
      → (allow (scrape env at url eng).1.circuit_breaker other t).0
        ≡ (allow eng.circuit_breaker other t).0
  scrape_others at url other t eng ne le =
      let domain = domain_of env url in
      let cb = eng.circuit_breaker in
      elim (Bool-cases (allow cb domain at.allow_at).0) [
        | inl through ↦
            ap (λ c. (allow c other t).0) (breaker-scrape env at url eng through)
            ∙ noted_ne (allow cb domain at.allow_at).1 domain other at.record_at t
                (attempt env at url eng) ne
            ∙ allow-allow cb domain other at.allow_at t le
        | inr paused ↦
            ap (λ x. (allow x.1.circuit_breaker other t).0) (scrape_paused env at url eng paused)
      ]

  -- When a scrape is let through, and the scraper class raises an exception that is not of the
  -- library, the engine raises it too, and the attempt leaves no trace in the breaker, whose
  -- answers are those from before.
  pub scrape_unrecorded :
      (at : Instants) (url domain : String) (t : ℕ) (s : String) (eng : ScrapeEngine S)
      → (allow eng.circuit_breaker (domain_of env url) at.allow_at).0 ≡ true
      → attempt env at url eng ≡ err (other_error s)
      → at.allow_at ≤ t
      → let (res, eng') = scrape env at url eng in
        (res ≡ err (other_error s))
        × ((allow eng'.circuit_breaker domain t).0 ≡ (allow eng.circuit_breaker domain t).0)
  scrape_unrecorded at url domain t s eng through raised le = (
    ap (λ x. x.0) (scrape-ahead env at url eng through)
        ∙ go_ahead-err env at url eng (allow eng.circuit_breaker (domain_of env url) at.allow_at).1
            (other_error s) raised,
    ap (λ c. (allow c domain t).0)
          (breaker-scrape env at url eng through
            ∙ ap (noted env _ (domain_of env url) at.record_at) raised)
        ∙ allow-allow eng.circuit_breaker (domain_of env url) domain at.allow_at t le,
  )
