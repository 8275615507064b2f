-- ===== src/Core/Engine.antt =====
-- scrapeforge/core/engine.py
-- The engine owns its collaborators; a step returns all of them. What a scraper class does with
-- the network is the parameter `dispatch`, `hostname` is that of `urllib.parse.urlsplit`, and the
-- sink is any object with a `write` that may raise.
pub mod Gate
pub mod Outcomes
mod Examples
use Prim.Native.String.{◌++◌ as ◌<>◌}
use scraper_v_hezzian.Prelude.{
  nat_eq, string_eq, ℕ, if◌then◌else◌, ◌==◌, String, true, false, Option, none, some, List, [], ◌∷◌,
}
use scraper_v_hezzian.Exceptions.{
  Action, Result, message, proxy_error, challenge_error, rate_limit_error, other_error, ok, err,
}
use scraper_v_hezzian.Core.Models.{
  ScrapeResult, failed, is_success, challenge, rate_limited, error, proxy_failed,
}
use scraper_v_hezzian.Core.CircuitBreaker.{CircuitBreaker, allow, record_outcome}
use scraper_v_hezzian.Core.RateLimiter.{RateLimiter, acquire}
use scraper_v_hezzian.Core.ProxyRotator.{ProxyRotator, Proxy, get_healthy_proxy}
use scraper_v_hezzian.Core.Registry.{Registry, get_scraper_for}

pub record ScrapeEngine (S : Type 0) : Type 0 where
  pub circuit_breaker : CircuitBreaker
  pub rate_limiter : RateLimiter
  pub proxy_rotator : ProxyRotator
  pub sink : S

-- What the engine relies on from outside.
pub record Surroundings (S : Type 0) : Type 0 where
  pub hostname : String → Option String
  pub clock_after : ℕ → ℕ → ℕ
  pub registry : Registry
  pub public_scraper : ℕ
  pub default_driver : ℕ → String
  pub probe : ℕ → Option ℕ
  pub dispatch : ℕ → Option String → String → Result ScrapeResult
  pub write : Option (ScrapeResult → Action S Unit)

-- The clock readings of one call, in the order in which the collaborators take them.
pub record Instants : Type 0 where
  pub allow_at : ℕ
  pub acquire_at : ℕ
  pub proxy_at : ℕ
  pub record_at : ℕ

-- The `except` clauses: an exception of the library becomes a result, any other goes on.
unfoldable pub as_result : String → Result ScrapeResult → Result ScrapeResult
as_result driver (ok result) = ok result
as_result driver (err (challenge_error s)) = ok (failed challenge driver s)
as_result driver (err (rate_limit_error s)) = ok (failed rate_limited driver s)
as_result driver (err (proxy_error s)) = ok (failed proxy_failed driver s)
as_result driver (err (other_error s)) = err (other_error s)
as_result driver (err e) = ok (failed error driver (message e))

-- The URL of the proxy that was found.
unfoldable pub url_of : Option ℕ → List Proxy → Option String
url_of none ps = none
url_of (some i) [] = none
url_of (some i) ((j, p) ∷ ps) = if j == i then some p.url else url_of (some i) ps

abbrev pub breaker_open : String → ScrapeResult
breaker_open domain = failed error "none" ("circuit breaker open for " <> domain)

module _ {S : Type 0} (env : Surroundings S) where
  unfoldable pub domain_of : String → String
  domain_of url = elim (env.hostname url) [ none ↦ "" | some h ↦ h ]

  unfoldable pub class_for : String → ℕ
  class_for domain = elim (get_scraper_for env.registry domain) [
    | none ↦ env.public_scraper
    | some c ↦ c
  ]

  -- Steps 8 and 9: the outcome goes to the breaker, a success to the sink.
  unfoldable pub conclude : String → ℕ → Result ScrapeResult → Action (ScrapeEngine S) ScrapeResult
  conclude domain now (err e) eng = (err e, eng)
  conclude domain now (ok result) eng =
      let eng' = record eng {
        circuit_breaker = record_outcome eng.circuit_breaker domain (is_success result.status) now;
      } in
      elim env.write [
        | none ↦ (ok result, eng')
        | some w ↦ elim (is_success result.status) [
          | false ↦ (ok result, eng')
          | true ↦
              let (r, s) = w result eng'.sink in
              let eng'' = record eng' { sink = s } in
              elim r [ ok _ ↦ (ok result, eng'') | err e ↦ (err e, eng'') ]
        ]
      ]

  -- Steps 3 to 9, once the breaker has let the domain pass.
  unfoldable pub go_ahead : Instants → String → String → Action (ScrapeEngine S) ScrapeResult
  unfolding class_for
  go_ahead at url domain eng =
      let (_, limiter) = acquire env.clock_after eng.rate_limiter domain at.acquire_at in
      let cls = class_for domain in
      let (found, rotator) = get_healthy_proxy env.probe none true at.proxy_at eng.proxy_rotator in
      let eng' = record eng { rate_limiter = limiter; proxy_rotator = rotator } in
      let outcome =
        as_result (env.default_driver cls) (env.dispatch cls (url_of found rotator.proxies) url) in
      conclude domain at.record_at outcome eng'

  unfoldable pub scrape : Instants → String → Action (ScrapeEngine S) ScrapeResult
  unfolding domain_of
  scrape at url eng =
      let (allowed, breaker) = allow eng.circuit_breaker (domain_of url) at.allow_at in
      let eng' = record eng { circuit_breaker = breaker } in
      let ahead = go_ahead at url (domain_of url) eng' in
      if allowed then ahead else (ok (breaker_open (domain_of url)), eng')
