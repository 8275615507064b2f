-- ===== src/Core/Engine/Gate.antt =====
-- The breaker and the engine together: what a paused domain gets, and when a domain is paused.
use scraper_v_hezzian.Core.CircuitBreaker.Trips.{allow-record_failure, recent}
use scraper_v_hezzian.Core.ProxyRotator.{get_healthy_proxy}
use scraper_v_hezzian.Prelude.{
  nat_eq, string_eq, ℕ, String, ◌≡◌, refl, true, false, none, arith, length, ◌+◌, ◌≤◌, ◌<◌, ap, ap₂,
  ◌∙◌,
}
use scraper_v_hezzian.Exceptions.{Result, ok, err, Exception}
use scraper_v_hezzian.Core.Models.{ScrapeResult, is_success}
use scraper_v_hezzian.Core.CircuitBreaker.{CircuitBreaker, allow, record_outcome}
use scraper_v_hezzian.Core.Engine.{
  ScrapeEngine, Surroundings, Instants, as_result, url_of, breaker_open, domain_of, class_for,
  conclude, go_ahead, scrape,
}

allow-false :
    (cb : CircuitBreaker) (domain : String) (now : ℕ)
    → (allow cb domain now).0 ≡ false
    → allow cb domain now ≡ (false, cb)
unfolding allow
allow-false cb domain now h = ground arith

module _ {S : Type 0} (env : Surroundings S) where
  -- While a domain is paused, a scrape of it answers with the breaker's error, and neither the
  -- limiter, nor a proxy, nor the sink, nor the breaker changes.
  pub scrape_paused :
      (at : Instants) (url : String) (eng : ScrapeEngine S)
      → (allow eng.circuit_breaker (domain_of env url) at.allow_at).0 ≡ false
      → scrape env at url eng ≡ (ok (breaker_open (domain_of env url)), eng)
  unfolding scrape
  scrape_paused at url eng h =
      rw (allow-false eng.circuit_breaker (domain_of env url) at.allow_at h, scrape) refl

  -- What the scraper class makes of the URL, once the exceptions are results.
  unfoldable pub attempt : Instants → String → ScrapeEngine S → Result ScrapeResult
  attempt at url eng =
      let domain = domain_of env url in
      let (found, rotator) = get_healthy_proxy env.probe none true at.proxy_at eng.proxy_rotator in
      as_result (env.default_driver (class_for env domain))
        (env.dispatch (class_for env domain) (url_of found rotator.proxies) url)

  conclude-breaker :
      (domain : String) (now : ℕ) (result : ScrapeResult) (eng : ScrapeEngine S)
      → (conclude env domain now (ok result) eng).1.circuit_breaker
        ≡ record_outcome eng.circuit_breaker domain (is_success result.status) now
  unfolding conclude
  conclude-breaker domain now result eng = ground arith

  pub scrape-ahead :
      (at : Instants) (url : String) (eng : ScrapeEngine S)
      → (allow eng.circuit_breaker (domain_of env url) at.allow_at).0 ≡ true
      → scrape env at url eng
        ≡ go_ahead env at url (domain_of env url) (record eng {
          circuit_breaker = (allow eng.circuit_breaker (domain_of env url) at.allow_at).1;
        })
  unfolding scrape
  scrape-ahead at url eng h = rw (h, scrape)

  -- The breaker after an attempt that ended so.
  abbrev pub noted : CircuitBreaker → String → ℕ → Result ScrapeResult → CircuitBreaker
  noted cb domain now (ok result) = record_outcome cb domain (is_success result.status) now
  noted cb domain now (err e) = cb

  conclude-noted :
      (domain : String) (now : ℕ) (r : Result ScrapeResult) (eng : ScrapeEngine S)
      → (conclude env domain now r eng).1.circuit_breaker ≡ noted eng.circuit_breaker domain now r
  conclude-noted domain now (ok result) eng = conclude-breaker domain now result eng
  conclude-noted domain now (err e) eng = unfold conclude in refl

  conclude-err :
      (domain : String) (now : ℕ) (r : Result ScrapeResult) (e : Exception) (eng : ScrapeEngine S)
      → r ≡ err e
      → (conclude env domain now r eng).0 ≡ err e
  unfolding conclude
  conclude-err domain now r e eng h = rw h

  breaker-go_ahead :
      (at : Instants) (url : String) (eng : ScrapeEngine S) (cb : CircuitBreaker)
      → (go_ahead env at url
          (domain_of env url)
          (record eng { circuit_breaker = cb })).1.circuit_breaker
        ≡ noted cb (domain_of env url) at.record_at (attempt at url eng)
  unfolding attempt go_ahead
  breaker-go_ahead at url eng cb = conclude-noted (domain_of env url) at.record_at _ _

  pub breaker-scrape :
      (at : Instants) (url : String) (eng : ScrapeEngine S)
      → (allow eng.circuit_breaker (domain_of env url) at.allow_at).0 ≡ true
      → (scrape env at url eng).1.circuit_breaker
        ≡ noted
            (allow eng.circuit_breaker (domain_of env url) at.allow_at).1
            (domain_of env url)
            at.record_at
            (attempt at url eng)
  breaker-scrape at url eng h =
      ap (λ x. x.1.circuit_breaker) (scrape-ahead at url eng h)
      ∙ breaker-go_ahead at url eng (allow eng.circuit_breaker (domain_of env url) at.allow_at).1

  -- A scrape that is let through, ends with anything but a success, and makes the recent failures
  -- of its domain reach the threshold, opens the breaker: a scrape of the domain before the pause
  -- is over is answered with the breaker's error, and changes nothing.
  pub scrape_opens :
      (at at' : Instants) (url url' : String) (eng : ScrapeEngine S) (result : ScrapeResult)
      → let domain = domain_of env url in
        let cb = (allow eng.circuit_breaker domain at.allow_at).1 in
        let eng' = (scrape env at url eng).1 in
        (allow eng.circuit_breaker domain at.allow_at).0 ≡ true
        → attempt at url eng ≡ ok result
        → is_success result.status ≡ false
        → cb.threshold ≤ length (recent cb domain at.record_at)
        → domain_of env url' ≡ domain
        → at'.allow_at < at.record_at + cb.pause
        → scrape env at' url' eng' ≡ (ok (breaker_open domain), eng')
  scrape_opens at at' url url' eng result let_through ended unsuccessful many same soon =
      let domain = domain_of env url in
      let cb = (allow eng.circuit_breaker domain at.allow_at).1 in
      let eng' = (scrape env at url eng).1 in
      let cb' : eng'.circuit_breaker ≡ record_outcome cb domain false at.record_at =
        breaker-scrape at url eng let_through
        ∙ ap (noted cb domain at.record_at) ended
        ∙ ap (λ b. record_outcome cb domain b at.record_at) unsuccessful in
      let closed : (allow (record_outcome cb domain false at.record_at) domain at'.allow_at).0
          ≡ false =
        allow-record_failure cb domain at.record_at at'.allow_at (omega arith) ∙ ground arith in
      scrape_paused at' url' eng' (ap₂ (λ c d. (allow c d at'.allow_at).0) cb' same ∙ closed)
      ∙ ap (λ d. (ok (breaker_open d), eng')) same

  -- A scrape that is let through ends as its attempt ends, up to a failing sink.
  pub go_ahead-err :
      (at : Instants) (url : String) (eng : ScrapeEngine S) (cb : CircuitBreaker) (e : Exception)
      → attempt at url eng ≡ err e
      → (go_ahead env at url (domain_of env url) (record eng { circuit_breaker = cb })).0 ≡ err e
  unfolding attempt go_ahead
  go_ahead-err at url eng cb e h = conclude-err (domain_of env url) at.record_at _ e _ h
