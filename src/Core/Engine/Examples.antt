-- ===== src/Core/Engine/Examples.antt =====
-- A scrape engine whose third failure opens the breaker. The scraper class raises; a URL is its
-- own host; and the sink counts what is written.
use scraper_v_hezzian.Prelude.Dict.{Dict}
use scraper_v_hezzian.Prelude.Dict
use scraper_v_hezzian.Prelude.{
  string_eq, nat_eq, ℕ, ◌≡◌, ◌≢◌, some, true, false, [], ◌∷◌, refl, ◌≤◌, length, ◌+◌, ◌<◌, arith,
  eq_iff, String, sym, ◌∙◌,
}
use scraper_v_hezzian.Exceptions.{Result, ok, err, other_error, challenge_error}
use scraper_v_hezzian.Core.Models.{ScrapeResult, failed, is_success, challenge}
use scraper_v_hezzian.Core.CircuitBreaker.{CircuitBreaker, allow}
use scraper_v_hezzian.Core.CircuitBreaker.Trips.{recent}
use scraper_v_hezzian.Core.Engine.{
  ScrapeEngine, Surroundings, Instants, as_result, breaker_open, domain_of, scrape,
}
use scraper_v_hezzian.Core.Engine.Gate.{scrape_opens, attempt}
use scraper_v_hezzian.Core.Engine.Outcomes.{scrape_unrecorded}

abbrev breaker : CircuitBreaker
breaker = record {
  threshold = 3;
  pause = 50;
  window = 100;
  states = record {
    entries = ("a.com", record { failures = 10 ∷ 20 ∷ []; paused_until = 0 }) ∷ [];
  };
}

abbrev engine : ScrapeEngine ℕ
engine = record {
  circuit_breaker = breaker;
  rate_limiter = record { default_interval = 5; overrides = Dict.empty; next_allowed = Dict.empty };
  proxy_rotator = record { proxies = []; burn_times = Dict.empty; cooldown = 100 };
  sink = 0;
}

-- The engine with the domain paused until 80.
abbrev paused_engine : ScrapeEngine ℕ
paused_engine = record engine {
  circuit_breaker = record breaker {
    states = record {
      entries = ("a.com", record { failures = 10 ∷ 20 ∷ 30 ∷ []; paused_until = 80 }) ∷ [];
    };
  };
}

abbrev raising : Result ScrapeResult → Surroundings ℕ
raising r = record {
  hostname = λ url. some url;
  clock_after = λ now w. now + w;
  registry = Dict.empty;
  public_scraper = 0;
  default_driver = λ cls. "curl_cffi";
  probe = λ i. some 200;
  dispatch = λ cls proxy url. r;
  write = some (λ result n. (ok tt, n + 1));
}

abbrev blocked : Surroundings ℕ
blocked = raising (err (challenge_error "soft block"))

abbrev crashing : Surroundings ℕ
crashing = raising (err (other_error "closed"))

abbrev at : ℕ → Instants
at t = record { allow_at = t; acquire_at = t; proxy_at = t; record_at = t }

is_paused : (allow paused_engine.circuit_breaker (domain_of blocked "a.com") 40).0 ≡ false
unfolding allow Dict.get domain_of
is_paused = refl

is_let_through : (allow engine.circuit_breaker (domain_of blocked "a.com") 30).0 ≡ true
unfolding allow Dict.get domain_of
is_let_through = refl

is_let_through_too : (allow engine.circuit_breaker (domain_of crashing "a.com") 30).0 ≡ true
unfolding allow Dict.get domain_of
is_let_through_too = refl

ends : attempt blocked (at 30) "a.com" engine ≡ ok (failed challenge "curl_cffi" "soft block")
unfolding attempt as_result
ends = refl

raises : attempt crashing (at 30) "a.com" engine ≡ err (other_error "closed")
unfolding attempt as_result
raises = refl

unsuccessful : is_success challenge ≡ false
unfolding is_success
unsuccessful = refl

enough :
    3
    ≤ length (
        recent
          (allow engine.circuit_breaker (domain_of blocked "a.com") 30).1
          (domain_of blocked "a.com")
          30)
unfolding scraper_v_hezzian.Core.CircuitBreaker.state_of Dict.get allow domain_of
enough = omega arith

soon : 40 < 30 + (allow engine.circuit_breaker (domain_of blocked "a.com") 30).1.pause
unfolding allow Dict.get domain_of
soon = omega arith

apart : (s : String) → s ≡ "b.com" → s ≢ "a.com"
apart s e e' = absurd (ground (arith, (eq_iff "a.com" "b.com").1 (sym e' ∙ e)))

elsewhere : domain_of blocked "a.com" ≢ "b.com"
unfolding domain_of
elsewhere e = absurd (apart _ e refl)

scrape_opens_example :
    let eng' = (scrape blocked (at 30) "a.com" engine).1 in
    scrape blocked (at 40) "a.com" eng' ≡ (ok (breaker_open (domain_of blocked "a.com")), eng')
unfolding allow Dict.get domain_of
scrape_opens_example =
    scrape_opens blocked (at 30) (at 40) "a.com" "a.com" engine
      (failed challenge "curl_cffi" "soft block") is_let_through ends unsuccessful enough refl soon

scrape_unrecorded_example :
    let (res, eng') = scrape crashing (at 30) "a.com" engine in
    (res ≡ err (other_error "closed"))
    × ((allow eng'.circuit_breaker "a.com" 40).0 ≡ (allow engine.circuit_breaker "a.com" 40).0)
scrape_unrecorded_example =
    scrape_unrecorded crashing (at 30) "a.com" "a.com" 40 "closed" engine is_let_through_too raises
      (omega arith)
