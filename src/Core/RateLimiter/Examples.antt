-- ===== src/Core/RateLimiter/Examples.antt =====
-- Calls of the rate limiter, on a clock that wakes a sleeper on time.
use scraper_v_hezzian.Prelude.Dict.{Dict}
use scraper_v_hezzian.Prelude.Dict
use scraper_v_hezzian.Prelude.{string_eq, ◌≤◌, ◌+◌, [], ◌∷◌, arith}
use scraper_v_hezzian.Core.RateLimiter.{RateLimiter, acquire, interval}
use scraper_v_hezzian.Core.RateLimiter.Spacing.{acquire_all, acquire_spaced}

abbrev limiter : RateLimiter
limiter = record {
  default_interval = 5;
  overrides = record { entries = ("slow.com", 20) ∷ [] };
  next_allowed = Dict.empty;
}

acquire_spaced_example :
    (acquire (λ now w. now + w) limiter "slow.com" 100).0 + interval limiter "slow.com"
    ≤ (acquire
        (λ now w. now + w)
        (acquire_all
          (λ now w. now + w)
          (λ now w. omega arith)
          (acquire (λ now w. now + w) limiter "slow.com" 100).1
          (("a.com", 101) ∷ []))
        "slow.com"
        103).0
acquire_spaced_example =
    acquire_spaced (λ now w. now + w) (λ now w. omega arith) limiter "slow.com" 100 103
      (("a.com", 101) ∷ [])
