-- ===== src/Core/RateLimiter.antt =====
-- scrapeforge/core/rate_limiter.py
-- The lock of a domain makes the calls for it run one after the other, so a call is one step
-- here. Times are numbers of clock ticks.
pub mod Spacing
mod Examples
use scraper_v_hezzian.Prelude.Dict
use scraper_v_hezzian.Prelude.{string_eq, ltb, if◌then◌else◌, ℕ, ◌+◌, ◌-◌, String}
use scraper_v_hezzian.Prelude.Dict.{Dict}

pub record RateLimiter : Type 0 where
  pub default_interval : ℕ
  pub overrides : Dict String ℕ
  pub next_allowed : Dict String ℕ

-- `_interval`
unfoldable pub interval : RateLimiter → String → ℕ
interval rl domain = Dict.get_or rl.overrides domain rl.default_interval

-- The wait that `acquire` asks for at time `now`; Python's difference may be negative, and then
-- there is no sleep.
unfoldable pub wait : RateLimiter → String → ℕ → ℕ
wait rl domain now = Dict.get_or rl.next_allowed domain 0 - now

-- `clock_after now w` is the clock's second reading, when the first was `now` and the call has
-- slept for `w`. The result is that reading, at which the caller goes ahead.
module _ (clock_after : ℕ → ℕ → ℕ) where
  unfoldable pub acquire : RateLimiter → String → ℕ → ℕ × RateLimiter
  unfolding wait interval
  acquire rl domain now =
      let w = wait rl domain now in
      let woke = if ltb 0 w then clock_after now w else clock_after now 0 in
      (
        woke,
        record rl { next_allowed = Dict.put rl.next_allowed domain (woke + interval rl domain) },
      )
