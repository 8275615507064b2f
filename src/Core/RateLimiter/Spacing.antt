-- ===== src/Core/RateLimiter/Spacing.antt =====
-- Two requests to one domain are at least its interval apart.
use scraper_v_hezzian.Prelude.{string_eq, ℕ, ◌+◌, ◌-◌, ◌≤◌, String, List, [], ◌∷◌, arith, eq_iff}
use scraper_v_hezzian.Prelude.Dict
use scraper_v_hezzian.Prelude.Dict.{beq_refl, Dict, get-put}
use scraper_v_hezzian.Core.RateLimiter.{RateLimiter, interval, acquire}

module _ (clock_after : ℕ → ℕ → ℕ) (sleeps : (now w : ℕ) → now + w ≤ clock_after now w) where
  -- Calls of `acquire` in the order in which they are served: a domain, and the time at which
  -- the call first reads the clock.
  pub acquire_all : RateLimiter → List (String × ℕ) → RateLimiter
  acquire_all rl [] = rl
  acquire_all rl ((domain, now) ∷ calls) = acquire_all (acquire clock_after rl domain now).1 calls

  -- A lower bound on the next slot of a domain.
  abbrev NotBefore : String → ℕ → RateLimiter → Type 0
  NotBefore domain t rl = t ≤ Dict.get_or rl.next_allowed domain 0

  acquire-NotBefore :
      (rl : RateLimiter) (domain other : String) (now t : ℕ)
      → NotBefore domain t rl
      → NotBefore domain t (acquire clock_after rl other now).1
  unfolding acquire Dict.get_or
  acquire-NotBefore rl domain other now t h = ground (
    arith,
    get-put rl.next_allowed other ((acquire clock_after rl other now).0 + interval rl other) domain,
    eq_iff other domain,
    sleeps now (Dict.get_or rl.next_allowed other 0 - now),
  )

  acquire_all-NotBefore :
      (rl : RateLimiter) (calls : List (String × ℕ)) (domain : String) (t : ℕ)
      → NotBefore domain t rl
      → NotBefore domain t (acquire_all rl calls)
  unfolding acquire_all
  acquire_all-NotBefore rl [] domain t h = h
  acquire_all-NotBefore rl ((other, now) ∷ calls) domain t h =
      acquire_all-NotBefore (acquire clock_after rl other now).1 calls domain t
        (acquire-NotBefore rl domain other now t h)

  acquire-reaches :
      (rl : RateLimiter) (domain : String) (now t : ℕ)
      → NotBefore domain t rl
      → t ≤ (acquire clock_after rl domain now).0
  unfolding acquire
  acquire-reaches rl domain now t h =
      ground (arith, sleeps now (Dict.get_or rl.next_allowed domain 0 - now), sleeps now 0)

  acquire-reserves :
      (rl : RateLimiter) (domain : String) (now : ℕ)
      → let (first, rl') = acquire clock_after rl domain now in
        NotBefore domain (first + interval rl domain) rl'
  unfolding acquire Dict.get_or
  acquire-reserves rl domain now = ground (
    arith,
    get-put rl.next_allowed domain ((acquire clock_after rl domain now).0 + interval rl domain)
        domain,
    beq_refl domain,
  )

  -- On a clock that a sleep of `w` moves on by `w` or more: however many calls for this and for
  -- other domains are served between two calls for a domain, the later one goes ahead at least the
  -- domain's interval after the earlier one.
  pub acquire_spaced :
      (rl : RateLimiter) (domain : String) (now later : ℕ) (between : List (String × ℕ))
      → let (first, rl') = acquire clock_after rl domain now in
        let (second, _) = acquire clock_after (acquire_all rl' between) domain later in
        first + interval rl domain ≤ second
  acquire_spaced rl domain now later between =
      let (first, rl') = acquire clock_after rl domain now in
      acquire-reaches (acquire_all rl' between) domain later (first + interval rl domain) (
        acquire_all-NotBefore rl' between domain (first + interval rl domain)
          (acquire-reserves rl domain now))
