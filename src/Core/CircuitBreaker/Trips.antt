-- ===== src/Core/CircuitBreaker/Trips.antt =====
-- When the breaker pauses a domain, and when it lets it go.
use scraper_v_hezzian.Prelude.{
  string_eq, ltb, leb, if◌then◌else◌, length, filter, ℕ, ◌+◌, ◌<◌, String, ◌≡◌, true, false, List,
  [], ◌∷◌, ◌++◌, arith, Option-cases, ◌≤◌, ◌≢◌, inl, inr, Bool, eq_iff,
}
use scraper_v_hezzian.Prelude.Dict
use scraper_v_hezzian.Prelude.Dict.{get-put, beq_refl, Dict}
use scraper_v_hezzian.Core.CircuitBreaker.{
  CircuitBreaker, fresh, allow, record_outcome, state_of, fail,
}

-- The failures of a domain that count at time `now`, the one at `now` included.
abbrev pub recent : CircuitBreaker → String → ℕ → List ℕ
recent cb domain now =
    filter (λ t. ltb now (t + cb.window)) ((state_of cb domain).failures ++ now ∷ [])

-- After a failure at a time for which `now + pause` is not zero, a domain is paused for `pause`, if
-- at least `threshold` failures are recent; otherwise it stays as it was.
pub allow-record_failure :
    (cb : CircuitBreaker) (domain : String) (now t : ℕ)
    → 0 < now + cb.pause
    → (allow (record_outcome cb domain false now) domain t).0 ≡ (
        if leb cb.threshold (length (recent cb domain now))
        then leb (now + cb.pause) t
        else (allow cb domain t).0)
unfolding allow record_outcome
allow-record_failure cb domain now t h =
    ground
      (arith, get-put cb.states domain (fail cb now (state_of cb domain)) domain, beq_refl domain)

-- After a success a domain is allowed at any time, and its next failure is its first.
pub allow-record_success :
    (cb : CircuitBreaker) (domain : String) (now t : ℕ)
    → let cb' = record_outcome cb domain true now in
      ((allow cb' domain t).0 ≡ true) × ((state_of cb' domain).failures ≡ [])
unfolding allow record_outcome
allow-record_success cb domain now t = ground (
  arith,
  get-put cb.states domain (record { failures = []; paused_until = 0 }) domain,
  beq_refl domain,
)

-- What is recorded for one domain changes neither the state nor the gate of another.
pub record_outcome_ne :
    (cb : CircuitBreaker) (domain other : String) (success : Bool) (now t : ℕ)
    → domain ≢ other
    → let cb' = record_outcome cb domain success now in
      (state_of cb' other ≡ state_of cb other) × ((allow cb' other t).0 ≡ (allow cb other t).0)
unfolding allow record_outcome
record_outcome_ne cb domain other success now t h =
    let s = (if success then fresh else fail cb now (state_of cb domain)) in
    ground (arith, get-put cb.states domain s other, eq_iff domain other)

-- Clearing an expired pause cannot be seen: no gate, of this domain or of another, answers
-- otherwise at that time or later.
pub allow-allow :
    (cb : CircuitBreaker) (domain other : String) (now t : ℕ)
    → now ≤ t
    → (allow (allow cb domain now).1 other t).0 ≡ (allow cb other t).0
unfolding allow
allow-allow cb domain other now t h = elim (Option-cases (Dict.get cb.states domain)) [
  | inl absent ↦ ground (arith, absent)
  | inr (s, e) ↦ ground (
    arith,
    e,
    get-put cb.states domain (record s { paused_until = 0 }) other,
    eq_iff domain other,
  )
]
