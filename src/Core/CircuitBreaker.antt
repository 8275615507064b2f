-- ===== src/Core/CircuitBreaker.antt =====
-- scrapeforge/core/circuit_breaker.py
-- Times are numbers of clock ticks. `now - window` is compared as `t + window`, since a cutoff
-- before the clock's zero is negative in Python.
pub mod Trips
pub mod Window
mod Examples
use scraper_v_hezzian.Prelude.{
  string_eq, ℕ, ◌+◌, ◌*◌, String, Bool, true, false, none, some, List, [], ◌∷◌, ◌++◌, ltb, leb,
  nat_beq, length, filter, if◌then◌else◌,
}
use scraper_v_hezzian.Prelude.Dict
use scraper_v_hezzian.Prelude.Dict.{Dict}

pub record DomainState : Type 0 where
  pub failures : List ℕ
  pub paused_until : ℕ

pub record CircuitBreaker : Type 0 where
  pub threshold : ℕ
  pub pause : ℕ
  pub window : ℕ
  pub states : Dict String DomainState

-- `ticks` is the number of clock ticks in a second.
pub new : ℕ → ℕ → ℕ → ℕ → CircuitBreaker
new ticks threshold pause_minutes window_minutes = record {
  threshold = threshold;
  pause = pause_minutes * 60 * ticks;
  window = window_minutes * 60 * ticks;
  states = Dict.empty;
}

abbrev pub fresh : DomainState
fresh = record { failures = []; paused_until = 0 }

unfoldable pub set_state : CircuitBreaker → String → DomainState → CircuitBreaker
set_state cb domain s = record cb { states = Dict.put cb.states domain s }

allow_known : CircuitBreaker → String → ℕ → DomainState → Bool × CircuitBreaker
unfolding set_state
allow_known cb domain now state =
    if nat_beq state.paused_until 0
    then (true, cb)
    else if leb state.paused_until now
    then (true, set_state cb domain (record state { paused_until = 0 }))
    else (false, cb)

-- `now` is what the clock says, where the method reads it.
unfoldable pub allow : CircuitBreaker → String → ℕ → Bool × CircuitBreaker
unfolding allow_known
allow cb domain now = elim (Dict.get cb.states domain) [
  | none ↦ (true, cb)
  | some state ↦ allow_known cb domain now state
]

-- The state that `record` works on: created on a domain's first record.
unfoldable pub state_of : CircuitBreaker → String → DomainState
state_of cb domain = elim (Dict.get cb.states domain) [ none ↦ fresh | some state ↦ state ]

unfoldable pub fail : CircuitBreaker → ℕ → DomainState → DomainState
fail cb now state =
    let recent = filter (λ t. ltb now (t + cb.window)) (state.failures ++ now ∷ []) in
    record {
      failures = recent;
      paused_until =
          if leb cb.threshold (length recent) then now + cb.pause else state.paused_until;
    }

unfoldable pub record_outcome : CircuitBreaker → String → Bool → ℕ → CircuitBreaker
unfolding set_state state_of fail
record_outcome cb domain success now =
    set_state cb domain (if success then fresh else fail cb now (state_of cb domain))
