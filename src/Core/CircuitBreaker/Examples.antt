-- ===== src/Core/CircuitBreaker/Examples.antt =====
-- Runs of the circuit breaker, with three failures in a window of 100 ticks.
use scraper_v_hezzian.Prelude.Dict.{Dict}
use scraper_v_hezzian.Prelude.Dict
use scraper_v_hezzian.Prelude.{string_eq, ◌≡◌, leb, false, [], ◌∷◌, refl, arith}
use scraper_v_hezzian.Core.CircuitBreaker.{CircuitBreaker, allow, state_of, record_outcome}
use scraper_v_hezzian.Core.CircuitBreaker.Window.{record_failures, allow-record_failures}

abbrev quiet : CircuitBreaker
quiet = record { threshold = 3; pause = 50; window = 100; states = Dict.empty }

-- Two failures of a domain, at 10 and at 20.
abbrev shaky : CircuitBreaker
shaky = record {
  threshold = 3;
  pause = 50;
  window = 100;
  states = record {
    entries = ("a.com", record { failures = 10 ∷ 20 ∷ []; paused_until = 0 }) ∷ [];
  };
}

-- A domain that is paused until 80.
abbrev paused : CircuitBreaker
paused = record {
  threshold = 3;
  pause = 50;
  window = 100;
  states = record {
    entries = ("a.com", record { failures = 10 ∷ 20 ∷ 30 ∷ []; paused_until = 80 }) ∷ [];
  };
}

third_failure : (allow (record_outcome shaky "a.com" false 30) "a.com" 79).0 ≡ false
unfolding allow record_outcome Dict.get Dict.put
third_failure = refl

clean : (state_of quiet "a.com").failures ≡ []
unfolding state_of Dict.get
clean = refl

allow-record_failures_example :
    (allow (record_failures quiet "a.com" (10 ∷ 20 ∷ 30 ∷ [])) "a.com" 79).0 ≡ leb 80 79
allow-record_failures_example =
    allow-record_failures quiet "a.com" (10 ∷ 20 ∷ []) 30 79 (omega arith, (omega arith, tt)) clean
      (omega arith) (omega arith)
