-- ===== src/Core/CircuitBreaker/Window.antt =====
-- The rolling window over a run of failures.
use scraper_v_hezzian.Prelude.{
  string_eq, ltb, filter, All, ℕ, ◌+◌, ◌≤◌, String, ◌≡◌, refl, Bool, false, List, [], ◌∷◌, ◌++◌,
  arith, sym, ap, ◌∙◌, leb, length, ◌<◌, le→leb,
}
use mathlib.Core.Path.{◌∎}
use mathlib.Core.Path.{◌≡⟨◌⟩◌, ◌∎}
use mathlib.Core.List.{append_assoc}
use scraper_v_hezzian.Prelude.Dict.{get-put_self}
use scraper_v_hezzian.Core.CircuitBreaker.Trips.{recent, allow-record_failure}
use scraper_v_hezzian.Core.CircuitBreaker.{CircuitBreaker, record_outcome, state_of, fail, allow}

-- What an earlier window dropped, a later one drops.
filter-filter :
    (w a b : ℕ) (ts : List ℕ)
    → a ≤ b
    → filter (λ t. ltb b (t + w)) (filter (λ t. ltb a (t + w)) ts) ≡ filter (λ t. ltb b (t + w)) ts
filter-filter w a b [] h = refl
filter-filter w a b (t ∷ ts) h = ground (arith, filter-filter w a b ts h)

filter-append : (p : ℕ → Bool) (xs ys : List ℕ) → filter p (xs ++ ys) ≡ filter p xs ++ filter p ys
filter-append p [] ys = refl
filter-append p (x ∷ xs) ys = ground (arith, filter-append p xs ys)

-- The failures at the times of a list, oldest first, of one domain.
pub record_failures : CircuitBreaker → String → List ℕ → CircuitBreaker
record_failures cb domain [] = cb
record_failures cb domain (t ∷ ts) = record_failures (record_outcome cb domain false t) domain ts

state_of-record_failure :
    (cb : CircuitBreaker) (domain : String) (now : ℕ)
    → (state_of (record_outcome cb domain false now) domain).failures
      ≡ filter (λ t. ltb now (t + cb.window)) ((state_of cb domain).failures ++ now ∷ [])
unfolding record_outcome
state_of-record_failure cb domain now =
    ground (arith, get-put_self cb.states domain (fail cb now (state_of cb domain)))

window-record_outcome :
    (cb : CircuitBreaker) (domain : String) (b : Bool) (now : ℕ)
    → (record_outcome cb domain b now).window ≡ cb.window
unfolding record_outcome
window-record_outcome cb domain b now = refl

threshold-record_failures :
    (cb : CircuitBreaker) (domain : String) (ts : List ℕ)
    → ((record_failures cb domain ts).threshold ≡ cb.threshold)
      × ((record_failures cb domain ts).pause ≡ cb.pause)
      × ((record_failures cb domain ts).window ≡ cb.window)
unfolding record_failures record_outcome
threshold-record_failures cb domain [] = (refl, refl, refl)
threshold-record_failures cb domain (t ∷ ts) =
    threshold-record_failures (record_outcome cb domain false t) domain ts

-- One more failure filters what the ones before it left.
window_step :
    (w a now : ℕ) (old rest : List ℕ)
    → a ≤ now
    → filter (λ t. ltb now (t + w)) (filter (λ t. ltb a (t + w)) (old ++ a ∷ []) ++ rest)
      ≡ filter (λ t. ltb now (t + w)) (old ++ a ∷ rest)
window_step w a now old rest h =
    filter p (filter (λ t. ltb a (t + w)) (old ++ a ∷ []) ++ rest)
    ≡⟨ filter-append p (filter (λ t. ltb a (t + w)) (old ++ a ∷ [])) rest ⟩
      filter p (filter (λ t. ltb a (t + w)) (old ++ a ∷ [])) ++ filter p rest
    ≡⟨ ap (λ l. l ++ filter p rest) (filter-filter w a now (old ++ a ∷ []) h) ⟩
      filter p (old ++ a ∷ []) ++ filter p rest
    ≡⟨ sym (filter-append p (old ++ a ∷ []) rest) ⟩ filter p ((old ++ a ∷ []) ++ rest)
    ≡⟨ ap (filter p) (append_assoc old (a ∷ []) rest) ⟩ filter p (old ++ a ∷ rest) ∎
  where
    p : ℕ → Bool
    p t = ltb now (t + w)

-- After failures at the times `ts` and then at `now`, none of them later than `now`, exactly
-- those within the window that ends at `now` are counted, in order, with those held before.
pub failures-record_failures :
    (cb : CircuitBreaker) (domain : String) (ts : List ℕ) (now : ℕ)
    → All (λ t. t ≤ now) ts
    → (state_of (record_failures cb domain (ts ++ now ∷ [])) domain).failures
      ≡ filter (λ t. ltb now (t + cb.window)) ((state_of cb domain).failures ++ (ts ++ now ∷ []))
unfolding record_failures
failures-record_failures cb domain [] now h = state_of-record_failure cb domain now
failures-record_failures cb domain (t ∷ ts) now h =
    let cb' = record_outcome cb domain false t in
    failures-record_failures cb' domain ts now h.1
    ∙ rw (state_of-record_failure cb domain t) (
        rw (window-record_outcome cb domain false t)
          (window_step cb.window t now (state_of cb domain).failures (ts ++ now ∷ []) h.0))

record_failures-last :
    (cb : CircuitBreaker) (domain : String) (ts : List ℕ) (now : ℕ)
    → (record_failures cb domain (ts ++ now ∷ []))
      ≡ record_outcome (record_failures cb domain ts) domain false now
unfolding record_failures
record_failures-last cb domain [] now = refl
record_failures-last cb domain (u ∷ ts) now =
    record_failures-last (record_outcome cb domain false u) domain ts now

-- A domain with no failures on record is paused by a run of failures up to `now`, none of them
-- later, if at least `threshold` of them lie within the window and `now + pause` is not zero: it is
-- allowed again from `now + pause` on, and at no earlier time.
pub allow-record_failures :
    (cb : CircuitBreaker) (domain : String) (ts : List ℕ) (now t : ℕ)
    → All (λ u. u ≤ now) ts
    → (state_of cb domain).failures ≡ []
    → cb.threshold ≤ length (filter (λ u. ltb now (u + cb.window)) (ts ++ now ∷ []))
    → 0 < now + cb.pause
    → (allow (record_failures cb domain (ts ++ now ∷ [])) domain t).0 ≡ leb (now + cb.pause) t
allow-record_failures cb domain ts now t rises clean many pos =
    let cb' = record_failures cb domain ts in
    let (th, pa, _) = threshold-record_failures cb domain ts in
    let e : recent cb' domain now ≡ filter (λ u. ltb now (u + cb.window)) (ts ++ now ∷ []) =
      sym (state_of-record_failure cb' domain now)
      ∙ rw (← record_failures-last cb domain ts now)
          (failures-record_failures cb domain ts now rises ∙ rw clean) in
    rw (record_failures-last cb domain ts now)
      (allow-record_failure cb' domain now t (rw pa pos) ∙ rw (e, th, pa) (rw (le→leb _ _ many)))
