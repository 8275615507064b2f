-- ===== src/Core/Llm/Retries.antt =====
-- Which reply decides a call of the language model, and how long the call sleeps.
use scraper_v_hezzian.Prelude.{
  ℕ, zero, suc, ◌+◌, nat_beq, String, Bool, true, false, ◌||◌, Option, none, some, List, [], ◌∷◌,
  if◌then◌else◌,
}
use scraper_v_hezzian.Core.Llm.{Outcome, Reply, content_of, out_of_retries}

-- The replies to the attempts from `attempt` on, in order.
abbrev pub replies : (ℕ → Option Reply) → ℕ → ℕ → List (Option Reply)
replies post zero attempt = []
replies post (suc left) attempt = post attempt ∷ replies post left (attempt + 1)

-- A reply that is no timeout and no 429.
abbrev pub is_decisive : Option Reply → Bool
is_decisive none = false
is_decisive (some r) = if nat_beq r.status_code 429 then false else true

abbrev pub is_429 : Option Reply → Bool
is_429 none = false
is_429 (some r) = nat_beq r.status_code 429

-- The first decisive reply.
abbrev pub decisive : List (Option Reply) → Option Reply
decisive [] = none
decisive (r ∷ rs) = if is_decisive r then r else decisive rs

abbrev pub some_429 : List (Option Reply) → Bool
some_429 [] = false
some_429 (r ∷ rs) = is_429 r || some_429 rs

-- What the replies say, with what was seen before them.
abbrev pub answer : Bool → List (Option Reply) → Outcome String
answer saw rs = elim (decisive rs) [
  | some r ↦ content_of r
  | none ↦ out_of_retries (saw || some_429 rs)
]
