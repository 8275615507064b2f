-- ===== src/Core/Llm.antt =====
-- scrapeforge/core/llm: base.py, exceptions.py and openai_compatible.py. The HTTP client is the
-- function from the attempt to its reply; JSON, floats and `str` are the parameter `Python`.
-- The texts of the parse errors are without the value that they quote.
pub mod JsonValues
pub mod Parsed
pub mod Retries
mod Examples
use Prim.Native.String.{◌++◌ as ◌<>◌}
use scraper_v_hezzian.Prelude.Decimal.{decimal}
use scraper_v_hezzian.Prelude.Text.{strip}
use scraper_v_hezzian.Prelude.{
  string_eq, ℕ, zero, suc, ◌+◌, max, min, ltb, leb, nat_beq, String, Bool, true, false, Option,
  none, some, List, [], ◌∷◌, if◌then◌else◌, ◌==◌, length, take,
}
use scraper_v_hezzian.Core.Llm.JsonValues.{
  text, array, object, boolean, no_values, values, Value, Values, Fields, field_of, is_truthy,
  brace_block,
}

-- The errors of the summarizer; `other_failure` is an exception of Python or of the HTTP client.
pub data LlmFailure : Type 0 where
  llm_error llm_rate_limit_error llm_parse_error other_failure : String → LlmFailure

pub data Outcome (A : Type 0) : Type 0 where
  returned : A → Outcome A
  raised : LlmFailure → Outcome A

unfoldable pub then_outcome : {A B : Type 0} → Outcome A → (A → Outcome B) → Outcome B
then_outcome (raised e) f = raised e
then_outcome (returned a) f = f a

pub record SummaryResult : Type 0 where
  pub bullets : List String
  pub relevance : ℕ
  pub scores : List (String × ℕ)
  pub reason : String
  pub model : String

-- `round(float(value))`, or why there is none.
pub data Rounded : Type 0 where
  whole negative : ℕ → Rounded
  not_numeric infinite : Rounded

pub record Python : Type 0 where
  pub loads : String → Option Value
  pub rounded : Value → Rounded
  pub str : Value → String

abbrev pub score_keys : List String
score_keys = "relevance" ∷ "credibility" ∷ "intensity" ∷ "personal" ∷ "time" ∷ []

-- `[b.strip() for b in raw if isinstance(b, str) and b.strip()]`
unfoldable pub usable_bullets : Values → List String
usable_bullets no_values = []
usable_bullets (values (text s) rest) =
    let bullets = usable_bullets rest in if strip s == "" then bullets else strip s ∷ bullets
usable_bullets (values v rest) = usable_bullets rest

-- Infinity is an `OverflowError`, which is not caught.
unfoldable pub clamp_rounded : Rounded → Outcome ℕ
clamp_rounded (whole n) = returned (max 1 (min 10 n))
clamp_rounded (negative n) = returned 1
clamp_rounded not_numeric = raised (llm_parse_error "non-numeric score")
clamp_rounded infinite = raised (other_failure "cannot convert float infinity to integer")

module _ (py : Python) where
  -- `_clamp_1_10`
  unfoldable pub clamp_1_10 : Option Value → Outcome ℕ
  unfolding clamp_rounded
  clamp_1_10 none = raised (llm_parse_error "non-numeric score")
  clamp_1_10 (some (boolean b)) = raised (llm_parse_error "non-numeric score")
  clamp_1_10 (some v) = clamp_rounded (py.rounded v)

  -- `{k: _clamp_1_10(raw_scores.get(k)) for k in _SCORE_KEYS}`
  unfoldable pub clamp_scores : Fields → List String → Outcome (List (String × ℕ))
  clamp_scores raw [] = returned []
  clamp_scores raw (k ∷ ks) =
      then_outcome (clamp_1_10 (field_of raw k))
        λ n. then_outcome (clamp_scores raw ks) λ scores. returned ((k, n) ∷ scores)

  -- `_loads`
  unfoldable pub loads_object : String → Outcome Value
  loads_object s = elim (py.loads s) [
    | some v ↦ returned v
    | none ↦ elim (brace_block s) [
      | none ↦ raised (llm_parse_error "no JSON object in model response")
      | some block ↦ elim (py.loads block) [
        | none ↦ raised (llm_parse_error "unparseable JSON")
        | some v ↦ returned v
      ]
    ]
  ]

  unfoldable pub reason_of : Option Value → String
  reason_of none = ""
  reason_of (some v) = if is_truthy v then strip (py.str v) else ""

  -- The steps of `_parse` that follow the bullets.
  unfoldable pub parse_scores : String → List String → Fields → Option Value → Outcome SummaryResult
  parse_scores model bullets obj (some (object raw)) =
      then_outcome (clamp_scores raw score_keys) λ scores.
        then_outcome (clamp_1_10 (field_of obj "relevance")) λ relevance. returned (record {
          bullets = bullets;
          relevance = relevance;
          scores = scores;
          reason = reason_of (field_of obj "reason");
          model = model;
        })
  parse_scores model bullets obj v = raised (llm_parse_error "missing 'scores' object")

  unfoldable pub parse_bullets : String → Fields → Option Value → Outcome SummaryResult
  parse_bullets model obj (some (array raw)) =
      let bullets = take 5 (usable_bullets raw) in
      if ltb (length bullets) 3
      then raised
          (llm_parse_error ("only " <> (decimal (length bullets) <> " usable bullets (need >=3)")))
      else parse_scores model bullets obj (field_of obj "scores")
  parse_bullets model obj v = raised (llm_parse_error "missing 'bullets' array")

  -- `obj.get` of a value that is no dict is an `AttributeError`.
  unfoldable pub parse_object : String → Value → Outcome SummaryResult
  parse_object model (object obj) = parse_bullets model obj (field_of obj "bullets")
  parse_object model v = raised (other_failure "object has no attribute 'get'")

  -- `_parse`
  unfoldable pub parse_summary : String → String → Outcome SummaryResult
  unfolding loads_object parse_object
  parse_summary model s = then_outcome (loads_object s) (parse_object model)

-- A reply: `none` is a timeout; the body is its content, or `none` for a malformed envelope.
pub record Reply : Type 0 where
  pub status_code : ℕ
  pub content : Option String

unfoldable pub content_of : Reply → Outcome String
content_of r =
    if leb 400 r.status_code
    then raised (llm_error ("LLM HTTP " <> decimal r.status_code))
    else elim r.content [
      | none ↦ raised (llm_parse_error "malformed completion envelope")
      | some s ↦ returned s
    ]

unfoldable pub out_of_retries : Bool → Outcome String
out_of_retries saw_429 =
    if saw_429
    then raised (llm_rate_limit_error "rate-limited after retries")
    else raised (llm_error "request timed out after retries")

-- `asyncio.sleep(0.5 * (attempt + 1))`, if an attempt is left, before what follows.
unfoldable pub after_pause : ℕ → ℕ → Outcome String × ℕ → Outcome String × ℕ
after_pause left attempt (outcome, slept) =
    (outcome, (if ltb 0 left then attempt + 1 else 0) + slept)

module _ (post : ℕ → Option Reply) where
  -- The loop from `attempt` on, with `left` attempts to come, and the half seconds that it sleeps.
  unfoldable pub post_from : ℕ → ℕ → Bool → Outcome String × ℕ
  unfolding out_of_retries content_of after_pause
  post_from zero attempt saw_429 = (out_of_retries saw_429, 0)
  post_from (suc left) attempt saw_429 = elim (post attempt) [
    | none ↦ after_pause left attempt (post_from left (attempt + 1) saw_429)
    | some r ↦ elim (nat_beq r.status_code 429) [
      | true ↦ after_pause left attempt (post_from left (attempt + 1) true)
      | false ↦ (content_of r, 0)
    ]
  ]

  -- `_post_with_retry`
  unfoldable pub post_with_retry : ℕ → Outcome String × ℕ
  unfolding post_from
  post_with_retry max_retries = post_from (max_retries + 1) 0 false
