-- ===== src/Core/Llm/Examples.antt =====
-- A reply that is read, and calls that are tried again.
use scraper_v_hezzian.Prelude.{
  string_eq, ℕ, ◌≡◌, none, some, [], ◌∷◌, refl, if◌then◌else◌, ◌==◌, zero, suc, Option,
}
use scraper_v_hezzian.Core.Llm.{
  returned, raised, llm_rate_limit_error, SummaryResult, Python, Reply, whole, negative,
  not_numeric, parse_summary, post_with_retry, then_outcome, usable_bullets, clamp_rounded,
  clamp_1_10, clamp_scores, loads_object, reason_of, parse_scores, parse_bullets, parse_object,
}
use scraper_v_hezzian.Core.Llm.JsonValues.{
  Value, Fields, null, number, text, array, object, no_values, values, no_fields, fields,
  brace_block, field_of,
}
use scraper_v_hezzian.Core.Llm.Parsed.{IsUsable, parse_summary-IsUsable}

abbrev scores : Fields
scores = fields "relevance" (number "12") (
    fields "credibility" (number "-3") (
      fields "intensity" (number "5")
        (fields "personal" (number "5") (fields "time" (number "5") no_fields))))

abbrev reply : Value
reply = object (
    fields "bullets"
      (array (
        values (text " one ")
          (values null (values (text "") (values (text "two") (values (text "three") no_values))))))
      (fields "scores" (object scores)
        (fields "relevance" (number "5") (fields "reason" (text " r ") no_fields))))

-- The answer stands in a block of braces inside other text.
abbrev python : Python
python = record {
  loads = λ s. if s == "{json}" then some reply else none;
  rounded = λ v. elim v [
    | number n ↦ if n == "12" then whole 12 else (if n == "-3" then negative 3 else whole 5)
    | _ ↦ not_numeric
  ];
  str = λ v. elim v [ text s ↦ s | _ ↦ "" ];
}

abbrev parsed : SummaryResult
parsed = record {
  bullets = "one" ∷ "two" ∷ "three" ∷ [];
  relevance = 5;
  scores =
      ("relevance", 10)
      ∷ ("credibility", 1)
      ∷ ("intensity", 5)
      ∷ ("personal", 5)
      ∷ ("time", 5)
      ∷ [];
  reason = "r";
  model = "m";
}

block : brace_block "Sure: {json} done" ≡ some "{json}"
unfolding brace_block
block = refl

is_parsed : parse_summary python "m" "Sure: {json} done" ≡ returned parsed
unfolding parse_summary loads_object parse_object parse_bullets parse_scores clamp_scores clamp_1_10
    clamp_rounded usable_bullets field_of then_outcome reason_of brace_block
    scraper_v_hezzian.Prelude.Text.strip scraper_v_hezzian.Core.Llm.JsonValues.is_truthy
is_parsed = refl

parse_summary-IsUsable_example : IsUsable parsed
parse_summary-IsUsable_example =
    parse_summary-IsUsable python "m" "Sure: {json} done" parsed is_parsed

-- A timeout, then a 429, then a reply.
abbrev post : ℕ → Option Reply
post zero = none
post (suc zero) = some (record { status_code = 429; content = none })
post (suc (suc n)) = some (record { status_code = 200; content = some "text" })

third_is_read : post_with_retry post 2 ≡ (returned "text", 3)
unfolding post_with_retry
third_is_read = refl

limited : (post_with_retry post 1).0 ≡ raised (llm_rate_limit_error "rate-limited after retries")
unfolding post_with_retry
limited = refl
