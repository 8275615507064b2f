-- ===== src/Worker/SummarizeWorker/Examples.antt =====
-- Three articles, one of them with a summary, and a summarizer that always answers.
use scraper_v_hezzian.Prelude.Sorting.{Pairwise}
use scraper_v_hezzian.Prelude.{
  String, ℕ, ◌≡◌, none, some, List, [], ◌∷◌, refl, nat_beq, if◌then◌else◌, ◌+◌, ◌<◌, Option, map,
  arith, eq_iff,
}
use scraper_v_hezzian.Core.Db.{ArticleRow}
use scraper_v_hezzian.Core.Llm.{
  Outcome, returned, raised, llm_error, llm_rate_limit_error, SummaryResult,
}
use scraper_v_hezzian.Worker.SummarizeWorker.{
  run_summarize_worker, summarize_pending, batch_of, is_pending,
}
use scraper_v_hezzian.Worker.SummarizeWorker.Pending.{waiting_rows, HaveOtherIds}
use scraper_v_hezzian.Worker.SummarizeWorker.Columns.{SameRows, summarize_pending-SameRows}
use scraper_v_hezzian.Worker.SummarizeWorker.Drains.{
  Ended, Drained, run_summarize_worker-Ended, run_summarize_worker-drains,
}

abbrev row : String → ℕ → ArticleRow
row id fetched_at = record {
  id = id;
  url = id;
  domain = "a.com";
  bucket = "public";
  title = id;
  content = "text";
  author = none;
  publish_date = none;
  fetched_at = fetched_at;
  raw_key = none;
  driver_used = "curl_cffi";
  relevance = none;
  summary = none;
}

abbrev answer : SummaryResult
answer = record {
  bullets = "b" ∷ "c" ∷ "d" ∷ [];
  relevance = 7;
  scores = [];
  reason = "r";
  model = "m";
}

abbrev old_row : ArticleRow
old_row = record (row "old" 9) {
  relevance = some 3;
  summary =
      some (record { bullets = []; scores = []; reason = none; model = "m"; generated_at = 1 });
}

abbrev rows : List ArticleRow
rows = row "a" 1 ∷ old_row ∷ row "b" 2 ∷ []

-- It counts its calls.
abbrev always : String → String → Option ℕ → ℕ → Outcome SummaryResult × ℕ
always title content published calls = (returned answer, calls + 1)

abbrev never : String → String → Option ℕ → ℕ → Outcome SummaryResult × ℕ
never title content published calls = (raised (llm_error "timeout"), calls + 1)

abbrev limited : String → String → Option ℕ → ℕ → Outcome SummaryResult × ℕ
limited title content published calls =
    if nat_beq calls 0
    then (returned answer, 1)
    else (raised (llm_rate_limit_error "429"), calls + 1)

-- The newest article comes first, and the rate limit ends the batch.
newest_first : map (λ r. r.id) (batch_of 5 none rows) ≡ "b" ∷ "a" ∷ []
unfolding batch_of scraper_v_hezzian.Prelude.Sorting.sort_by
newest_first = refl

stops : (summarize_pending limited 4 5 none (rows, 0)).0 ≡ returned 1
unfolding summarize_pending scraper_v_hezzian.Prelude.Sorting.sort_by
stops = refl

refreshes : map (λ r. r.id) (batch_of 5 (some 2) rows) ≡ "old" ∷ "b" ∷ []
unfolding batch_of scraper_v_hezzian.Prelude.Sorting.sort_by
refreshes = refl

distinct : Pairwise HaveOtherIds rows
distinct = (
  ((λ e. ground (arith, eq_iff "a" "old")), ((λ e. ground (arith, eq_iff "a" "b")), tt)),
  (((λ e. ground (arith, eq_iff "old" "b")), tt), (tt, tt)),
)

two_wait : waiting_rows rows < 3
unfolding is_pending
two_wait = omega arith

one_positive : 0 < 1
one_positive = omega arith

summarize_pending-SameRows_example :
    SameRows (summarize_pending limited 4 5 (some 2) (rows, 0)).1.0 rows
summarize_pending-SameRows_example = summarize_pending-SameRows limited 4 5 (some 2) rows 0

run_summarize_worker-Ended_example :
    Ended (run_summarize_worker limited 4 1 3 (rows, 0)) (λ end. SameRows end.1.0 rows)
run_summarize_worker-Ended_example =
    run_summarize_worker-Ended limited 4 1 3 rows 0 distinct two_wait

run_summarize_worker-drains_example :
    Ended (run_summarize_worker always 4 1 3 (rows, 0)) (Drained always 4 rows)
run_summarize_worker-drains_example =
    run_summarize_worker-drains always 4 1 3 rows 0
      (λ title content published calls. (answer, refl)) one_positive distinct two_wait
