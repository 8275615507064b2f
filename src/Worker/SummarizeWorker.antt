-- ===== src/Worker/SummarizeWorker.antt =====
-- scrapeforge/worker/summarize_worker.py
-- The table `articles` is the list of its rows. The summarizer is a parameter that keeps a state of
-- its own; the settings are arguments, and the sleeps between requests are left out.
pub mod Pending
pub mod Columns
pub mod Drains
mod Examples
use Prim.Native.String.{compare}
use text.Mathlib.Text.{is_lt}
use scraper_v_hezzian.Prelude.{
  string_eq, ℕ, zero, suc, ◌+◌, ltb, nat_beq, String, Bool, true, false, not, ◌&&◌, ◌||◌, Option,
  none, some, List, [], ◌∷◌, filter, take, if◌then◌else◌, ◌==◌,
}
use scraper_v_hezzian.Prelude.Sorting.{sort_by}
use scraper_v_hezzian.Core.Db.{ArticleRow}
use scraper_v_hezzian.Core.Llm.{
  Outcome, returned, raised, llm_error, llm_rate_limit_error, llm_parse_error, other_failure,
  SummaryResult,
}

-- `ORDER BY fetched_at DESC, id DESC`
unfoldable pub is_newer : ArticleRow → ArticleRow → Bool
is_newer x y =
    ltb y.fetched_at x.fetched_at
    || (nat_beq x.fetched_at y.fetched_at && not (is_lt (compare x.id y.id)))

unfoldable pub is_pending : ArticleRow → Bool
is_pending row = elim row.summary [ none ↦ true | some s ↦ false ]

-- The rows that a batch is made of. `summary IS NULL` and `LIMIT` are not asked in a refresh.
unfoldable pub batch_of : ℕ → Option ℕ → List ArticleRow → List ArticleRow
unfolding is_newer is_pending
batch_of batch_size none rows = take batch_size (filter is_pending (sort_by is_newer rows))
batch_of batch_size (some limit) rows = take limit (sort_by is_newer rows)

-- The values of the UPDATE.
unfoldable pub with_summary : ℕ → SummaryResult → ArticleRow → ArticleRow
with_summary now result row = record row {
  relevance = some result.relevance;
  summary = some (record {
    bullets = result.bullets;
    scores = result.scores;
    reason = some result.reason;
    model = result.model;
    generated_at = now;
  });
}

-- `UPDATE articles … WHERE id = …`
unfoldable pub update_summary : ℕ → String → SummaryResult → List ArticleRow → List ArticleRow
unfolding with_summary
update_summary now id result [] = []
update_summary now id result (r ∷ rows) =
    (if r.id == id then with_summary now result r else r) ∷ update_summary now id result rows

-- The table after one call of the summarizer.
unfoldable pub stored_summary :
    ℕ → String → Outcome SummaryResult → List ArticleRow → List ArticleRow
unfolding update_summary
stored_summary now id (returned result) rows = update_summary now id result rows
stored_summary now id (raised e) rows = rows

abbrev pub SummaryState : Type 0 → Type 0
SummaryState W = List ArticleRow × W

module _ {W : Type 0} where
  -- `count += 1`
  unfoldable pub counted : Outcome ℕ × SummaryState W → Outcome ℕ × SummaryState W
  counted (returned n, s) = (returned (n + 1), s)
  counted (raised e, s) = (raised e, s)

  -- One round: how the loop goes on from `here`, where `rest` is what the other rounds do.
  unfoldable pub round_of :
      Outcome SummaryResult
      → SummaryState W
      → Outcome ℕ × SummaryState W
      → Outcome ℕ × SummaryState W
  unfolding counted
  round_of (returned result) here rest = counted rest
  round_of (raised (llm_rate_limit_error e)) here rest = (returned 0, here)
  round_of (raised (other_failure e)) here rest = (raised (other_failure e), here)
  round_of (raised (llm_error e)) here rest = rest
  round_of (raised (llm_parse_error e)) here rest = rest

module _ {W : Type 0} (summarize : String → String → Option ℕ → W → Outcome SummaryResult × W)
    (now : ℕ) where
  -- The loop over the articles of a batch.
  unfoldable pub summarize_all : List ArticleRow → SummaryState W → Outcome ℕ × SummaryState W
  unfolding round_of stored_summary
  summarize_all [] s = (returned 0, s)
  summarize_all (a ∷ batch) (rows, w) =
      let (outcome, w') = summarize a.title a.content a.publish_date w in
      round_of outcome (rows, w') (summarize_all batch (stored_summary now a.id outcome rows, w'))

  -- `summarize_pending`
  unfoldable pub summarize_pending : ℕ → Option ℕ → SummaryState W → Outcome ℕ × SummaryState W
  unfolding batch_of summarize_all
  summarize_pending batch_size refresh_limit (rows, w) =
      summarize_all (batch_of batch_size refresh_limit rows) (rows, w)

  -- `run_summarize_worker`, on fuel: `none` if it is not done.
  unfoldable pub run_summarize_worker :
      ℕ → ℕ → SummaryState W → Option (Outcome Unit × SummaryState W)
  unfolding summarize_pending
  run_summarize_worker batch_size zero s = none
  run_summarize_worker batch_size (suc fuel) s =
      let (outcome, s') = summarize_pending batch_size none s in
      elim outcome [
        | raised e ↦ some (raised e, s')
        | returned zero ↦ some (returned tt, s')
        | returned (suc n) ↦ run_summarize_worker batch_size fuel s'
      ]
