-- ===== src/Worker/SummarizeWorker/Drains.antt =====
-- The run of the summarize worker over all batches.
use scraper_v_hezzian.Worker.SummarizeWorker.Columns.{
  SameRows, Pairwise-SameRows, summarize_pending-SameRows,
}
use scraper_v_hezzian.Prelude.{
  string_eq, ℕ, String, none, List, [], ◌∷◌, ◌≡◌, refl, arith, suc, ◌∙◌, Option, some, zero, ◌<◌,
  length, filter, length-take,
}
use scraper_v_hezzian.Prelude.Sorting.{Pairwise, sort_by, length-filter-sort_by}
use scraper_v_hezzian.Core.Db.{ArticleRow}
use scraper_v_hezzian.Core.Llm.{Outcome, returned, raised, llm_error, SummaryResult, LlmFailure}
use scraper_v_hezzian.Worker.SummarizeWorker.{
  stored_summary, SummaryState, counted, round_of, batch_of, summarize_all, summarize_pending,
  run_summarize_worker, is_newer, is_pending,
}
use scraper_v_hezzian.Worker.SummarizeWorker.Pending.{
  HaveOtherIds, waiting_rows, IsCounted, summarize_pending-IsCounted,
}

-- A run that is done, with what holds of its end.
abbrev pub Ended :
    {W : Type 0}
    → Option (Outcome Unit × SummaryState W)
    → (Outcome Unit × SummaryState W → Type 0)
    → Type 0
Ended {W} run P = (end : Outcome Unit × SummaryState W) × (run ≡ some end) × P end

module _ {W : Type 0} (summarize : String → String → Option ℕ → W → Outcome SummaryResult × W)
    (now : ℕ) where
  -- The rest of a run, once its next batch is known.
  unfoldable follow : ℕ → ℕ → Outcome ℕ → SummaryState W → Option (Outcome Unit × SummaryState W)
  follow batch_size fuel (returned zero) s = some (returned tt, s)
  follow batch_size fuel (returned (suc n)) s = run_summarize_worker summarize now batch_size fuel s
  follow batch_size fuel (raised e) s = some (raised e, s)

  run_summarize_worker-suc :
      (batch_size fuel : ℕ) (s : SummaryState W)
      → run_summarize_worker summarize now batch_size (suc fuel) s
        ≡ follow batch_size fuel
            (summarize_pending summarize now batch_size none s).0
            (summarize_pending summarize now batch_size none s).1
  unfolding run_summarize_worker follow
  run_summarize_worker-suc batch_size fuel s = ground arith

  -- The run ends if what is claimed of it holds for fewer waiting rows.
  follow-Ended :
      (batch_size fuel : ℕ) (rows : List ArticleRow) (o : Outcome ℕ) (s : SummaryState W)
      (P : Outcome Unit × SummaryState W → Type 0)
      → IsCounted rows (o, s)
      → waiting_rows rows < suc fuel
      → (o ≡ returned 0 → P (returned tt, s))
      → ((e : LlmFailure) → o ≡ raised e → P (raised e, s))
      → (waiting_rows s.0 < fuel → Ended (run_summarize_worker summarize now batch_size fuel s) P)
      → Ended (follow batch_size fuel o s) P
  unfolding follow
  follow-Ended batch_size fuel rows (returned zero) s P c f z r go =
      ((returned tt, s), refl, z refl)
  follow-Ended batch_size fuel rows (returned (suc n)) s P c f z r go =
      go (omega (arith, c (suc n) refl))
  follow-Ended batch_size fuel rows (raised e) s P c f z r go = ((raised e, s), refl, r e refl)

  -- If no two rows have the same id, a run of the summarize worker ends, whatever the summarizer
  -- answers or raises, with more fuel than rows without a summary; but for the columns `relevance`
  -- and `summary` the rows are as before.
  pub run_summarize_worker-Ended :
      (batch_size fuel : ℕ) (rows : List ArticleRow) (w : W)
      → Pairwise HaveOtherIds rows
      → waiting_rows rows < fuel
      → Ended
          (run_summarize_worker summarize now batch_size fuel (rows, w))
          (λ end. SameRows end.1.0 rows)
  run_summarize_worker-Ended batch_size zero rows w d f = absurd (omega arith)
  run_summarize_worker-Ended batch_size (suc fuel) rows w d f =
      let (o, s) = summarize_pending summarize now batch_size none (rows, w) in
      let same = summarize_pending-SameRows summarize now batch_size none rows w in
      let (end, e, h) =
        follow-Ended batch_size fuel rows o s (λ end. SameRows end.1.0 rows)
          (summarize_pending-IsCounted summarize now batch_size rows w d) f (λ z. same)
          (λ x r. same)
          (λ less.
            let (end, e, h) =
              run_summarize_worker-Ended batch_size fuel s.0 s.1 (Pairwise-SameRows s.0 rows same d)
                less in
            (end, e, h ∙ same)) in
      (end, run_summarize_worker-suc batch_size fuel (rows, w) ∙ e, h)

  -- A batch whose articles are all summarized.
  summarize_all-length :
      ((title content : String) (published : Option ℕ) (w : W)
        → (r : SummaryResult) × ((summarize title content published w).0 ≡ returned r))
      → (batch rows : List ArticleRow) (w : W)
      → (summarize_all summarize now batch (rows, w)).0 ≡ returned (length batch)
  unfolding summarize_all round_of counted
  summarize_all-length succeeds [] rows w = refl
  summarize_all-length succeeds (a ∷ batch) rows w =
      let (o, w') = summarize a.title a.content a.publish_date w in
      let (r, e) = succeeds a.title a.content a.publish_date w in
      ground (arith, e, summarize_all-length succeeds batch (stored_summary now a.id o rows) w')

  empty_batch :
      (batch_size : ℕ) (rows : List ArticleRow)
      → 0 < batch_size
      → length (batch_of batch_size none rows) ≡ 0
      → waiting_rows rows ≡ 0
  unfolding batch_of
  empty_batch batch_size rows p h = ground (
    arith,
    length-take batch_size (filter is_pending (sort_by is_newer rows)),
    length-filter-sort_by is_newer is_pending rows,
  )

  summarize_pending-length :
      ((title content : String) (published : Option ℕ) (w : W)
        → (r : SummaryResult) × ((summarize title content published w).0 ≡ returned r))
      → (batch_size : ℕ) (rows : List ArticleRow) (w : W)
      → (summarize_pending summarize now batch_size none (rows, w)).0
        ≡ returned (length (batch_of batch_size none rows))
  unfolding summarize_pending
  summarize_pending-length ok batch_size rows w =
      summarize_all-length ok (batch_of batch_size none rows) rows w

  -- The run ended by its test, and no row waits.
  abbrev pub Drained : List ArticleRow → Outcome Unit × SummaryState W → Type 0
  Drained rows end = (end.0 ≡ returned tt) × (waiting_rows end.1.0 ≡ 0) × SameRows end.1.0 rows

  -- If no two rows have the same id, the batch size is not zero, and the summarizer answers every
  -- call, then a run of the summarize worker, with more fuel than rows without a summary, ends
  -- without raising, and afterwards every row has a summary; the rows are the same in all other
  -- columns.
  pub run_summarize_worker-drains :
      (batch_size fuel : ℕ) (rows : List ArticleRow) (w : W)
      → ((title content : String) (published : Option ℕ) (w : W)
          → (r : SummaryResult) × ((summarize title content published w).0 ≡ returned r))
      → 0 < batch_size
      → Pairwise HaveOtherIds rows
      → waiting_rows rows < fuel
      → Ended (run_summarize_worker summarize now batch_size fuel (rows, w)) (Drained rows)
  run_summarize_worker-drains batch_size zero rows w ok p d f = absurd (omega arith)
  run_summarize_worker-drains batch_size (suc fuel) rows w ok p d f =
      let (o, s) = summarize_pending summarize now batch_size none (rows, w) in
      let same = summarize_pending-SameRows summarize now batch_size none rows w in
      let counts = summarize_pending-IsCounted summarize now batch_size rows w d in
      let len = summarize_pending-length ok batch_size rows w in
      let (end, e, h) =
        follow-Ended batch_size fuel rows o s (Drained rows) counts f
          (λ z. (refl, ground (arith, len, counts 0 z, empty_batch batch_size rows p), same))
          (λ x r. absurd (ground (arith, len)))
          (λ less.
            let (end, e, h) =
              run_summarize_worker-drains batch_size fuel s.0 s.1 ok p
                (Pairwise-SameRows s.0 rows same d) less in
            (end, e, (h.0, h.1, h.2 ∙ same))) in
      (end, run_summarize_worker-suc batch_size fuel (rows, w) ∙ e, h)

  -- Articles that the summarizer cannot do.
  abbrev pub Fails : ArticleRow → Type 0
  Fails a =
      (w : W)
      → (x : String) × ((summarize a.title a.content a.publish_date w).0 ≡ raised (llm_error x))
