-- ===== src/Worker/SummarizeWorker/Pending.antt =====
-- How many articles wait for a summary, before and after a batch.
use text.Mathlib.TextEquality.{eq_iff}
use scraper_v_hezzian.Prelude.{
  string_eq, ℕ, ◌+◌, ◌≤◌, String, Bool, true, ◌&&◌, none, List, [], ◌∷◌, filter, length, ◌==◌, ◌≡◌,
  ◌≢◌, refl, arith, All, All-filter, All-take, All-filter_self, All-map, sym, Option,
}
use scraper_v_hezzian.Prelude.Sorting.{
  sort_by, Pairwise, Pairwise-filter, Pairwise-take, Pairwise-sort_by, All-sort_by,
}
use scraper_v_hezzian.Core.Db.{ArticleRow}
use scraper_v_hezzian.Core.Llm.{
  SummaryResult, Outcome, llm_error, llm_rate_limit_error, llm_parse_error, other_failure, returned,
  raised,
}
use scraper_v_hezzian.Worker.SummarizeWorker.{
  is_newer, is_pending, batch_of, with_summary, update_summary, stored_summary, SummaryState,
  counted, round_of, summarize_all, summarize_pending,
}

-- The number of rows without a summary.
abbrev pub waiting_rows : List ArticleRow → ℕ
waiting_rows rows = length (filter is_pending rows)

-- Those of them with this id.
abbrev pub waiting_with : String → List ArticleRow → ℕ
waiting_with id rows = length (filter (λ r. r.id == id && is_pending r) rows)

waiting_rows-update_summary :
    (now : ℕ) (id : String) (result : SummaryResult) (rows : List ArticleRow)
    → waiting_rows (update_summary now id result rows) + waiting_with id rows ≡ waiting_rows rows
unfolding update_summary with_summary is_pending
waiting_rows-update_summary now id result [] = refl
waiting_rows-update_summary now id result (r ∷ rows) =
    ground (arith, waiting_rows-update_summary now id result rows)

waiting_with-update_summary :
    (now : ℕ) (id k : String) (result : SummaryResult) (rows : List ArticleRow)
    → id ≢ k
    → waiting_with k (update_summary now id result rows) ≡ waiting_with k rows
unfolding update_summary with_summary is_pending
waiting_with-update_summary now id k result [] ne = refl
waiting_with-update_summary now id k result (r ∷ rows) ne =
    ground
      (arith, waiting_with-update_summary now id k result rows ne, eq_iff r.id id, eq_iff r.id k)

-- A row that waits is among those of its id.
waiting_with-cons :
    (a r : ArticleRow) (rows : List ArticleRow)
    → waiting_with a.id rows ≤ waiting_with a.id (r ∷ rows)
unfolding is_pending
waiting_with-cons a r rows = ground arith

waiting_with_self :
    (a : ArticleRow) (rows : List ArticleRow)
    → is_pending a ≡ true
    → 1 ≤ waiting_with a.id (a ∷ rows)
waiting_with_self a rows h = ground (arith, eq_iff a.id a.id)

abbrev pub Waits : List ArticleRow → ArticleRow → Type 0
Waits rows a = is_pending a ≡ true → 1 ≤ waiting_with a.id rows

All-Waits : (rows : List ArticleRow) → All (Waits rows) rows
All-Waits [] = tt
All-Waits (r ∷ rows) = (
  waiting_with_self r rows,
  All-map (λ a h p. grind (arith, h p, waiting_with-cons a r rows)) rows (All-Waits rows),
)

abbrev pub HaveOtherIds : ArticleRow → ArticleRow → Type 0
HaveOtherIds a b = a.id ≢ b.id

All-use :
    (P : ArticleRow → Type 0) (p : ArticleRow → Bool) (xs : List ArticleRow)
    → All (λ x. p x ≡ true → P x) xs
    → All (λ x. p x ≡ true) xs
    → All P xs
All-use P p [] h k = tt
All-use P p (x ∷ xs) h k = (h.0 k.0, All-use P p xs h.1 k.1)

batch_of-Waits :
    (batch_size : ℕ) (rows : List ArticleRow)
    → All (λ a. 1 ≤ waiting_with a.id rows) (batch_of batch_size none rows)
unfolding batch_of
batch_of-Waits batch_size rows = All-take _ batch_size (filter is_pending (sort_by is_newer rows)) (
    All-use (λ a. 1 ≤ waiting_with a.id rows) is_pending (filter is_pending (sort_by is_newer rows))
      (All-filter _ is_pending (sort_by is_newer rows)
        (All-sort_by is_newer (Waits rows) rows (All-Waits rows)))
      (All-filter_self is_pending (sort_by is_newer rows)))

batch_of-Pairwise :
    (batch_size : ℕ) (rows : List ArticleRow)
    → Pairwise HaveOtherIds rows
    → Pairwise HaveOtherIds (batch_of batch_size none rows)
unfolding batch_of
batch_of-Pairwise batch_size rows d =
    Pairwise-take HaveOtherIds batch_size (filter is_pending (sort_by is_newer rows)) (
      Pairwise-filter HaveOtherIds is_pending (sort_by is_newer rows)
        (Pairwise-sort_by is_newer HaveOtherIds (λ x y ne e. ne (sym e)) rows d))

stored_summary-waiting_with :
    (now : ℕ) (id k : String) (o : Outcome SummaryResult) (rows : List ArticleRow)
    → id ≢ k
    → waiting_with k (stored_summary now id o rows) ≡ waiting_with k rows
unfolding stored_summary
stored_summary-waiting_with now id k (returned r) rows ne =
    waiting_with-update_summary now id k r rows ne
stored_summary-waiting_with now id k (raised e) rows ne = refl

All-stored_summary :
    (now : ℕ) (a : ArticleRow) (o : Outcome SummaryResult) (rows batch : List ArticleRow)
    → All (HaveOtherIds a) batch
    → All (λ b. 1 ≤ waiting_with b.id rows) batch
    → All (λ b. 1 ≤ waiting_with b.id (stored_summary now a.id o rows)) batch
All-stored_summary now a o rows [] d h = tt
All-stored_summary now a o rows (b ∷ batch) d h = (
  rw (stored_summary-waiting_with now a.id b.id o rows d.0) h.0,
  All-stored_summary now a o rows batch d.1 h.1,
)

-- Each article that is counted has left the waiting rows.
abbrev pub IsCounted : {W : Type 0} → List ArticleRow → Outcome ℕ × SummaryState W → Type 0
IsCounted rows p = (n : ℕ) → p.0 ≡ returned n → n + waiting_rows p.1.0 ≤ waiting_rows rows

module _ {W : Type 0} (now : ℕ) where
  counted-IsCounted :
      (a : ArticleRow) (result : SummaryResult) (rows : List ArticleRow)
      (rest : Outcome ℕ × SummaryState W)
      → 1 ≤ waiting_with a.id rows
      → IsCounted (update_summary now a.id result rows) rest
      → IsCounted rows (counted rest)
  unfolding counted
  counted-IsCounted a result rows (returned m, s) h rest n e =
      ground (arith, rest m refl, waiting_rows-update_summary now a.id result rows)
  counted-IsCounted a result rows (raised x, s) h rest n e = absurd (ground arith)

  round_of-IsCounted :
      (a : ArticleRow) (o : Outcome SummaryResult) (rows : List ArticleRow) (w : W)
      (rest : Outcome ℕ × SummaryState W)
      → 1 ≤ waiting_with a.id rows
      → IsCounted (stored_summary now a.id o rows) rest
      → IsCounted rows (round_of o (rows, w) rest)
  unfolding round_of stored_summary
  round_of-IsCounted a (returned r) rows w rest h k = counted-IsCounted a r rows rest h k
  round_of-IsCounted a (raised (llm_rate_limit_error x)) rows w rest h k = λ n e. ground arith
  round_of-IsCounted a (raised (other_failure x)) rows w rest h k = λ n e. absurd (ground arith)
  round_of-IsCounted a (raised (llm_error x)) rows w rest h k = k
  round_of-IsCounted a (raised (llm_parse_error x)) rows w rest h k = k

module _ {W : Type 0} (summarize : String → String → Option ℕ → W → Outcome SummaryResult × W)
    (now : ℕ) where
  summarize_all-IsCounted :
      (batch rows : List ArticleRow) (w : W)
      → All (λ b. 1 ≤ waiting_with b.id rows) batch
      → Pairwise HaveOtherIds batch
      → IsCounted rows (summarize_all summarize now batch (rows, w))
  unfolding summarize_all
  summarize_all-IsCounted [] rows w h d = λ n e. ground arith
  summarize_all-IsCounted (a ∷ batch) rows w h d =
      let (o, w') = summarize a.title a.content a.publish_date w in
      round_of-IsCounted now a o rows w'
        (summarize_all summarize now batch (stored_summary now a.id o rows, w')) h.0
        (summarize_all-IsCounted batch (stored_summary now a.id o rows) w'
          (All-stored_summary now a o rows batch d.0 h.1) d.1)

  pub summarize_pending-IsCounted :
      (batch_size : ℕ) (rows : List ArticleRow) (w : W)
      → Pairwise HaveOtherIds rows
      → IsCounted rows (summarize_pending summarize now batch_size none (rows, w))
  unfolding summarize_pending
  summarize_pending-IsCounted batch_size rows w d =
      summarize_all-IsCounted (batch_of batch_size none rows) rows w
        (batch_of-Waits batch_size rows) (batch_of-Pairwise batch_size rows d)
