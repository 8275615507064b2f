-- ===== src/Worker/SummarizeWorker/Columns.antt =====
-- A batch changes two columns of the table.
use scraper_v_hezzian.Prelude.{
  string_eq, ℕ, String, none, List, [], ◌∷◌, map, ◌≡◌, refl, arith, All, sym, ap, ◌∙◌, Option,
}
use scraper_v_hezzian.Prelude.Sorting.{Pairwise}
use scraper_v_hezzian.Core.Db.{ArticleRow}
use scraper_v_hezzian.Core.Llm.{
  Outcome, returned, raised, llm_error, llm_rate_limit_error, llm_parse_error, other_failure,
  SummaryResult,
}
use scraper_v_hezzian.Worker.SummarizeWorker.{
  with_summary, update_summary, stored_summary, SummaryState, counted, round_of, batch_of,
  summarize_all, summarize_pending,
}
use scraper_v_hezzian.Worker.SummarizeWorker.Pending.{HaveOtherIds}

-- A row without the two columns that the summarizer writes.
abbrev pub unsummarized : ArticleRow → ArticleRow
unsummarized r = record r { relevance = none; summary = none }

-- The same rows in the same order, but for those two columns.
abbrev pub SameRows : List ArticleRow → List ArticleRow → Type 0
SameRows xs ys = map unsummarized xs ≡ map unsummarized ys

update_summary-SameRows :
    (now : ℕ) (id : String) (result : SummaryResult) (rows : List ArticleRow)
    → SameRows (update_summary now id result rows) rows
unfolding update_summary with_summary
update_summary-SameRows now id result [] = refl
update_summary-SameRows now id result (r ∷ rows) =
    ground (arith, update_summary-SameRows now id result rows)

stored_summary-SameRows :
    (now : ℕ) (id : String) (o : Outcome SummaryResult) (rows : List ArticleRow)
    → SameRows (stored_summary now id o rows) rows
unfolding stored_summary
stored_summary-SameRows now id (returned result) rows = update_summary-SameRows now id result rows
stored_summary-SameRows now id (raised e) rows = refl

round_of-SameRows :
    {W : Type 0} (o : Outcome SummaryResult) (rows : List ArticleRow) (w : W)
    (rest : Outcome ℕ × SummaryState W)
    → SameRows rest.1.0 rows
    → SameRows (round_of o (rows, w) rest).1.0 rows
unfolding round_of counted
round_of-SameRows (returned r) rows w (returned n, s) h = h
round_of-SameRows (returned r) rows w (raised e, s) h = h
round_of-SameRows (raised (llm_rate_limit_error x)) rows w rest h = refl
round_of-SameRows (raised (other_failure x)) rows w rest h = refl
round_of-SameRows (raised (llm_error x)) rows w rest h = h
round_of-SameRows (raised (llm_parse_error x)) rows w rest h = h

first_id : String → List ArticleRow → String
first_id id [] = id
first_id id (r ∷ rows) = r.id

rest_of : List ArticleRow → List ArticleRow
rest_of [] = []
rest_of (r ∷ rows) = rows

id-SameRows :
    (x y : ArticleRow) (xs ys : List ArticleRow) → SameRows (x ∷ xs) (y ∷ ys) → x.id ≡ y.id
unfolding first_id
id-SameRows x y xs ys e = ap (first_id "") e

rest-SameRows :
    (x y : ArticleRow) (xs ys : List ArticleRow) → SameRows (x ∷ xs) (y ∷ ys) → SameRows xs ys
unfolding rest_of
rest-SameRows x y xs ys e = ap rest_of e

All-SameRows :
    (a b : ArticleRow) (xs ys : List ArticleRow)
    → a.id ≡ b.id
    → SameRows xs ys
    → All (HaveOtherIds b) ys
    → All (HaveOtherIds a) xs
All-SameRows a b [] ys same e h = tt
All-SameRows a b (x ∷ xs) [] same e h = absurd (ground arith)
All-SameRows a b (x ∷ xs) (y ∷ ys) same e h = (
  (λ i. h.0 (sym same ∙ i ∙ id-SameRows x y xs ys e)),
  All-SameRows a b xs ys same (rest-SameRows x y xs ys e) h.1,
)

pub Pairwise-SameRows :
    (xs ys : List ArticleRow) → SameRows xs ys → Pairwise HaveOtherIds ys → Pairwise HaveOtherIds xs
Pairwise-SameRows [] ys e h = tt
Pairwise-SameRows (x ∷ xs) [] e h = absurd (ground arith)
Pairwise-SameRows (x ∷ xs) (y ∷ ys) e h =
    let e' = rest-SameRows x y xs ys e in
    (All-SameRows x y xs ys (id-SameRows x y xs ys e) e' h.0, Pairwise-SameRows xs ys e' h.1)

module _ {W : Type 0} (summarize : String → String → Option ℕ → W → Outcome SummaryResult × W)
    (now : ℕ) where
  summarize_all-SameRows :
      (batch rows : List ArticleRow) (w : W)
      → SameRows (summarize_all summarize now batch (rows, w)).1.0 rows
  unfolding summarize_all
  summarize_all-SameRows [] rows w = refl
  summarize_all-SameRows (a ∷ batch) rows w =
      let (o, w') = summarize a.title a.content a.publish_date w in
      let rows' = stored_summary now a.id o rows in
      round_of-SameRows o rows w' (summarize_all summarize now batch (rows', w'))
        (summarize_all-SameRows batch rows' w' ∙ stored_summary-SameRows now a.id o rows)

  -- A batch, of pending articles or of a refresh, keeps the rows, their order and all columns but
  -- `relevance` and `summary`, whatever the summarizer answers or raises.
  pub summarize_pending-SameRows :
      (batch_size : ℕ) (refresh_limit : Option ℕ) (rows : List ArticleRow) (w : W)
      → SameRows (summarize_pending summarize now batch_size refresh_limit (rows, w)).1.0 rows
  unfolding summarize_pending
  summarize_pending-SameRows batch_size refresh_limit rows w =
      summarize_all-SameRows (batch_of batch_size refresh_limit rows) rows w
