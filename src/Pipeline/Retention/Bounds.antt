-- ===== src/Pipeline/Retention/Bounds.antt =====
-- What is left after a run of `prune_articles`, and how many rows it says it has deleted.
use scraper_v_hezzian.Prelude.{
  length-filter-not, ℕ, ◌+◌, ◌-◌, ◌*◌, ◌/◌, max, ◌≡◌, ◌≢◌, ◌≤◌, Bool, not, ◌&&◌, List, [], ◌∷◌,
  length, filter, contains, All, refl, Bool-cases, All-filter, sym, ap, ◌∙◌, inl, inr, arith, ltb,
  Option-cases, subst, false, if◌then◌else◌, true,
}
use scraper_v_hezzian.Core.Db.{ArticleRow}
use scraper_v_hezzian.Pipeline.Retention.{
  older, irrelevant, delete_where, oldest_ids, prune_irrelevant, prune_excess, prune_articles,
  by_age,
}
use scraper_v_hezzian.Pipeline.Retention.Sorted.{
  HaveDistinctIds, filter-take, length-filter-by_age, length-by_age, by_age-HaveDistinctIds,
}

filter-HaveDistinctIds :
    (p : ArticleRow → Bool) (xs : List ArticleRow)
    → HaveDistinctIds xs
    → HaveDistinctIds (filter p xs)
filter-HaveDistinctIds p [] d = tt
filter-HaveDistinctIds p (x ∷ xs) d = elim (Bool-cases (p x)) [
  | inl e ↦ rw e (All-filter (λ y. x.id ≢ y.id) p xs d.0, filter-HaveDistinctIds p xs d.1)
  | inr e ↦ rw e (filter-HaveDistinctIds p xs d.1)
]

filter-filter :
    (p q : ArticleRow → Bool) (xs : List ArticleRow)
    → filter p (filter q xs) ≡ filter (λ r. q r && p r) xs
filter-filter p q [] = refl
filter-filter p q (x ∷ xs) = ground (arith, filter-filter p q xs)

filter_ext :
    (p q : ArticleRow → Bool) (xs : List ArticleRow)
    → ((r : ArticleRow) → p r ≡ q r)
    → filter p xs ≡ filter q xs
filter_ext p q [] h = refl
filter_ext p q (x ∷ xs) h = ground (arith, h x, filter_ext p q xs h)

delete_where-count :
    (p : ArticleRow → Bool) (xs : List ArticleRow)
    → (delete_where p xs).0 + length (delete_where p xs).1 ≡ length xs
unfolding delete_where
delete_where-count p xs = length-filter-not p xs

prune_irrelevant-count :
    (floor age now : ℕ) (xs : List ArticleRow)
    → (prune_irrelevant floor age now xs).0 + length (prune_irrelevant floor age now xs).1
      ≡ length xs
unfolding prune_irrelevant
prune_irrelevant-count floor age now xs =
    ground (arith, delete_where-count (irrelevant floor age now) xs)

prune_excess-count :
    (m : ℕ) (xs : List ArticleRow)
    → (prune_excess m xs).0 + length (prune_excess m xs).1 ≡ length xs
unfolding prune_excess
prune_excess-count m xs =
    ground (arith, delete_where-count (λ r. contains r.id (oldest_ids (length xs - m) xs)) xs)

prune_excess-All :
    (P : ArticleRow → Type 0) (m : ℕ) (xs : List ArticleRow)
    → All P xs
    → All P (prune_excess m xs).1
unfolding prune_excess delete_where
prune_excess-All P m xs h = elim (Bool-cases (ltb m (length xs))) [
  | inl e ↦ rw e (All-filter P (λ r. not (contains r.id (oldest_ids (length xs - m) xs))) xs h)
  | inr e ↦ rw e h
]

prune_excess-few : (m : ℕ) (xs : List ArticleRow) → length xs ≤ m → (prune_excess m xs).1 ≡ xs
unfolding prune_excess
prune_excess-few m xs few = ground arith

within_only : (a b : Bool) → b ≡ false → a ≡ a && not b
within_only a b e = ground arith

never_irrelevant :
    (floor age now : ℕ) (r : ArticleRow) → ltb 0 floor ≡ false → irrelevant floor age now r ≡ false
never_irrelevant floor age now r none_below = elim (Option-cases r.relevance) [
  | inl e ↦ rw e refl
  | inr (v, e) ↦ rw e (ground arith)
]

prune_irrelevant-floor :
    (floor age now : ℕ) (xs : List ArticleRow)
    → ltb 0 floor ≡ true
    → (prune_irrelevant floor age now xs).1 ≡ filter (λ r. not (irrelevant floor age now r)) xs
unfolding prune_irrelevant delete_where
prune_irrelevant-floor floor age now xs e =
    ap (λ b. (if b then delete_where (irrelevant floor age now) xs else (0, xs)).1) e

prune_irrelevant-no_floor :
    (floor age now : ℕ) (xs : List ArticleRow)
    → ltb 0 floor ≡ false
    → (prune_irrelevant floor age now xs).1 ≡ xs
unfolding prune_irrelevant
prune_irrelevant-no_floor floor age now xs e =
    ap (λ b. (if b then delete_where (irrelevant floor age now) xs else (0, xs)).1) e

prune_excess-length :
    (m : ℕ) (xs : List ArticleRow) → HaveDistinctIds xs → length (prune_excess m xs).1 ≤ m
unfolding prune_excess delete_where oldest_ids
prune_excess-length m xs d =
    let n = length xs - m in
    let p = λ (r : ArticleRow). not (contains r.id (oldest_ids n xs)) in
    let left : length (filter p xs) ≡ length xs - n =
      sym (length-filter-by_age p xs)
      ∙ filter-take n (by_age xs) (by_age-HaveDistinctIds xs d)
      ∙ ap (λ l. l - n) (length-by_age xs) in
    ground (arith, left)

-- A row that is in the window and, where there is a floor and it is older than half the window,
-- has no relevance below the floor.
abbrev pub kept : ℕ → ℕ → ℕ → ℕ → ArticleRow → Bool
kept day retention_days relevance_floor now r =
    not (older (retention_days * day) now r)
    && not (irrelevant relevance_floor (max 1 (retention_days / 2) * day) now r)

in_window :
    (day retention_days relevance_floor now : ℕ) (r : ArticleRow)
    → kept day retention_days relevance_floor now r ≡ true
    → now ≤ r.fetched_at + retention_days * day
in_window day retention_days relevance_floor now r h = ground arith

module _ (day retention_days max_articles relevance_floor now : ℕ) where
  abbrev window : ℕ
  window = retention_days * day

  -- The rows after steps 1 and 2.
  abbrev pub after_tests : List ArticleRow → List ArticleRow
  after_tests rows =
      (prune_irrelevant relevance_floor (max 1 (retention_days / 2) * day) now
        (delete_where (older window now) rows).1).1

  after_tests-eq :
      (rows : List ArticleRow)
      → after_tests rows ≡ filter (kept day retention_days relevance_floor now) rows
  unfolding prune_irrelevant delete_where
  after_tests-eq rows =
      let half = max 1 (retention_days / 2) * day in
      let recent = filter (λ r. not (older window now r)) rows in
      elim (Bool-cases (ltb 0 relevance_floor)) [
        | inl e ↦
            prune_irrelevant-floor relevance_floor half now recent e
            ∙ filter-filter (λ r. not (irrelevant relevance_floor half now r))
                (λ r. not (older window now r)) rows
        | inr e ↦
            prune_irrelevant-no_floor relevance_floor half now recent e
            ∙ filter_ext (λ r. not (older window now r))
                (kept day retention_days relevance_floor now) rows
                (λ r.
                  within_only (not (older window now r)) (irrelevant relevance_floor half now r)
                    (never_irrelevant relevance_floor half now r e))
      ]

  kept-window :
      (rows : List ArticleRow)
      → All
          (λ r. now ≤ r.fetched_at + retention_days * day)
          (filter (kept day retention_days relevance_floor now) rows)
  kept-window [] = tt
  kept-window (x ∷ xs) = elim (Bool-cases (kept day retention_days relevance_floor now x)) [
    | inl e ↦ rw e (in_window day retention_days relevance_floor now x e, kept-window xs)
    | inr e ↦ rw e (kept-window xs)
  ]

  -- If no two rows have the same id, a run leaves at most `max_articles` rows, none of them fetched
  -- before the retention window, and the number that it returns is the number of rows that are
  -- gone.
  pub prune_articles-bounds :
      (rows : List ArticleRow)
      → HaveDistinctIds rows
      → let (deleted, left) =
          prune_articles day retention_days max_articles relevance_floor now rows in
        (length left ≤ max_articles)
        × All (λ r. now ≤ r.fetched_at + retention_days * day) left
        × (deleted + length left ≡ length rows)
  unfolding prune_articles
  prune_articles-bounds rows d =
      let xs = after_tests rows in
      let e = after_tests-eq rows in
      let distinct : HaveDistinctIds xs =
        subst HaveDistinctIds (sym e)
          (filter-HaveDistinctIds (kept day retention_days relevance_floor now) rows d) in
      let inside : All (λ r. now ≤ r.fetched_at + retention_days * day) xs =
        subst (All (λ r. now ≤ r.fetched_at + retention_days * day)) (sym e) (kept-window rows) in
      (
        prune_excess-length max_articles xs distinct,
        prune_excess-All (λ r. now ≤ r.fetched_at + retention_days * day) max_articles xs inside,
        omega (
          arith,
          delete_where-count (older window now) rows,
          prune_irrelevant-count relevance_floor (max 1 (retention_days / 2) * day) now
              (delete_where (older window now) rows).1,
          prune_excess-count max_articles xs,
        ),
      )

  -- Where no more than `max_articles` rows pass the tests of age and of relevance, exactly those
  -- are left, in order.
  pub prune_articles-eq-filter :
      (rows : List ArticleRow)
      → length (filter (kept day retention_days relevance_floor now) rows) ≤ max_articles
      → (prune_articles day retention_days max_articles relevance_floor now rows).1
        ≡ filter (kept day retention_days relevance_floor now) rows
  unfolding prune_articles
  prune_articles-eq-filter rows few =
      prune_excess-few max_articles (after_tests rows)
        (subst (λ l. length l ≤ max_articles) (sym (after_tests-eq rows)) few)
      ∙ after_tests-eq rows
