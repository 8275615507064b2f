-- ===== src/Core/Llm/Parsed.antt =====
-- What a summary that is accepted looks like.
use scraper_v_hezzian.Prelude.{
  string_eq, ℕ, ◌≤◌, String, Option, List, [], ◌∷◌, ◌≡◌, ◌≢◌, refl, arith, map, All, Bool-cases,
  ◌==◌, length, ap, subst, inl, inr, none, some, eq_iff, ltb, take, length-take, All-take,
}
use scraper_v_hezzian.Core.Llm.{
  Rounded, whole, negative, not_numeric, infinite, Outcome, returned, raised, then_outcome, Python,
  usable_bullets, clamp_1_10, clamp_scores, score_keys, clamp_rounded, parse_scores, SummaryResult,
  loads_object, parse_bullets, parse_object, parse_summary,
}
use scraper_v_hezzian.Prelude.Text.{strip}
use scraper_v_hezzian.Core.Llm.JsonValues.{
  null, number, Value, Values, Fields, field_of, boolean, text, array, object, no_values, values,
}

then_outcome-inv :
    {A B : Type 0} (o : Outcome A) (f : A → Outcome B) (b : B)
    → then_outcome o f ≡ returned b
    → (a : A) × (o ≡ returned a) × (f a ≡ returned b)
unfolding then_outcome
then_outcome-inv (raised e) f b h = absurd (ground arith)
then_outcome-inv (returned a) f b h = (a, refl, h)

returned_or : {A : Type 0} → A → Outcome A → A
returned_or b (returned a) = a
returned_or b (raised e) = b

returned_inj : {A : Type 0} (a b : A) → returned a ≡ returned b → a ≡ b
unfolding returned_or
returned_inj a b h = ap (returned_or a) h

-- A score.
abbrev pub IsScore : ℕ → Type 0
IsScore n = (1 ≤ n) × (n ≤ 10)

clamp_rounded-IsScore : (r : Rounded) (n : ℕ) → clamp_rounded r ≡ returned n → IsScore n
unfolding clamp_rounded
clamp_rounded-IsScore (whole m) n h = ground arith
clamp_rounded-IsScore (negative m) n h = ground arith
clamp_rounded-IsScore not_numeric n h = absurd (ground arith)
clamp_rounded-IsScore infinite n h = absurd (ground arith)

usable_bullets-visible : (raw : Values) → All (λ b. b ≢ "") (usable_bullets raw)
unfolding usable_bullets
usable_bullets-visible no_values = tt
usable_bullets-visible (values (text s) rest) = elim (Bool-cases (strip s == "")) [
  | inl e ↦ rw e (usable_bullets-visible rest)
  | inr e ↦ rw e ((λ f. ground (arith, eq_iff (strip s) "")), usable_bullets-visible rest)
]
usable_bullets-visible (values null rest) = usable_bullets-visible rest
usable_bullets-visible (values (boolean b) rest) = usable_bullets-visible rest
usable_bullets-visible (values (number n) rest) = usable_bullets-visible rest
usable_bullets-visible (values (array vs) rest) = usable_bullets-visible rest
usable_bullets-visible (values (object d) rest) = usable_bullets-visible rest

-- Three to five bullets with text, and scores from 1 to 10 under the five keys.
pub record IsUsable (r : SummaryResult) : Type 0 where
  pub bullets_many : 3 ≤ length r.bullets
  pub bullets_few : length r.bullets ≤ 5
  pub bullets_visible : All (λ b. b ≢ "") r.bullets
  pub relevance_score : IsScore r.relevance
  pub scores_keys : map (λ s. s.0) r.scores ≡ score_keys
  pub scores_scores : All (λ s. IsScore s.1) r.scores

module _ (py : Python) where
  clamp_1_10-IsScore : (v : Option Value) (n : ℕ) → clamp_1_10 py v ≡ returned n → IsScore n
  unfolding clamp_1_10
  clamp_1_10-IsScore none n h = absurd (ground arith)
  clamp_1_10-IsScore (some (boolean b)) n h = absurd (ground arith)
  clamp_1_10-IsScore (some null) n h = clamp_rounded-IsScore (py.rounded null) n h
  clamp_1_10-IsScore (some (number x)) n h = clamp_rounded-IsScore (py.rounded (number x)) n h
  clamp_1_10-IsScore (some (text x)) n h = clamp_rounded-IsScore (py.rounded (text x)) n h
  clamp_1_10-IsScore (some (array x)) n h = clamp_rounded-IsScore (py.rounded (array x)) n h
  clamp_1_10-IsScore (some (object x)) n h = clamp_rounded-IsScore (py.rounded (object x)) n h

  abbrev pub AreScores : List String → List (String × ℕ) → Type 0
  AreScores ks scores = (map (λ s. s.0) scores ≡ ks) × All (λ s. IsScore s.1) scores

  clamp_scores-AreScores :
      (raw : Fields) (ks : List String) (scores : List (String × ℕ))
      → clamp_scores py raw ks ≡ returned scores
      → AreScores ks scores
  unfolding clamp_scores
  clamp_scores-AreScores raw [] scores h =
      subst (AreScores []) (returned_inj [] scores h) (refl, tt)
  clamp_scores-AreScores raw (k ∷ ks) scores h =
      let (n, e, h1) = then_outcome-inv (clamp_1_10 py (field_of raw k)) _ scores h in
      let (rest, f, h2) = then_outcome-inv (clamp_scores py raw ks) _ scores h1 in
      let (keys, all) = clamp_scores-AreScores raw ks rest f in
      subst (AreScores (k ∷ ks)) (returned_inj ((k, n) ∷ rest) scores h2)
        (ap (λ l. k ∷ l) keys, (clamp_1_10-IsScore (field_of raw k) n e, all))

  parse_scores-IsUsable :
      (model : String) (bullets : List String) (obj : Fields) (v : Option Value) (r : SummaryResult)
      → 3 ≤ length bullets
      → length bullets ≤ 5
      → All (λ b. b ≢ "") bullets
      → parse_scores py model bullets obj v ≡ returned r
      → IsUsable r
  unfolding parse_scores
  parse_scores-IsUsable model bullets obj none r a b c h = absurd (ground arith)
  parse_scores-IsUsable model bullets obj (some null) r a b c h = absurd (ground arith)
  parse_scores-IsUsable model bullets obj (some (boolean x)) r a b c h = absurd (ground arith)
  parse_scores-IsUsable model bullets obj (some (number x)) r a b c h = absurd (ground arith)
  parse_scores-IsUsable model bullets obj (some (text x)) r a b c h = absurd (ground arith)
  parse_scores-IsUsable model bullets obj (some (array x)) r a b c h = absurd (ground arith)
  parse_scores-IsUsable model bullets obj (some (object raw)) r a b c h =
      let (scores, e, h1) = then_outcome-inv (clamp_scores py raw score_keys) _ r h in
      let (n, f, h2) = then_outcome-inv (clamp_1_10 py (field_of obj "relevance")) _ r h1 in
      let (keys, all) = clamp_scores-AreScores raw score_keys scores e in
      subst IsUsable (returned_inj _ r h2) (record {
        bullets_many = a;
        bullets_few = b;
        bullets_visible = c;
        relevance_score = clamp_1_10-IsScore (field_of obj "relevance") n f;
        scores_keys = keys;
        scores_scores = all;
      })

  parse_bullets-IsUsable :
      (model : String) (obj : Fields) (v : Option Value) (r : SummaryResult)
      → parse_bullets py model obj v ≡ returned r
      → IsUsable r
  unfolding parse_bullets
  parse_bullets-IsUsable model obj none r h = absurd (ground arith)
  parse_bullets-IsUsable model obj (some null) r h = absurd (ground arith)
  parse_bullets-IsUsable model obj (some (boolean x)) r h = absurd (ground arith)
  parse_bullets-IsUsable model obj (some (number x)) r h = absurd (ground arith)
  parse_bullets-IsUsable model obj (some (text x)) r h = absurd (ground arith)
  parse_bullets-IsUsable model obj (some (object x)) r h = absurd (ground arith)
  parse_bullets-IsUsable model obj (some (array raw)) r h =
      let bullets = take 5 (usable_bullets raw) in
      elim (Bool-cases (ltb (length bullets) 3)) [
        | inl e ↦ absurd (ground arith)
        | inr e ↦
            parse_scores-IsUsable model bullets obj (field_of obj "scores") r (ground arith)
              (ground (arith, length-take 5 (usable_bullets raw)))
              (All-take (λ b. b ≢ "") 5 (usable_bullets raw) (usable_bullets-visible raw))
              (ground arith)
      ]

  parse_object-IsUsable :
      (model : String) (v : Value) (r : SummaryResult)
      → parse_object py model v ≡ returned r
      → IsUsable r
  unfolding parse_object
  parse_object-IsUsable model null r h = absurd (ground arith)
  parse_object-IsUsable model (boolean x) r h = absurd (ground arith)
  parse_object-IsUsable model (number x) r h = absurd (ground arith)
  parse_object-IsUsable model (text x) r h = absurd (ground arith)
  parse_object-IsUsable model (array x) r h = absurd (ground arith)
  parse_object-IsUsable model (object obj) r h =
      parse_bullets-IsUsable model obj (field_of obj "bullets") r h

  -- A model reply that is accepted has three to five bullets, none of them empty, a relevance from
  -- 1 to 10, and a score from 1 to 10 under each of the five keys, in order.
  pub parse_summary-IsUsable :
      (model s : String) (r : SummaryResult) → parse_summary py model s ≡ returned r → IsUsable r
  unfolding parse_summary
  parse_summary-IsUsable model s r h =
      let (v, e, h1) = then_outcome-inv (loads_object py s) _ r h in
      parse_object-IsUsable model v r h1
