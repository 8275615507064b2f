-- ===== src/Digest/Delivery/Outcomes.antt =====
-- What a delivery to all users does.
use scraper_v_hezzian.Digest.Delivery.{
  deliver_to, deliver_batches, ActiveUser, DeliverySummary, count_outcome, deliver_all,
}
use scraper_v_hezzian.Prelude.{
  length-filter-not, ℕ, ◌+◌, String, List, [], ◌∷◌, ◌≡◌, filter, length, Bool, true, false, not, ap,
  ◌∙◌, arith, suc, refl,
}
use scraper_v_hezzian.Exceptions.{Action, Result, ok, err}
use scraper_v_hezzian.Core.Models.{Article}
use scraper_v_hezzian.Digest.Models.{DigestTools, Digest}

unfoldable pub has_articles : ActiveUser × List Article → Bool
has_articles (user, []) = false
has_articles (user, a ∷ articles) = true

unfoldable pub is_ok : Result Unit → Bool
is_ok (ok _) = true
is_ok (err _) = false

summary-eq :
    (a a' b b' c c' : ℕ)
    → a ≡ a'
    → b ≡ b'
    → c ≡ c'
    → Path DeliverySummary
        (record { sent = a; skipped_empty = b; failed = c })
        (record { sent = a'; skipped_empty = b'; failed = c' })
summary-eq a a' b b' c c' p q r = ground (arith, p, q, r)

-- What the deliveries add to the counts.
unfoldable add_outcomes : List (Result Unit) → ℕ → DeliverySummary → DeliverySummary
unfolding is_ok
add_outcomes outcomes skipped n = record {
  sent = n.sent + length (filter is_ok outcomes);
  skipped_empty = n.skipped_empty + skipped;
  failed = n.failed + length (filter (λ r. not (is_ok r)) outcomes);
}

add_outcomes-none : (n : DeliverySummary) → n ≡ add_outcomes [] 0 n
unfolding add_outcomes
add_outcomes-none n =
    summary-eq n.sent (n.sent + 0) n.skipped_empty (n.skipped_empty + 0) n.failed (n.failed + 0)
      (omega arith) (omega arith) (omega arith)

add_outcomes-skipped :
    (outcomes : List (Result Unit)) (k : ℕ) (n : DeliverySummary)
    → add_outcomes outcomes k (record n { skipped_empty = n.skipped_empty + 1 })
      ≡ add_outcomes outcomes (suc k) n
unfolding add_outcomes
add_outcomes-skipped outcomes k n =
    ap (λ x. record (add_outcomes outcomes k n) { skipped_empty = x }) (omega arith)

add_outcomes-cons :
    (r : Result Unit) (outcomes : List (Result Unit)) (k : ℕ) (n : DeliverySummary)
    → add_outcomes outcomes k (count_outcome r n) ≡ add_outcomes (r ∷ outcomes) k n
unfolding add_outcomes count_outcome is_ok
add_outcomes-cons (ok _) outcomes k n =
    ap (λ x. record (add_outcomes outcomes k n) { sent = x }) (omega arith)
add_outcomes-cons (err e) outcomes k n =
    ap (λ x. record (add_outcomes outcomes k n) { failed = x }) (omega arith)

module _ {S Email : Type 0} (tools : DigestTools) (repr : String → String)
    (render_email : Digest → Result Email) (send : String → Email → Action S Unit) (now : ℕ) where
  -- The deliveries one after the other, each in the state that the one before leaves.
  unfoldable pub deliveries : List (ActiveUser × List Article) → S → List (Result Unit) × S
  deliveries [] s = ([], s)
  deliveries (b ∷ batches) s =
      let (r, s') = deliver_to tools repr render_email send now b s in
      let (rs, s'') = deliveries batches s' in (r ∷ rs, s'')

  deliver_batches-eq :
      (batches : List (ActiveUser × List Article)) (n : DeliverySummary) (s : S)
      → let done = deliveries (filter has_articles batches) s in
        let skipped = length (filter (λ b. not (has_articles b)) batches) in
        deliver_batches tools repr render_email send now batches (n, s)
        ≡ (add_outcomes done.0 skipped n, done.1)
  unfolding deliver_batches deliveries add_outcomes has_articles
  deliver_batches-eq [] n s = ap (λ m. (m, s)) (add_outcomes-none n)
  deliver_batches-eq ((user, []) ∷ batches) n s =
      let done = deliveries (filter has_articles batches) s in
      deliver_batches-eq batches (record n { skipped_empty = n.skipped_empty + 1 }) s
      ∙ ap (λ m. (m, done.1))
          (add_outcomes-skipped done.0 (length (filter (λ b. not (has_articles b)) batches)) n)
  deliver_batches-eq ((user, a ∷ articles) ∷ batches) n s =
      let one = deliver_to tools repr render_email send now (user, a ∷ articles) s in
      let done = deliveries (filter has_articles batches) one.1 in
      deliver_batches-eq batches (count_outcome one.0 n) one.1
      ∙ ap (λ m. (m, done.1))
          (add_outcomes-cons one.0 done.0 (length (filter (λ b. not (has_articles b)) batches)) n)

  length-deliveries :
      (batches : List (ActiveUser × List Article)) (s : S)
      → length (deliveries batches s).0 ≡ length batches
  unfolding deliveries
  length-deliveries [] s = refl
  length-deliveries (b ∷ batches) s =
      omega (arith, length-deliveries batches (deliver_to tools repr render_email send now b s).1)

  -- A delivery to all users returns, whatever the rendering or the sender raises: it tries each
  -- user with articles once, in order, counts as sent the tries that do not raise and as skipped
  -- the users without articles, and the three counts add up to the number of users.
  pub deliver_all-Isolated :
      (batches : List (ActiveUser × List Article)) (s : S)
      → let (outcomes, s') = deliveries (filter has_articles batches) s in
        let (r, s'') = deliver_all tools repr render_email send now "postgres" batches s in
        (s'' ≡ s')
        × (n : DeliverySummary) × (r ≡ ok n)
        × (n.sent ≡ length (filter is_ok outcomes))
        × (n.skipped_empty ≡ length (filter (λ b. not (has_articles b)) batches))
        × (n.sent + n.skipped_empty + n.failed ≡ length batches)
  unfolding deliver_all add_outcomes
  deliver_all-Isolated batches s =
      let start : DeliverySummary = record { sent = 0; skipped_empty = 0; failed = 0 } in
      let (outcomes, s') = deliveries (filter has_articles batches) s in
      let skipped = length (filter (λ b. not (has_articles b)) batches) in
      let done = deliver_batches-eq batches start s in
      (
        ap (λ x. x.1) done,
        add_outcomes outcomes skipped start,
        ap (λ x. ok x.0) done,
        omega arith,
        omega arith,
        omega (
          arith,
          length-filter-not is_ok outcomes,
          length-deliveries (filter has_articles batches) s,
          length-filter-not has_articles batches,
        ),
      )
