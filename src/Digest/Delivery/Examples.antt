-- ===== src/Digest/Delivery/Examples.antt =====
-- Three users, one without articles and one whose e-mail is refused.
use scraper_v_hezzian.Digest.Delivery.Outcomes.{
  has_articles, deliver_all-Isolated, is_ok, deliveries,
}
use scraper_v_hezzian.Digest.Delivery.{deliver_all, ActiveUser, DeliverySummary}
use scraper_v_hezzian.Digest.Models.{Digest}
use scraper_v_hezzian.Core.Models.{Article}
use scraper_v_hezzian.Prelude.{
  string_eq, String, List, [], ◌∷◌, ◌≡◌, refl, if◌then◌else◌, ◌==◌, length, filter, ◌+◌, not,
}
use scraper_v_hezzian.Exceptions.{Action, Result, ok, err, other_error}
use scraper_v_hezzian.Digest.Samples.{tools, articles}

abbrev user : String → ActiveUser
user id = record { user_id = id; email = id; name = id }

abbrev batches : List (ActiveUser × List Article)
batches = (user "a", articles) ∷ (user "b", []) ∷ (user "c", articles) ∷ []

-- The sender keeps the addresses, and refuses one.
abbrev send : String → String → Action (List String) Unit
send to mail box = if to == "a" then (err (other_error "refused"), box) else (ok tt, to ∷ box)

abbrev render : Digest → Result String
render digest = ok digest.subscriber_id

others_served :
    deliver_all tools (λ s. s) render send 0 "postgres" batches []
    ≡ (ok (record { sent = 1; skipped_empty = 1; failed = 1 }), "c" ∷ [])
unfolding deliver_all
others_served = refl

deliver_all-Isolated_example :
    let (outcomes, s') = deliveries tools (λ s. s) render send 0 (filter has_articles batches) [] in
    let (r, s'') = deliver_all tools (λ s. s) render send 0 "postgres" batches [] in
    (s'' ≡ s')
    × (n : DeliverySummary) × (r ≡ ok n)
    × (n.sent ≡ length (filter is_ok outcomes))
    × (n.skipped_empty ≡ length (filter (λ b. not (has_articles b)) batches))
    × (n.sent + n.skipped_empty + n.failed ≡ length batches)
deliver_all-Isolated_example = deliver_all-Isolated tools (λ s. s) render send 0 batches []
