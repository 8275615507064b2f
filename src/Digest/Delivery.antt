-- ===== src/Digest/Delivery.antt =====
-- scrapeforge/digest/user_digest.py, and `deliver_all` of service.py
-- The users with their articles come from the database, and the rendering and the sender are
-- parameters, each of which may raise.
pub mod Outcomes
mod Examples
use scraper_v_hezzian.Digest.Relevance.{ranked_item, top_section}
use Prim.Native.String.{◌++◌ as ◌<>◌}
use scraper_v_hezzian.Prelude.{string_eq, ℕ, ◌+◌, String, List, [], ◌∷◌, map, if◌then◌else◌, ◌==◌}
use scraper_v_hezzian.Exceptions.{Action, Result, ok, err, other_error}
use scraper_v_hezzian.Core.Models.{Article}
use scraper_v_hezzian.Digest.Models.{DigestTools, DigestItem, Digest, daily}

pub record ActiveUser : Type 0 where
  pub user_id : String
  pub email : String
  pub name : String

pub record DeliverySummary : Type 0 where
  pub sent : ℕ
  pub skipped_empty : ℕ
  pub failed : ℕ

-- A relevance of 0 is kept here.
unfoldable pub user_item : DigestTools → Article → DigestItem
unfolding ranked_item
user_item tools a = record (ranked_item tools a) { relevance = a.metadata.relevance }

unfoldable pub build_user_digest : DigestTools → ActiveUser → List Article → ℕ → Digest
unfolding user_item
build_user_digest tools user articles now = record {
  subscriber_id = user.user_id;
  subscriber_name = user.name;
  subscriber_email = user.email;
  cadence = daily;
  period = tools.iso_date now;
  generated_at = now;
  sections = top_section tools (map (user_item tools) articles);
}

unfoldable pub count_outcome : Result Unit → DeliverySummary → DeliverySummary
count_outcome (ok _) n = record n { sent = n.sent + 1 }
count_outcome (err e) n = record n { failed = n.failed + 1 }

module _ {S Email : Type 0} (tools : DigestTools) (repr : String → String)
    (render_email : Digest → Result Email) (send : String → Email → Action S Unit) (now : ℕ) where
  -- The body of the `try` statement for a user with articles.
  unfoldable pub deliver_to : ActiveUser × List Article → Action S Unit
  unfolding build_user_digest
  deliver_to (user, articles) s = elim (render_email (build_user_digest tools user articles now)) [
    | err e ↦ (err e, s)
    | ok email ↦ send user.email email s
  ]

  unfoldable pub deliver_one : ActiveUser × List Article → DeliverySummary × S → DeliverySummary × S
  unfolding deliver_to count_outcome
  deliver_one (user, []) (n, s) = (record n { skipped_empty = n.skipped_empty + 1 }, s)
  deliver_one (user, a ∷ articles) (n, s) =
      let (r, s') = deliver_to (user, a ∷ articles) s in (count_outcome r n, s')

  unfoldable pub deliver_batches :
      List (ActiveUser × List Article) → DeliverySummary × S → DeliverySummary × S
  unfolding deliver_one
  deliver_batches [] w = w
  deliver_batches (b ∷ batches) w = deliver_batches batches (deliver_one b w)

  unfoldable pub deliver_all : String → List (ActiveUser × List Article) → Action S DeliverySummary
  unfolding deliver_batches
  deliver_all source batches s =
      if source == "postgres"
      then (let (n, s') =
            deliver_batches batches (record { sent = 0; skipped_empty = 0; failed = 0 }, s) in
          (ok n, s'))
      else (
        err (other_error ("deliver_all only supports source='postgres', got " <> repr source)),
        s,
      )
