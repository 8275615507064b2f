-- ===== src/Scrapers/Community/Reddit/Server.antt =====
-- A run against a server that pages through its posts.
use scraper_v_hezzian.Scrapers.Community.Reddit.Bounds.{
  scrape_pages-enough, next_reply, scrape_pages-last, scrape_pages-next,
}
use scraper_v_hezzian.Prelude.Slices.{take-append_drop, length-map, take-eq_self}
use mathlib.Core.List.{append-nil, append_assoc, map-append}
use scraper_v_hezzian.Prelude.{
  string_eq, ℕ, zero, suc, ◌+◌, ◌≤◌, min, ltb, String, true, Option, none, some, List, [], ◌∷◌,
  ◌++◌, map, if◌then◌else◌, ◌≡◌, length, take, drop, arith, ap, sym, ◌∙◌, length-append,
  length-take, Bool-cases, ◌-◌, ◌<◌, refl, ◌⊎◌, inl, inr, length-drop, false, List-cases,
}
use scraper_v_hezzian.Exceptions.{Action, ok, Result}
use scraper_v_hezzian.Core.Models.{ScrapeResult}
use scraper_v_hezzian.Scrapers.Community.Reddit.{
  Post, t3, Listing, post_result, listing_url, add_posts, scrape_pages, scrape_subreddit, Child,
}

add_posts-t3 :
    (limit : ℕ) (ps : List Post) (results : List ScrapeResult)
    → length results + length ps ≤ limit
    → add_posts limit results (map t3 ps) ≡ results ++ map post_result ps
unfolding add_posts
add_posts-t3 limit [] results h = sym (append-nil results)
add_posts-t3 limit (p ∷ ps) results h =
    more (ground arith)
    ∙ add_posts-t3 limit ps (results ++ (post_result p ∷ []))
        (omega (arith, length-append results (post_result p ∷ [])))
    ∙ append_assoc results (post_result p ∷ []) (map post_result ps)
  where
    more :
        ltb (length results) limit ≡ true
        → add_posts limit results (map t3 (p ∷ ps))
          ≡ add_posts limit (results ++ (post_result p ∷ [])) (map t3 ps)
    more e = ground arith

module _ (posts : List Post) (cursor : ℕ → String) where
  -- The cursor that stands for the posts from `k` on.
  abbrev pub after_at : ℕ → Option String
  after_at zero = none
  after_at (suc k) = some (cursor (suc k))

  -- The page of `n` posts from `k` on.
  abbrev pub page : ℕ → ℕ → Listing
  page k n = record {
    children = map t3 (take n (drop k posts));
    after = if ltb (k + n) (length posts) then some (cursor (k + n)) else none;
  }

  module _ {W : Type 0} (fetch : String → Action W Listing) (subreddit sort : String) where
    -- Reddit's paging, for the requests of a run: the posts behind the cursor, as many as are asked
    -- for, and a cursor if there are more.
    abbrev pub Serves : ℕ → Type 0
    Serves limit =
        (w : W) (k n : ℕ)
        → k ≤ length posts
        → k < limit
        → n ≡ min 100 (limit - k)
        → (fetch (listing_url subreddit sort n k (after_at k)) w).0 ≡ ok (page k n)

    -- The results of the first posts.
    abbrev pub first_posts : ℕ → List ScrapeResult
    first_posts k = map post_result (take k posts)

    length-first_posts : (k : ℕ) → length (first_posts k) ≡ min k (length posts)
    length-first_posts k = length-map post_result (take k posts) ∙ length-take k posts

    add_posts-page :
        (limit k n : ℕ)
        → k + n ≤ limit
        → add_posts limit (first_posts k) (map t3 (take n (drop k posts))) ≡ first_posts (k + n)
    add_posts-page limit k n h =
        add_posts-t3 limit (take n (drop k posts)) (first_posts k)
          (omega (arith, length-first_posts k, length-take n (drop k posts)))
        ∙ sym (map-append post_result (take k posts) (take n (drop k posts)))
        ∙ ap (map post_result) (take-append_drop k n (k + n) posts refl)

    take-first_posts :
        (limit k : ℕ)
        → k ≤ limit
        → (k ≡ limit) ⊎ (length posts ≤ k)
        → take limit (first_posts k) ≡ first_posts limit
    take-first_posts limit k h (inl e) =
        take-eq_self limit (first_posts k) (omega (arith, length-first_posts k)) ∙ ap first_posts e
    take-first_posts limit k h (inr e) =
        take-eq_self limit (first_posts k) (omega (arith, length-first_posts k))
        ∙ ap (map post_result)
            (take-eq_self k posts e ∙ sym (take-eq_self limit posts (omega arith)))

    -- The run is done, and returned the first posts.
    abbrev pub Finds : ℕ → Option (Result (List ScrapeResult) × W) → Type 0
    Finds limit run = (w : W) × (run ≡ some (ok (first_posts limit), w))

    after_at-suc : (m : ℕ) → 1 ≤ m → after_at m ≡ some (cursor m)
    after_at-suc zero h = absurd (omega arith)
    after_at-suc (suc m) h = refl

    length-page : (k n : ℕ) → length (page k n).children ≡ min n (length posts - k)
    length-page k n =
        length-map t3 (take n (drop k posts))
        ∙ length-take n (drop k posts)
        ∙ ap (min n) (length-drop k posts)

    module _ (limit : ℕ) (serves : Serves limit) where
      -- The state of the loop when it has read the first `k` posts.
      abbrev loop_at : ℕ → ℕ → W → Option (Result (List ScrapeResult) × W)
      loop_at fuel k w =
          scrape_pages fetch subreddit sort limit fuel (first_posts k) (after_at k) k w

      at_end :
          (fuel k n : ℕ) (w w1 : W)
          → k + n ≤ limit
          → ltb (length (first_posts k)) limit ≡ true
          → next_reply fetch subreddit sort limit (first_posts k) (after_at k) k w
            ≡ (ok (page k n), w1)
          → ltb (k + n) (length posts) ≡ false
          → loop_at (suc fuel) k w ≡ some (ok (first_posts limit), w1)
      at_end fuel k n w w1 a e reads b =
          scrape_pages-last fetch subreddit sort limit fuel (first_posts k) (after_at k) k w w1
            (page k n) e reads (ground arith)
          ∙ ap (λ rs. some (ok (take limit rs), w1)) (add_posts-page limit k n a)
          ∙ ap (λ rs. some (ok rs, w1)) (take-first_posts limit (k + n) a (inr (ground arith)))

      at_next :
          (fuel k n : ℕ) (w w1 : W) (c : Child) (cs : List Child)
          → k + n ≤ limit
          → ltb (length (first_posts k)) limit ≡ true
          → next_reply fetch subreddit sort limit (first_posts k) (after_at k) k w
            ≡ (ok (page k n), w1)
          → 1 ≤ n
          → ltb (k + n) (length posts) ≡ true
          → (page k n).children ≡ c ∷ cs
          → loop_at (suc fuel) k w ≡ loop_at fuel (k + n) w1
      at_next fuel k n w w1 c cs a e reads p b ch =
          scrape_pages-next fetch subreddit sort limit fuel (first_posts k) (after_at k) k w w1
            (page k n) c cs (cursor (k + n)) e reads ch (ground arith)
          ∙ ap
              (λ rs.
                scrape_pages fetch subreddit sort limit fuel rs (some (cursor (k + n)))
                  (k + length (c ∷ cs)) w1)
              (ap (add_posts limit (first_posts k)) (sym ch) ∙ add_posts-page limit k n a)
          ∙ ap
              (λ i.
                scrape_pages fetch subreddit sort limit fuel (first_posts (k + n))
                  (some (cursor (k + n))) i w1)
              (counts (ap length ch))
          ∙ ap
              (λ o. scrape_pages fetch subreddit sort limit fuel (first_posts (k + n)) o (k + n) w1)
              (sym (after_at-suc (k + n) (omega arith)))
        where
          counts : length (page k n).children ≡ length (c ∷ cs) → k + length (c ∷ cs) ≡ k + n
          counts l = ground (arith, length-page k n)

      scrape_pages-Finds :
          (fuel k : ℕ) (w : W)
          → k ≤ limit
          → k ≤ length posts
          → limit - k < fuel
          → Finds limit (loop_at fuel k w)
      scrape_pages-Finds zero k w a b f = absurd (omega arith)
      scrape_pages-Finds (suc fuel) k w a b f =
          elim (Bool-cases (ltb (length (first_posts k)) limit)) [
            | inr e ↦ (
              w,
              scrape_pages-enough fetch subreddit sort limit fuel (first_posts k) (after_at k) k w e
                  ∙ ap (λ rs. some (ok rs, w))
                      (take-first_posts limit k a (inl (ground (arith, length-first_posts k)))),
            )
            | inl e ↦
                let n = min 100 (limit - length (first_posts k)) in
                let w1 =
                  (next_reply fetch subreddit sort limit (first_posts k) (after_at k) k w).1 in
                let p : 1 ≤ n = ground (arith, length-first_posts k) in
                let fits : k + n ≤ limit = ground (arith, length-first_posts k) in
                let reads : next_reply fetch subreddit sort limit (first_posts k) (after_at k) k w
                    ≡ (ok (page k n), w1) =
                  ap (λ o. (o, w1))
                    (serves w k n b (omega (arith, length-first_posts k))
                      (omega (arith, length-first_posts k))) in
                elim (Bool-cases (ltb (k + n) (length posts))) [
                  | inr l ↦ (w1, at_end fuel k n w w1 fits e reads l)
                  | inl l ↦ elim (List-cases (page k n).children) [
                    | inl ch ↦ absurd (ground (arith, length-page k n, ap length ch))
                    | inr (c, cs, ch) ↦
                        let (w2, found) =
                          scrape_pages-Finds fuel (k + n) w1 fits (ground arith) (omega arith) in
                        (w2, at_next fuel k n w w1 c cs fits e reads p l ch ∙ found)
                  ]
                ]
          ]

      -- Against a server that gives, for each request of the run, the posts behind the cursor, as
      -- many as are asked for, and a cursor if there are more, a run with more fuel than its limit
      -- returns the results of the first `limit` posts, in order.
      pub scrape_subreddit-Finds :
          (fuel : ℕ) (w : W)
          → limit < fuel
          → Finds limit (scrape_subreddit fetch subreddit sort limit fuel w)
      unfolding scrape_subreddit
      scrape_subreddit-Finds fuel w f =
          scrape_pages-Finds fuel 0 w (omega arith) (omega arith) (omega arith)
