-- ===== src/Scrapers/Community/Reddit/Bounds.antt =====
-- The rounds of the loop over the pages, and what every run of it gives.
use scraper_v_hezzian.Prelude.{
  string_eq, ℕ, suc, ◌+◌, ◌-◌, min, ltb, String, true, false, Option, none, some, List, [], ◌∷◌,
  ◌≡◌, length, take, arith,
}
use scraper_v_hezzian.Exceptions.{Action, Result, ok, err, Exception}
use scraper_v_hezzian.Scrapers.Community.Runs.{AreLimited}
use scraper_v_hezzian.Core.Models.{ScrapeResult}
use scraper_v_hezzian.Scrapers.Community.Reddit.{
  Child, Listing, listing_url, add_posts, scrape_pages, post_result, Post,
}

module _ {W : Type 0} (fetch : String → Action W Listing) (subreddit sort : String)
    (limit : ℕ) where
  -- The reply to the next request.
  abbrev pub next_reply : List ScrapeResult → Option String → ℕ → W → Result Listing × W
  next_reply results after count w =
      fetch (listing_url subreddit sort (min 100 (limit - length results)) count after) w

  pub scrape_pages-enough :
      (fuel : ℕ) (results : List ScrapeResult) (after : Option String) (count : ℕ) (w : W)
      → ltb (length results) limit ≡ false
      → scrape_pages fetch subreddit sort limit (suc fuel) results after count w
        ≡ some (ok (take limit results), w)
  unfolding scrape_pages
  scrape_pages-enough fuel results after count w h = ground arith

  pub scrape_pages-err :
      (fuel : ℕ) (results : List ScrapeResult) (after : Option String) (count : ℕ) (w w' : W)
      (e : Exception)
      → ltb (length results) limit ≡ true
      → next_reply results after count w ≡ (err e, w')
      → scrape_pages fetch subreddit sort limit (suc fuel) results after count w ≡ some (err e, w')
  unfolding scrape_pages
  scrape_pages-err fuel results after count w w' e h r = ground (arith, r)

  pub scrape_pages-empty :
      (fuel : ℕ) (results : List ScrapeResult) (after : Option String) (count : ℕ) (w w' : W)
      (l : Listing)
      → ltb (length results) limit ≡ true
      → next_reply results after count w ≡ (ok l, w')
      → l.children ≡ []
      → scrape_pages fetch subreddit sort limit (suc fuel) results after count w
        ≡ some (ok (take limit results), w')
  unfolding scrape_pages
  scrape_pages-empty fuel results after count w w' l h r c = ground (arith, r)

  pub scrape_pages-last :
      (fuel : ℕ) (results : List ScrapeResult) (after : Option String) (count : ℕ) (w w' : W)
      (l : Listing)
      → ltb (length results) limit ≡ true
      → next_reply results after count w ≡ (ok l, w')
      → l.after ≡ none
      → scrape_pages fetch subreddit sort limit (suc fuel) results after count w
        ≡ some (ok (take limit (add_posts limit results l.children)), w')
  unfolding scrape_pages
  scrape_pages-last fuel results after count w w' l h r a = ground (arith, r)

  pub scrape_pages-next :
      (fuel : ℕ) (results : List ScrapeResult) (after : Option String) (count : ℕ) (w w' : W)
      (l : Listing) (c : Child) (cs : List Child) (cursor : String)
      → ltb (length results) limit ≡ true
      → next_reply results after count w ≡ (ok l, w')
      → l.children ≡ c ∷ cs
      → l.after ≡ some cursor
      → scrape_pages fetch subreddit sort limit (suc fuel) results after count w
        ≡ scrape_pages fetch subreddit sort limit fuel
            (add_posts limit results (c ∷ cs))
            (some cursor)
            (count + length (c ∷ cs))
            w'
  unfolding scrape_pages
  scrape_pages-next fuel results after count w w' l c cs cursor h r ch a = ground (arith, r)

-- The result of a post.
abbrev pub IsPost : ScrapeResult → Type 0
IsPost r = (p : Post) × (r ≡ post_result p)

abbrev pub ArePosts : ℕ → List ScrapeResult → Type 0
ArePosts limit rs = AreLimited IsPost limit rs
