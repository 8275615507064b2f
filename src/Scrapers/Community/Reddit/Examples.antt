-- ===== src/Scrapers/Community/Reddit/Examples.antt =====
-- A subreddit of three posts, of which two are asked for.
use scraper_v_hezzian.Prelude.{
  string_eq, String, ℕ, zero, suc, ◌≡◌, none, some, true, false, List, [], ◌∷◌, refl, if◌then◌else◌,
  ◌==◌, ◌+◌, arith,
}
use scraper_v_hezzian.Exceptions.{Action, ok, err, other_error}
use scraper_v_hezzian.Scrapers.Community.Reddit.{
  Post, Listing, listing_url, scrape_subreddit, parse_post, json_url,
}
use scraper_v_hezzian.Scrapers.Community.Reddit.Server.{page, Serves, Finds, scrape_subreddit-Finds}

abbrev post : String → Post
post id = record {
  is_self = true;
  selftext = some "text";
  title = some id;
  author = some "u";
  permalink = some "/r/a/1/";
  url = none;
  created_utc = some 5;
  subreddit = some "a";
  score = some 30;
  num_comments = some 1;
  id = some id;
}

abbrev link_post : Post
link_post = record (post "l") {
  is_self = false;
  selftext = some "[removed]";
  url = some "https://a.com/";
}

abbrev posts : List Post
posts = post "x" ∷ link_post ∷ post "z" ∷ []

abbrev cursor : ℕ → String
cursor k = "t3_x"

first_url : listing_url "a" "new" 2 0 none ≡ "https://www.reddit.com/r/a/new.json?limit=2&count=0"
unfolding listing_url scraper_v_hezzian.Prelude.Decimal.decimal
first_url = refl

link_is_kept : (parse_post link_post).metadata.link_url ≡ some "https://a.com/"
unfolding parse_post
link_is_kept = refl

-- The clock of requests is the state.
abbrev fetch : String → Action ℕ Listing
fetch url w =
    if url == "https://www.reddit.com/r/a/new.json?limit=2&count=0"
    then (ok (page posts cursor 0 2), w + 1)
    else (if url == "https://www.reddit.com/r/a/new.json?limit=1&count=1&after=t3_x"
        then (ok (page posts cursor 1 1), w + 1)
        else (err (other_error "404"), w + 1))

first_served : (w : ℕ) → (fetch (listing_url "a" "new" 2 0 none) w).0 ≡ ok (page posts cursor 0 2)
unfolding listing_url scraper_v_hezzian.Prelude.Decimal.decimal
first_served w = refl

second_served :
    (w : ℕ) → (fetch (listing_url "a" "new" 1 1 (some "t3_x")) w).0 ≡ ok (page posts cursor 1 1)
unfolding listing_url scraper_v_hezzian.Prelude.Decimal.decimal
second_served w = refl

serves : Serves posts cursor fetch "a" "new" 2
serves w zero n a b e = let e' : n ≡ 2 = omega arith in rw e' (first_served w)
serves w (suc zero) n a b e = let e' : n ≡ 1 = omega arith in rw e' (second_served w)
serves w (suc (suc k)) n a b e = absurd (omega arith)

scrape_subreddit-Finds_example :
    Finds posts cursor fetch "a" "new" 2 (scrape_subreddit fetch "a" "new" 2 3 0)
scrape_subreddit-Finds_example =
    scrape_subreddit-Finds posts cursor fetch "a" "new" 2 serves 3 0 (omega arith)

json_urls :
    (json_url "https://a/b/" ≡ "https://a/b.json")
    × (json_url "https://a/b.json" ≡ "https://a/b.json")
unfolding json_url scraper_v_hezzian.Prelude.Text.ends_with
    scraper_v_hezzian.Prelude.Text.rstrip_slash
json_urls = (refl, refl)
